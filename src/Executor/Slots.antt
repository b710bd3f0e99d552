-- ===== src/Executor/Slots.antt =====
-- The slots of the pool: no more processes run than it has, and none is free while a task waits.
use smallpond.Executor.Pool.{Pool}
