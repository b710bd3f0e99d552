-- ===== src/Work/Samples.antt =====
-- Work items that the tests of several modules share.
use smallpond.Prelude.{ℕ, none, some}
use smallpond.Work.{WorkItem, plain, incomplete}

abbrev pub item : ℕ → WorkItem
item key = record {
  key = key;
  kind = plain;
  base_cpu_limit = 1;
  base_gpu_limit = 0;
  base_memory_limit = some 100;
  cpu_boost = none;
  memory_boost = none;
  status = incomplete;
  retry_count = 0;
  fail_count = 0;
  exception = none;
  exec_id = none;
}
