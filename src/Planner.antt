-- ===== src/Planner.antt =====
-- smallpond/logical/planner.py, `Planner`: from nodes to tasks. A partition dimension is a number,
-- in the order of the names. A logical plan is a tree, in which a node that two nodes share occurs
-- twice with the same id; the memo of `visit` is looked up by that id.
pub mod Infos
pub mod Tasks
pub mod Build
pub mod Visit
pub mod Wiring
pub mod Members
pub mod Builders
pub mod Partitions
pub mod Made
pub mod Acyclic
pub mod Counts
pub mod Memo
mod Tests
