-- ===== src/DataSets.antt =====
-- smallpond/logical/dataset.py: `DataSet` and `ParquetDataSet`, and what the others share with them.
-- A property that keeps its value in `self` returns the data set after it beside the value.
pub mod Paths
pub mod Sets
pub mod Parquet
pub mod Load
pub mod Query
pub mod Perms
pub mod Reads
pub mod Cuts
pub mod Empties
pub mod Placed
mod Tests
