-- ===== src/Executors.antt =====
-- MiniDB/src/executor: operators that give records one by one. The interface is that of executor.h;
-- a class is an implementation of it, its children are section parameters.
pub mod Rows
pub mod Merge
pub mod Join
pub mod Pairs
pub mod Sort
pub mod Sorted
pub mod Aggregation
pub mod Bounds
pub mod Scan
pub mod Insert
pub mod Tests
use altas_dbpro.Prelude.{Option}
use altas_dbpro.Prelude.Run.{Run}
use altas_dbpro.Rid.{Rid}
use altas_dbpro.Tuple.{Tuple}

-- `Next` takes the record that its argument points to, and where it answers true gives what is then
-- there, and the identifier.
pub record Executor {ℓ} : Type (ℓ + 1) where
  pub State : Type ℓ
  pub init : State → Run State
  pub next : Tuple → State → Run (State × Option (Tuple × Rid))
