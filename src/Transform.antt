-- ===== src/Transform.antt =====
-- Transformations of the records of a job: reflowfy/transformations/base.py and
-- reflowfy/execution/transformation_runner.py.
mod Examples
pub mod Skips
pub mod Pool
pub mod Chain
