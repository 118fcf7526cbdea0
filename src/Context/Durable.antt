-- ===== src/Context/Durable.antt =====
-- What a resumed attempt finds of the steps that earlier attempts finished.
pub mod Log
pub mod Attempt
pub mod Trajectory
pub mod Holding
pub mod Remains
pub mod Resumed
pub mod Result
pub mod Finished
