-- ===== src/Slurmrestd.antt =====
-- slurmweb/slurmrestd: the client of Slurm's REST API, one module to a class or a file.
pub mod Auth
pub mod Adapters
pub mod Response
pub mod Client
pub mod Jobs
pub mod Resources
pub mod Filtered
pub mod Cached
pub mod Sample
