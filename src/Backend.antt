-- ===== src/Backend.antt =====
-- backend/src: the server's table of jobs, and how it hands jobs to the connected runners.
pub mod Jobs
pub mod Dispatch
pub mod CloudConfig
pub mod Accounts
pub mod GitHub
