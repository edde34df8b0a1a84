-- ===== src/Runner.antt =====
-- The runner: runner/src, the process that claims jobs and runs them in virtual machines.
pub mod Resources
pub mod Jobs
pub mod Vms
pub mod MainLoop
pub mod Vsock
pub mod Linux
pub mod Network
pub mod Driver
pub mod Macos
pub mod Client
pub mod Logs
