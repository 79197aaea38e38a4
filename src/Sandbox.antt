-- ===== src/Sandbox.antt =====
-- evaluation-service/src/sandbox: judging a submission against its test cases.
-- Docker and the file system are arguments: what the compiler and the runner left behind.
pub mod Compare
pub mod Judge
pub mod Verdicts
mod Examples
