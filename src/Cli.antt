-- ===== src/Cli.antt =====
-- The text CLI: rpc/cli_risk.py, and what rpc/client.py does with a command line.
pub mod Words
pub mod Lines
pub mod Risk
pub mod Exec
