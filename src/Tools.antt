-- ===== src/Tools.antt =====
-- tools/: the operations that an agent calls, over the client that the server owns.
pub mod Common
pub mod Read
pub mod Change
pub mod Transfer
pub mod Cli
pub mod Connection
pub mod Typed
pub mod Flash
pub mod SystemInfo
pub mod Permitted
pub mod Call
