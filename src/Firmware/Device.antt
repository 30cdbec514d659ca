-- ===== src/Firmware/Device.antt =====
-- _RPCLike of firmware/installer.py: what the installer asks of the device, over any state `D` of it.
use flipperzero_mcp.Action.{F}
use flipperzero_mcp.Rpc.Storage.{Entry}
use flipperzero_mcp.Rpc.System.{Info}
use flipperzero_mcp.Base.{Option, Bool, ℕ, Text, Bytes}

-- The methods, `asyncio.sleep`, and the callback that reconnects (it may replace the RPC client, which
-- is part of the state); hashlib's digest.
pub record Device (D : Type 0) : Type 0 where
  pub get_device_info : F D Info
  pub storage_mkdir : Text → F D Bool
  pub storage_write : Text → Bytes → F D Bool
  pub storage_md5sum : Text → F D (Option Text)
  pub storage_stat : Text → F D (Option Entry)
  pub system_update : Text → F D ℕ
  pub system_reboot_update : F D (Unit {0})
  pub sleep : ℕ → F D (Unit {0})
  pub resync : Option (F D (Unit {0}))
  pub md5 : Bytes → Text
