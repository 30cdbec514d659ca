-- ===== src/Tools/Flash.antt =====
-- tools/firmware.py: the install behind its gates, the reconnect after the reboot, and what is
-- reported of the new firmware.
pub mod Confirmed
pub mod Gated
use flipperzero_mcp.Rpc.Write.{storage_write}
use flipperzero_mcp.Rpc.Storage.{storage_stat, storage_md5sum, storage_mkdir}
use flipperzero_mcp.Base.{
  ◌∷◌, [], List, some, none, Option, ◌&&◌, not, false, true, Bool, suc, zero, ℕ, text_eq, codes,
  Text, if◌then◌else◌,
}
use flipperzero_mcp.Base.Dict.{lookup}
use flipperzero_mcp.Action.{F, pure, raise, ◌>>=◌, ◌>>◌, handle}
use flipperzero_mcp.Proto.{Codec}
use flipperzero_mcp.Client.{is_os_or_runtime, Client, connect, disconnect}
use flipperzero_mcp.Client.Info
use flipperzero_mcp.Config.{FlipperConfig}
use flipperzero_mcp.Cli.Risk.{Case}
use flipperzero_mcp.Link.{
  no_target, wrong_confirm, install_failed, no_reconnect, raised, no_identity, tool_error, ok,
  Reason, Result, Exn,
}
use flipperzero_mcp.Link
use flipperzero_mcp.Rpc.System
use flipperzero_mcp.Rpc.System.{Info}
use flipperzero_mcp.Firmware.Device.{Device}
use flipperzero_mcp.Firmware.Installer.{Bundle, install_bundle}
use flipperzero_mcp.Firmware.Flavor.{
  FirmwareFlavor, FirmwareInfo, classify, official, momentum, unleashed, roguemaster,
  unknown_flavor,
}
use flipperzero_mcp.Firmware.Archive.{Upstream}
use flipperzero_mcp.Firmware.Bundles.{load_local_bundle, download_bundle}
use flipperzero_mcp.Tools.Common.{
  Attempt, classified, require, require_firmware_flash, ensure_connected, get_rpc, on_link,
}
use flipperzero_mcp.Tools.Transfer.{Hash}

-- What the transport does in one `disconnect` and the `connect` after it.
pub record Turn : Type 0 where
  pub disconnects : Result (Unit {0})
  pub connects : Result Bool

-- The client, the network, and the turns of the transport to come; past their end it stays down.
pub record Bench (N : Type 0) : Type 0 where
  pub client : Client
  pub network : N
  pub turns : List Turn

-- `source`: the keys that the tool looks at.
pub record Source : Type 0 where
  pub path : Option Text
  pub flavor : Option Text
  pub channel : Option Text
  pub version : Option Text

-- `FirmwareFlavor(value)`
abbrev pub flavor_named : List (Text × FirmwareFlavor) → Text → Option FirmwareFlavor
flavor_named = λ flavors name. lookup name flavors

abbrev pub flavors : List (Text × FirmwareFlavor)
flavors =
    (codes "official", official)
    ∷ (codes "momentum", momentum)
    ∷ (codes "unleashed", unleashed)
    ∷ (codes "roguemaster", roguemaster)
    ∷ (codes "unknown", unknown_flavor)
    ∷ []

-- `source.get(key, default)`
abbrev pub get_or_default : Text → Option Text → Text
get_or_default default none = default
get_or_default default (some t) = t

abbrev pub same_flavor : FirmwareFlavor → FirmwareFlavor → Bool
same_flavor official official = true
same_flavor momentum momentum = true
same_flavor unleashed unleashed = true
same_flavor roguemaster roguemaster = true
same_flavor unknown_flavor unknown_flavor = true
same_flavor _ _ = false

abbrev pub same_version : Option Text → Option Text → Bool
same_version none none = true
same_version (some a) (some b) = text_eq a b
same_version _ _ = false

abbrev pub is_some : Option Text → Bool
is_some none = false
is_some (some t) = true

-- `before.version is not None and (last.version, last.flavor) != before_identity`
abbrev pub is_changed : FirmwareInfo → FirmwareInfo → Bool
is_changed before last =
    is_some before.version
    && not (same_version last.version before.version && same_flavor last.flavor before.flavor)

-- `except (OSError, RuntimeError, ValueError)`
abbrev pub is_settling : Exn → Bool
is_settling Exn.value_error = true
is_settling e = is_os_or_runtime e

-- `if not x`
abbrev pub filled : {S : Type 0} → Reason → Option Text → F S Text
filled reason none = raise (tool_error reason)
filled reason (some []) = raise (tool_error reason)
filled reason (some (c ∷ t)) = pure (c ∷ t)

-- `except (BundleError, FlashError) as e: raise ToolError(str(e))`
abbrev pub is_install_error : Exn → Bool
is_install_error Exn.bundle_error = true
is_install_error Exn.flash_error = true
is_install_error _ = false

-- _RECONNECT_BUDGET_S in rounds of 5 s
abbrev pub rounds : ℕ
rounds = 120

-- The dict of the answer.
pub record Installed : Type 0 where
  pub before : FirmwareInfo
  pub after : FirmwareInfo
  pub after_confirmed : Bool
  pub target : Text

module _ ⦃c : Codec⦄ where
  -- The first `try` of the tool.
  unfoldable pub identify : Attempt → Attempt → F Client Info
  identify attempt again = classified (
      ensure_connected attempt
      >> get_rpc again
      >> on_link flipperzero_mcp.Rpc.System.get_device_info)

module _ {N : Type 0} where
  unfoldable pub at_client : {A : Type 0} → Bench N → Result A × Client → Result A × Bench N
  at_client s (r, cl) = (r, record s { client = cl })

  -- An action of the client.
  unfoldable pub by_client : {A : Type 0} → F Client A → F (Bench N) A
  unfolding at_client
  by_client m s = at_client s (m s.client)

  at_network : {A : Type 0} → Bench N → Result A × N → Result A × Bench N
  at_network s (r, n) = (r, record s { network = n })

  unfoldable pub by_network : {A : Type 0} → F N A → F (Bench N) A
  unfolding at_network
  by_network m s = at_network s (m s.network)

  turned : List Turn → F (Bench N) Turn
  turned [] s = (ok (record { disconnects = ok tt; connects = ok false }), s)
  turned (t ∷ turns) s = (ok t, record s { turns = turns })

  -- `await client.disconnect()` and `await client.connect()`
  unfoldable pub reopen : F (Bench N) Bool
  unfolding turned
  reopen = do
    turn ← (λ s. turned s.turns s)
    by_client (disconnect turn.disconnects)
    by_client (connect turn.connects)

  unfoldable pub has_session : F (Bench N) (Unit {0})
  has_session s = if s.client.has_rpc then (ok tt, s) else (raised Exn.flash_error, s)

  -- `_resync_session`; the RPC client it returns is the client's.
  unfoldable pub resync_session : F (Bench N) (Unit {0})
  resync_session = do up ← reopen; if up then has_session else raise Exn.flash_error

  module _ ⦃c : Codec⦄ ⦃k : Case⦄ ⦃h : Hash⦄ where
    -- The RPC client that the installer is given.
    abbrev pub device : Device (Bench N)
    device = record {
      get_device_info = by_client (on_link flipperzero_mcp.Rpc.System.get_device_info);
      storage_mkdir = λ path. by_client (on_link (storage_mkdir path));
      storage_write = λ path content. by_client (on_link (storage_write path content));
      storage_md5sum = λ path. by_client (on_link (storage_md5sum path));
      storage_stat = λ path. by_client (on_link (storage_stat path));
      system_update = λ path. by_client (on_link (flipperzero_mcp.Rpc.System.system_update path));
      system_reboot_update = by_client (on_link flipperzero_mcp.Rpc.System.system_reboot_update);
      sleep = λ t. by_client (on_link (flipperzero_mcp.Link.sleep t));
      resync = some resync_session;
      md5 = h.md5_hex;
    }

    -- Past a reading, or past one that failed.
    unfoldable pub after_info :
        FirmwareInfo
        → (Option FirmwareInfo → F (Bench N) (FirmwareInfo × Bool))
        → FirmwareInfo
        → F (Bench N) (FirmwareInfo × Bool)
    after_info before more last =
        if is_changed before last then pure (last, true) else more (some last)

    unfoldable pub read_firmware : F (Bench N) (Option FirmwareInfo)
    read_firmware s =
        handle is_settling
          ((by_client flipperzero_mcp.Client.Info.get_device_info >>= λ info.
              pure (some (classify info)))
            s)
          (pure none)

    unfoldable pub after_round :
        FirmwareInfo
        → (Option FirmwareInfo → F (Bench N) (FirmwareInfo × Bool))
        → Option FirmwareInfo
        → Option FirmwareInfo
        → F (Bench N) (FirmwareInfo × Bool)
    after_round before more last none = more last
    after_round before more last (some read) = after_info before more read

    -- The `while` of `_reconnect_and_classify`, by the rounds left of the budget.
    unfoldable pub poll : FirmwareInfo → ℕ → Option FirmwareInfo → F (Bench N) (FirmwareInfo × Bool)
    unfolding read_firmware
    poll before zero none = raise (tool_error no_reconnect)
    poll before zero (some last) = pure (last, false)
    poll before (suc n) last = do
      by_client (on_link (flipperzero_mcp.Link.sleep 5000))
      up ← reopen
      found ← (if up then read_firmware else pure none)
      after_round before (poll before n) last found

    -- `_reconnect_and_classify`
    unfoldable pub reconnect_and_classify : FirmwareInfo → F (Bench N) (FirmwareInfo × Bool)
    reconnect_and_classify before = poll before rounds none

    module _ (u : Upstream N) where
      download_from : Source → Text → Option FirmwareFlavor → F N Bundle
      download_from source target none = raise Exn.bundle_error
      download_from source target (some flavor) =
          download_bundle u flavor (get_or_default (codes "release") source.channel)
            (get_or_default (codes "latest") source.version) target

      named : Source → Text → Option Text → F N Bundle
      named source target none = raise Exn.bundle_error
      named source target (some name) = download_from source target (flavor_named flavors name)

      from_path : Source → Text → Option Text → F N Bundle
      from_path source target none = named source target source.flavor
      from_path source target (some path) = load_local_bundle u path

      -- `_resolve`
      unfoldable pub resolve : Source → Text → F N Bundle
      unfolding from_path named download_from
      resolve source target = from_path source target source.path

      -- The second `try` of the tool.
      unfoldable pub install : Source → Text → F (Bench N) Bundle
      install source target s =
          handle is_install_error
            ((by_network (resolve source target) >>= λ bundle.
                install_bundle device bundle (codes "mcp-update") >> pure bundle)
              s)
            (raise (tool_error install_failed))

      unfoldable pub flipperzero_firmware_install :
          FlipperConfig → Attempt → Attempt → Source → Text → F (Bench N) Installed
      flipperzero_firmware_install config attempt again source confirm = do
        require_firmware_flash config
        info ← by_client (identify attempt again)
        device_name ← filled no_identity (lookup (codes "hardware_name") info)
        require (text_eq confirm device_name) wrong_confirm
        target ← filled no_target (classify info).target
        bundle ← install source target
        (after, after_confirmed) ← reconnect_and_classify (classify info)
        pure (record {
          before = classify info;
          after = after;
          after_confirmed = after_confirmed;
          target = bundle.target;
        })
