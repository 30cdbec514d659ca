-- ===== src/Examples/Flash.antt =====
-- The theorems on the firmware tool, its bundles and flavors, on a toy device and upstream.
use flipperzero_mcp.Examples.Upstream.{upstream}
use flipperzero_mcp.Tools.Flash.Gated.{IsFlashed, IsIdentified, firmware_install-IsFlashed}
use flipperzero_mcp.Rpc.Write.{pace, chunk, write_chunks, storage_write_internal, storage_write}
use flipperzero_mcp.Rpc.Storage.{storage_md5sum, storage_mkdir}
use flipperzero_mcp.Config.{auto_transport, FlipperConfig}
use native.Mathlib.Decide.{dec_lt}
use flipperzero_mcp.Rpc.Varint.{read_varint, encode_varint}
use flipperzero_mcp.Rpc.Frame.{receive_main_message, frame}
use flipperzero_mcp.Rpc.Session.{
  set_started, negotiate, ensure_rpc_session_started, get_next_command_id,
}
use flipperzero_mcp.Rpc.Call.{query, command, send_rpc_message, call}
use flipperzero_mcp.Client.Info.{normalize}
use flipperzero_mcp.Tools.Common.{
  get_rpc, after_check, ensure_connected, classified_end, require_write_tools,
  require_firmware_flash, Attempt, on_link,
}
use flipperzero_mcp.Tools.Flash.Confirmed.{reconnect_and_classify-confirmed}
use flipperzero_mcp.Tools.Flash.{
  by_network, resolve, install, identify, flipperzero_firmware_install, Installed, Source,
  after_info, after_round, by_client, reopen, poll, reconnect_and_classify, Bench,
}
use flipperzero_mcp.Tools.Transfer.{Hash}
use flipperzero_mcp.Client.{LinkMode, connect, disconnect, close_after}
use flipperzero_mcp.Client.Info
use flipperzero_mcp.Rpc.System
use flipperzero_mcp.Firmware.Select.{
  find, entry_for, pick, channel_of, malformed_in, select_official_file,
}
use flipperzero_mcp.Link.{
  pass_time, receive_exact, send, clear_receive_buffer, arrive, cancelled, Result, ok, raised,
}
use flipperzero_mcp.Base.{
  is_empty, ◌+◌, Text, Bytes, length, ◌++◌, none, false, ap, lt_wf, ◌∷◌, [], some, true, ◌⊎◌, refl,
  ◌≡◌, ℕ, codes,
}
use flipperzero_mcp.Base.Dict.{lookup}
use flipperzero_mcp.Examples.Toy.{open_link, toy, ascii}
use flipperzero_mcp.Firmware.Flavor.{
  flavor_from, FirmwareInfo, classify-flavor, classify, Marks, MarksNone, git_markers, fork_markers,
  or_unknown, official,
}
use flipperzero_mcp.Firmware.Archive.{build_bundle, read_members, members_from_tar}
use flipperzero_mcp.Firmware.Bundles.{
  bundle_from_tgz_bytes, verify_sha256, verified_bundle, load_json, fetch, download_official,
  download_bundle,
}
use flipperzero_mcp.Firmware.Installer.{
  trigger_update, check_md5, verify_written, push_file, push_files, install_files, install_bundle,
  Bundle,
}
use flipperzero_mcp.Rpc.System.{Info}

abbrev momentum_info : Info
momentum_info =
    (codes "firmware_version", codes "mntm-1")
    ∷ (codes "firmware_origin_git", codes "https://github.com/Next-Flip/Momentum-Firmware")
    ∷ []

classify-flavor_example :
    Marks git_markers
      (ascii.lower (codes "https://github.com/Next-Flip/Momentum-Firmware"))
      (classify momentum_info).flavor
    ⊎ (MarksNone git_markers (ascii.lower (codes "https://github.com/Next-Flip/Momentum-Firmware"))
        × ((classify momentum_info).flavor ≡ or_unknown (lookup (ascii.lower []) fork_markers)))
classify-flavor_example = classify-flavor momentum_info

-- An instance for the digests, which are not asked for here.
instance abbrev no_digest_hash : Hash
no_digest_hash = record { md5_hex = λ content. content }

abbrev before_update : FirmwareInfo
before_update = record {
  flavor = official;
  version = some (codes "1.0");
  origin_fork = none;
  origin_git = none;
  target = some (codes "f7");
}

-- The device is back at the first turn, over WiFi, and tells one pair: the old version.
abbrev rebooted : Bench (Unit {0})
rebooted = record {
  client = record {
    link =
        record (open_link
          (arrive 9 (25 ∷ 1 ∷ 0 ∷ 0 ∷ 10 ∷ 16 ∷ (codes "firmware_version" ++ codes "1.00")) ∷ [])) {
            is_wifi = true;
          };
    supports_cli_text_mode = false;
    connected = true;
    has_rpc = true;
    last_connection_error = none;
    sd_card_available = none;
    mode = LinkMode.rpc;
  };
  network = tt;
  turns = record { disconnects = ok tt; connects = ok true } ∷ [];
}

answered : {A S : Type 0} (r : Result A × S) {a : A} → r.0 ≡ ok a → r ≡ (ok a, r.1)
answered (ok b, s) e = ap (λ x. (x, s)) e
answered (raised x, s) e = cc e
answered (cancelled, s) e = cc e

abbrev after_update : FirmwareInfo
after_update = classify (
    (codes "name", codes "Flipper Zero")
    ∷ (codes "hardware", codes "Unknown")
    ∷ (codes "firmware", codes "1.00")
    ∷ [])

confirms : (reconnect_and_classify before_update rebooted).0 ≡ ok (after_update, true)
unfolding reconnect_and_classify poll reopen by_client on_link disconnect close_after connect
    after_round flipperzero_mcp.Client.Info.get_device_info normalize
    flipperzero_mcp.Rpc.System.get_device_info call send_rpc_message get_next_command_id
    ensure_rpc_session_started negotiate clear_receive_buffer set_started frame encode_varint lt_wf
    dec_lt send receive_main_message read_varint receive_exact pass_time classify flavor_from
    after_info
confirms = refl

reconnect_and_classify-confirmed_example : (true ≡ true) × (after_update.version ≡ none)
reconnect_and_classify-confirmed_example =
    reconnect_and_classify-confirmed before_update rebooted refl
      (answered (reconnect_and_classify before_update rebooted) confirms)

-- A frame of the device info with one pair, and whether another follows.
abbrev pair_frame : ℕ → Text → Text → Bytes
pair_frame has_next key value =
    let content = length key ∷ key ++ value in
    (4 + length content) ∷ 1 ∷ 0 ∷ has_next ∷ 10 ∷ content

abbrev accepted_frame : Bytes
accepted_frame = 4 ∷ 1 ∷ 0 ∷ 0 ∷ 0 ∷ []

abbrev device_frames : Bytes
device_frames =
    pair_frame 1 (codes "hardware_name") (codes "Pip")
    ++ pair_frame 1 (codes "hardware_target") (codes "7")
    ++ pair_frame 0 (codes "firmware_version") (codes "1.0")

-- The device tells its pairs twice, makes two folders, takes the file and gives its digest, accepts
-- the update, and comes back with the next version.
abbrev ready : Bench (Unit {0})
ready = record rebooted {
  client = record rebooted.client {
    link = record rebooted.client.link {
      incoming =
          arrive 5 device_frames
          ∷ arrive 5 device_frames
          ∷ arrive 5 accepted_frame
          ∷ arrive 5 accepted_frame
          ∷ arrive 5 accepted_frame
          ∷ arrive 5 (5 ∷ 1 ∷ 0 ∷ 0 ∷ 7 ∷ 7 ∷ [])
          ∷ arrive 5 (5 ∷ 1 ∷ 0 ∷ 0 ∷ 9 ∷ 0 ∷ [])
          ∷ arrive 5 (pair_frame 0 (codes "firmware_version") (codes "2.0"))
          ∷ [];
    };
  };
}

abbrev flash_config : FlipperConfig
flash_config = record {
  transport = auto_transport;
  usb_port = none;
  usb_baudrate = 115200;
  wifi_host = none;
  wifi_port = 8080;
  enable_tx_tools = false;
  enable_write_tools = true;
  enable_firmware_flash = true;
  debug = false;
}

abbrev up : Attempt
up = record { is_connected = ok true; disconnects = ok tt; connects = ok true }

abbrev from_official : Source
from_official = record {
  path = none;
  flavor = some (codes "official");
  channel = none;
  version = none;
}

abbrev installed : Result Installed × Bench (Unit {0})
installed =
    flipperzero_firmware_install upstream flash_config up up from_official (codes "Pip") ready

abbrev told : Info
told =
    (codes "hardware_name", codes "Pip")
    ∷ (codes "hardware_target", codes "7")
    ∷ (codes "firmware_version", codes "1.0")
    ∷ []

abbrev answer : Installed
answer = record {
  before = classify told;
  after = after_update;
  after_confirmed = true;
  target = codes "f7";
}

installs : installed.0 ≡ ok answer
unfolding flipperzero_firmware_install require_firmware_flash require_write_tools identify
    classified_end ensure_connected after_check get_rpc install resolve by_network download_bundle
    download_official fetch load_json select_official_file malformed_in channel_of pick entry_for
    verified_bundle verify_sha256 bundle_from_tgz_bytes members_from_tar read_members build_bundle
    find install_bundle install_files push_files push_file verify_written check_md5 trigger_update
    storage_mkdir storage_write storage_write_internal write_chunks chunk pace storage_md5sum
    command query flipperzero_mcp.Rpc.System.system_update
    flipperzero_mcp.Rpc.System.system_reboot_update reconnect_and_classify poll reopen by_client
    on_link disconnect close_after connect after_round flipperzero_mcp.Client.Info.get_device_info
    flipperzero_mcp.Client.Info.normalize flipperzero_mcp.Rpc.System.get_device_info call
    send_rpc_message get_next_command_id ensure_rpc_session_started negotiate clear_receive_buffer
    set_started frame encode_varint lt_wf dec_lt send receive_main_message read_varint receive_exact
    pass_time classify flavor_from after_info
installs = refl

firmware_install-IsFlashed_example :
    (true ≡ true)
    × (true ≡ true)
    × ((info : Info) × (target : Text) × (bundle : Bundle) × (told : Bench (Unit {0}))
        × (flashed : Bench (Unit {0})) × IsIdentified up up info ready told
        × (lookup (codes "hardware_name") info ≡ some (codes "Pip"))
        × (is_empty (codes "Pip") ≡ false)
        × ((classify info).target ≡ some target)
        × IsFlashed upstream from_official target bundle told flashed
        × (reconnect_and_classify (classify info) flashed
            ≡ (ok (answer.after, answer.after_confirmed), installed.1))
        × (answer.before ≡ classify info)
        × (answer.target ≡ bundle.target))
firmware_install-IsFlashed_example =
    firmware_install-IsFlashed upstream flash_config up up from_official (codes "Pip") ready
      (answered installed installs)
