-- ===== src/Examples/Tools.antt =====
-- The theorems on the tools, on a concrete client and a host with one file.
use flipperzero_mcp.Tools.Call.Reported.{call_tool-ToolError}
use flipperzero_mcp.Tools.Change.{changed, flipperzero_fs_mkdir}
use flipperzero_mcp.Tools.Common.{classify_client_error, requested, reconnect}
use flipperzero_mcp.Client.{connect, disconnect, close_after}
use flipperzero_mcp.Tools.Call.{mkdir, local_path_of, call_tool}
use flipperzero_mcp.Rpc.Varint.{read_varint, encode_varint}
use flipperzero_mcp.Rpc.Call.{send_rpc_message, query, call}
use native.Mathlib.Decide.{dec_lt}
use flipperzero_mcp.Rpc.Frame.{frame, receive_main_message}
use flipperzero_mcp.Rpc.Session.{get_next_command_id, ensure_rpc_session_started}
use flipperzero_mcp.Rpc.Storage.{storage_md5sum, storage_read}
use flipperzero_mcp.Rpc.Write.{pace, chunk, write_chunks, storage_write_internal, storage_write}
use flipperzero_mcp.Rpc.ReadOnly.{reads}
use flipperzero_mcp.Tools.Call.Obeyed.{perform_all-IsWithin}
use flipperzero_mcp.Rpc.Call.Sends.{IsAllowed}
use flipperzero_mcp.Tools.Transfer.Pulled.{fs_pull-IsDownloaded, IsDownloaded, fs_pull-lookup}
use flipperzero_mcp.Tools.Permitted.{IsPermitted}
use flipperzero_mcp.Link.Sends.{Adds}
use flipperzero_mcp.Base.Dict.{insert, lookup}
use flipperzero_mcp.Tools.Transfer.Verified.{fs_push-IsUploaded, IsUploaded}
use flipperzero_mcp.Config.{auto_transport, FlipperConfig}
use flipperzero_mcp.Tools.Transfer.{
  verify_md5, local, on_client, keep, download, upload, write_bytes, classified_but_tool_end,
  read_bytes, is_path, read_file, write_file, flipperzero_fs_pull, flipperzero_fs_push, World, Hash,
}
use flipperzero_mcp.Link.{
  not_connected, tool_error, Reason, Exn, receive_exact, accept, send, pass_time, runtime_error,
  cancelled, raised, ok, Result, arrive, Link,
}
use flipperzero_mcp.Base.{
  ◌⊎◌, Text, lt_wf, ◌∷◌, [], List, some, none, false, true, ap, refl, ◌≡◌, codes, Bytes, All,
  length,
}
use flipperzero_mcp.Examples.Toy.{toy, ascii, open_link}
use flipperzero_mcp.Client.{Client, LinkMode}
use flipperzero_mcp.Tools.Call.{perform_all, Call, read, push, typed, execute}
use flipperzero_mcp.Tools.Common.{
  classified_end, on_link, after_check, ensure_connected, get_rpc, require_write_tools, Attempt,
}
use flipperzero_mcp.Tools.Read.Sent.{system_ping, run-ToolSends, run}

-- A digest that is the content itself.
instance abbrev identity : Hash
identity = record { md5_hex = λ content. content }

abbrev client_of : Link → Client
client_of w = record {
  link = w;
  supports_cli_text_mode = true;
  connected = true;
  has_rpc = true;
  last_connection_error = none;
  sd_card_available = none;
  mode = LinkMode.rpc;
}

-- Everything is disabled.
abbrev locked_config : FlipperConfig
locked_config = record {
  transport = auto_transport;
  usb_port = none;
  usb_baudrate = 115200;
  wifi_host = none;
  wifi_port = 8080;
  enable_tx_tools = false;
  enable_write_tools = false;
  enable_firmware_flash = false;
  debug = false;
}

abbrev write_config : FlipperConfig
write_config = record locked_config { enable_write_tools = true }

-- The transport is up.
abbrev up : Attempt
up = record { is_connected = ok true; disconnects = ok tt; connects = ok true }

-- It is found down, and comes up again.
abbrev dropped : Attempt
dropped = record { is_connected = raised runtime_error; disconnects = ok tt; connects = ok true }

-- The device accepts the write, and reports the digest in upper case.
abbrev writing : World
writing = record {
  client = client_of (
      open_link
        (arrive 5 (4 ∷ 1 ∷ 0 ∷ 0 ∷ 0 ∷ []) ∷ arrive 9 (6 ∷ 2 ∷ 0 ∷ 0 ∷ 7 ∷ codes "AB") ∷ []));
  disk = record { files = (codes "a", codes "ab") ∷ []; is_denied = λ path. false; room = 100 };
}

answered : {A S : Type 0} (r : Result A × S) {a : A} → r.0 ≡ ok a → r ≡ (ok a, r.1)
answered (ok b, s) e = ap (λ x. (x, s)) e
answered (raised x, s) e = cc e
answered (cancelled, s) e = cc e

pushes :
    (flipperzero_fs_push write_config up (codes "a") (codes "/ext/a") writing).0
    ≡ ok (2, codes "ab")
unfolding flipperzero_fs_push require_write_tools read_bytes read_file classified_but_tool_end
    upload storage_write storage_write_internal write_chunks chunk pace get_rpc ensure_connected
    after_check on_link classified_end on_client local ensure_rpc_session_started
    get_next_command_id send receive_main_message lt_wf dec_lt pass_time accept receive_exact call
    query send_rpc_message frame encode_varint read_varint storage_md5sum verify_md5
pushes = refl

fs_push-IsUploaded_example :
    (true ≡ true)
    × ((content : Bytes) × (some (codes "ab") ≡ some content)
        × (2 ≡ length content)
        × (codes "ab" ≡ content)
        × IsUploaded
            (codes "/ext/a")
            content
            (flipperzero_fs_push write_config up
              (codes "a")
              (codes "/ext/a")
              writing).1.client.link)
    × ((flipperzero_fs_push write_config up (codes "a") (codes "/ext/a") writing).1.disk
        ≡ writing.disk)
fs_push-IsUploaded_example =
    fs_push-IsUploaded write_config up (codes "a") (codes "/ext/a") writing
      (answered (flipperzero_fs_push write_config up (codes "a") (codes "/ext/a") writing) pushes)

-- The device gives the file, and then its digest.
abbrev reading : World
reading = record writing {
  client = client_of (
      open_link (
        arrive 5 (6 ∷ 1 ∷ 0 ∷ 0 ∷ 8 ∷ codes "cd")
        ∷ arrive 9 (6 ∷ 2 ∷ 0 ∷ 0 ∷ 7 ∷ codes "cd")
        ∷ []));
}

pulls : (flipperzero_fs_pull up (codes "/ext/a") (codes "a") reading).0 ≡ ok (2, codes "cd")
unfolding flipperzero_fs_pull read_bytes read_file write_bytes write_file download keep storage_read
    get_rpc ensure_connected after_check on_link classified_end on_client local
    ensure_rpc_session_started get_next_command_id send receive_main_message lt_wf dec_lt pass_time
    accept receive_exact call query send_rpc_message frame encode_varint read_varint storage_md5sum
    verify_md5
pulls = refl

fs_pull-IsDownloaded_example :
    (content : Bytes) × (2 ≡ length content)
    × (codes "cd" ≡ content)
    × ((flipperzero_fs_pull up (codes "/ext/a") (codes "a") reading).1.disk.files
        ≡ insert (codes "a") content reading.disk.files)
    × IsDownloaded
        (codes "/ext/a")
        content
        (flipperzero_fs_pull up (codes "/ext/a") (codes "a") reading).1.client.link
fs_pull-IsDownloaded_example =
    fs_pull-IsDownloaded up (codes "/ext/a") (codes "a") reading
      (answered (flipperzero_fs_pull up (codes "/ext/a") (codes "a") reading) pulls)

fs_pull-lookup_example :
    lookup (codes "a") (flipperzero_fs_pull up (codes "/ext/b") (codes "b") reading).1.disk.files
    ≡ some (codes "ab")
fs_pull-lookup_example = fs_pull-lookup up (codes "/ext/b") (codes "b") (codes "a") reading refl

run-ToolSends_example :
    Adds (IsAllowed reads) 22 [] (run system_ping dropped writing.client).1.link.sent
run-ToolSends_example = run-ToolSends system_ping dropped writing.client

-- A ping, a push that is refused, a typed command, and one that the gate stops.
abbrev calls : List Call
calls =
    read system_ping up
    ∷ push up (codes "a") (codes "/ext/a")
    ∷ typed up (codes "uptime")
    ∷ execute up (codes "power off") 1000 true
    ∷ []

perform_all-IsWithin_example :
    All (IsPermitted locked_config) (perform_all locked_config calls writing).client.link.sent
perform_all-IsWithin_example = perform_all-IsWithin locked_config calls writing tt

-- The transport is down, and cannot be opened.
abbrev gone : Attempt
gone = record { is_connected = ok false; disconnects = ok tt; connects = ok false }

failed_with : {A S : Type 0} (r : Result A × S) {e : Exn} → r.0 ≡ raised e → r ≡ (raised e, r.1)
failed_with (ok b, s) h = cc h
failed_with (raised x, s) h = ap (λ y. (y, s)) h
failed_with (cancelled, s) h = cc h

not_there :
    (call_tool write_config (mkdir gone (codes "/ext/d")) writing).0
    ≡ raised (tool_error not_connected)
unfolding call_tool on_client flipperzero_fs_mkdir changed require_write_tools requested get_rpc
    ensure_connected after_check reconnect disconnect close_after connect classified_end
    classify_client_error on_link
not_there = refl

call_tool-ToolError_example :
    ((reason : Reason) × (tool_error not_connected ≡ tool_error reason))
    ⊎ ((tool_error not_connected ≡ Exn.value_error)
        × ((path : Text) × (local_path_of (mkdir gone (codes "/ext/d")) ≡ some path)
            × (is_path path ≡ false)))
call_tool-ToolError_example =
    call_tool-ToolError write_config (mkdir gone (codes "/ext/d")) writing refl
      (failed_with (call_tool write_config (mkdir gone (codes "/ext/d")) writing) not_there)
