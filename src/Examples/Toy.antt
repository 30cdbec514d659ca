-- ===== src/Examples/Toy.antt =====
-- A codec for the few messages of the tests, and a link to try them on.
use flipperzero_mcp.Cli.Risk.{Case}
use flipperzero_mcp.Proto.{Codec, Main, Content, File}
use flipperzero_mcp.Link.{Arrival, Link}
use flipperzero_mcp.Base.{
  drop, take, ◌&&◌, ◌+◌, Text, leb, map, ◌++◌, ◌∷◌, [], List, some, none, Option, false, true, Bool,
  ℕ, Bytes, get_or, length, if◌then◌else◌, ◌==◌,
}

abbrev pub letter_file : ℕ → File
letter_file c = record { kind = 0; name = c ∷ []; size = 0; file_data = []; md5sum = [] }

abbrev letter : File → ℕ
letter f = get_or f.name 0 0

abbrev toy_content : Content → Bytes
toy_content (Content.system_ping_request d) = 1 ∷ d
toy_content (Content.system_ping_response d) = 2 ∷ d
toy_content (Content.storage_list_request path b n) = 3 ∷ path
toy_content (Content.storage_list_response files) = 4 ∷ map letter files
toy_content (Content.storage_write_request path d) = 5 ∷ length path ∷ path ++ d
toy_content Content.stop_session = 6 ∷ []
toy_content _ = 0 ∷ []

abbrev toy_flag : Bool → ℕ
toy_flag false = 0
toy_flag true = 1

-- A pair of the device info: the length of the key, the key, and the value.
abbrev toy_pair : Bytes → Content
toy_pair [] = Content.empty
toy_pair (n ∷ d) = Content.system_device_info_response (take n d) (drop n d)

abbrev toy_parse : Bytes → Content
toy_parse [] = Content.empty
toy_parse (tag ∷ d) =
    if tag == 1
    then Content.system_ping_request d
    else if tag == 2
    then Content.system_ping_response d
    else if tag == 4
    then Content.storage_list_response (map letter_file d)
    else if tag == 7
    then Content.storage_md5sum_response d
    else if tag == 8
    then Content.storage_read_response
        (record { kind = 0; name = []; size = 0; file_data = d; md5sum = [] })
    else if tag == 9
    then Content.system_update_response (get_or d 0 0)
    else if tag == 10
    then toy_pair d
    else Content.empty

abbrev toy_read : Bytes → Option Main
toy_read (id ∷ status ∷ flag ∷ content) = some (record {
  command_id = id;
  command_status = status;
  has_next = flag == 1;
  content = toy_parse content;
})
toy_read _ = none

instance abbrev pub toy : Codec
toy = record {
  serialize = λ m. m.command_id ∷ m.command_status ∷ toy_flag m.has_next ∷ toy_content m.content;
  parse = toy_read;
}

-- The ASCII part of `str.lower`.
abbrev lower_ascii : Text → Text
lower_ascii [] = []
lower_ascii (c ∷ t) = (if leb 65 c && leb c 90 then c + 32 else c) ∷ lower_ascii t

instance abbrev pub ascii : Case
ascii = record { lower = lower_ascii }

-- An idle link over USB at time 1000, with this still to arrive.
abbrev pub idle : List Arrival → Link
idle incoming = record {
  clock = 1000;
  deadline = none;
  incoming = incoming;
  outgoing = [];
  rx_buffer = [];
  sent = [];
  is_wifi = false;
  force_start = false;
  command_id = 0;
  rpc_session_started = false;
  last_negotiation_failure = none;
}

-- The same in a session that is open.
abbrev pub open_link : List Arrival → Link
open_link incoming = record (idle incoming) { rpc_session_started = true }
