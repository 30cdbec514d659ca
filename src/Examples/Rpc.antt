-- ===== src/Examples/Rpc.antt =====
-- The theorems on the RPC layer, on concrete links.
use flipperzero_mcp.Link.Timely.{Waits, receive_exact-clock}
use flipperzero_mcp.Link.Stream.{receive_exact-stream, stream}
use flipperzero_mcp.Rpc.Write.Sent.{storage_write-sent, IsSliced, joined, write_frames}
use flipperzero_mcp.Rpc.Write.{
  write_chunk_size, write_chunks, chunk, storage_write_internal, storage_write,
}
use flipperzero_mcp.Rpc.Listing.{storage_list_frames, storage_list}
use flipperzero_mcp.Rpc.Listing.Complete.{
  storage_list_frames-IsComplete, storage_list-Reading, IsComplete, on_wire,
}
use flipperzero_mcp.Rpc.Session.Sends.{ensure_rpc_session_started-SendsOnly, IsNegotiation}
use flipperzero_mcp.Rpc.Call.{send_rpc_message, call, query}
use flipperzero_mcp.Rpc.Session.Settled.{ensure_rpc_session_started-settled, IsDecided}
use flipperzero_mcp.Rpc.Session.{get_next_command_id, negotiate, ensure_rpc_session_started}
use flipperzero_mcp.Link.Sends.{SendsOnly}
use flipperzero_mcp.Rpc.Call.Exchange.{query-Reading, after_request, Answers, IsOpen}
use flipperzero_mcp.Rpc.Varint.RoundTrip.{read_varint-encode_varint}
use flipperzero_mcp.Rpc.Frame.{receive_main_message, frame}
use flipperzero_mcp.Rpc.Frame.RoundTrip.{receive_main_message-frame, Fits}
use flipperzero_mcp.Proto.{Content, request, Main}
use flipperzero_mcp.Link.Prompt.{Delivers}
use flipperzero_mcp.Link.Reading.{Reading}
use flipperzero_mcp.Rpc.Varint.{read_varint, encode_varint}
use flipperzero_mcp.Examples.Toy.{open_link, idle}
use flipperzero_mcp.Link.{receive_exact, send, clear_receive_buffer, pass_time, ok, arrive, Link}
use flipperzero_mcp.Base.{
  ◌≢◌, ◌≤◌, ◌+◌, length, map, List, false, Bool, Text, none, Option, true, ◌⊎◌, ◌≡◌, Bytes, lt_wf,
  arith, ◌++◌, ◌∷◌, [], some, refl, codes,
}
use flipperzero_mcp.Examples.Toy.{toy, letter_file}
use native.Mathlib.Decide.{dec_lt}

-- 300 in two pieces
abbrev two_pieces : Link
two_pieces = idle (arrive 5 (0xAC ∷ []) ∷ arrive 5 (0x02 ∷ []) ∷ [])

two_pieces-Delivers : Delivers 1100 (encode_varint 300 ++ []) two_pieces
unfolding encode_varint lt_wf dec_lt
two_pieces-Delivers = record {
  all_of_it = refl;
  prompt = (omega arith, (omega arith, tt));
  allowed = tt;
}

read_varint-encode_varint_example :
    Reading 1100 [] two_pieces (some 300) (read_varint 2500 two_pieces)
read_varint-encode_varint_example =
    read_varint-encode_varint 300 2500 1100 [] two_pieces (omega arith) (omega arith)
      two_pieces-Delivers

abbrev pong : Main
pong = request 1 (Content.system_ping_response (codes "hi"))

abbrev pong_arrives : Link
pong_arrives = open_link (arrive 5 (6 ∷ 1 ∷ 0 ∷ []) ∷ arrive 9 (0 ∷ 2 ∷ codes "hi") ∷ [])

pong-Fits : Fits pong
pong-Fits = record { decodes = refl; not_empty = omega arith; not_large = omega arith }

pong_arrives-Delivers : Delivers 1100 (frame pong ++ []) pong_arrives
unfolding frame encode_varint lt_wf dec_lt
pong_arrives-Delivers = record {
  all_of_it = refl;
  prompt = (omega arith, (omega arith, tt));
  allowed = tt;
}

receive_main_message-frame_example :
    Reading 1100 [] pong_arrives (some pong) (receive_main_message 2500 pong_arrives)
receive_main_message-frame_example =
    receive_main_message-frame pong 2500 1100 [] pong_arrives pong-Fits (omega arith)
      pong_arrives-Delivers

abbrev echoed : Content → Option Bytes
echoed (Content.system_ping_response bytes) = some bytes
echoed _ = none

pong_arrives-IsOpen : IsOpen pong_arrives
pong_arrives-IsOpen = record { started = refl; sends = refl }

pong_arrives-Answers : Answers 2500 pong [] pong_arrives
pong_arrives-Answers = record {
  stop = 1100;
  in_time = omega arith;
  fits = pong-Fits;
  delivers = pong_arrives-Delivers;
}

query-Reading_example :
    ((pong.command_status ≡ 0)
      × Reading pong_arrives-Answers.stop []
          (after_request (Content.system_ping_request (codes "hi")) pong_arrives)
          (some (codes "hi"))
          (query (Content.system_ping_request (codes "hi")) 2500 echoed pong_arrives))
    ⊎ ((pong.command_status ≢ 0)
        × Reading pong_arrives-Answers.stop []
            (after_request (Content.system_ping_request (codes "hi")) pong_arrives)
            none
            (query (Content.system_ping_request (codes "hi")) 2500 echoed pong_arrives))
query-Reading_example =
    query-Reading (Content.system_ping_request (codes "hi")) 2500 echoed pong [] pong_arrives
      pong_arrives-IsOpen pong_arrives-Answers

ensure_rpc_session_started-SendsOnly_example : SendsOnly IsNegotiation 10 ensure_rpc_session_started
ensure_rpc_session_started-SendsOnly_example = ensure_rpc_session_started-SendsOnly

abbrev wifi : Link
wifi = record (idle []) { is_wifi = true }

wifi_started :
    ensure_rpc_session_started wifi
    ≡ (ok tt, record wifi { clock = 1300; rpc_session_started = true })
unfolding ensure_rpc_session_started negotiate clear_receive_buffer pass_time
wifi_started = refl

ensure_rpc_session_started-settled_example :
    (((record wifi { clock = 1300; rpc_session_started = true }) ≡ wifi)
      ⊎ IsDecided (record wifi { clock = 1300; rpc_session_started = true }))
    × (ensure_rpc_session_started (record wifi { clock = 1300; rpc_session_started = true })
        ≡ (ok tt, record wifi { clock = 1300; rpc_session_started = true }))
ensure_rpc_session_started-settled_example =
    ensure_rpc_session_started-settled wifi
      (record wifi { clock = 1300; rpc_session_started = true }) wifi_started

-- A listing of two frames, that come in two pieces.
abbrev page : Bool → Text → Main
page has_next names = record {
  command_id = 1;
  command_status = 0;
  has_next = has_next;
  content = Content.storage_list_response (map letter_file names);
}

abbrev pages : List Main
pages = page false (codes "c") ∷ []

abbrev listing_arrives : Link
listing_arrives =
    open_link
      (arrive 5 (6 ∷ 1 ∷ 0 ∷ 1 ∷ 4 ∷ []) ∷ arrive 9 (97 ∷ 98 ∷ 5 ∷ 1 ∷ 0 ∷ 0 ∷ 4 ∷ 99 ∷ []) ∷ [])

listing_arrives-Answers :
    Answers 2500 (page true (codes "ab")) (on_wire pages ++ []) listing_arrives
unfolding frame encode_varint lt_wf dec_lt
listing_arrives-Answers = record {
  stop = 1100;
  in_time = omega arith;
  fits = record { decodes = refl; not_empty = omega arith; not_large = omega arith };
  delivers = record { all_of_it = refl; prompt = (omega arith, (omega arith, tt)); allowed = tt };
}

abbrev listing : Content
listing = Content.storage_list_request (codes "/") false 0

storage_list-Reading_example :
    Reading listing_arrives-Answers.stop []
      (after_request listing listing_arrives)
      (codes "a" ∷ codes "b" ∷ codes "c" ∷ [])
      (storage_list (codes "/") false 0 listing_arrives)
storage_list-Reading_example =
    storage_list-Reading (codes "/") false 0 (page true (codes "ab")) pages [] listing_arrives
      (record { started = refl; sends = refl }) (refl, refl, (refl, refl))
      (record { decodes = refl; not_empty = omega arith; not_large = omega arith }, tt)
      listing_arrives-Answers

abbrev one_page : Link
one_page = open_link (arrive 5 (5 ∷ 1 ∷ 0 ∷ 0 ∷ 4 ∷ 99 ∷ []) ∷ [])

abbrev after_page : Link
after_page = record (after_request listing one_page) { clock = 1005; incoming = [] }

one_page-listed :
    storage_list_frames (codes "/") false 0 one_page
    ≡ (ok (page false (codes "c") ∷ []), after_page)
unfolding storage_list_frames call send_rpc_message get_next_command_id ensure_rpc_session_started
    frame encode_varint lt_wf dec_lt send receive_main_message read_varint receive_exact pass_time
one_page-listed = refl

storage_list_frames-IsComplete_example : IsComplete 100 (page false (codes "c") ∷ [])
storage_list_frames-IsComplete_example =
    storage_list_frames-IsComplete (codes "/") false 0 one_page one_page-listed

-- A file of three bytes is written with one frame, which the device acknowledges.
abbrev acknowledging : Link
acknowledging = open_link (arrive 5 (4 ∷ 1 ∷ 0 ∷ 0 ∷ 0 ∷ []) ∷ [])

abbrev after_write : Link
after_write = record acknowledging {
  clock = 1005;
  incoming = [];
  command_id = 1;
  sent = (10 ∷ 1 ∷ 0 ∷ 0 ∷ 5 ∷ 2 ∷ codes "/a" ++ codes "xyz") ∷ [];
}

acknowledged_write : storage_write (codes "/a") (codes "xyz") acknowledging ≡ (ok true, after_write)
unfolding storage_write storage_write_internal write_chunks chunk get_next_command_id
    ensure_rpc_session_started frame encode_varint lt_wf dec_lt send receive_main_message
    read_varint receive_exact pass_time
acknowledged_write = refl

storage_write-sent_example :
    (after_write.sent ≡ [] ++ write_frames 1 (codes "/a") (chunk (codes "xyz") write_chunk_size))
    × (joined (chunk (codes "xyz") write_chunk_size) ≡ codes "xyz")
    × IsSliced write_chunk_size (chunk (codes "xyz") write_chunk_size)
storage_write-sent_example =
    storage_write-sent (codes "/a") (codes "xyz") acknowledging refl acknowledged_write

abbrev two_bytes : Bytes
two_bytes = 0xAC ∷ 0x02 ∷ []

abbrev after_two : Link
after_two = record two_pieces { clock = 1010; incoming = [] }

read_two : receive_exact 2 100 two_pieces ≡ (ok two_bytes, after_two)
unfolding receive_exact pass_time
read_two = refl

receive_exact-stream_example :
    (two_bytes ++ stream after_two ≡ stream two_pieces)
    × ((two_bytes ≡ []) ⊎ (length two_bytes ≡ 2))
receive_exact-stream_example = receive_exact-stream 2 100 two_pieces read_two

receive_exact-clock_example :
    ((receive_exact 2 100 two_pieces).1.clock ≤ two_pieces.clock + 100)
    × ((u : Link) × Waits 2 (two_pieces.clock + 100) two_pieces u
        × ((receive_exact 2 100 two_pieces).1
            ≡ record u { rx_buffer = (receive_exact 2 100 two_pieces).1.rx_buffer }))
receive_exact-clock_example = receive_exact-clock 2 100 two_pieces
