-- ===== src/Examples/Cli.antt =====
-- The theorems on the text CLI, on concrete command lines.
use flipperzero_mcp.Client.Machine.{Step-Moves, connection, up, executing, Moves}
use flipperzero_mcp.Rpc.Call.{send_rpc_message, call, query}
use flipperzero_mcp.Rpc.System.{ping}
use flipperzero_mcp.Client.Health.{
  get_connection_health-IsHonest, get_connection_health, ConnectionHealth, health_probe,
}
use flipperzero_mcp.Client.Reach.{executes, connects, start, Reach-IsSound, next, IsSound, Reach}
use native.Mathlib.Decide.{dec_lt}
use flipperzero_mcp.Rpc.Varint.{read_varint, encode_varint}
use flipperzero_mcp.Rpc.Frame.{receive_main_message, frame}
use flipperzero_mcp.Rpc.Session.{
  ensure_rpc_session_started, get_next_command_id, set_started, send_stop_session, cancel_line,
}
use flipperzero_mcp.Cli.Exec.Sent.{cli_exec-Sent, stop_frame}
use flipperzero_mcp.Cli.Exec.Line.{IsUnbroken}
use flipperzero_mcp.Cli.Words.{strip, split}
use flipperzero_mcp.Cli.Risk.Words.{classify-words, word_rules, first_pair}
use flipperzero_mcp.Cli.Exec.{
  read_prompt, read_until_prompt, send_line, encode, converse, CliExecResult, cli_exchange,
  cli_exec,
}
use flipperzero_mcp.Cli.Exec.Gate.{cli_exec-Permits, Permits}
use flipperzero_mcp.Client.{ConnectionError, connect, LinkMode, Client}
use flipperzero_mcp.Cli.Risk.{transmit, normalize, risk_of, classify}
use flipperzero_mcp.Link.{
  receive_exact, Link, clear_receive_buffer, accept, send, drain_host_rx, os_error, pass_time, ok,
  broken, Exn, raised, arrive,
}
use flipperzero_mcp.Base.{
  ◌++◌, Bytes, lt_wf, ◌∷◌, [], some, none, ◌&&◌, false, true, ◌⊎◌, refl, ◌≡◌, codes,
}
use flipperzero_mcp.Examples.Toy.{ascii, open_link, toy}

classify-words_example :
    classify (codes "  SubGHz   tx 1 2")
    ≡ risk_of (first_pair word_rules (split (ascii.lower (strip (codes "  SubGHz   tx 1 2")))))
classify-words_example = classify-words (codes "  SubGHz   tx 1 2")

-- It is gated: the words are "subghz" and "tx".
subghz_tx : classify (codes "  SubGHz   tx 1 2") ≡ risk_of (some transmit)
unfolding classify normalize
subghz_tx = refl

abbrev uptime_output : Bytes
uptime_output = codes "uptime" ++ 13 ∷ 10 ∷ codes "1 s >: "

-- The drain after the StopSession is ended by an error; then the CLI answers.
abbrev at_cli : Client
at_cli = record {
  link = open_link (broken os_error ∷ arrive 5 (codes " >: ") ∷ arrive 7 uptime_output ∷ []);
  supports_cli_text_mode = true;
  connected = true;
  has_rpc = true;
  last_connection_error = none;
  sd_card_available = none;
  mode = LinkMode.unknown;
}

cli_exec-Permits_example :
    (Permits (codes "ir tx 1") true false at_cli
      × (cli_exec (codes "ir tx 1") 1000 true false at_cli
          ≡ cli_exchange (codes "ir tx 1") 1000 (classify (codes "ir tx 1")) at_cli))
    ⊎ ((e : Exn) × (cli_exec (codes "ir tx 1") 1000 true false at_cli ≡ (raised e, at_cli)))
cli_exec-Permits_example = cli_exec-Permits (codes "ir tx 1") 1000 true false at_cli

abbrev uptime_client : Client
uptime_client = record at_cli {
  link = record at_cli.link {
    clock = 1012;
    incoming = [];
    rpc_session_started = false;
    sent = (4 ∷ 0 ∷ 0 ∷ 0 ∷ 6 ∷ []) ∷ (3 ∷ 13 ∷ []) ∷ (codes "uptime" ++ 13 ∷ []) ∷ [];
  };
  mode = LinkMode.cli;
}

abbrev uptime_result : CliExecResult
uptime_result = record { raw = uptime_output; completed = true; risk = risk_of none }

uptime_runs : cli_exec (codes "uptime") 1000 false false at_cli ≡ (ok uptime_result, uptime_client)
unfolding cli_exec classify normalize cli_exchange converse send_line read_until_prompt read_prompt
    send_stop_session drain_host_rx frame encode_varint lt_wf dec_lt send accept pass_time
    clear_receive_buffer set_started
uptime_runs = refl

cli_exec-Sent_example :
    Permits (codes "uptime") false false at_cli
    × ((bytes : Bytes) × (encode (codes "uptime") ≡ some bytes)
        × IsUnbroken bytes
        × (uptime_client.link.sent
            ≡ at_cli.link.sent ++ stop_frame ∷ cancel_line ∷ (bytes ++ 13 ∷ []) ∷ []))
    × (uptime_client.mode ≡ LinkMode.cli)
cli_exec-Sent_example = cli_exec-Sent (codes "uptime") 1000 false false at_cli uptime_runs

-- A client that has just been made.
abbrev fresh : Client
fresh = record at_cli { connected = false; has_rpc = false }

fresh-Reach : Reach (cli_exec (codes "uptime") 1000 false false (connect (ok true) fresh).1).1
fresh-Reach =
    next
      (next (start (record { not_connected = refl; no_rpc = refl; no_mode = refl }))
        (connects (ok true) fresh))
      (executes (codes "uptime") 1000 false false (connect (ok true) fresh).1)

Reach-IsSound_example :
    IsSound (cli_exec (codes "uptime") 1000 false false (connect (ok true) fresh).1).1
Reach-IsSound_example = Reach-IsSound fresh-Reach

-- The device echoes the probe.
abbrev echoing : Client
echoing = record at_cli { link = open_link (arrive 5 (14 ∷ 1 ∷ 0 ∷ 0 ∷ 2 ∷ health_probe) ∷ []) }

abbrev echoed : Client
echoed = record echoing {
  link = record echoing.link {
    clock = 1005;
    incoming = [];
    command_id = 1;
    sent = (14 ∷ 1 ∷ 0 ∷ 0 ∷ 1 ∷ health_probe) ∷ [];
  };
}

abbrev healthy : ConnectionHealth
healthy = record {
  is_connected = true;
  transport_connected = true;
  rpc_responsive = some true;
  last_error = none;
}

echoing_is_healthy : get_connection_health true (ok true) echoing ≡ (ok healthy, echoed)
unfolding get_connection_health ping query call send_rpc_message get_next_command_id
    ensure_rpc_session_started frame encode_varint lt_wf dec_lt send receive_main_message
    read_varint receive_exact pass_time
echoing_is_healthy = refl

get_connection_health-IsHonest_example :
    ((healthy.is_connected ≡ true)
      × (echoing.has_rpc ≡ true)
      × ((w : Link) × (ping health_probe echoing.link ≡ (ok (some health_probe), w))))
    ⊎ ((healthy.is_connected ≡ false) × ((e : ConnectionError) × (healthy.last_error ≡ some e)))
    ⊎ ((healthy.is_connected ≡ false) × ((healthy.transport_connected && echoing.has_rpc) ≡ false))
get_connection_health-IsHonest_example =
    get_connection_health-IsHonest (ok true) echoing echoing_is_healthy

Step-Moves_example :
    Moves executing
      (up LinkMode.unknown)
      (connection (cli_exec (codes "uptime") 1000 false false at_cli).1)
Step-Moves_example = Step-Moves (executes (codes "uptime") 1000 false false at_cli)
