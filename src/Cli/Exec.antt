-- ===== src/Cli/Exec.antt =====
-- `cli_exec` of rpc/client.py: the guards, the switch to the CLI, one command line, its output.
pub mod Gate
pub mod Line
pub mod Sent
use flipperzero_mcp.Rpc.Session.{cancel_line, send_stop_session}
use flipperzero_mcp.Proto.{Codec}
use flipperzero_mcp.Client.{LinkMode, Client}
use flipperzero_mcp.Cli.Risk.{classify, Case, Risk}
use flipperzero_mcp.Cli.Words.{contains}
use flipperzero_mcp.Link.{
  flipper_cli_refused, flipper_cli_unavailable, flipper_not_connected, send, clear_receive_buffer,
  value_error, accept, pass_time, ◌>>◌, ◌>>=◌, raise, pure, M, cancelled, raised, ok, Result,
  Arrival, Link,
}
use flipperzero_mcp.Base.{
  ◌++◌, ◌∷◌, [], List, some, none, Option, ◌||◌, ◌&&◌, not, false, true, Bool, min, ◌%◌, ◌/◌, ◌-◌,
  ◌+◌, ℕ, is_empty, text_eq, codes, Text, Bytes, if◌then◌else◌, ◌==◌, leb, ltb,
}

-- `str.encode()`: UTF-8, and a UnicodeEncodeError (a ValueError) for a surrogate.
abbrev pub encode_char : ℕ → Option Bytes
encode_char c =
    if ltb c 0x80
    then some (c ∷ [])
    else if ltb c 0x800
    then some ((0xC0 + c / 64) ∷ (0x80 + c % 64) ∷ [])
    else if leb 0xD800 c && leb c 0xDFFF
    then none
    else if ltb c 0x10000
    then some ((0xE0 + c / 4096) ∷ (0x80 + c / 64 % 64) ∷ (0x80 + c % 64) ∷ [])
    else some
        ((0xF0 + c / 262144) ∷ (0x80 + c / 4096 % 64) ∷ (0x80 + c / 64 % 64) ∷ (0x80 + c % 64) ∷ [])

abbrev pub append_encoded : Option Bytes → Option Bytes → Option Bytes
append_encoded none rest = none
append_encoded (some bytes) none = none
append_encoded (some bytes) (some rest) = some (bytes ++ rest)

abbrev pub encode : Text → Option Bytes
encode [] = some []
encode (c ∷ t) = append_encoded (encode_char c) (encode t)

-- _SHELL_CHAINING
abbrev pub shell_chaining : List Text
shell_chaining =
    codes ";" ∷ codes "&&" ∷ codes "||" ∷ codes "|" ∷ codes "`" ∷ (10 ∷ []) ∷ (13 ∷ []) ∷ []

-- Whether `_reject_shell_chaining` raises: some token is in the command.
abbrev pub has_any : List Text → Text → Bool
has_any [] command = false
has_any (token ∷ tokens) command = contains token command || has_any tokens command

-- Whether `_enforce_tx_gate` raises; it is asked for gated commands only.
abbrev pub is_gate_shut : Risk → Bool → Bool → Bool
is_gate_shut risk accept_responsibility tx_tools_enabled =
    risk.gated && (not tx_tools_enabled || not accept_responsibility)

-- `bytes.rstrip()` strips these.
abbrev is_byte_space : ℕ → Bool
is_byte_space c = (leb 9 c && leb c 13) || (c == 32)

abbrev byte_before_stripped : ℕ → Bytes → Bytes
byte_before_stripped c [] = if is_byte_space c then [] else c ∷ []
byte_before_stripped c (d ∷ t) = c ∷ d ∷ t

abbrev rstrip_bytes : Bytes → Bytes
rstrip_bytes [] = []
rstrip_bytes (c ∷ t) = byte_before_stripped c (rstrip_bytes t)

abbrev ends_with : Bytes → Bytes → Bool
ends_with suffix [] = is_empty suffix
ends_with suffix (c ∷ t) = text_eq (c ∷ t) suffix || ends_with suffix t

-- `buf.rstrip().endswith(_CLI_PROMPT)`
abbrev pub at_prompt : Bytes → Bool
at_prompt buf = ends_with (codes ">:") (rstrip_bytes buf)

-- A round of `_read_until_prompt`: an empty chunk is not looked at.
after_chunk : Bytes → Bytes → M (Bytes × Bool) → M (Bytes × Bool)
after_chunk [] buf more = more
after_chunk (x ∷ xs) buf more = if at_prompt buf then pure (buf, true) else more

-- The loop of `_read_until_prompt`, with `stop` its deadline. Once the environment is done the
-- remaining slices of 200 ms time out, and the clock reaches `stop`.
unfoldable pub read_prompt : List Arrival → Bytes → ℕ → M (Bytes × Bool)
unfolding after_chunk
read_prompt [] buf stop w =
    (pass_time (stop - w.clock) >> pure (buf, false)) (record w { incoming = [] })
read_prompt (a ∷ rest) buf stop w =
    let round = (do
      chunk ← accept (a ∷ rest) (min 200 (stop - w.clock))
      after_chunk chunk (buf ++ chunk) (read_prompt rest (buf ++ chunk) stop)) in
    if leb stop w.clock then (ok (buf, false), record w { incoming = a ∷ rest }) else round w

-- `_read_until_prompt`
unfoldable pub read_until_prompt : ℕ → M (Bytes × Bool)
read_until_prompt timeout w = read_prompt w.incoming [] (w.clock + timeout) w

-- `await self.transport.send(command.encode() + b"\r")`
unfoldable pub send_line : Option Bytes → M (Unit {0})
send_line none = raise value_error
send_line (some bytes) = send (bytes ++ 13 ∷ [])

-- `_cli_exchange` past the StopSession.
unfoldable pub converse : Text → ℕ → M (Bytes × Bool)
converse command timeout = do
  clear_receive_buffer
  send cancel_line
  read_until_prompt 2000
  clear_receive_buffer
  send_line (encode command)
  read_until_prompt timeout

-- CliExecResult, the output as the bytes that `_strip_cli_output` is given.
pub record CliExecResult : Type 0 where
  pub raw : Bytes
  pub completed : Bool
  pub risk : Risk

unfoldable pub relink : Client → Result (Bytes × Bool) × Link → Risk → Result CliExecResult × Client
relink cl (ok (raw, completed), w) risk =
    (ok (record { raw = raw; completed = completed; risk = risk }), record cl { link = w })
relink cl (raised e, w) risk = (raised e, record cl { link = w })
relink cl (cancelled, w) risk = (cancelled, record cl { link = w })

unfoldable pub after_stop :
    Text → ℕ → Risk → Client → Result (Unit {0}) × Link → Result CliExecResult × Client
unfolding relink
after_stop command timeout risk cl (ok tt, w) =
    relink (record cl { mode = LinkMode.cli }) (converse command timeout w) risk
after_stop command timeout risk cl (raised e, w) = (raised e, record cl { link = w })
after_stop command timeout risk cl (cancelled, w) = (cancelled, record cl { link = w })

module _ ⦃c : Codec⦄ where
  -- `_cli_exchange`, and the record that `cli_exec` makes of its result.
  unfoldable pub cli_exchange : Text → ℕ → Risk → Client → Result CliExecResult × Client
  unfolding after_stop relink
  cli_exchange command timeout risk cl =
      after_stop command timeout risk cl (send_stop_session cl.link)

  module _ ⦃k : Case⦄ where
    -- `cli_exec`
    unfoldable pub cli_exec : Text → ℕ → Bool → Bool → Client → Result CliExecResult × Client
    cli_exec command timeout accept_responsibility tx_tools_enabled cl =
        let risk = classify command in
        if not cl.has_rpc
        then (raised flipper_not_connected, cl)
        else if not cl.supports_cli_text_mode
        then (raised flipper_cli_unavailable, cl)
        else if has_any shell_chaining command
        then (raised flipper_cli_refused, cl)
        else if is_gate_shut risk accept_responsibility tx_tools_enabled
        then (raised flipper_cli_refused, cl)
        else cli_exchange command timeout risk cl
