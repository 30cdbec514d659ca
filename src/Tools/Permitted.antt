-- ===== src/Tools/Permitted.antt =====
-- What the configuration lets go out on the wire.
use flipperzero_mcp.Rpc.Frame.Quiet.{receive_main_message-IsQuiet}
use flipperzero_mcp.Link.Quiet.{
  pass_time-IsQuiet, drain_host_rx-IsQuiet, IsQuiet-pure, clear_receive_buffer-IsQuiet,
  IsQuiet-raise,
}
use mathlib.Core.Path.{subst}
use flipperzero_mcp.Link.Sends.{SendsOnly-map, SendsOnly}
use flipperzero_mcp.Rpc.ReadOnly.{reads, OnlyReads}
use flipperzero_mcp.Rpc.Call.Sends.{IsAllowed}
use flipperzero_mcp.Link.Emits.{
  Emits-wait_for, send-Emits, SendsOnly-Emits, Emits-except, IsQuiet-Emits, Emits-bind, Emits,
}
use flipperzero_mcp.Rpc.Session.Sends.{ensure_rpc_session_started-SendsOnly, IsNegotiation}
use flipperzero_mcp.Link.{value_error, M}
use flipperzero_mcp.Base.{
  ◌++◌, ◌∷◌, [], List, some, false, true, Bool, inr, inl, ◌⊎◌, sym, refl, ◌≡◌, ℕ, Text, Bytes,
  Option-cases,
}
use flipperzero_mcp.Proto.{Codec, Content, request}
use flipperzero_mcp.Config.{FlipperConfig}
use flipperzero_mcp.Cli.Risk.{Case, classify}
use flipperzero_mcp.Cli.Exec.{converse, send_line, encode}
use flipperzero_mcp.Cli.Exec.Sent.{stop_frame, read_until_prompt-IsQuiet}
use flipperzero_mcp.Rpc.Session.{send_stop_session, set_started, cancel_line, get_next_command_id}
use flipperzero_mcp.Rpc.Write.{
  storage_write, storage_write_internal, write_chunks, write_message, pace,
}
use flipperzero_mcp.Rpc.Frame.{frame}

-- The requests of the write tools that are one frame.
abbrev pub changes : Content → Bool
changes (Content.storage_mkdir_request _) = true
changes (Content.storage_delete_request _ _) = true
changes (Content.storage_rename_request _ _) = true
changes (Content.app_start_request _ _) = true
changes _ = false

-- A message that may be sent: always the negotiation, the StopSession, a request that only reads and
-- a command line that is not gated; the changes and the parts of a file with write tools enabled; any
-- command line with transmit tools enabled.
pub data IsPermitted ⦃c : Codec⦄ ⦃k : Case⦄ (config : FlipperConfig) : Bytes → Type 0 where
  negotiation : {message : Bytes} → IsNegotiation message → IsPermitted config message
  stop : IsPermitted config stop_frame
  reading :
      (id : ℕ) (content : Content)
      → reads content ≡ true
      → IsPermitted config (frame (request id content))
  change :
      (id : ℕ) (content : Content)
      → config.enable_write_tools ≡ true
      → changes content ≡ true
      → IsPermitted config (frame (request id content))
  part :
      (id : ℕ) (path : Text) (content : Bytes) (has_next : Bool)
      → config.enable_write_tools ≡ true
      → IsPermitted config (frame (write_message id path content has_next))
  line :
      (command : Text) (bytes : Bytes)
      → encode command ≡ some bytes
      → ((classify command).gated ≡ false) ⊎ (config.enable_tx_tools ≡ true)
      → IsPermitted config (bytes ++ 13 ∷ [])

module _ ⦃c : Codec⦄ ⦃k : Case⦄ (config : FlipperConfig) where
  -- The action sends only what the configuration permits.
  abbrev pub Obeys : {A : Type 0} → M A → Type 0
  Obeys m = Emits (IsPermitted config) m

  pub reading_allowed : (message : Bytes) → IsAllowed reads message → IsPermitted config message
  reading_allowed message (inl n) = negotiation n
  reading_allowed message (inr (id, content, r, e)) =
      subst (IsPermitted config) (sym e) (reading id content r)

  pub OnlyReads-Obeys : {A : Type 0} (n : ℕ) {m : M A} → OnlyReads n m → Obeys m
  OnlyReads-Obeys n p = SendsOnly-Emits n (SendsOnly-map reading_allowed n p)

  change_allowed :
      config.enable_write_tools ≡ true
      → (message : Bytes) → IsAllowed changes message
      → IsPermitted config message
  change_allowed on message (inl n) = negotiation n
  change_allowed on message (inr (id, content, r, e)) =
      subst (IsPermitted config) (sym e) (change id content on r)

  pub changes-Obeys :
      {A : Type 0} (n : ℕ) {m : M A}
      → config.enable_write_tools ≡ true
      → SendsOnly (IsAllowed changes) n m
      → Obeys m
  changes-Obeys n on p = SendsOnly-Emits n (SendsOnly-map (change_allowed on) n p)

  set_started-Obeys : (b : Bool) → Obeys (set_started b)
  unfolding set_started
  set_started-Obeys b = record { at = λ w h. h }

  pub send_stop_session-Obeys : Obeys send_stop_session
  unfolding send_stop_session
  send_stop_session-Obeys =
      Emits-bind (send-Emits stop_frame stop)
        λ _. Emits-bind (IsQuiet-Emits (drain_host_rx-IsQuiet 400)) λ _. set_started-Obeys false

  send_line-Obeys :
      (command : Text)
      → ((classify command).gated ≡ false) ⊎ (config.enable_tx_tools ≡ true)
      → Obeys (send_line (encode command))
  unfolding send_line
  send_line-Obeys command g = elim (Option-cases (encode command)) [
    | inl e ↦ rw e (IsQuiet-Emits (IsQuiet-raise value_error))
    | inr (bytes, e) ↦ rw e (send-Emits (bytes ++ 13 ∷ []) (line command bytes e g))
  ]

  pub converse-Obeys :
      (command : Text) (timeout : ℕ)
      → ((classify command).gated ≡ false) ⊎ (config.enable_tx_tools ≡ true)
      → Obeys (converse command timeout)
  unfolding converse
  converse-Obeys command timeout g = Emits-bind (IsQuiet-Emits clear_receive_buffer-IsQuiet) λ _.
      Emits-bind (send-Emits cancel_line (negotiation (inr (inl refl)))) λ _.
        Emits-bind (IsQuiet-Emits (read_until_prompt-IsQuiet 2000)) λ _.
          Emits-bind (IsQuiet-Emits clear_receive_buffer-IsQuiet) λ _.
            Emits-bind (send_line-Obeys command g)
              λ _. IsQuiet-Emits (read_until_prompt-IsQuiet timeout)

  module _ (on : config.enable_write_tools ≡ true) where
    write_chunks-Obeys :
        (id : ℕ) (path : Text) (parts : List Bytes) → Obeys (write_chunks id path parts)
    unfolding write_chunks pace
    write_chunks-Obeys id path [] = IsQuiet-Emits (IsQuiet-pure false)
    write_chunks-Obeys id path (content ∷ []) =
        Emits-bind (send-Emits _ (part id path content false on)) λ _.
          Emits-bind (IsQuiet-Emits (receive_main_message-IsQuiet 2500))
            λ r. IsQuiet-Emits (IsQuiet-pure _)
    write_chunks-Obeys id path (content ∷ following ∷ parts) =
        Emits-bind (send-Emits _ (part id path content true on)) λ _.
          Emits-bind (IsQuiet-Emits (pass_time-IsQuiet _))
            λ _. write_chunks-Obeys id path (following ∷ parts)

    next_id-Obeys : Obeys get_next_command_id
    unfolding get_next_command_id
    next_id-Obeys = record { at = λ w h. h }

    pub storage_write-Obeys : (path : Text) (content : Bytes) → Obeys (storage_write path content)
    unfolding storage_write storage_write_internal
    storage_write-Obeys path content =
        Emits-except
          (Emits-wait_for _ (
            Emits-except
              (Emits-bind
                (SendsOnly-Emits 10
                  (SendsOnly-map (λ m. negotiation) 10 ensure_rpc_session_started-SendsOnly))
                λ _. Emits-bind next_id-Obeys λ id. write_chunks-Obeys id path _)
              (IsQuiet-Emits (IsQuiet-pure false))))
          (IsQuiet-Emits (IsQuiet-pure false))
