-- ===== src/Cli/Exec/Sent.antt =====
-- What `cli_exec` puts on the wire, and what its result says of the output.
use mathlib.Core.Path.{subst}
use flipperzero_mcp.Cli.Exec.Line.{has_any-IsUnbroken, encode-IsUnbroken, Holds, IsUnbroken}
use flipperzero_mcp.Cli.Exec.Gate.{cli_exec-Permits, Permits}
use flipperzero_mcp.Client.{LinkMode, Client}
use flipperzero_mcp.Cli.Risk.{classify, Risk, Case}
use flipperzero_mcp.Rpc.Session.{set_started, cancel_line, send_stop_session}
use flipperzero_mcp.Rpc.Frame.{frame}
use flipperzero_mcp.Proto.{Content, request, Codec}
use flipperzero_mcp.Link.Send.{send_returned}
use flipperzero_mcp.Link.Quiet.{
  drain_host_rx-IsQuiet, clear_receive_buffer-IsQuiet, accept-IsQuiet, IsQuiet-if, IsQuiet-pure,
  pass_time-IsQuiet, IsQuiet-bind, OnlyReads, IsQuiet,
}
use flipperzero_mcp.Cli.Exec.{
  cli_exec, CliExecResult, after_stop, cli_exchange, relink, encode, send_line, at_prompt, converse,
  after_chunk, read_until_prompt, read_prompt,
}
use flipperzero_mcp.Link.{
  Outcome-cases, cancelled, raised, Result, clear_receive_buffer, accept, send, >>=-returned,
  pass_time, ◌>>=◌, pure, M, ok, Arrival, Link,
}
use flipperzero_mcp.Base.{
  refl, append_assoc, append-nil, ◌++◌, ◌∷◌, [], List, some, false, Bool, inr, inl, ◌∙◌, ap, sym,
  ◌≡◌, min, ◌-◌, ◌+◌, ℕ, Text, Bytes, Option-cases, Bool-cases, leb,
}

read_prompt-OnlyReads :
    (s : List Arrival) (buf : Bytes) (stop : ℕ) (w : Link)
    → OnlyReads w (read_prompt s buf stop w).1
unfolding read_prompt after_chunk
read_prompt-OnlyReads [] buf stop w =
    (IsQuiet-bind (pass_time (stop - w.clock)) (λ _. pure (buf, false))
        (pass_time-IsQuiet (stop - w.clock)) (λ _. IsQuiet-pure (buf, false))).at
      (record w { incoming = [] })
read_prompt-OnlyReads (a ∷ rest) buf stop w = elim (Bool-cases (leb stop w.clock)) [
  | inl done ↦ rw done
  | inr more ↦ rw more ((round (λ b. record { at = read_prompt-OnlyReads rest b stop })).at w)
]
  where
    look :
        ((b : Bytes) → IsQuiet (read_prompt rest b stop))
        → (chunk : Bytes)
        → IsQuiet (after_chunk chunk (buf ++ chunk) (read_prompt rest (buf ++ chunk) stop))
    look more [] = more (buf ++ [])
    look more (x ∷ xs) =
        IsQuiet-if (at_prompt (buf ++ x ∷ xs)) _ _ (IsQuiet-pure _) (more (buf ++ x ∷ xs))

    round :
        ((b : Bytes) → IsQuiet (read_prompt rest b stop))
        → IsQuiet (do
          chunk ← accept (a ∷ rest) (min 200 (stop - w.clock))
          after_chunk chunk (buf ++ chunk) (read_prompt rest (buf ++ chunk) stop))
    round more = IsQuiet-bind _ _ (accept-IsQuiet (a ∷ rest) (min 200 (stop - w.clock))) (look more)

pub read_until_prompt-IsQuiet : (timeout : ℕ) → IsQuiet (read_until_prompt timeout)
unfolding read_until_prompt
read_until_prompt-IsQuiet timeout = record {
  at = λ w. read_prompt-OnlyReads w.incoming [] (w.clock + timeout) w;
}

-- What was sent by a run that returned: the log before, and these messages.
record Sent {A : Type 0} (m : M A) (messages : List Bytes) : Type 0 where
  pub at : (w : Link) {a : A} {u : Link} → m w ≡ (ok a, u) → u.sent ≡ w.sent ++ messages

module _ {A : Type 0} where
  IsQuiet-Sent : {m : M A} → IsQuiet m → Sent m []
  IsQuiet-Sent {m = m} q = record {
    at = λ w h. ap (λ r. r.1.sent) (sym h) ∙ ap (λ u. u.sent) (q.at w) ∙ sym (append-nil w.sent);
  }

  Sent-bind :
      {B : Type 0} {m : M A} {f : A → M B} (l r : List Bytes)
      → Sent m l
      → ((a : A) → Sent (f a) r)
      → Sent (m >>= f) (l ++ r)
  Sent-bind {m = m} {f = f} l r p q = record {
    at = λ w h.
        >>=-returned m f w h
          λ a v e e'. (q a).at v e' ∙ ap (λ s. s ++ r) (p.at w e) ∙ append_assoc w.sent l r;
  }

send-Sent : (message : Bytes) → Sent (send message) (message ∷ [])
send-Sent message = record { at = λ w h. ap (λ u. u.sent) (send_returned message w h) }

module _ ⦃c : Codec⦄ where
  -- The frame of the StopSession request.
  abbrev pub stop_frame : Bytes
  stop_frame = frame (request 0 Content.stop_session)

  send_stop_session-Sent : Sent send_stop_session (stop_frame ∷ [])
  unfolding send_stop_session set_started
  send_stop_session-Sent = Sent-bind (stop_frame ∷ []) [] (send-Sent stop_frame) λ _.
      Sent-bind [] [] (IsQuiet-Sent (drain_host_rx-IsQuiet 400))
        λ _. record { at = λ w h. ap (λ r. r.1.sent) (sym h) ∙ sym (append-nil w.sent) }

converse-Sent :
    (command : Text) (timeout : ℕ) (bytes : Bytes)
    → encode command ≡ some bytes
    → Sent (converse command timeout) (cancel_line ∷ (bytes ++ 13 ∷ []) ∷ [])
unfolding converse send_line
converse-Sent command timeout bytes e = rw e (
    Sent-bind [] (cancel_line ∷ (bytes ++ 13 ∷ []) ∷ []) (IsQuiet-Sent clear_receive_buffer-IsQuiet)
      λ _. Sent-bind (cancel_line ∷ []) ((bytes ++ 13 ∷ []) ∷ []) (send-Sent cancel_line) λ _.
        Sent-bind [] ((bytes ++ 13 ∷ []) ∷ []) (IsQuiet-Sent (read_until_prompt-IsQuiet 2000)) λ _.
          Sent-bind [] ((bytes ++ 13 ∷ []) ∷ []) (IsQuiet-Sent clear_receive_buffer-IsQuiet) λ _.
            Sent-bind ((bytes ++ 13 ∷ []) ∷ []) [] (send-Sent (bytes ++ 13 ∷ []))
              λ _. IsQuiet-Sent (read_until_prompt-IsQuiet timeout))

-- An exchange that comes back with output had a line to send.
converse-encoded :
    (command : Text) (timeout : ℕ) (w : Link) {r : Bytes × Bool} {u : Link}
    → converse command timeout w ≡ (ok r, u)
    → (bytes : Bytes) × (encode command ≡ some bytes)
unfolding converse send_line
converse-encoded command timeout w h = elim (Option-cases (encode command)) [
  | inr (bytes, e) ↦ (bytes, e)
  | inl e ↦ >>=-returned clear_receive_buffer _ w (rw e at h) λ _ u _ h.
      >>=-returned (send cancel_line) _ u h λ _ u _ h.
        >>=-returned (read_until_prompt 2000) _ u h
          λ _ u _ h. >>=-returned clear_receive_buffer _ u h λ _ u _ h. cc h
]

-- The exchange as facts: the link after the StopSession, and after the conversation.
relink-ok :
    {C : Type 0} (p : Result (Bytes × Bool) × Link) (risk : Risk) (cl : Client) {r : CliExecResult}
    {cl' : Client}
    → relink cl p risk ≡ (ok r, cl')
    → ((b : Bytes × Bool) (u : Link)
        → p ≡ (ok b, u)
        → (cl'.link ≡ u)
        → (cl'.mode ≡ cl.mode)
        → (r.raw ≡ b.0)
        → (r.completed ≡ b.1)
        → C)
    → C
unfolding relink
relink-ok (ok b, u) risk cl h k = k b u refl (cc h) (cc h) (cc h) (cc h)
relink-ok (raised e, u) risk cl h k = cc h
relink-ok (cancelled, u) risk cl h k = cc h

module _ ⦃c : Codec⦄ where
  pub cli_exchange-ok :
      {C : Type 0} (command : Text) (timeout : ℕ) (risk : Risk) (cl : Client) {r : CliExecResult}
      {cl' : Client}
      → cli_exchange command timeout risk cl ≡ (ok r, cl')
      → ((w : Link) (b : Bytes × Bool) (u : Link)
          → send_stop_session cl.link ≡ (ok tt, w)
          → converse command timeout w ≡ (ok b, u)
          → (cl'.link ≡ u)
          → (cl'.mode ≡ LinkMode.cli)
          → (r.raw ≡ b.0)
          → (r.completed ≡ b.1)
          → C)
      → C
  unfolding cli_exchange after_stop
  cli_exchange-ok command timeout risk cl h k = elim (Outcome-cases (send_stop_session cl.link)) [
    | inl (x, w, e) ↦
        relink-ok (converse command timeout w) risk (record cl { mode = LinkMode.cli }) (rw e at h)
          λ b u e'. k w b u e e'
    | inr (inl (x, w, e)) ↦ cc (rw e at h)
    | inr (inr (w, e)) ↦ cc (rw e at h)
  ]

  -- A `cli_exec` that returns was permitted, and has sent three messages: StopSession, Ctrl-C with CR,
  -- and the command in UTF-8 with CR. The command has no line break, so it is one line to the device,
  -- which is left in CLI mode.
  pub cli_exec-Sent :
      ⦃k : Case⦄
      → (command : Text) (timeout : ℕ) (accept_responsibility tx_tools_enabled : Bool) (cl : Client)
        {r : CliExecResult} {cl' : Client}
      → cli_exec command timeout accept_responsibility tx_tools_enabled cl ≡ (ok r, cl')
      → Permits command accept_responsibility tx_tools_enabled cl
        × ((bytes : Bytes) × (encode command ≡ some bytes)
            × IsUnbroken bytes
            × (cl'.link.sent ≡ cl.link.sent ++ stop_frame ∷ cancel_line ∷ (bytes ++ 13 ∷ []) ∷ []))
        × (cl'.mode ≡ LinkMode.cli)
  cli_exec-Sent command timeout a t cl h = elim (cli_exec-Permits command timeout a t cl) [
    | inr (x, e) ↦ cc (e, h)
    | inl (permitted, same) ↦
        cli_exchange-ok command timeout (classify command) cl (sym same ∙ h)
          λ w b u e e' link mode raw completed.
            let (bytes, encoded) = converse-encoded command timeout w e' in
            (
              permitted,
              (
                bytes,
                encoded,
                subst (Holds IsUnbroken) encoded
                    (encode-IsUnbroken command (has_any-IsUnbroken command permitted.2)),
                ap (λ u. u.sent) link
                    ∙ (converse-Sent command timeout bytes encoded).at w e'
                    ∙ ap (λ s. s ++ cancel_line ∷ (bytes ++ 13 ∷ []) ∷ [])
                        (send_stop_session-Sent.at cl.link e)
                    ∙ append_assoc cl.link.sent (stop_frame ∷ [])
                        (cancel_line ∷ (bytes ++ 13 ∷ []) ∷ []),
              ),
              mode,
            )
  ]
