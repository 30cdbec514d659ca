-- ===== src/Rpc/Call/Exchange.antt =====
-- A call in a started session, to a device that answers in time.
use mathlib.Core.Path.{subst}
use flipperzero_mcp.Base.{
  ◌++◌, ◌∷◌, [], some, none, Option, false, true, sym, ◌≡◌, ◌≢◌, ◌⊎◌, inl, inr, Bool, Bool-cases,
  ==_iff, ◌≤◌, ◌%◌, ◌+◌, ℕ, Bytes,
}
use flipperzero_mcp.Proto.{Main, Codec, Content, request, is_ok}
use flipperzero_mcp.Link.{except, ◌>>=◌, pure, M, ok, Result, Link}
use flipperzero_mcp.Link.Prompt.{Delivers}
use flipperzero_mcp.Link.Reading.{
  Reading-then, Reading-except-from, send_open, Reading, Reading-except, Reading-pure,
}
use flipperzero_mcp.Rpc.Frame.{frame, receive_main_message}
use flipperzero_mcp.Rpc.Frame.RoundTrip.{Fits, receive_main_message-frame}
use flipperzero_mcp.Rpc.Session.{get_next_command_id, ensure_rpc_session_started}
use flipperzero_mcp.Rpc.Call.{answer, acknowledged, limited, send_rpc_message, call, query, command}

-- The id that the next request gets.
abbrev pub next_id : Link → ℕ
next_id w = (w.command_id + 1) % 0xFFFFFFFF

-- A session is open, and sends succeed.
pub record IsOpen (w : Link) : Type 0 where
  pub started : w.rpc_session_started ≡ true
  pub sends : w.outgoing ≡ []

pub ensure_open :
    ⦃c : Codec⦄
    → (w : Link) → w.rpc_session_started ≡ true
    → ensure_rpc_session_started w ≡ (ok tt, w)
unfolding ensure_rpc_session_started
ensure_open w e = rw e

-- The action `m` begun at `w` as an action that reads at `u`, once what `m` does first is done.
pub Reading-from :
    {A : Type 0} {r r' : Result A × Link} {stop : ℕ} {rest : Bytes} (u : Link) {a : A}
    → r ≡ r'
    → Reading stop rest u a r'
    → Reading stop rest u a r
Reading-from {stop = stop} {rest = rest} u {a = a} e t = subst (Reading stop rest u a) (sym e) t

module _ ⦃c : Codec⦄ where
  -- The link once a request is on its way.
  abbrev pub after_request : Content → Link → Link
  after_request content w = record w {
    outgoing = [];
    command_id = next_id w;
    sent = w.sent ++ frame (request (next_id w) content) ∷ [];
  }

  -- The device's answer to a call is what comes next, in time.
  pub record Answers (timeout : ℕ) (reply : Main) (rest : Bytes) (w : Link) : Type 0 where
    pub stop : ℕ
    pub in_time : stop ≤ w.clock + timeout
    pub fits : Fits reply
    pub delivers : Delivers stop (frame reply ++ rest) w

  call_sends :
      (content : Content) (timeout : ℕ) (w : Link)
      → IsOpen w
      → call content timeout w
        ≡ except (receive_main_message timeout) (pure none) (after_request content w)
  unfolding call send_rpc_message get_next_command_id
  call_sends content timeout w o = rw (
    ensure_open (record w { command_id = next_id w }) o.started,
    send_open (frame (request (next_id w) content)) (record w { command_id = next_id w }) o.sends,
  )

  pub call-Reading :
      (content : Content) (timeout : ℕ) (reply : Main) (rest : Bytes) (w : Link)
      → IsOpen w
      → (a : Answers timeout reply rest w)
      → Reading a.stop rest (after_request content w) (some reply) (call content timeout w)
  call-Reading content timeout reply rest w o a =
      Reading-from (after_request content w) (call_sends content timeout w o) (
        Reading-except (receive_main_message timeout) (pure none) (after_request content w) (
          receive_main_message-frame reply timeout a.stop rest (after_request content w) a.fits
            a.in_time
            (record {
              all_of_it = a.delivers.all_of_it;
              prompt = a.delivers.prompt;
              allowed = a.delivers.allowed;
            })))

  query-answer :
      {A : Type 0} (content : Content) (timeout : ℕ) (field : Content → Option A) (reply : Main)
      (rest : Bytes) (w : Link)
      → IsOpen w
      → (a : Answers timeout reply rest w)
      → Reading a.stop rest
          (after_request content w)
          (answer field (some reply))
          (query content timeout field w)
  unfolding query
  query-answer content timeout field reply rest w o a =
      Reading-except-from (call content timeout >>= λ r. pure (answer field r)) (pure none) w
        (after_request content w)
        (Reading-then (call content timeout) (λ r. pure (answer field r)) w
          (after_request content w) (call-Reading content timeout reply rest w o a)
          λ u later d. Reading-pure u _ d)

  -- In an open session where sends succeed, a query to which the device answers in time sends its
  -- request under the next id and nothing else, takes the answer and leaves what follows it, and
  -- returns the field of the answer if the status of that is OK, and None if the status is another,
  -- whatever the answer holds.
  pub query-Reading :
      {A : Type 0} (content : Content) (timeout : ℕ) (field : Content → Option A) (reply : Main)
      (rest : Bytes) (w : Link)
      → IsOpen w
      → (a : Answers timeout reply rest w)
      → ((reply.command_status ≡ 0)
          × Reading a.stop rest
              (after_request content w)
              (field reply.content)
              (query content timeout field w))
        ⊎ ((reply.command_status ≢ 0)
            × Reading a.stop rest (after_request content w) none (query content timeout field w))
  query-Reading content timeout field reply rest w o a = elim (Bool-cases (is_ok reply)) [
    | inl y ↦ inl (
      (==_iff reply.command_status 0).0 y,
      rw y at (query-answer content timeout field reply rest w o a),
    )
    | inr n ↦ inr (
      λ e. unequal ((==_iff reply.command_status 0).1 e) n,
      rw n at (query-answer content timeout field reply rest w o a),
    )
  ]
    where
      unequal : {b : Bool} → b ≡ true → b ≡ false → ⊥
      unequal y n = cc (y, n)

  pub command-Reading :
      (content : Content) (reply : Main) (rest : Bytes) (w : Link)
      → IsOpen w
      → (a : Answers 2500 reply rest w)
      → Reading a.stop rest
          (after_request content w)
          (acknowledged (some reply))
          (command content w)
  unfolding command
  command-Reading content reply rest w o a =
      Reading-except-from (call content 2500 >>= λ r. pure (acknowledged r)) (pure false) w
        (after_request content w)
        (Reading-then (call content 2500) (λ r. pure (acknowledged r)) w (after_request content w)
          (call-Reading content 2500 reply rest w o a) λ u later d. Reading-pure u _ d)

-- A body that ends before the deadline of `wait_for` is not cut short.
pub limited-ended :
    {A : Type 0} (timeout : ℕ) (default : A) (m : M A) (w : Link) {a : A} {u : Link}
    → m (record w { deadline = some (w.clock + timeout) }) ≡ (ok a, u)
    → limited timeout default m w ≡ (ok a, record u { deadline = none })
limited-ended timeout default m w e = rw e
