-- ===== src/Tools/Common/Sent.antt =====
-- What the steps that tools share put on the wire: connecting sends nothing.
use mathlib.Core.Path.{subst}
use flipperzero_mcp.Base.{
  List, some, none, Option, false, true, Bool, sym, refl, ◌≡◌, ℕ, Bytes, if◌then◌else◌,
}
use flipperzero_mcp.Action.{F, continue, ◌>>=◌}
use flipperzero_mcp.Action.Keeps.{Keeps, Keeps-pure, Keeps-raise, Keeps-if, Keeps-bind}
use flipperzero_mcp.Client.{
  exception, Client, connect, disconnect, close_after, caught, is_os_or_runtime,
}
use flipperzero_mcp.Tools.Common.{
  relinked, Attempt, classified_end, get_rpc, ensure_connected, after_check, reconnect, on_link,
  requested, present, require, connected_or_raise, rpc_or_raise,
}
use flipperzero_mcp.Link.Sends.{Adds-same, Adds, SendsOnly}
use flipperzero_mcp.Link.{Reason, Link, cancelled, raised, ok, Result, Exn, M}

-- The messages sent so far are these.
abbrev pub HasSent : List Bytes → Client → Type 0
HasSent l cl = cl.link.sent ≡ l

module _ {l : List Bytes} where
  caught-HasSent :
      {A : Type 0} (e : Exn) (a : A) (cl : Client) → HasSent l cl → HasSent l (caught e a cl).1
  caught-HasSent {A = A} e a cl h = by_class (is_os_or_runtime e)
    where
      by_class :
          (b : Bool)
          → HasSent l
              (if◌then◌else◌ {A = Result A × Client} b
                (ok a, record cl { last_connection_error = some (exception e) })
                (raised e, cl)).1
      by_class true = h
      by_class false = h

  pub connect-HasSent : (r : Result Bool) → Keeps (HasSent l) (connect r)
  unfolding connect
  connect-HasSent (ok true) = record { at = λ cl h. h }
  connect-HasSent (ok false) = record { at = λ cl h. h }
  connect-HasSent (raised e) = record { at = λ cl h. caught-HasSent e false cl h }
  connect-HasSent cancelled = record { at = λ cl h. h }

  close_after-HasSent :
      (r : Result (Unit {0})) (cl : Client) → HasSent l cl → HasSent l (close_after (r, cl)).1
  unfolding close_after
  close_after-HasSent (ok tt) cl h = h
  close_after-HasSent (raised e) cl h = h
  close_after-HasSent cancelled cl h = h

  pub disconnect-HasSent : (r : Result (Unit {0})) → Keeps (HasSent l) (disconnect r)
  unfolding disconnect
  disconnect-HasSent (ok tt) = record { at = λ cl h. close_after-HasSent (ok tt) cl h }
  disconnect-HasSent (raised e) = record {
    at = λ cl h.
        close_after-HasSent (caught e tt cl).0 (caught e tt cl).1 (caught-HasSent e tt cl h);
  }
  disconnect-HasSent cancelled = record { at = λ cl h. h }

  reconnect-HasSent : (attempt : Attempt) → Keeps (HasSent l) (reconnect attempt)
  unfolding reconnect
  reconnect-HasSent attempt =
      Keeps-bind _ _ (disconnect-HasSent attempt.disconnects)
        λ _. Keeps-bind _ _ (connect-HasSent attempt.connects) λ up. raised_or_not up
    where
      raised_or_not : (up : Bool) → Keeps (HasSent l) (connected_or_raise up)
      raised_or_not true = Keeps-pure tt
      raised_or_not false = Keeps-raise _

  after_check-HasSent :
      (attempt : Attempt) (r : Result Bool) → Keeps (HasSent l) (after_check attempt r)
  unfolding after_check
  after_check-HasSent attempt (ok true) = Keeps-pure tt
  after_check-HasSent attempt (ok false) = reconnect-HasSent attempt
  after_check-HasSent attempt (raised e) =
      Keeps-if (is_os_or_runtime e) _ _ (reconnect-HasSent attempt) (Keeps-raise e)
  after_check-HasSent attempt cancelled = record { at = λ cl h. h }

  pub ensure_connected-HasSent : (attempt : Attempt) → Keeps (HasSent l) (ensure_connected attempt)
  unfolding ensure_connected
  ensure_connected-HasSent attempt = after_check-HasSent attempt attempt.is_connected

  rpc_or_raise-HasSent : Keeps (HasSent l) rpc_or_raise
  rpc_or_raise-HasSent = record { at = λ cl h. by_rpc cl cl.has_rpc h }
    where
      by_rpc :
          (cl : Client) (b : Bool)
          → HasSent l cl
          → HasSent l
              (if◌then◌else◌ {A = Result (Unit {0}) × Client} b
                (ok tt, cl)
                (raised Exn.flipper_not_connected, cl)).1
      by_rpc cl true h = h
      by_rpc cl false h = h

  pub get_rpc-HasSent : (attempt : Attempt) → Keeps (HasSent l) (get_rpc attempt)
  unfolding get_rpc
  get_rpc-HasSent attempt =
      Keeps-bind _ _ (ensure_connected-HasSent attempt) λ _. rpc_or_raise-HasSent

-- An action of the client sends at most `n` messages, each of the kind `P`.
pub record ToolSends {A : Type 0} (P : Bytes → Type 0) (n : ℕ) (m : F Client A) : Type 0 where
  pub at : (cl : Client) → Adds P n cl.link.sent (m cl).1.link.sent

module _ {P : Bytes → Type 0} (n : ℕ) {A : Type 0} where
  classified-Adds :
      (l : List Bytes) (cl : Client) (p : Result A × Link)
      → Adds P n l p.1.sent
      → Adds P n l (classified_end (relinked cl p)).1.link.sent
  unfolding classified_end
  classified-Adds l cl (ok a, w) h = h
  classified-Adds l cl (raised e, w) h = h
  classified-Adds l cl (cancelled, w) h = h

  after_rpc-Adds :
      (l : List Bytes) (r : Result (Unit {0}) × Client) (m : M A)
      → HasSent l r.1
      → SendsOnly P n m
      → Adds P n l (classified_end (continue r (λ _. on_link m))).1.link.sent
  unfolding classified_end on_link
  after_rpc-Adds l (ok tt, u) m h p =
      subst (λ k. Adds P n k (classified_end (relinked u (m u.link))).1.link.sent) h
        (classified-Adds u.link.sent u (m u.link) (p.at u.link))
  after_rpc-Adds l (raised e, u) m h p = Adds-same n (sym h)
  after_rpc-Adds l (cancelled, u) m h p = Adds-same n (sym h)

  pub requested-ToolSends :
      (attempt : Attempt) {m : M A} → SendsOnly P n m → ToolSends P n (requested attempt m)
  unfolding requested
  requested-ToolSends attempt {m = m} p = record {
    at = λ cl.
        after_rpc-Adds cl.link.sent (get_rpc attempt cl) m ((get_rpc-HasSent attempt).at cl refl) p;
  }

  -- What follows a request only looks at the answer.
  pub ToolSends-then :
      {B : Type 0} {m : F Client A} (f : A → F Client B)
      → ToolSends P n m
      → ((a : A) (cl : Client) → (f a cl).1.link.sent ≡ cl.link.sent)
      → ToolSends P n (m >>= f)
  ToolSends-then {B = B} {m = m} f p q = record { at = λ cl. by_end cl.link.sent (m cl) (p.at cl) }
    where
      by_end :
          (l : List Bytes) (r : Result A × Client)
          → Adds P n l r.1.link.sent
          → Adds P n l (continue r f).1.link.sent
      by_end l (ok a, u) h = subst (Adds P n l) (sym (q a u)) h
      by_end l (raised e, u) h = h
      by_end l (cancelled, u) h = h

pub present-sent :
    {A : Type 0} (reason : Reason) (o : Option A) (cl : Client)
    → (present reason o cl).1.link.sent ≡ cl.link.sent
present-sent reason none cl = refl
present-sent reason (some a) cl = refl

pub require-sent :
    (b : Bool) (reason : Reason) (cl : Client) → (require b reason cl).1.link.sent ≡ cl.link.sent
require-sent true reason cl = refl
require-sent false reason cl = refl
