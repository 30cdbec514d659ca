-- ===== src/Link/Emits.antt =====
-- Actions that keep to one kind of message, however many they send and however they end.
use mathlib.Core.Path.{subst}
use flipperzero_mcp.Link.{
  send, lift_deadline, handle, continue, wait_for, except, ◌>>=◌, M, cancelled, raised, ok, Result,
  Link,
}
use flipperzero_mcp.Base.{some, sym, ◌+◌, ℕ, Bytes, All-append, All}
use flipperzero_mcp.Link.Quiet.{IsQuiet}
use flipperzero_mcp.Link.Sends.{SendsOnly, IsQuiet-SendsOnly, send-SendsOnly}

-- If the messages sent so far are of the kind `P`, those sent by the action are too.
pub record Emits {A : Type 0} (P : Bytes → Type 0) (m : M A) : Type 0 where
  pub at : (w : Link) → All P w.sent → All P (m w).1.sent

lift_deadline-All :
    {A : Type 0} (P : Bytes → Type 0) (r : Result A × Link)
    → All P r.1.sent
    → All P (lift_deadline r).1.sent
lift_deadline-All P (ok a, u) p = p
lift_deadline-All P (raised e, u) p = p
lift_deadline-All P (cancelled, u) p = p

module _ {P : Bytes → Type 0} where
  module _ {A : Type 0} where
    pub SendsOnly-Emits : (n : ℕ) {m : M A} → SendsOnly P n m → Emits P m
    SendsOnly-Emits n {m = m} p = record {
      at = λ w h.
          let a = p.at w in subst (All P) (sym a.appended) (All-append P w.sent a.extra h a.kind);
    }

    pub IsQuiet-Emits : {m : M A} → IsQuiet m → Emits P m
    IsQuiet-Emits q = SendsOnly-Emits 0 (IsQuiet-SendsOnly q)

    handle-Emits :
        (r : Result A × Link) {h : M A} → All P r.1.sent → Emits P h → All P (handle r h).1.sent
    handle-Emits (ok a, u) p q = p
    handle-Emits (raised e, u) p q = q.at u p
    handle-Emits (cancelled, u) p q = p

    pub Emits-except : {m h : M A} → Emits P m → Emits P h → Emits P (except m h)
    Emits-except {m = m} p q = record { at = λ w h. handle-Emits (m w) (p.at w h) q }

    pub Emits-wait_for : (timeout : ℕ) {m : M A} → Emits P m → Emits P (wait_for timeout m)
    Emits-wait_for timeout {m = m} p = record {
      at = λ w h.
          let begun = record w { deadline = some (w.clock + timeout) } in
          lift_deadline-All P (m begun) (p.at begun h);
    }

  module _ {A B : Type 0} where
    continue-Emits :
        (r : Result A × Link) {f : A → M B}
        → All P r.1.sent
        → ((a : A) → Emits P (f a))
        → All P (continue r f).1.sent
    continue-Emits (ok a, u) p q = (q a).at u p
    continue-Emits (raised e, u) p q = p
    continue-Emits (cancelled, u) p q = p

    pub Emits-bind :
        {m : M A} {f : A → M B} → Emits P m → ((a : A) → Emits P (f a)) → Emits P (m >>= f)
    Emits-bind {m = m} p q = record { at = λ w h. continue-Emits (m w) (p.at w h) q }

  pub send-Emits : (message : Bytes) → P message → Emits P (send message)
  send-Emits message p = SendsOnly-Emits 1 (send-SendsOnly message p)
