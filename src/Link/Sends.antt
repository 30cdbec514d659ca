-- ===== src/Link/Sends.antt =====
-- What actions put on the wire, however they end: messages of one kind, and no more than so many.
use mathlib.Core.Path.{subst}
use flipperzero_mcp.Link.Quiet.{pass_time-IsQuiet, IsQuiet}
use flipperzero_mcp.Link.{
  lift_deadline, wait_for, send, deliver, handle, continue, except, ◌>>=◌, M, cancelled, raised, ok,
  Result, refused, delivered, Delivery, Link,
}
use flipperzero_mcp.Base.{
  some, arith, append_assoc, append-nil, ◌++◌, ◌∷◌, [], List, ap, sym, refl, ◌≡◌, ◌≤◌, ◌+◌, ℕ,
  Bytes, All-append, All, length-append, length,
}

pub record Adds (P : Bytes → Type 0) (n : ℕ) (before after : List Bytes) : Type 0 where
  pub extra : List Bytes
  pub appended : after ≡ before ++ extra
  pub kind : All P extra
  pub few : length extra ≤ n

-- The action sends at most `n` messages, all of the kind `P`.
pub record SendsOnly {A : Type 0} (P : Bytes → Type 0) (n : ℕ) (m : M A) : Type 0 where
  pub at : (w : Link) → Adds P n w.sent (m w).1.sent

module _ {P : Bytes → Type 0} where
  Adds-none : (n : ℕ) (l : List Bytes) → Adds P n l l
  Adds-none n l = record { extra = []; appended = sym (append-nil l); kind = tt; few = omega arith }

  pub Adds-same : (n : ℕ) {l r : List Bytes} → l ≡ r → Adds P n l r
  Adds-same n {l = l} e = subst (Adds P n l) e (Adds-none n l)

  Adds-trans : (n k : ℕ) {l m r : List Bytes} → Adds P n l m → Adds P k m r → Adds P (n + k) l r
  Adds-trans n k {l = l} a b = record {
    extra = a.extra ++ b.extra;
    appended = cc (a.appended, b.appended, append_assoc l a.extra b.extra);
    kind = All-append P a.extra b.extra a.kind b.kind;
    few = omega (arith, a.few, b.few, length-append a.extra b.extra);
  }

  Adds-weaken : (n k : ℕ) {l m : List Bytes} → Adds P n l m → Adds P (n + k) l m
  Adds-weaken n k a = record {
    extra = a.extra;
    appended = a.appended;
    kind = a.kind;
    few = omega (arith, a.few);
  }

  module _ {A : Type 0} where
    pub IsQuiet-SendsOnly : {m : M A} → IsQuiet m → SendsOnly P 0 m
    IsQuiet-SendsOnly {m = m} q = record { at = λ w. Adds-same 0 (sym (ap (λ u. u.sent) (q.at w))) }

    pub SendsOnly-weaken : (n k : ℕ) {m : M A} → SendsOnly P n m → SendsOnly P (n + k) m
    SendsOnly-weaken n k s = record { at = λ w. Adds-weaken n k (s.at w) }

    handle-Adds :
        (n k : ℕ) (l : List Bytes) (r : Result A × Link) {h : M A}
        → Adds P n l r.1.sent
        → SendsOnly P k h
        → Adds P (n + k) l (handle r h).1.sent
    handle-Adds n k l (ok a, u) p q = Adds-weaken n k p
    handle-Adds n k l (raised e, u) p q = Adds-trans n k p (q.at u)
    handle-Adds n k l (cancelled, u) p q = Adds-weaken n k p

    pub SendsOnly-except :
        (n k : ℕ) {m h : M A} → SendsOnly P n m → SendsOnly P k h → SendsOnly P (n + k) (except m h)
    SendsOnly-except n k {m = m} p q = record { at = λ w. handle-Adds n k w.sent (m w) (p.at w) q }

  module _ {A B : Type 0} where
    continue-Adds :
        (n k : ℕ) (l : List Bytes) (r : Result A × Link) {f : A → M B}
        → Adds P n l r.1.sent
        → ((a : A) → SendsOnly P k (f a))
        → Adds P (n + k) l (continue r f).1.sent
    continue-Adds n k l (ok a, u) p q = Adds-trans n k p ((q a).at u)
    continue-Adds n k l (raised e, u) p q = Adds-weaken n k p
    continue-Adds n k l (cancelled, u) p q = Adds-weaken n k p

    pub SendsOnly-bind :
        (n k : ℕ) {m : M A} {f : A → M B}
        → SendsOnly P n m
        → ((a : A) → SendsOnly P k (f a))
        → SendsOnly P (n + k) (m >>= f)
    SendsOnly-bind n k {m = m} p q = record { at = λ w. continue-Adds n k w.sent (m w) (p.at w) q }

  one : (message : Bytes) → P message → (l : List Bytes) → Adds P 1 l (l ++ message ∷ [])
  one message p l = record {
    extra = message ∷ [];
    appended = refl;
    kind = (p, tt);
    few = omega arith;
  }

  deliver-Adds :
      (s : List Delivery) (message : Bytes)
      → P message
      → (w : Link) → Adds P 1 w.sent (deliver s message w).1.sent
  unfolding deliver
  deliver-Adds [] message p w = one message p w.sent
  deliver-Adds (delivered dt ∷ rest) message p w =
      subst (Adds P 1 w.sent)
        (sym (
          ap (λ u. u.sent)
            ((pass_time-IsQuiet dt).at
              (record w { outgoing = rest; sent = w.sent ++ message ∷ [] }))))
        (one message p w.sent)
  deliver-Adds (refused e ∷ rest) message p w = Adds-none 1 w.sent

  pub send-SendsOnly : (message : Bytes) → P message → SendsOnly P 1 (send message)
  unfolding send
  send-SendsOnly message p = record { at = λ w. deliver-Adds w.outgoing message p w }

  module _ {A : Type 0} where
    lift_deadline-Adds :
        (n : ℕ) (l : List Bytes) (r : Result A × Link)
        → Adds P n l r.1.sent
        → Adds P n l (lift_deadline r).1.sent
    lift_deadline-Adds n l (ok a, u) p = p
    lift_deadline-Adds n l (raised e, u) p = p
    lift_deadline-Adds n l (cancelled, u) p = p

    pub SendsOnly-wait_for :
        (n timeout : ℕ) {m : M A} → SendsOnly P n m → SendsOnly P n (wait_for timeout m)
    SendsOnly-wait_for n timeout {m = m} p = record {
      at = λ w.
          let begun = record w { deadline = some (w.clock + timeout) } in
          lift_deadline-Adds n w.sent (m begun) (p.at begun);
    }

module _ {P Q : Bytes → Type 0} (narrower : (message : Bytes) → P message → Q message) where
  pub All-map : (l : List Bytes) → All P l → All Q l
  All-map [] h = tt
  All-map (message ∷ l) h = (narrower message h.0, All-map l h.1)

  pub SendsOnly-map : {A : Type 0} (n : ℕ) {m : M A} → SendsOnly P n m → SendsOnly Q n m
  SendsOnly-map n {m = m} p = record {
    at = λ w.
        let a = p.at w in
        record {
          extra = a.extra;
          appended = a.appended;
          kind = All-map a.extra a.kind;
          few = a.few;
        };
  }
