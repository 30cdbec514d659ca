-- ===== src/Tools/Common/Reports.antt =====
-- Actions that raise nothing but a ToolError.
use flipperzero_mcp.Tools.Common.{
  classify_client_error, require, classified, present, classified_end,
}
use flipperzero_mcp.Link.{cancelled, ok, tool_error, raised, Result, Reason, Exn}
use flipperzero_mcp.Base.{some, none, Option, false, true, Bool, ◌≡◌}
use flipperzero_mcp.Action.{F, pure, raise, continue, ◌>>=◌}

-- Whatever the action raises is a ToolError.
pub record Reports {S A : Type 0} (m : F S A) : Type 0 where
  pub at :
      (s : S) {e : Exn} {u : S} → m s ≡ (raised e, u) → (reason : Reason) × (e ≡ tool_error reason)

module _ {S : Type 0} where
  module _ {A : Type 0} where
    pub Reports-pure : (a : A) → Reports {S = S} (pure a)
    Reports-pure a = record { at = λ s h. cc h }

    pub Reports-raise : (reason : Reason) → Reports {S = S} {A = A} (raise (tool_error reason))
    Reports-raise reason = record { at = λ s h. (reason, exn_eq h) }
      where
        exn_eq : {e x : Exn} {s u : S} → ◌≡◌ {A = Result A × S} (raised e, s) (raised x, u) → x ≡ e
        exn_eq h = cc h

    pub Reports-present : (reason : Reason) (o : Option A) → Reports {S = S} (present reason o)
    Reports-present reason none = Reports-raise reason
    Reports-present reason (some a) = Reports-pure a

    pub Reports-classified : (m : F S A) → Reports (classified m)
    unfolding classified_end
    Reports-classified m = record { at = λ s h. by_end (m s) h }
      where
        by_end :
            (r : Result A × S) {e : Exn} {u : S}
            → classified_end r ≡ (raised e, u)
            → (reason : Reason) × (e ≡ tool_error reason)
        by_end (ok a, s) h = cc h
        by_end (raised x, s) h = (classify_client_error x, cc h)
        by_end (cancelled, s) h = cc h

  pub Reports-require : (b : Bool) (reason : Reason) → Reports {S = S} (require b reason)
  Reports-require true reason = Reports-pure tt
  Reports-require false reason = Reports-raise reason

  module _ {A B : Type 0} where
    pub Reports-bind :
        {m : F S A} {f : A → F S B} → Reports m → ((a : A) → Reports (f a)) → Reports (m >>= f)
    Reports-bind {m = m} {f = f} p q = record { at = λ s h. by_end (m s) (λ x v q. p.at s q) h }
      where
        by_end :
            (r : Result A × S) {e : Exn} {u : S}
            → ((x : Exn) (v : S) → r ≡ (raised x, v) → (reason : Reason) × (x ≡ tool_error reason))
            → continue r f ≡ (raised e, u)
            → (reason : Reason) × (e ≡ tool_error reason)
        by_end (ok a, s) p h = (q a).at s h
        by_end (raised x, s) {e = e} {u = u} p h = p e u (cc h)
        by_end (cancelled, s) p h = cc h
