-- ===== src/Action/Keeps.antt =====
-- What actions keep of their state, however they end.
use flipperzero_mcp.Link.{cancelled, Result, Exn}
use flipperzero_mcp.Base.{refl, ◌≡◌, false, true, Bool, if◌then◌else◌}
use flipperzero_mcp.Action.{raised, ok, F, pure, raise, continue, handle, ◌>>=◌}

module _ {D : Type 0} (Q : D → Type 0) where
  -- The action keeps the property, however it ends.
  pub record Keeps {A : Type 0} (m : F D A) : Type 0 where
    pub at : (d : D) → Q d → Q (m d).1

module _ {D : Type 0} {Q : D → Type 0} where
  module _ {A : Type 0} where
    pub Keeps-pure : (a : A) → Keeps Q (pure a)
    Keeps-pure a = record { at = λ d q. q }

    pub Keeps-raise : (e : Exn) → Keeps Q (raise {A = A} e)
    Keeps-raise e = record { at = λ d q. q }

    pub Keeps-if : (b : Bool) (m n : F D A) → Keeps Q m → Keeps Q n → Keeps Q (if b then m else n)
    Keeps-if true m n p q = p
    Keeps-if false m n p q = q

    handle-Keeps :
        (caught : Exn → Bool) (r : Result A × D) (h : F D A)
        → Q r.1
        → Keeps Q h
        → Q (handle caught r h).1
    handle-Keeps caught (ok a, d) h q k = q
    handle-Keeps caught (raised e, d) h q k = by_class (caught e)
      where
        by_class : (b : Bool) → Q (if◌then◌else◌ {A = Result A × D} b (h d) (raised e, d)).1
        by_class true = k.at d q
        by_class false = q
    handle-Keeps caught (cancelled, d) h q k = q

    pub Keeps-handle :
        (caught : Exn → Bool) (m h : F D A)
        → Keeps Q m
        → Keeps Q h
        → Keeps Q (λ d. handle caught (m d) h)
    Keeps-handle caught m h p k = record { at = λ d q. handle-Keeps caught (m d) h (p.at d q) k }

  module _ {A B : Type 0} where
    continue-Keeps :
        (r : Result A × D) (f : A → F D B) → Q r.1 → ((a : A) → Keeps Q (f a)) → Q (continue r f).1
    continue-Keeps (ok a, d) f q k = (k a).at d q
    continue-Keeps (raised e, d) f q k = q
    continue-Keeps (cancelled, d) f q k = q

    pub Keeps-bind :
        (m : F D A) (f : A → F D B) → Keeps Q m → ((a : A) → Keeps Q (f a)) → Keeps Q (m >>= f)
    Keeps-bind m f p k = record { at = λ d q. continue-Keeps (m d) f (p.at d q) k }

  -- A bind where the rest only runs on some results.
  pub Keeps-then :
      {A B : Type 0} (m : F D A) (f : A → F D B)
      → Keeps Q m
      → ((d u : D) (a : A) → m d ≡ (ok a, u) → Keeps Q (f a))
      → Keeps Q (m >>= f)
  Keeps-then {A = A} m f p k = record { at = λ d q. by_end (m d) (p.at d q) (k d) }
    where
      by_end :
          (r : Result A × D)
          → Q r.1
          → ((u : D) (a : A) → r ≡ (ok a, u) → Keeps Q (f a))
          → Q (continue r f).1
      by_end (ok a, d) q k = (k d a refl).at d q
      by_end (raised e, d) q k = q
      by_end (cancelled, d) q k = q
