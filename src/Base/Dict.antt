-- ===== src/Base/Dict.antt =====
-- A Python dict with text keys, in insertion order.
use flipperzero_mcp.Base.{text_eq→eq, inr, inl, Bool-cases, false, text_eq_refl, ◌≡◌}
use mathlib.Core.List.{List, [], ◌∷◌}
use mathlib.Core.Option.{Option, none, some}
use flipperzero_mcp.Base.Tests.{if◌then◌else◌}
use flipperzero_mcp.Base.Strings.{Text, text_eq}

module _ {ℓ} {V : Type ℓ} where
  -- `d.get(k)`
  abbrev pub lookup : Text → List (Text × V) → Option V
  lookup k [] = none
  lookup k ((j, v) ∷ d) = if text_eq j k then some v else lookup k d

  -- `d[k] = v`
  abbrev pub insert : Text → V → List (Text × V) → List (Text × V)
  insert k v [] = (k, v) ∷ []
  insert k v ((j, w) ∷ d) = if text_eq j k then (j, v) ∷ d else (j, w) ∷ insert k v d

  pub lookup-insert_self :
      (k : Text) (v : V) (d : List (Text × V)) → lookup k (insert k v d) ≡ some v
  lookup-insert_self k v [] = rw (text_eq_refl k)
  lookup-insert_self k v ((j, w) ∷ d) = elim (Bool-cases (text_eq j k)) [
    | inl e ↦ rw (e, e)
    | inr e ↦ rw (e, e) (lookup-insert_self k v d)
  ]

  pub lookup-insert_ne :
      (p k : Text) (v : V) (d : List (Text × V))
      → text_eq k p ≡ false
      → lookup p (insert k v d) ≡ lookup p d
  lookup-insert_ne p k v [] n = rw n
  lookup-insert_ne p k v ((j, w) ∷ d) n = elim (Bool-cases (text_eq j k)) [
    | inl e ↦ rw (e, text_eq→eq j k e, n)
    | inr e ↦ elim (Bool-cases (text_eq j p)) [
      | inl f ↦ rw (e, f)
      | inr f ↦ rw (e, f) (lookup-insert_ne p k v d n)
    ]
  ]
