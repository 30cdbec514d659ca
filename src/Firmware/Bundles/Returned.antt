-- ===== src/Firmware/Bundles/Returned.antt =====
-- What is known of the steps of a download once they have returned.
use mathlib.Core.Path.{subst}
use flipperzero_mcp.Base.{
  sym, ◌++◌, ◌∷◌, [], List, some, none, Option, ◌&&◌, false, true, Bool, inr, inl, ◌⊎◌, ◌∙◌, ap,
  refl, ◌≡◌, ◌≢◌, text_eq→eq, starts_with, Text, Bool-cases, ◌==◌, ==_iff,
}
use flipperzero_mcp.Action.{F, >>=-returned}
use flipperzero_mcp.Firmware.Json.{Json, array, get, is_text, null, string}
use flipperzero_mcp.Firmware.Select.{find, from, malformed, malformed_in, not_none, or_bundle_error}
use flipperzero_mcp.Link.{Exn, cancelled, ok, raised, Result}

-- `x in l`
abbrev pub IsIn : Json → List Json → Type 0
IsIn x [] = ⊥
IsIn x (y ∷ l) = (x ≡ y) ⊎ IsIn x l

pub is_text-string : (t : Text) (x : Json) → is_text t x ≡ true → x ≡ string t
is_text-string t (string s) h = ap string (text_eq→eq s t h)
is_text-string t null h = cc h
is_text-string t (Json.boolean b) h = cc h
is_text-string t (Json.number n) h = cc h
is_text-string t (array l) h = cc h
is_text-string t (Json.object l) h = cc h

pub both_true : (a b : Bool) → (a && b) ≡ true → (a ≡ true) × (b ≡ true)
both_true true b h = (refl, h)
both_true false b h = cc h

pub starts_with-rest : (p t : Text) → starts_with p t ≡ true → (rest : Text) × (t ≡ p ++ rest)
starts_with-rest [] t h = (t, refl)
starts_with-rest (c ∷ p) [] h = cc h
starts_with-rest (c ∷ p) (d ∷ t) h =
    let both = both_true (c == d) (starts_with p t) h in
    let rest = starts_with-rest p t both.1 in (rest.0, rw ((==_iff c d).0 both.0, rest.1) refl)

malformed-returned : {A : Type 0} (r : Result A) {a : A} → malformed r ≡ ok a → r ≡ ok a
malformed-returned (ok b) h = h
malformed-returned (raised Exn.key_error) h = cc h
malformed-returned (raised Exn.type_error) h = cc h
malformed-returned (raised _) h = h
malformed-returned cancelled h = h

module _ {N : Type 0} where
  pub from-returned :
      {A : Type 0} (r : Result A) (s : N) {a : A} {v : N}
      → from r s ≡ (ok a, v)
      → (r ≡ ok a) × (v ≡ s)
  from-returned (ok b) s e = (cc e, cc e)
  from-returned (raised x) s e = cc e
  from-returned cancelled s e = cc e

  pub malformed_in-returned :
      {A : Type 0} (m : F N A) (s : N) {a : A} {v : N}
      → malformed_in m s ≡ (ok a, v)
      → m s ≡ (ok a, v)
  unfolding malformed_in
  malformed_in-returned {A = A} m s e = by_end (m s) e
    where
      by_end :
          (r : Result A × N) {a : A} {v : N}
          → ◌≡◌ {A = Result A × N} (malformed r.0, r.1) (ok a, v)
          → r ≡ (ok a, v)
      by_end (r, u) {a = a} {v = v} e =
          let same = malformed-returned r {a = a} (cc e) in
          let left = left_eq e in rw (same, left) refl
        where
          left_eq : {x y : Result A} {u v : N} → ◌≡◌ {A = Result A × N} (x, u) (y, v) → u ≡ v
          left_eq e = ap (λ p. p.1) e

  pub malformed_from-returned :
      {A : Type 0} (r : Result A) (s : N) {a : A} {v : N}
      → malformed_in (from r) s ≡ (ok a, v)
      → (r ≡ ok a) × (v ≡ s)
  malformed_from-returned r s e = from-returned r s (malformed_in-returned (from r) s e)

  pub or_bundle_error-returned :
      {A : Type 0} (o : Option A) (s : N) {a : A} {v : N}
      → or_bundle_error o s ≡ (ok a, v)
      → (o ≡ some a) × (v ≡ s)
  or_bundle_error-returned none s e = cc e
  or_bundle_error-returned (some b) s e = (cc e, cc e)

  pub not_none-returned :
      (x : Json) (s : N) {y : Json} {v : N}
      → not_none x s ≡ (ok y, v)
      → (x ≡ y) × (y ≢ null) × (v ≡ s)
  not_none-returned null s e = cc e
  not_none-returned (Json.boolean b) s e = (cc e, λ n. cc (e, n), cc e)
  not_none-returned (Json.number b) s e = (cc e, λ n. cc (e, n), cc e)
  not_none-returned (string b) s e = (cc e, λ n. cc (e, n), cc e)
  not_none-returned (array b) s e = (cc e, λ n. cc (e, n), cc e)
  not_none-returned (Json.object b) s e = (cc e, λ n. cc (e, n), cc e)

  pub json_eq : {a b : Json} {v w : N} → ◌≡◌ {A = Result Json × N} (ok a, v) (ok b, w) → a ≡ b
  json_eq e = cc e

  -- What is found is of the list and has the value at the key, or it is None.
  pub find-returned :
      (key value : Text) (l : List Json) (s : N) {x : Json} {v : N}
      → find key value l s ≡ (ok x, v)
      → (x ≡ null) ⊎ (IsIn x l × (get key null x ≡ ok (string value)))
  unfolding find
  find-returned key value [] s e = inl (cc e)
  find-returned key value (x ∷ l) s {x = y} e =
      >>=-returned (from (get key null x)) _ s e λ z s₁ e₁ e. elim (Bool-cases (is_text value z)) [
        | inl h ↦
            let same = json_eq (rw h at e) in
            inr (
              inl (sym same),
              subst (λ z. get key null z ≡ ok (string value)) same
                  ((from-returned _ s e₁).0 ∙ ap ok (is_text-string value z h)),
            )
        | inr n ↦ elim (find-returned key value l s₁ (rw n at e)) [
          | inl missing ↦ inl missing
          | inr (there, has) ↦ inr (inr there, has)
        ]
      ]
