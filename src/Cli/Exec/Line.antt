-- ===== src/Cli/Exec/Line.antt =====
-- A command without line breaks stays one line when it is encoded.
use flipperzero_mcp.Cli.Exec.{shell_chaining, encode, append_encoded, encode_char, has_any}
use flipperzero_mcp.Cli.Words.{contains}
use flipperzero_mcp.Base.{
  arith, ◌∷◌, [], List, some, none, Option, ◌||◌, ◌&&◌, false, true, Bool, inr, inl, ◌≢◌, refl, ◌≡◌,
  ◌≤◌, ℕ, Text, Bytes, All-append, All, Bool-cases, ◌==◌, leb, ltb,
}

abbrev pub IsUnbroken : List ℕ → Type 0
IsUnbroken = All (λ c. (c ≢ 10) × (c ≢ 13))

-- The predicate holds of the value, if there is one.
abbrev pub Holds : (Bytes → Type 0) → Option Bytes → Type 0
Holds P none = Unit
Holds P (some bytes) = P bytes

or-false : (a b : Bool) → a || b ≡ false → (a ≡ false) × (b ≡ false)
or-false false b h = (refl, h)
or-false true b h = cc

not_equal : (x c : ℕ) → ((x == c) && true) ≡ false → c ≢ x
not_equal x c h = ground arith

contains-IsUnbroken :
    (t : Text) → contains (10 ∷ []) t ≡ false → contains (13 ∷ []) t ≡ false → IsUnbroken t
contains-IsUnbroken [] h k = tt
contains-IsUnbroken (c ∷ t) h k =
    let lf = or-false ((10 == c) && true) (contains (10 ∷ []) t) h in
    let cr = or-false ((13 == c) && true) (contains (13 ∷ []) t) k in
    ((not_equal 10 c lf.0, not_equal 13 c cr.0), contains-IsUnbroken t lf.1 cr.1)

-- Of the tokens that are all absent, each one.
has_any-absent :
    (tokens : List Text) (t : Text)
    → has_any tokens t ≡ false
    → All (λ token. contains token t ≡ false) tokens
has_any-absent [] t h = tt
has_any-absent (token ∷ tokens) t h =
    let both = or-false (contains token t) (has_any tokens t) h in
    (both.0, has_any-absent tokens t both.1)

-- A command that is not refused for shell chaining has no line break.
pub has_any-IsUnbroken : (t : Text) → has_any shell_chaining t ≡ false → IsUnbroken t
has_any-IsUnbroken t h =
    let absent = has_any-absent shell_chaining t h in
    contains-IsUnbroken t absent.1.1.1.1.1.0 absent.1.1.1.1.1.1.0

high : (n : ℕ) → 0x80 ≤ n → (n ≢ 10) × (n ≢ 13)
high n h = (λ e. omega arith, λ e. omega arith)

encode_char-IsUnbroken : (c : ℕ) → (c ≢ 10) × (c ≢ 13) → Holds IsUnbroken (encode_char c)
encode_char-IsUnbroken c h = elim (Bool-cases (ltb c 0x80)) [
  | inl e ↦ rw e (h, tt)
  | inr e ↦ elim (Bool-cases (ltb c 0x800)) [
    | inl f ↦ rw (e, f) (high _ (omega arith), (high _ (omega arith), tt))
    | inr f ↦ elim (Bool-cases (leb 0xD800 c && leb c 0xDFFF)) [
      | inl g ↦ rw (e, f, g) tt
      | inr g ↦ elim (Bool-cases (ltb c 0x10000)) [
        | inl i ↦
            rw (e, f, g, i)
              (high _ (omega arith), (high _ (omega arith), (high _ (omega arith), tt)))
        | inr i ↦
            rw (e, f, g, i)
              (
                high _ (omega arith),
                (high _ (omega arith), (high _ (omega arith), (high _ (omega arith), tt))),
              )
      ]
    ]
  ]
]

append_encoded-IsUnbroken :
    (o p : Option Bytes)
    → Holds IsUnbroken o
    → Holds IsUnbroken p
    → Holds IsUnbroken (append_encoded o p)
append_encoded-IsUnbroken none p h k = tt
append_encoded-IsUnbroken (some a) none h k = tt
append_encoded-IsUnbroken (some a) (some b) h k = All-append _ a b h k

pub encode-IsUnbroken : (t : Text) → IsUnbroken t → Holds IsUnbroken (encode t)
encode-IsUnbroken [] u = tt
encode-IsUnbroken (c ∷ t) u =
    append_encoded-IsUnbroken (encode_char c) (encode t) (encode_char-IsUnbroken c u.0)
      (encode-IsUnbroken t u.1)
