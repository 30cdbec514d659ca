-- ===== src/Cli/Words.antt =====
-- The methods of Python's `str` that the CLI layer uses: `strip`, `split`, `join` and `in`.
use flipperzero_mcp.Base.{
  ◌++◌, ◌∷◌, [], List, ◌||◌, ◌&&◌, false, Bool, inr, inl, ◌≡◌, ℕ, is_empty, starts_with, Text, All,
  Bool-cases, if◌then◌else◌, ◌==◌, leb,
}

-- `str.isspace` of a code point
abbrev pub is_space : ℕ → Bool
is_space c =
    (leb 9 c && leb c 13)
    || (leb 28 c && leb c 32)
    || (c == 0x85)
    || (c == 0xA0)
    || (c == 0x1680)
    || (leb 0x2000 c && leb c 0x200A)
    || (c == 0x2028)
    || (c == 0x2029)
    || (c == 0x202F)
    || (c == 0x205F)
    || (c == 0x3000)

abbrev pub lstrip : Text → Text
lstrip [] = []
lstrip (c ∷ t) = let rest = lstrip t in if is_space c then rest else c ∷ t

-- A code point in front of a stripped text.
abbrev pub before_stripped : ℕ → Text → Text
before_stripped c [] = if is_space c then [] else c ∷ []
before_stripped c (d ∷ t) = c ∷ d ∷ t

abbrev pub rstrip : Text → Text
rstrip [] = []
rstrip (c ∷ t) = before_stripped c (rstrip t)

abbrev pub strip : Text → Text
strip t = rstrip (lstrip t)

-- The letters up to the first space, and the words after it.
abbrev pub close_word : Text → List Text → List Text
close_word [] words = words
close_word (c ∷ w) words = (c ∷ w) ∷ words

abbrev pub split_step : ℕ → Text × List Text → Text × List Text
split_step c (w, words) = if is_space c then ([], close_word w words) else (c ∷ w, words)

abbrev pub split_from : Text → Text × List Text
split_from [] = ([], [])
split_from (c ∷ t) = split_step c (split_from t)

-- `t.split()`
abbrev pub split : Text → List Text
split t = close_word (split_from t).0 (split_from t).1

-- `" ".join(words)`
abbrev pub join : List Text → Text
join [] = []
join (w ∷ []) = w
join (w ∷ v ∷ words) = w ++ 32 ∷ join (v ∷ words)

-- `p in t`
abbrev pub contains : Text → Text → Bool
contains p [] = is_empty p
contains p (c ∷ t) = starts_with p (c ∷ t) || contains p t

-- No code point is a space.
abbrev pub IsWord : Text → Type 0
IsWord = All (λ c. is_space c ≡ false)

close_word-IsWord :
    (w : Text) (words : List Text) → IsWord w → All IsWord words → All IsWord (close_word w words)
close_word-IsWord [] words h hs = hs
close_word-IsWord (c ∷ w) words h hs = (h, hs)

split_from-IsWord : (t : Text) → IsWord (split_from t).0 × All IsWord (split_from t).1
split_from-IsWord [] = (tt, tt)
split_from-IsWord (c ∷ t) = elim (Bool-cases (is_space c)) [
  | inl e ↦ rw e (tt, close_word-IsWord _ _ (split_from-IsWord t).0 (split_from-IsWord t).1)
  | inr e ↦ rw e ((e, (split_from-IsWord t).0), (split_from-IsWord t).1)
]

-- The words of a text have no spaces in them.
pub split-IsWord : (t : Text) → All IsWord (split t)
split-IsWord t = close_word-IsWord _ _ (split_from-IsWord t).0 (split_from-IsWord t).1
