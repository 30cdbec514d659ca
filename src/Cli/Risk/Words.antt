-- ===== src/Cli/Risk/Words.antt =====
-- The denylist in terms of words: what `classify` promises of a command line.
use flipperzero_mcp.Cli.Risk.{
  risk_of, Case, destructive, normalize, first_match, transmit, classify, Category, matches,
}
use mathlib.Core.Path.{subst}
use flipperzero_mcp.Cli.Words.{split-IsWord, strip, split, join, IsWord, is_space}
use flipperzero_mcp.Base.{
  some, none, Option, ap, codes, if◌then◌else◌, arith, append_assoc, ◌++◌, ◌∷◌, [], List, ◌||◌,
  ◌&&◌, false, true, Bool, inr, inl, sym, refl, ◌≡◌, ℕ, starts_with, text_eq, Text, All, Bool-cases,
  ==_iff, ◌==◌,
}

not_space : (x : ℕ) → is_space x ≡ false → (32 == x) ≡ false
not_space x h = elim (Bool-cases (32 == x)) [
  | inl e ↦ absurd (impossible (subst (λ n. is_space n ≡ false) (sym ((==_iff 32 x).0 e)) h))
  | inr e ↦ e
]
  where
    impossible : is_space 32 ≡ false → ⊥
    impossible e = cc e

==-comm : (x y : ℕ) → (x == y) ≡ (y == x)
==-comm x y = ground arith

or_and-false : (p q : Bool) → (p && q) || (p && false) ≡ (p && q)
or_and-false p q = ground arith

and_false-or : (p q : Bool) → (p && false) || (p && (q && true)) ≡ (p && q)
and_false-or p q = ground arith

-- Where one text is a word and a space, and the other too, both parts are compared.
text_eq-words :
    (w a t b : Text)
    → IsWord w
    → IsWord a
    → text_eq (w ++ 32 ∷ t) (a ++ 32 ∷ b) ≡ text_eq w a && text_eq t b
text_eq-words [] [] t b h k = refl
text_eq-words [] (x ∷ a) t b h k = rw (not_space x k.0)
text_eq-words (x ∷ w) [] t b h k = rw (==-comm x 32, not_space x h.0)
text_eq-words (x ∷ w) (y ∷ a) t b h k = ground (arith, text_eq-words w a t b h.1 k.1)

starts_with-words :
    (a w q t : Text)
    → IsWord a
    → IsWord w
    → starts_with (a ++ 32 ∷ q) (w ++ 32 ∷ t) ≡ text_eq w a && starts_with q t
starts_with-words [] [] q t h k = refl
starts_with-words [] (x ∷ w) q t h k = rw (not_space x k.0)
starts_with-words (x ∷ a) [] q t h k = rw (==-comm x 32, not_space x h.0)
starts_with-words (x ∷ a) (y ∷ w) q t h k =
    rw (==-comm y x) (ground (arith, starts_with-words a w q t h.1 k.1))

-- A word is no text with a space in it, and does not begin with one.
text_eq-word : (w a b : Text) → IsWord w → text_eq w (a ++ 32 ∷ b) ≡ false
text_eq-word [] [] b h = refl
text_eq-word [] (x ∷ a) b h = refl
text_eq-word (x ∷ w) [] b h = rw (==-comm x 32, not_space x h.0)
text_eq-word (x ∷ w) (y ∷ a) b h = ground (arith, text_eq-word w a b h.1)

word-text_eq : (b w t : Text) → IsWord b → text_eq (w ++ 32 ∷ t) b ≡ false
word-text_eq [] [] t h = refl
word-text_eq [] (x ∷ w) t h = refl
word-text_eq (x ∷ b) [] t h = rw (not_space x h.0)
word-text_eq (x ∷ b) (y ∷ w) t h = ground (arith, word-text_eq b w t h.1)

starts_with-word : (a q w : Text) → IsWord w → starts_with (a ++ 32 ∷ q) w ≡ false
starts_with-word [] q [] h = refl
starts_with-word [] q (x ∷ w) h = rw (not_space x h.0)
starts_with-word (x ∷ a) q [] h = refl
starts_with-word (x ∷ a) q (y ∷ w) h = ground (arith, starts_with-word a q w h.1)

-- The first two words of a command line are these.
abbrev pub begins : Text → Text → List Text → Bool
begins a b [] = false
begins a b (w ∷ []) = false
begins a b (w ∷ v ∷ words) = text_eq w a && text_eq v b

matches-begins :
    (a b : Text) (words : List Text)
    → IsWord a
    → IsWord b
    → All IsWord words
    → matches (a ++ 32 ∷ b) (join words) ≡ begins a b words
matches-begins a b [] ha hb h = rw (
  append_assoc a (32 ∷ b) (32 ∷ []),
  text_eq-word [] a b tt,
  starts_with-word a (b ++ 32 ∷ []) [] tt,
)
matches-begins a b (w ∷ []) ha hb h = rw (
  append_assoc a (32 ∷ b) (32 ∷ []),
  text_eq-word w a b h.0,
  starts_with-word a (b ++ 32 ∷ []) w h.0,
)
matches-begins a b (w ∷ v ∷ []) ha hb h =
    rw
      (
        append_assoc a (32 ∷ b) (32 ∷ []),
        text_eq-words w a v b h.0 ha,
        starts_with-words a w (b ++ 32 ∷ []) v ha h.0,
        starts_with-word b [] v h.1.0,
      )
      (or_and-false (text_eq w a) (text_eq v b))
matches-begins a b (w ∷ v ∷ u ∷ words) ha hb h =
    rw
      (
        append_assoc a (32 ∷ b) (32 ∷ []),
        text_eq-words w a (v ++ 32 ∷ join (u ∷ words)) b h.0 ha,
        starts_with-words a w (b ++ 32 ∷ []) (v ++ 32 ∷ join (u ∷ words)) ha h.0,
        starts_with-words b v [] (join (u ∷ words)) hb h.1.0,
        word-text_eq b v (join (u ∷ words)) hb,
      )
      (and_false-or (text_eq w a) (text_eq v b))

-- The denylist as pairs of words.
abbrev pub word_rules : List (Text × Text × Category)
word_rules =
    (codes "subghz", codes "tx", transmit)
    ∷ (codes "ir", codes "tx", transmit)
    ∷ (codes "rfid", codes "write", transmit)
    ∷ (codes "ikey", codes "write", transmit)
    ∷ (codes "factory", codes "reset", destructive)
    ∷ (codes "storage", codes "format", destructive)
    ∷ (codes "update", codes "install", destructive)
    ∷ (codes "power", codes "off", destructive)
    ∷ (codes "power", codes "reboot", destructive)
    ∷ []

-- The category of the first pair that the words begin with.
abbrev pub first_pair : List (Text × Text × Category) → List Text → Option Category
first_pair [] words = none
first_pair ((a, b, category) ∷ rules) words =
    let later = first_pair rules words in if begins a b words then some category else later

abbrev as_rules : List (Text × Text × Category) → List (Text × Category)
as_rules [] = []
as_rules ((a, b, category) ∷ rules) = (a ++ 32 ∷ b, category) ∷ as_rules rules

first_match-pairs :
    (rules : List (Text × Text × Category)) (words : List Text)
    → All (λ r. IsWord r.0 × IsWord r.1) rules
    → All IsWord words
    → first_match (as_rules rules) (join words) ≡ first_pair rules words
first_match-pairs [] words h k = refl
first_match-pairs ((a, b, category) ∷ rules) words h k =
    rw (matches-begins a b words h.0.0 h.0.1 k, first_match-pairs rules words h.1 k)

-- A command line is gated, with the category of the rule, exactly if its first two words, in lower
-- case, are the two words of a rule of the denylist, whatever spaces stand around them and whatever
-- follows; any other command line is benign and not gated.
pub classify-words :
    ⦃c : Case⦄
    → (command : Text)
    → classify command ≡ risk_of (first_pair word_rules (split (c.lower (strip command))))
unfolding classify normalize
classify-words ⦃c⦄ command =
    let words = split (c.lower (strip command)) in
    ap risk_of
      (first_match-pairs word_rules words (search) (split-IsWord (c.lower (strip command))))
