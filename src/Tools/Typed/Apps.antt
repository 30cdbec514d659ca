-- ===== src/Tools/Typed/Apps.antt =====
-- `_parse_loader_list` of a list that is printed line by line.
use flipperzero_mcp.Base.{
  ◌∷◌, [], List, none, false, true, inr, inl, ◌∙◌, ap, refl, ◌≡◌, ℕ, is_empty, Text, All,
  Bool-cases, ◌==◌,
}
use flipperzero_mcp.Tools.Typed.{
  parse_loader_list, app_names, ends_in_colon, strip_ansi, ansi_after,
}
use flipperzero_mcp.Cli.Words.{strip}
use flipperzero_mcp.Cli.Lines.{splitlines, join_lines}
use flipperzero_mcp.Cli.Lines.Joined.{IsFullLine, splitlines-join, remove-nothing, All-join}

-- It starts no escape sequence.
abbrev pub IsPlain : Text → Type 0
IsPlain = All (λ c. (c == 27) ≡ false)

-- A name as the loader prints it: one plain line with no spaces around it that does not end in ":".
pub record IsName (l : Text) : Type 0 where
  pub full : IsFullLine l
  pub plain : IsPlain l
  pub stripped : strip l ≡ l
  pub no_colon : ends_in_colon l ≡ false

-- A heading: a line that ends in ":".
pub record IsHeading (l : Text) : Type 0 where
  pub full : IsFullLine l
  pub plain : IsPlain l
  pub colon : ends_in_colon (strip l) ≡ true

ansi_after-none : (c : ℕ) (t : Text) → (c == 27) ≡ false → ansi_after c t ≡ none
ansi_after-none c [] h = refl
ansi_after-none c (d ∷ t) h = rw h

app_names-names : (names : List Text) → All IsName names → app_names names ≡ names
app_names-names [] h = refl
app_names-names (l ∷ names) h =
    rw (h.0.stripped, h.0.full.1, h.0.no_colon, app_names-names names h.1)

IsName-IsFullLine : (names : List Text) → All IsName names → All IsFullLine names
IsName-IsFullLine [] h = tt
IsName-IsFullLine (l ∷ names) h = (h.0.full, IsName-IsFullLine names h.1)

IsName-IsPlain : (names : List Text) → All IsName names → All IsPlain names
IsName-IsPlain [] h = tt
IsName-IsPlain (l ∷ names) h = (h.0.plain, IsName-IsPlain names h.1)

-- A heading and the names below it, one on a line, are read back as exactly the names, in order.
pub parse_loader_list-join :
    (heading : Text) (names : List Text)
    → IsHeading heading
    → All IsName names
    → parse_loader_list (join_lines (heading ∷ names)) ≡ names
unfolding parse_loader_list strip_ansi
parse_loader_list-join heading names h hs =
    ap (λ t. app_names (splitlines t))
      (remove-nothing ansi_after (λ c. (c == 27) ≡ false) (join_lines (heading ∷ names))
        ansi_after-none
        (All-join (λ c. (c == 27) ≡ false) (heading ∷ names) refl
          (h.plain, IsName-IsPlain names hs)))
    ∙ ap app_names (splitlines-join (heading ∷ names) (h.full, IsName-IsFullLine names hs))
    ∙ below
  where
    below : app_names (heading ∷ names) ≡ names
    below = elim (Bool-cases (is_empty (strip heading))) [
      | inl e ↦ rw e (app_names-names names hs)
      | inr e ↦ rw (e, h.colon) (app_names-names names hs)
    ]
