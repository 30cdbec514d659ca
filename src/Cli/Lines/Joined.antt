-- ===== src/Cli/Lines/Joined.antt =====
-- Lines that are joined and split again.
use flipperzero_mcp.Base.{
  zero, arith, ◌++◌, ◌∷◌, [], List, none, Option, false, ◌∙◌, ap, refl, ◌≡◌, ℕ, is_empty, Text,
  All-append, All, ◌==◌,
}
use flipperzero_mcp.Cli.Lines.{remove_from, is_break, lines_after, splitlines, join_lines, remove}

-- No letter of it ends a line.
abbrev pub IsLine : Text → Type 0
IsLine = All (λ c. is_break c ≡ false)

break_cr : (c : ℕ) → is_break c ≡ false → (c == 13) ≡ false
break_cr c h = ground (arith, h)

lines_after-line : (l : Text) (c : ℕ) → IsLine (c ∷ l) → lines_after false (c ∷ l) ≡ (c ∷ l) ∷ []
lines_after-line [] c h = rw h.0
lines_after-line (d ∷ l) c h = rw (h.0, break_cr c h.0, lines_after-line l d h.1)

lines_after-join :
    (l t : Text) → IsLine l → lines_after false (l ++ 10 ∷ t) ≡ l ∷ lines_after false t
lines_after-join [] t h = refl
lines_after-join (c ∷ l) t h = rw (h.0, break_cr c h.0, lines_after-join l t h.1)

-- A text that is not empty, and is one line.
abbrev pub IsFullLine : Text → Type 0
IsFullLine l = IsLine l × (is_empty l ≡ false)

pub splitlines-join :
    (lines : List Text) → All IsFullLine lines → splitlines (join_lines lines) ≡ lines
splitlines-join [] h = refl
splitlines-join ([] ∷ lines) h = cc (h.0.1)
splitlines-join ((c ∷ l) ∷ []) h = lines_after-line l c h.0.0
splitlines-join ((c ∷ l) ∷ k ∷ lines) h =
    lines_after-join (c ∷ l) (join_lines (k ∷ lines)) h.0.0
    ∙ ap (λ r. (c ∷ l) ∷ r) (splitlines-join (k ∷ lines) h.1)

remove_from-nothing :
    (after : ℕ → Text → Option ℕ) (P : ℕ → Type 0) (t : Text)
    → ((c : ℕ) (u : Text) → P c → after c u ≡ none)
    → All P t
    → remove_from after zero t ≡ t
remove_from-nothing after P [] never h = refl
remove_from-nothing after P (c ∷ t) never h =
    rw (never c t h.0) (ap (λ r. c ∷ r) (remove_from-nothing after P t never h.1))

-- Where the pattern matches nowhere, nothing is removed.
pub remove-nothing :
    (after : ℕ → Text → Option ℕ) (P : ℕ → Type 0) (t : Text)
    → ((c : ℕ) (u : Text) → P c → after c u ≡ none)
    → All P t
    → remove after t ≡ t
remove-nothing after P t never h = remove_from-nothing after P t never h

pub All-join :
    (P : ℕ → Type 0) (lines : List Text) → P 10 → All (All P) lines → All P (join_lines lines)
All-join P [] p h = tt
All-join P (l ∷ []) p h = h.0
All-join P (l ∷ k ∷ lines) p h =
    All-append P l (10 ∷ join_lines (k ∷ lines)) h.0 (p, All-join P (k ∷ lines) p h.1)
