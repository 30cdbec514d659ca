-- ===== src/Cli/Lines.antt =====
-- More of Python's `str` that the parsers of CLI output use: `splitlines`, `replace` by nothing,
-- `partition`, and joining lines.
pub mod Joined
use flipperzero_mcp.Base.{
  ◌++◌, ◌∷◌, [], List, some, none, Option, ◌||◌, ◌&&◌, false, Bool, suc, zero, ℕ, Text, Bytes,
  if◌then◌else◌, ◌==◌, leb,
}
use flipperzero_mcp.Cli.Words.{strip, contains}

-- Where `str.splitlines` ends a line.
abbrev pub is_break : ℕ → Bool
is_break c =
    (leb 10 c && leb c 13)
    || (leb 28 c && leb c 30)
    || (c == 0x85)
    || (c == 0x2028)
    || (c == 0x2029)

-- A letter in front of the first line.
abbrev pub push : ℕ → List Text → List Text
push c [] = (c ∷ []) ∷ []
push c (l ∷ lines) = (c ∷ l) ∷ lines

-- The lines of a text; after a CR a line feed belongs to the same break.
abbrev pub lines_after : Bool → Text → List Text
lines_after after_cr [] = []
lines_after after_cr (c ∷ t) =
    let rest = lines_after (c == 13) t in
    if after_cr && (c == 10) then rest else if is_break c then [] ∷ rest else push c rest

-- `t.splitlines()`
abbrev pub splitlines : Text → List Text
splitlines t = lines_after false t

-- `"\n".join(lines)`
abbrev pub join_lines : List Text → Text
join_lines [] = []
join_lines (l ∷ []) = l
join_lines (l ∷ k ∷ lines) = l ++ 10 ∷ join_lines (k ∷ lines)

-- On past a match, or past a letter that is kept.
abbrev pub cut : Option ℕ → ℕ → (ℕ → Text) → Text
cut none c more = c ∷ more zero
cut (some n) c more = more n

-- The text without the matches of a pattern, from left to right; `after` tells for the text after
-- a position's first letter how many of its letters the match there takes, and `skip` is what is left of
-- the last match.
abbrev pub remove_from : (ℕ → Text → Option ℕ) → ℕ → Text → Text
remove_from after skip [] = []
remove_from after (suc skip) (c ∷ t) = remove_from after skip t
remove_from after zero (c ∷ t) = cut (after c t) c (λ n. remove_from after n t)

abbrev pub remove : (ℕ → Text → Option ℕ) → Text → Text
remove after t = remove_from after zero t

-- `t.partition(":")`, with the separator as whether it was found.
abbrev pub before_colon : Text → Text
before_colon [] = []
before_colon (c ∷ t) = let rest = before_colon t in if c == 58 then [] else c ∷ rest

abbrev pub after_colon : Text → Option Text
after_colon [] = none
after_colon (c ∷ t) = let rest = after_colon t in if c == 58 then some t else rest

-- `t.split(" ", 1)[0]`
abbrev pub before_blank : Text → Text
before_blank [] = []
before_blank (c ∷ t) = let rest = before_blank t in if c == 32 then [] else c ∷ rest

-- `_CLI_PROMPT` as text, ">:"
abbrev prompt_after : ℕ → Text → Option ℕ
prompt_after c [] = none
prompt_after c (d ∷ t) = if (c == 62) && (d == 58) then some 1 else none

abbrev drop_echo : Text → List Text → List Text
drop_echo command [] = []
drop_echo command (l ∷ lines) = if contains (strip command) l then lines else l ∷ lines

-- `bytes.decode("utf-8", "replace")`
pub record Decoder : Type 0 where
  pub decode : Bytes → Text

-- `_strip_cli_output` of rpc/client.py
unfoldable pub strip_cli_output : ⦃d : Decoder⦄ → Bytes → Text → Text
strip_cli_output ⦃d = d⦄ raw command =
    strip (remove prompt_after (join_lines (drop_echo command (splitlines (d.decode raw)))))
