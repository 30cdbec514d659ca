-- ===== src/Tools/Typed.antt =====
-- tools/cli_typed.py: the parsers of CLI output, and the tools around them.
pub mod Scan
pub mod Apps
use flipperzero_mcp.Link.{not_absolute, value_error}
use flipperzero_mcp.Base.{
  ◌++◌, ◌∷◌, [], List, some, none, Option, ◌||◌, ◌&&◌, not, false, true, Bool, ◌%◌, ◌/◌, ◌*◌, ◌-◌,
  ◌+◌, suc, ℕ, is_empty, starts_with, text_eq, codes, Text, if◌then◌else◌, ◌==◌, leb, ltb,
}
use flipperzero_mcp.Base.Dict.{insert, lookup}
use flipperzero_mcp.Cli.Words.{strip, lstrip, split, contains, is_space}
use flipperzero_mcp.Cli.Lines.{
  splitlines, remove, before_colon, after_colon, before_blank, Decoder, strip_cli_output,
}
use flipperzero_mcp.Cli.Risk.{Case}
use flipperzero_mcp.Action.{F, pure, raise, ◌>>=◌, ◌>>◌}
use flipperzero_mcp.Client.{Client}
use flipperzero_mcp.Tools.Common.{Attempt, require}
use flipperzero_mcp.Tools.Cli.{cli_typed}
use flipperzero_mcp.Proto.{Codec}

-- From Python's Unicode tables: the value of a decimal digit (`\d`, `int`), and `str.isdigit`, which
-- also holds of digits that are not decimal.
pub record Digits : Type 0 where
  pub decimal : ℕ → Option ℕ
  pub is_digit : ℕ → Bool

-- Option.map suc
abbrev one_more : Option ℕ → Option ℕ
one_more none = none
one_more (some n) = some (suc n)

-- How many letters `[0-9;]*m` takes.
abbrev code_length : Text → Option ℕ
code_length [] = none
code_length (c ∷ t) =
    let rest = one_more (code_length t) in
    if c == 109 then some 1 else if (leb 48 c && leb c 57) || (c == 59) then rest else none

-- `_ANSI` after its first letter.
abbrev pub ansi_after : ℕ → Text → Option ℕ
ansi_after c [] = none
ansi_after c (d ∷ t) = if (c == 27) && (d == 91) then one_more (code_length t) else none

-- `_strip_ansi`
unfoldable pub strip_ansi : Text → Text
strip_ansi t = remove ansi_after t

-- `key.strip().lower().replace(" ", "_")`
abbrev underscored : Text → Text
underscored [] = []
underscored (c ∷ t) = (if c == 32 then 95 else c) ∷ underscored t

module _ ⦃g : Digits⦄ where
  -- `int(token)`: none is a ValueError.
  abbrev int_from : ℕ → Text → Option ℕ
  int_from n [] = some n
  int_from n (c ∷ t) = elim (g.decimal c) [ none ↦ none | some d ↦ int_from (n * 10 + d) t ]

  abbrev pub int : Text → Option ℕ
  int [] = none
  int (c ∷ t) = int_from 0 (c ∷ t)

  abbrev all_digits : Text → Bool
  all_digits [] = true
  all_digits (c ∷ t) = g.is_digit c && all_digits t

  -- `token.isdigit()`
  abbrev isdigit : Text → Bool
  isdigit token = not (is_empty token) && all_digits token

  abbrev put : Text → Option ℕ → List (Text × ℕ) → Option (List (Text × ℕ))
  put key none heap = none
  put key (some n) heap = some (insert key n heap)

  module _ ⦃k : Case⦄ where
    -- One line of `_parse_free`.
    unfoldable pub free_line : Text → Option Text → List (Text × ℕ) → Option (List (Text × ℕ))
    free_line key none heap = some heap
    free_line key (some value) heap =
        let token = before_blank (strip value) in
        if isdigit token
        then put (underscored (k.lower (strip key))) (int token) heap
        else some heap

    unfoldable pub free_lines : List Text → List (Text × ℕ) → Option (List (Text × ℕ))
    free_lines [] heap = some heap
    free_lines (l ∷ lines) heap = elim (free_line (before_colon l) (after_colon l) heap) [
      | none ↦ none
      | some heap' ↦ free_lines lines heap'
    ]

    -- `_parse_free`
    unfoldable pub parse_free : Text → Option (List (Text × ℕ))
    parse_free output = free_lines (splitlines (strip_ansi output)) []

  -- `\d+` up to a final `b`: its value, or none if the rest of the line is not that.
  abbrev size_digits : ℕ → Text → Option ℕ
  size_digits n [] = none
  size_digits n (c ∷ t) = elim (g.decimal c) [
    | none ↦ if (c == 98) && is_empty t then some n else none
    | some d ↦ size_digits (n * 10 + d) t
  ]

  abbrev pub size_of : Text → Option ℕ
  size_of [] = none
  size_of (c ∷ t) = elim (g.decimal c) [ none ↦ none | some d ↦ size_digits d t ]

  -- The value of `\s+(\d+)b` where it matches the whole rest.
  abbrev pub size_suffix : Text → Option ℕ
  size_suffix [] = none
  size_suffix (c ∷ t) = if is_space c then size_of (lstrip t) else none

  -- `(.+?)(?:\s+(\d+)b)?` past the first letter of the path: the path ends where the line does, or
  -- where the suffix starts.
  abbrev pub path_and_size : Text → Text × Option ℕ
  path_and_size [] = ([], none)
  path_and_size (c ∷ t) =
      let rest = path_and_size t in
      elim (size_suffix (c ∷ t)) [ some n ↦ ([], some n) | none ↦ (c ∷ rest.0, rest.1) ]

  -- An entry of the tree: whether it is a directory, its path, size and depth.
  pub record TreeEntry : Type 0 where
    pub is_dir : Bool
    pub path : Text
    pub size_bytes : Option ℕ
    pub depth : ℕ

  abbrev entry_from : Bool → ℕ → Text → List TreeEntry
  entry_from is_dir depth [] = []
  entry_from is_dir depth (c ∷ t) =
      let p = path_and_size t in
      record { is_dir = is_dir; path = c ∷ p.0; size_bytes = p.1; depth = depth } ∷ []

  -- `_TREE_LINE.match(line.strip())`, and the entry of a match.
  abbrev tree_match : ℕ → Text → List TreeEntry
  tree_match depth (b ∷ kind ∷ e ∷ s ∷ t) =
      if (b == 91) && ((kind == 68) || (kind == 70)) && (e == 93) && is_space s
      then entry_from (kind == 68) depth (lstrip t)
      else []
  tree_match depth _ = []

  -- `len(line) - len(line.lstrip("\t"))`
  abbrev tabs : Text → ℕ
  tabs [] = 0
  tabs (c ∷ t) = let rest = tabs t in if c == 9 then suc rest else 0

  unfoldable pub tree_lines : List Text → List TreeEntry
  tree_lines [] = []
  tree_lines (l ∷ lines) =
      let line = strip_ansi l in tree_match (tabs line) (strip line) ++ tree_lines lines

  -- `_parse_tree`
  unfoldable pub parse_tree : Text → List TreeEntry
  parse_tree output = tree_lines (splitlines output)

-- `f"{n:x}"` of a number below 16
abbrev hex_digit : ℕ → ℕ
hex_digit n = if ltb n 10 then 48 + n else 87 + n

-- `f"0x{n:02x}"` of a number below 256
abbrev pub address_text : ℕ → Text
address_text n = 48 ∷ 120 ∷ hex_digit (n / 16) ∷ hex_digit (n % 16) ∷ []

-- The `for` loop over the cells of a row, from a column on.
abbrev pub row_addresses : ℕ → ℕ → List Text → List Text
row_addresses high col [] = []
row_addresses high col (cell ∷ cells) =
    let rest = row_addresses high (suc col) cells in
    if leb 16 col
    then []
    else if text_eq cell (codes "-")
    then rest
    else address_text (high * 16 + col) ∷ rest

-- `\s*\|\s*(.+)$` after the digit: the cells.
abbrev pub cells_of : Text → List Text
cells_of [] = []
cells_of (c ∷ t) = if c == 124 then split t else []

-- `_I2C_ROW.match(line.strip())`, and the addresses of a match.
abbrev pub i2c_line : Text → List Text
i2c_line [] = []
i2c_line (c ∷ t) =
    if leb 48 c && leb c 55 then row_addresses (c - 48) 0 (cells_of (lstrip t)) else []

unfoldable pub i2c_lines : List Text → List Text
i2c_lines [] = []
i2c_lines (l ∷ lines) = i2c_line (strip l) ++ i2c_lines lines

-- `_parse_i2c`
unfoldable pub parse_i2c : Text → List Text
parse_i2c output = i2c_lines (splitlines (strip_ansi output))

-- `name.endswith(":")`
abbrev pub ends_in_colon : Text → Bool
ends_in_colon [] = false
ends_in_colon (c ∷ []) = c == 58
ends_in_colon (c ∷ d ∷ t) = ends_in_colon (d ∷ t)

abbrev pub app_names : List Text → List Text
app_names [] = []
app_names (l ∷ lines) =
    let rest = app_names lines in
    if not (is_empty (strip l)) && not (ends_in_colon (strip l)) then strip l ∷ rest else rest

-- `_parse_loader_list`
unfoldable pub parse_loader_list : Text → List Text
parse_loader_list output = app_names (splitlines (strip_ansi output))

abbrev none_if_empty : Text → Option Text
none_if_empty [] = none
none_if_empty (c ∷ t) = some (c ∷ t)

-- The dict of `flipperzero_core_status`, less the raw outputs.
pub record CoreStatus : Type 0 where
  pub heap : List (Text × ℕ)
  pub heap_free_bytes : Option ℕ
  pub uptime : Option Text

module _ ⦃c : Codec⦄ ⦃k : Case⦄ ⦃g : Digits⦄ ⦃d : Decoder⦄ where
  status_of : Text → Option (List (Text × ℕ)) → F Client CoreStatus
  status_of uptime none = raise value_error
  status_of uptime (some heap) = pure (record {
    heap = heap;
    heap_free_bytes = lookup (codes "free_heap_size") heap;
    uptime = if contains (codes "application is open") uptime then none else none_if_empty uptime;
  })

  unfoldable pub flipperzero_core_status : Attempt → F Client CoreStatus
  unfolding status_of
  flipperzero_core_status attempt = do
    free ← cli_typed attempt (codes "free")
    uptime ← cli_typed attempt (codes "uptime")
    status_of (strip (strip_ansi (strip_cli_output uptime.raw (codes "uptime"))))
        (parse_free (strip_cli_output free.raw (codes "free")))

  -- The entries, and whether the output is complete.
  unfoldable pub flipperzero_fs_tree : Attempt → Text → F Client (List TreeEntry × Bool)
  flipperzero_fs_tree attempt path = do
    require (starts_with (codes "/") path) not_absolute
    result ← cli_typed attempt (codes "storage tree " ++ path)
    pure
        (parse_tree (strip_cli_output result.raw (codes "storage tree " ++ path)), result.completed)

  unfoldable pub flipperzero_loader_list : Attempt → F Client (List Text)
  flipperzero_loader_list attempt = do
    result ← cli_typed attempt (codes "loader list")
    pure (parse_loader_list (strip_cli_output result.raw (codes "loader list")))

  unfoldable pub flipperzero_i2c_scan : Attempt → F Client (List Text)
  flipperzero_i2c_scan attempt = do
    result ← cli_typed attempt (codes "i2c")
    pure (parse_i2c (strip_cli_output result.raw (codes "i2c")))
