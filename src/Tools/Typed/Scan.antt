-- ===== src/Tools/Typed/Scan.antt =====
-- What `_parse_i2c` makes of any output.
use flipperzero_mcp.Base.{
  arith, ◌∷◌, [], List, ◌&&◌, inr, inl, refl, ◌≡◌, ◌<◌, ◌≤◌, ◌*◌, ◌-◌, ◌+◌, suc, ℕ, text_eq, codes,
  Text, All-append, All, Bool-cases, leb,
}
use flipperzero_mcp.Tools.Typed.{
  cells_of, parse_i2c, i2c_lines, i2c_line, row_addresses, address_text, strip_ansi,
}
use flipperzero_mcp.Cli.Words.{strip, lstrip}
use flipperzero_mcp.Cli.Lines.{splitlines}

-- The text of a 7-bit address.
abbrev pub IsAddress : Text → Type 0
IsAddress t = (n : ℕ) × (n < 128) × (t ≡ address_text n)

row_addresses-IsAddress :
    (high col : ℕ) (cells : List Text) → high ≤ 7 → All IsAddress (row_addresses high col cells)
row_addresses-IsAddress high col [] h = tt
row_addresses-IsAddress high col (cell ∷ cells) h = elim (Bool-cases (leb 16 col)) [
  | inl past ↦ rw past tt
  | inr within ↦ elim (Bool-cases (text_eq cell (codes "-"))) [
    | inl e ↦ rw (within, e) (row_addresses-IsAddress high (suc col) cells h)
    | inr e ↦
        rw (within, e)
          (
            (high * 16 + col, ground (arith, h, within), refl),
            row_addresses-IsAddress high (suc col) cells h,
          )
  ]
]

i2c_line-IsAddress : (l : Text) → All IsAddress (i2c_line l)
i2c_line-IsAddress [] = tt
i2c_line-IsAddress (c ∷ t) = elim (Bool-cases (leb 48 c && leb c 55)) [
  | inl e ↦ rw e (row_addresses-IsAddress (c - 48) 0 (cells_of (lstrip t)) (ground (arith, e)))
  | inr e ↦ rw e tt
]

i2c_lines-IsAddress : (lines : List Text) → All IsAddress (i2c_lines lines)
unfolding i2c_lines
i2c_lines-IsAddress [] = tt
i2c_lines-IsAddress (l ∷ lines) =
    All-append IsAddress (i2c_line (strip l)) (i2c_lines lines) (i2c_line-IsAddress (strip l))
      (i2c_lines-IsAddress lines)

-- Whatever the device prints, what `_parse_i2c` reports are texts of 7-bit addresses.
pub parse_i2c-IsAddress : (output : Text) → All IsAddress (parse_i2c output)
unfolding parse_i2c
parse_i2c-IsAddress output = i2c_lines-IsAddress (splitlines (strip_ansi output))
