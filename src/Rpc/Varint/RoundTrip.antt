-- ===== src/Rpc/Varint/RoundTrip.antt =====
-- `_read_varint` reads back what `_encode_varint` wrote, however the bytes arrive.
use mathlib.Core.WellFounded.{Acc}
use flipperzero_mcp.Link.{receive_exact, pure, M, ok, Link}
use flipperzero_mcp.Base.{
  arith, append_assoc, ◌++◌, ◌∷◌, [], some, none, Option, inr, inl, ap, ◌≡◌, ◌<◌, ◌≤◌, ◌^◌, ◌%◌,
  ◌/◌, ◌*◌, ◌+◌, suc, zero, ℕ, Bytes, lt_wf, All, length, Bool-cases, ltb→lt, if◌then◌else◌, ltb,
}
use native.Mathlib.Numerals.{towards_suc}
use native.Mathlib.Nat.{add_assoc}
use native.Mathlib.Nat.{div-add-mod}
use flipperzero_mcp.Base.Bits.{low_bits, bit_or_shifted, set_top_bit, top_bit_clear, top_bit_set}
use flipperzero_mcp.Rpc.Varint.{encode_loop, encode_varint, read_round, read_rounds, read_varint}
use flipperzero_mcp.Link.Prompt.{Delivers}
use flipperzero_mcp.Link.Reading.{
  Reading-except, Reading, Reading-bind, Reading-pure, receive_exact-Reading,
}

-- The groups of seven bits of `n`, lowest first, for `n` below 128 ^ (k + 1).
unfoldable pub groups : ℕ → ℕ → Bytes
groups zero n = n ∷ []
groups (suc k) n =
    let rest = groups k (n / 128) in if ltb n 128 then n ∷ [] else (n % 128 + 128) ∷ rest

encode_loop-groups :
    (k : ℕ) (out : Bytes) (n : ℕ) (w : Acc ◌<◌ n)
    → n < 128 ^ suc k
    → encode_loop out n w ≡ out ++ groups k n
unfolding encode_loop groups
encode_loop-groups zero out n (Acc.intro _ smaller) h = ground (arith, low_bits n)
encode_loop-groups (suc k) out n (Acc.intro _ smaller) h =
    let head : Bytes = (n % 128 + 128) ∷ [] in
    grind (
      arith,
      low_bits n,
      set_top_bit (n % 128) (omega arith),
      λ (w : Acc ◌<◌ (n / 128)). encode_loop-groups k (out ++ head) (n / 128) w (omega arith),
      append_assoc out head (groups k (n / 128)),
    )

-- Below 128 ^ 5, the encoding is the groups, in at most five bytes.
pub encode_varint-groups : (n : ℕ) → n < 128 ^ 5 → encode_varint n ≡ groups 4 n
unfolding encode_varint
encode_varint-groups n h = encode_loop-groups 4 [] n (lt_wf.apply n) h

pub groups-IsByte : (k n : ℕ) → n < 128 ^ suc k → All (λ b. b < 256) (groups k n)
unfolding groups
groups-IsByte zero n h = omega arith
groups-IsByte (suc k) n h = ground (arith, groups-IsByte k (n / 128) (omega arith))

pub length-groups : (k n : ℕ) → (1 ≤ length (groups k n)) × (length (groups k n) ≤ suc k)
unfolding groups
length-groups zero n = omega arith
length-groups (suc k) n = ground (arith, length-groups k (n / 128))

below_128 : (b : ℕ) → b < 128 → b % 128 ≡ b
below_128 b h = omega arith

drop_top : (g : ℕ) → g < 128 → (g + 128) % 128 ≡ g
drop_top g h = omega arith

-- The last byte of a number ends the loop; a byte with the top bit set goes on.
read_round_last :
    (next : ℕ → ℕ → M (Option ℕ)) (value shift b : ℕ) (w : Link)
    → b < 128
    → value < 2 ^ shift
    → read_round next value shift (b ∷ []) w ≡ (ok (some (value + b * 2 ^ shift)), w)
unfolding read_round
read_round_last next value shift b w h v =
    rw (top_bit_clear b h, low_bits, below_128 b h)
      (ap (λ (n : ℕ). (ok (some n), w)) (bit_or_shifted shift value b v))

read_round_more :
    (next : ℕ → ℕ → M (Option ℕ)) (value shift g : ℕ) (w : Link)
    → g < 128
    → value < 2 ^ shift
    → read_round next value shift ((g + 128) ∷ []) w ≡ next (value + g * 2 ^ shift) (shift + 7) w
unfolding read_round
read_round_more next value shift g w h v =
    rw (top_bit_set g h, low_bits, drop_top g h)
      (ap (λ (n : ℕ). next n (shift + 7) w) (bit_or_shifted shift value g v))

shift_seven : (s : ℕ) → 2 ^ (s + 7) ≡ 128 * 2 ^ s
shift_seven s = simp towards_suc (omega arith)

-- The lowest group and the rest, both from bit `s` on.
split_group : (n s : ℕ) → n % 128 * 2 ^ s + n / 128 * 2 ^ (s + 7) ≡ n * 2 ^ s
split_group n s = omega (
  arith,
  ap (λ (t : ℕ). t * 2 ^ s) (div-add-mod n 128),
  ap (λ (t : ℕ). n / 128 * t) (shift_seven s),
)

mul_below : (a b c : ℕ) → a ≤ b → a * c ≤ b * c
mul_below a b c h = grind arith

add_group_fits :
    (value shift n : ℕ) → value < 2 ^ shift → value + n % 128 * 2 ^ shift < 2 ^ (shift + 7)
add_group_fits value shift n h =
    omega (arith, shift_seven shift, mul_below (n % 128) 127 (2 ^ shift) (omega arith))

-- The last round.
last_group :
    (j timeout value shift n stop : ℕ) (rest : Bytes) (w : Link)
    → n < 128
    → value < 2 ^ shift
    → stop ≤ w.clock + timeout
    → Delivers stop (n ∷ rest) w
    → Reading stop rest w (some (value + n * 2 ^ shift)) (read_rounds (suc j) timeout value shift w)
unfolding read_rounds
last_group j timeout value shift n stop rest w hn hv l d =
    Reading-bind (receive_exact 1 timeout) (read_round (read_rounds j timeout) value shift) w
      (receive_exact-Reading (n ∷ []) rest timeout stop w l d)
      λ u later d'.
        rw (read_round_last (read_rounds j timeout) value shift n u hn hv) (Reading-pure u _ d')

-- `n` is what is still to be read, and it counts from bit `shift` on.
read_rounds-Reading :
    (k j timeout value shift n stop : ℕ) (rest : Bytes) (w : Link)
    → k ≤ j
    → n < 128 ^ suc k
    → value < 2 ^ shift
    → stop ≤ w.clock + timeout
    → Delivers stop (groups k n ++ rest) w
    → Reading stop rest w (some (value + n * 2 ^ shift)) (read_rounds (suc j) timeout value shift w)
unfolding groups read_rounds
read_rounds-Reading zero j timeout value shift n stop rest w kj hn hv l d =
    last_group j timeout value shift n stop rest w (omega arith) hv l d
read_rounds-Reading (suc k) zero timeout value shift n stop rest w kj hn hv l d =
    absurd (omega arith)
read_rounds-Reading (suc k) (suc j) timeout value shift n stop rest w kj hn hv l d =
    elim (Bool-cases (ltb n 128)) [
      | inl small ↦
          last_group (suc j) timeout value shift n stop rest w (ltb→lt n 128 small) hv l
            (rw small at d)
      | inr large ↦
          Reading-bind (receive_exact 1 timeout)
            (read_round (read_rounds (suc j) timeout) value shift) w
            (receive_exact-Reading ((n % 128 + 128) ∷ []) (groups k (n / 128) ++ rest) timeout stop
              w l (rw large at d))
            λ u later d'.
              rw
                (
                  read_round_more (read_rounds (suc j) timeout) value shift (n % 128) u
                      (omega arith) hv,
                  ← split_group n shift,
                  ← add_assoc value (n % 128 * 2 ^ shift) (n / 128 * 2 ^ (shift + 7)),
                )
                (read_rounds-Reading k j timeout (value + n % 128 * 2 ^ shift) (shift + 7) (n / 128)
                  stop rest u (omega arith) (omega arith) (add_group_fits value shift n hv)
                  (omega arith) d')
    ]

times_one : (n : ℕ) → 0 + n * 2 ^ 0 ≡ n
times_one n = omega arith

-- Whatever pieces its bytes arrive in, `_read_varint` returns the number that `_encode_varint` was
-- given, below 2 ^ 35, and takes its bytes and no more.
pub read_varint-encode_varint :
    (n timeout stop : ℕ) (rest : Bytes) (w : Link)
    → n < 2 ^ 35
    → stop ≤ w.clock + timeout
    → Delivers stop (encode_varint n ++ rest) w
    → Reading stop rest w (some n) (read_varint timeout w)
unfolding read_varint
read_varint-encode_varint n timeout stop rest w h l d =
    Reading-except (read_rounds 5 timeout 0 0) (pure none) w (
      rw times_one at (
        read_rounds-Reading 4 4 timeout 0 0 n stop rest w (omega arith) h (omega arith) l
          (rw (encode_varint-groups n h) at d)))
