-- ===== src/Rpc/Varint.antt =====
-- `_encode_varint` and `_read_varint` of rpc/protobuf_rpc.py.
pub mod RoundTrip
pub mod Quiet
use Prim.Native.Nat.{bit_and, bit_or}
use mathlib.Core.Logic.{dite}
use mathlib.Core.WellFounded.{Acc}
use native.Mathlib.Decide.{dec_lt}
use flipperzero_mcp.Base.{
  ℕ, zero, suc, ◌+◌, ◌*◌, ◌/◌, ◌^◌, ◌<◌, Option, none, some, [], ◌∷◌, ◌++◌, Bytes, arith, lt_wf,
  ◌==◌, if◌then◌else◌,
}
use flipperzero_mcp.Link.{M, pure, except, ◌>>=◌, receive_exact}

pub shift_shrinks : (n : ℕ) → 0 < n / 128 → n / 128 < n
shift_shrinks n h = omega arith

-- The `while True` of `_encode_varint`: `n >>= 7` is `n / 128`.
encode_loop : Bytes → (n : ℕ) → Acc ◌<◌ n → Bytes
encode_loop out n (Acc.intro _ smaller) =
    let b = bit_and n 0x7f in
    dite (dec_lt 0 (n / 128))
      (λ more. encode_loop (out ++ bit_or b 0x80 ∷ []) (n / 128) (smaller _ (shift_shrinks n more)))
      (λ _. out ++ b ∷ [])

unfoldable pub encode_varint : ℕ → Bytes
unfolding encode_loop
encode_varint n = encode_loop [] n (lt_wf.apply n)

-- One round of `_read_varint`, on the byte that `receive_exact(1)` returned (`[]` on a timeout).
read_round : (ℕ → ℕ → M (Option ℕ)) → ℕ → ℕ → Bytes → M (Option ℕ)
read_round next value shift [] = pure none
read_round next value shift (byte ∷ _) =
    let value' = bit_or value (bit_and byte 0x7f * 2 ^ shift) in
    if bit_and byte 0x80 == 0 then pure (some value') else next value' (shift + 7)

-- The `for` loop, by the rounds left.
read_rounds : ℕ → ℕ → ℕ → ℕ → M (Option ℕ)
read_rounds zero timeout value shift = pure none
read_rounds (suc k) timeout value shift =
    receive_exact 1 timeout >>= read_round (read_rounds k timeout) value shift

unfoldable pub read_varint : ℕ → M (Option ℕ)
unfolding read_rounds read_round
read_varint timeout = except (read_rounds 5 timeout 0 0) (pure none)
