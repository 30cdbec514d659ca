-- ===== src/Rpc/Varint/Quiet.antt =====
-- Reading a varint sends nothing.
use flipperzero_mcp.Base.{◌∷◌, [], Option, suc, zero, ℕ, Bytes}
use flipperzero_mcp.Link.{M, receive_exact}
use flipperzero_mcp.Link.Quiet.{IsQuiet, quiet_rules, receive_exact-IsQuiet, IsQuiet-bind}
use flipperzero_mcp.Rpc.Varint.{read_round, read_rounds, read_varint}

read_round-IsQuiet :
    (next : ℕ → ℕ → M (Option ℕ)) (value shift : ℕ) (byte : Bytes)
    → ((v s : ℕ) → IsQuiet (next v s))
    → IsQuiet (read_round next value shift byte)
unfolding read_round
read_round-IsQuiet next value shift [] h = search quiet_rules
read_round-IsQuiet next value shift (b ∷ _) h = search quiet_rules

read_rounds-IsQuiet : (k timeout value shift : ℕ) → IsQuiet (read_rounds k timeout value shift)
unfolding read_rounds
read_rounds-IsQuiet zero timeout value shift = search quiet_rules
read_rounds-IsQuiet (suc k) timeout value shift =
    IsQuiet-bind (receive_exact 1 timeout) (read_round (read_rounds k timeout) value shift)
      (receive_exact-IsQuiet 1 timeout)
      λ byte.
        read_round-IsQuiet (read_rounds k timeout) value shift byte (read_rounds-IsQuiet k timeout)

pub read_varint-IsQuiet : (timeout : ℕ) → IsQuiet (read_varint timeout)
unfolding read_varint
read_varint-IsQuiet timeout = search (quiet_rules, read_rounds-IsQuiet)
