-- ===== src/Link.antt =====
-- transport/base.py: FlipperTransport as the RPC layer sees it, over what the environment does.
mod Monad
pub mod Stream
pub mod Prompt
pub mod Reading
pub mod Quiet
pub mod Send
pub mod Sends
pub mod Emits
pub mod Timely
unfoldable pub use Monad.*
use flipperzero_mcp.Base.{
  ℕ, zero, suc, ◌+◌, ◌-◌, ◌*◌, ◌/◌, ◌||◌, List, [], ◌∷◌, ◌++◌, Bytes, min, leb, length, take, drop,
  if◌then◌else◌,
}

-- One call of `transport.receive(timeout)`, by the next thing that the environment does.
unfoldable pub accept : List Arrival → ℕ → M Bytes
accept [] timeout w = (pass_time timeout >> pure []) (record w { incoming = [] })
accept (silence ∷ rest) timeout w = (pass_time timeout >> pure []) (record w { incoming = rest })
accept (arrive dt bytes ∷ rest) timeout w =
    (pass_time (min dt timeout) >> pure bytes) (record w { incoming = rest })
accept (broken e ∷ rest) timeout w = raise e (record w { incoming = rest })

unfoldable pub receive : ℕ → M Bytes
unfolding accept
receive timeout w = accept w.incoming timeout w

extend_buffer : Bytes → M (Unit {0})
extend_buffer chunk w = (ok tt, record w { rx_buffer = w.rx_buffer ++ chunk })

-- The loop of `receive_exact`: it ends when the buffer holds `n` bytes or at `stop`, its deadline.
-- It recurs on what the environment will still do; after the last of that a receive times out, and
-- the clock has reached `stop`.
pub fill_buffer : List Arrival → ℕ → ℕ → M (Unit {0})
fill_buffer [] n stop w =
    if leb n (length w.rx_buffer) || leb stop w.clock
    then (ok tt, record w { incoming = [] })
    else (accept [] (stop - w.clock) >>= extend_buffer) w
fill_buffer (a ∷ rest) n stop w =
    let round = (do
      chunk ← accept (a ∷ rest) (stop - w.clock)
      extend_buffer chunk
      fill_buffer rest n stop) in
    if leb n (length w.rx_buffer) || leb stop w.clock
    then (ok tt, record w { incoming = a ∷ rest })
    else round w

take_buffer : ℕ → M Bytes
take_buffer n w =
    if leb n (length w.rx_buffer)
    then (ok (take n w.rx_buffer), record w { rx_buffer = drop n w.rx_buffer })
    else (ok [], w)

-- `receive_exact(n, timeout)`. (No caller leaves the timeout out.)
unfoldable pub receive_exact : ℕ → ℕ → M Bytes
unfolding accept extend_buffer fill_buffer take_buffer
receive_exact zero timeout w = (ok [], w)
receive_exact (suc k) timeout w =
    (fill_buffer w.incoming (suc k) (w.clock + timeout) >> take_buffer (suc k)) w

unfoldable pub clear_receive_buffer : M (Unit {0})
clear_receive_buffer w = (ok tt, record w { rx_buffer = [] })

deliver : List Delivery → Bytes → M (Unit {0})
deliver [] message w = (ok tt, record w { outgoing = []; sent = w.sent ++ message ∷ [] })
deliver (delivered dt ∷ rest) message w =
    pass_time dt (record w { outgoing = rest; sent = w.sent ++ message ∷ [] })
deliver (refused e ∷ rest) message w = raise e (record w { outgoing = rest })

-- `transport.send(data)`
unfoldable pub send : Bytes → M (Unit {0})
unfolding deliver
send message w = deliver w.outgoing message w

pause_if_empty : Bytes → M (Unit {0})
pause_if_empty [] = sleep 10
pause_if_empty (x ∷ xs) = pure tt

-- `_drain_host_rx` and the nested `drain_host_rx`: receive and throw away until `stop`. Once the
-- environment is done, each round is a receive that times out (50 ms) and a sleep (10 ms).
drain_until : List Arrival → ℕ → M (Unit {0})
drain_until [] stop w = pass_time ((stop - w.clock + 59) / 60 * 60) (record w { incoming = [] })
drain_until (a ∷ rest) stop w =
    let round = (do chunk ← accept (a ∷ rest) 50; pause_if_empty chunk; drain_until rest stop) in
    if leb stop w.clock then (ok tt, record w { incoming = a ∷ rest }) else round w

unfoldable pub drain_host_rx : ℕ → M (Unit {0})
unfolding accept pause_if_empty drain_until
drain_host_rx max_ms w = except (λ w. drain_until w.incoming (w.clock + max_ms) w) (pure tt) w
