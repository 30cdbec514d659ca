-- ===== src/Rpc/Write/Sent.antt =====
-- What `storage_write` puts on the wire.
use flipperzero_mcp.Rpc.Call.Exchange.{ensure_open, next_id}
use flipperzero_mcp.Rpc.Session.{ensure_rpc_session_started, get_next_command_id}
use flipperzero_mcp.Link.Send.{send_returned}
use flipperzero_mcp.Base.{
  some, ◌∙◌, sym, max, ◌+◌, arith, append_assoc, ◌++◌, ◌∷◌, [], List, false, true, ap, refl, ◌≡◌,
  ◌<◌, ◌≤◌, ◌/◌, suc, zero, ℕ, Text, Bytes, length-drop, length-take, take-append-drop, drop, take,
  length,
}
use flipperzero_mcp.Proto.{Codec}
use flipperzero_mcp.Link.{
  except-returned, wait_for-returned, >>=-ok, wait_for, ◌>>◌, ◌>>=◌, >>=-returned, pass_time, ok,
  Link, send,
}
use flipperzero_mcp.Link.Quiet.{pass_time-IsQuiet}
use flipperzero_mcp.Rpc.Frame.{frame, receive_main_message}
use flipperzero_mcp.Rpc.Frame.Quiet.{receive_main_message-IsQuiet}
use flipperzero_mcp.Rpc.Write.{
  write_chunk_size, storage_write, storage_write_internal, slices, chunk, write_message,
  write_chunks, pace,
}

-- One file as its slices: put together they are the file, each but the last has exactly `size` bytes,
-- and the last has at most so many.
abbrev pub joined : List Bytes → Bytes
joined [] = []
joined (part ∷ parts) = part ++ joined parts

abbrev pub IsSliced : ℕ → List Bytes → Type 0
IsSliced size [] = Unit
IsSliced size (part ∷ []) = length part ≤ size
IsSliced size (part ∷ next ∷ parts) = (length part ≡ size) × IsSliced size (next ∷ parts)

slices-joined :
    (fuel size : ℕ) (content : Bytes)
    → 0 < size
    → length content ≤ fuel
    → joined (slices fuel size content) ≡ content
unfolding slices
slices-joined fuel size [] p h = refl
slices-joined zero size (x ∷ xs) p h = absurd (omega arith)
slices-joined (suc fuel) zero (x ∷ xs) p h = absurd (omega arith)
slices-joined (suc fuel) (suc s) (x ∷ xs) p h =
    rw (slices-joined fuel (suc s) (drop s xs) p (omega (arith, length-drop s xs)))
      (take-append-drop (suc s) (x ∷ xs))

-- A slice in front of the slices of what it leaves.
cons-IsSliced :
    (fuel size : ℕ) (content left : Bytes)
    → left ≡ drop size content
    → IsSliced size (slices fuel size left)
    → IsSliced size (take size content ∷ slices fuel size left)
unfolding slices
cons-IsSliced fuel size content [] e h = omega (arith, length-take size content)
cons-IsSliced zero size content (x ∷ xs) e h = omega (arith, length-take size content)
cons-IsSliced (suc fuel) size content (x ∷ xs) e h =
    (omega (arith, length-take size content, length-drop size content, ap length e), h)

slices-IsSliced : (fuel size : ℕ) (content : Bytes) → IsSliced size (slices fuel size content)
unfolding slices
slices-IsSliced fuel size [] = tt
slices-IsSliced zero size (x ∷ xs) = tt
slices-IsSliced (suc fuel) size (x ∷ xs) =
    cons-IsSliced fuel size (x ∷ xs) (drop size (x ∷ xs)) refl
      (slices-IsSliced fuel size (drop size (x ∷ xs)))

-- The chunks of a file, put together, are the file; none is missing and none is too large.
pub chunk-joined :
    (content : Bytes) (size : ℕ)
    → 0 < size
    → (joined (chunk content size) ≡ content) × IsSliced size (chunk content size)
unfolding chunk
chunk-joined [] size h = (refl, omega arith)
chunk-joined (x ∷ xs) size h = (
  slices-joined (length (x ∷ xs)) size (x ∷ xs) h (omega arith),
  slices-IsSliced (length (x ∷ xs)) size (x ∷ xs),
)

module _ ⦃c : Codec⦄ where
  -- The frames of a file in parts: one for each, all with one id, and each but the last announces
  -- another.
  abbrev pub write_frames : ℕ → Text → List Bytes → List Bytes
  write_frames id path [] = []
  write_frames id path (part ∷ []) = frame (write_message id path part false) ∷ []
  write_frames id path (part ∷ next ∷ parts) =
      frame (write_message id path part true) ∷ write_frames id path (next ∷ parts)

  write_chunks-sent :
      (id : ℕ) (path : Text) (parts : List Bytes) (w : Link) {w' : Link}
      → write_chunks id path parts w ≡ (ok true, w')
      → w'.sent ≡ w.sent ++ write_frames id path parts
  unfolding write_chunks pace
  write_chunks-sent id path [] w h = cc
  write_chunks-sent id path (part ∷ []) w h =
      let message = frame (write_message id path part false) in
      >>=-returned (send message) _ w h λ _ u e h'.
        >>=-returned (receive_main_message 2500) _ u h' λ response v e' h''. cc (
          ap (λ u. u.sent) (send_returned message w e),
          ap (λ u. u.sent) ((receive_main_message-IsQuiet 2500).at u),
          e',
          h'',
        )
  write_chunks-sent id path (part ∷ next ∷ parts) w h =
      let message = frame (write_message id path part true) in
      >>=-returned (send message) _ w h λ _ u e h'.
        >>=-returned (pass_time (length message / 80)) _ u h' λ _ v e' h''. cc (
          ap (λ u. u.sent) (send_returned message w e),
          ap (λ u. u.sent) ((pass_time-IsQuiet (length message / 80)).at u),
          e',
          write_chunks-sent id path (next ∷ parts) v h'',
          append_assoc w.sent (message ∷ []) (write_frames id path (next ∷ parts)),
        )

  storage_write_internal-sent :
      (path : Text) (content : Bytes) (w : Link) {w' : Link}
      → w.rpc_session_started ≡ true
      → storage_write_internal path content w ≡ (ok true, w')
      → w'.sent ≡ w.sent ++ write_frames (next_id w) path (chunk content write_chunk_size)
  unfolding storage_write_internal get_next_command_id
  storage_write_internal-sent path content w started h =
      let parts = chunk content write_chunk_size in
      let rest = (do id ← get_next_command_id; write_chunks id path parts) in
      write_chunks-sent (next_id w) path parts (record w { command_id = next_id w })
        (sym (>>=-ok ensure_rpc_session_started (λ _. rest) (ensure_open w started))
          ∙ except-returned (ensure_rpc_session_started >> rest) w (λ e. cc e) h)

  -- A write that reports success in a started session has sent exactly the file: one frame for each
  -- chunk, in order, under the next command id, all but the last with `has_next`, and the chunks put
  -- together are the content.
  pub storage_write-sent :
      (path : Text) (content : Bytes) (w : Link) {w' : Link}
      → w.rpc_session_started ≡ true
      → storage_write path content w ≡ (ok true, w')
      → (w'.sent ≡ w.sent ++ write_frames (next_id w) path (chunk content write_chunk_size))
        × (joined (chunk content write_chunk_size) ≡ content)
        × IsSliced write_chunk_size (chunk content write_chunk_size)
  unfolding storage_write
  storage_write-sent path content w started h =
      let timeout = max 15000 (length content / 40) in
      let write = storage_write_internal path content in
      wait_for-returned timeout write w (except-returned (wait_for timeout write) w (λ e. cc e) h)
        λ u e same. (
          ap (λ u. u.sent) same
              ∙ storage_write_internal-sent path content
                  (record w { deadline = some (w.clock + timeout) }) started e,
          (chunk-joined content write_chunk_size (omega arith)).0,
          (chunk-joined content write_chunk_size (omega arith)).1,
        )
