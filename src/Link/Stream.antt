-- ===== src/Link/Stream.antt =====
-- `receive_exact` as a reader of one stream of bytes: the buffer, and then what will still arrive.
use flipperzero_mcp.Base.{
  refl, inr, inl, ◌⊎◌, ◌-◌, ◌+◌, suc, zero, length-take, take-append-drop, drop, take, ◌||◌, ◌∙◌,
  length, sym, leb, ap, Bool-cases, append_assoc, ℕ, ◌≡◌, List, [], ◌∷◌, ◌++◌, Bytes, arith,
}
use flipperzero_mcp.Link.{
  >>=-returned, >>=-returned, receive_exact, take_buffer, extend_buffer, fill_buffer, Link, Arrival,
  silence, arrive, broken, ok, pass_time, accept,
}

-- The bytes that will still arrive.
abbrev pub payloads : List Arrival → Bytes
payloads [] = []
payloads (silence ∷ rest) = payloads rest
payloads (arrive dt bytes ∷ rest) = bytes ++ payloads rest
payloads (broken e ∷ rest) = payloads rest

abbrev pub stream : Link → Bytes
stream w = w.rx_buffer ++ payloads w.incoming

accept-buffer : (s : List Arrival) (t : ℕ) (w : Link) → (accept s t w).1.rx_buffer ≡ w.rx_buffer
unfolding accept pass_time
accept-buffer [] t w = ground arith
accept-buffer (silence ∷ rest) t w = ground arith
accept-buffer (arrive dt bytes ∷ rest) t w = ground arith
accept-buffer (broken e ∷ rest) t w = ground arith

-- A round of the loop keeps the stream: what it receives goes to the end of the buffer.
accept-payloads :
    (s : List Arrival) (t : ℕ) (w : Link) {chunk : Bytes} {w' : Link}
    → accept s t w ≡ (ok chunk, w')
    → chunk ++ payloads w'.incoming ≡ payloads s
unfolding accept pass_time
accept-payloads [] t w h = ground arith
accept-payloads (silence ∷ rest) t w h = ground arith
accept-payloads (arrive dt bytes ∷ rest) t w h = ground arith
accept-payloads (broken e ∷ rest) t w h = cc

accept-incoming :
    (a : Arrival) (rest : List Arrival) (t : ℕ) (w : Link)
    → (accept (a ∷ rest) t w).1.incoming ≡ rest
unfolding accept pass_time
accept-incoming silence rest t w = ground arith
accept-incoming (arrive dt bytes) rest t w = ground arith
accept-incoming (broken e) rest t w = refl

-- Adding what a round received to the buffer moves it along the stream.
extend_buffer-stream :
    (s : List Arrival) (t : ℕ) (w : Link) {chunk : Bytes} {w' : Link}
    → accept s t w ≡ (ok chunk, w')
    → (w'.rx_buffer ++ chunk) ++ payloads w'.incoming ≡ w.rx_buffer ++ payloads s
extend_buffer-stream s t w {chunk} {w'} h =
    rw (append_assoc, accept-payloads s t w h)
      (ap (λ b. b ++ payloads s) (ap (λ p. p.1.rx_buffer) (sym h) ∙ accept-buffer s t w))

-- The loop of `receive_exact` only moves bytes from what arrives to the buffer.
fill_buffer-stream :
    (s : List Arrival) (n stop : ℕ) (w : Link) {w' : Link}
    → fill_buffer s n stop w ≡ (ok tt, w')
    → stream w' ≡ w.rx_buffer ++ payloads s
unfolding fill_buffer extend_buffer
fill_buffer-stream [] n stop w h =
    elim (Bool-cases (leb n (length w.rx_buffer) || leb stop w.clock)) [
      | inl done ↦ ground arith
      | inr more ↦
          >>=-returned (accept [] (stop - w.clock)) extend_buffer w (rw more at h)
            λ chunk u e h'. ground (arith, extend_buffer-stream [] (stop - w.clock) w e)
    ]
fill_buffer-stream (a ∷ rest) n stop w h =
    elim (Bool-cases (leb n (length w.rx_buffer) || leb stop w.clock)) [
      | inl done ↦ ground arith
      | inr more ↦
          >>=-returned (accept (a ∷ rest) (stop - w.clock)) _ w (rw more at h) λ chunk u e h'. cc (
            fill_buffer-stream rest n stop _ h',
            extend_buffer-stream (a ∷ rest) (stop - w.clock) w e,
            accept-incoming a rest (stop - w.clock) w,
          )
    ]

take_buffer-stream :
    (n : ℕ) (w : Link) {out : Bytes} {w' : Link}
    → take_buffer n w ≡ (ok out, w')
    → out ++ stream w' ≡ stream w
unfolding take_buffer
take_buffer-stream n w h = ground (
  arith,
  append_assoc (take n w.rx_buffer) (drop n w.rx_buffer) (payloads w.incoming),
  take-append-drop n w.rx_buffer,
)

take_buffer-length :
    (n : ℕ) (w : Link) {out : Bytes} {w' : Link}
    → take_buffer n w ≡ (ok out, w')
    → (out ≡ []) ⊎ (length out ≡ n)
unfolding take_buffer
take_buffer-length n w h = ground (arith, length-take n w.rx_buffer)

-- Whatever the environment does, `receive_exact` loses no byte of the stream and invents none: what
-- it returns (nothing at all on a timeout) is the front of the stream, and the rest is left.
pub receive_exact-stream :
    (n timeout : ℕ) (w : Link) {out : Bytes} {w' : Link}
    → receive_exact n timeout w ≡ (ok out, w')
    → (out ++ stream w' ≡ stream w) × ((out ≡ []) ⊎ (length out ≡ n))
unfolding receive_exact
receive_exact-stream zero timeout w h = (ground arith, ground arith)
receive_exact-stream (suc k) timeout w h =
    >>=-returned (fill_buffer w.incoming (suc k) (w.clock + timeout)) _ w h λ _ u e h'. (
      take_buffer-stream (suc k) u h'
          ∙ fill_buffer-stream w.incoming (suc k) (w.clock + timeout) w e,
      take_buffer-length (suc k) u h',
    )
