-- ===== src/Rpc/Listing/Complete.antt =====
-- A listing is returned whole or not at all.
use mathlib.Core.Path.{subst}
use flipperzero_mcp.Link.{returned_eq, >>=-returned, pure, M, ok, Result, Link}
use flipperzero_mcp.Base.{
  arith, append_assoc, ◌++◌, ◌∷◌, [], List, some, none, Option, false, true, Bool, inr, inl, ◌≡◌,
  ◌≤◌, ◌+◌, suc, zero, ℕ, Text, Bytes, All, Bool-cases,
}
use flipperzero_mcp.Proto.{Main, Codec, Content, is_ok}
use flipperzero_mcp.Rpc.Frame.{frame, receive_main_message}
use flipperzero_mcp.Rpc.Frame.RoundTrip.{Fits, receive_main_message-frame}
use flipperzero_mcp.Rpc.Call.{call}
use flipperzero_mcp.Rpc.Call.Exchange.{IsOpen, Answers, call-Reading, after_request}
use flipperzero_mcp.Link.Prompt.{Delivers}
use flipperzero_mcp.Link.Reading.{Reading, Reading-then, Reading-bind, Reading-pure}
use flipperzero_mcp.Rpc.Listing.{
  next_frame, continuation, storage_list_frames, max_iterations, storage_list, names_of, all_files,
}

-- The frames of a whole response: each is OK, each but the last announces another, and at most `k`
-- follow the first.
abbrev pub IsComplete : ℕ → List Main → Type 0
IsComplete k [] = ⊥
IsComplete k (m ∷ []) = (is_ok m ≡ true) × (m.has_next ≡ false)
IsComplete zero (m ∷ n ∷ frames) = ⊥
IsComplete (suc k) (m ∷ n ∷ frames) =
    (is_ok m ≡ true) × (m.has_next ≡ true) × IsComplete k (n ∷ frames)

-- What the rest of the loop returns belongs behind the frame that it was begun with.
abbrev Completes : ℕ → (Main → M (List Main)) → Type 0
Completes k more =
    (m : Main) (w : Link) (frames : List Main) (w' : Link)
    → is_ok m ≡ true
    → more m w ≡ (ok frames, w')
    → IsComplete k (m ∷ frames)

next_frame-IsComplete :
    (k : ℕ) (more : Main → M (List Main)) (found : Option Main) (w : Link) {frames : List Main}
    {w' : Link}
    → Completes k more
    → next_frame more found w ≡ (ok frames, w')
    → IsComplete k frames
unfolding next_frame
next_frame-IsComplete k more none w step h = cc
next_frame-IsComplete k more (some m) w step h = elim (Bool-cases (is_ok m)) [
  | inl good ↦
      >>=-returned (more m) (λ rest. pure (m ∷ rest)) w (rw good at h)
        λ rest u e h'. subst (IsComplete k) (returned_eq h') (step m w rest u good e)
  | inr bad ↦ cc (rw bad at h)
]

cons-IsComplete :
    (k : ℕ) (m : Main) (frames : List Main)
    → is_ok m ≡ true
    → m.has_next ≡ true
    → IsComplete k frames
    → IsComplete (suc k) (m ∷ frames)
cons-IsComplete k m [] good more c = absurd c
cons-IsComplete k m (n ∷ frames) good more c = (good, more, c)

last-IsComplete :
    (k : ℕ) (m : Main) (frames : List Main) (w w' : Link)
    → is_ok m ≡ true
    → m.has_next ≡ false
    → ◌≡◌ {A = Result (List Main) × Link} (ok [], w) (ok frames, w')
    → IsComplete k (m ∷ frames)
last-IsComplete k m frames w w' good last h =
    subst (λ l. IsComplete k (m ∷ l)) (returned_eq h) (good, last)

continuation-Completes : ⦃c : Codec⦄ → (k : ℕ) → Completes k (continuation k)
unfolding continuation
continuation-Completes zero = λ m w frames w' good h. elim (Bool-cases m.has_next) [
  | inl more ↦ cc (rw more at h)
  | inr last ↦ last-IsComplete 0 m frames w w' good last (rw last at h)
]
continuation-Completes (suc k) = λ m w frames w' good h. elim (Bool-cases m.has_next) [
  | inl more ↦
      >>=-returned (receive_main_message 2500) (next_frame (continuation k)) w (rw more at h)
        λ found u e h'.
          cons-IsComplete k m frames good more
            (next_frame-IsComplete k (continuation k) found u (continuation-Completes k) h')
  | inr last ↦ last-IsComplete (suc k) m frames w w' good last (rw last at h)
]

-- If `_storage_list_frames` returns, it has seen the whole response: never one that was cut short by
-- a missing frame or by an error in the middle, and never more than 100 continuations.
pub storage_list_frames-IsComplete :
    ⦃c : Codec⦄
    → (path : Text) (include_md5 : Bool) (filter_max_size : ℕ) (w : Link) {frames : List Main}
      {w' : Link}
    → storage_list_frames path include_md5 filter_max_size w ≡ (ok frames, w')
    → IsComplete 100 frames
unfolding storage_list_frames
storage_list_frames-IsComplete path include_md5 filter_max_size w h =
    >>=-returned (call (Content.storage_list_request path include_md5 filter_max_size) 2500) _ w h
      λ found u e h'.
        next_frame-IsComplete 100 (continuation max_iterations) found u (continuation-Completes 100)
          h'

-- The bytes of the frames, one behind the other.
abbrev pub on_wire : ⦃c : Codec⦄ → List Main → Bytes
on_wire [] = []
on_wire (m ∷ frames) = frame m ++ on_wire frames

head-is_ok : (k : ℕ) (n : Main) (frames : List Main) → IsComplete k (n ∷ frames) → is_ok n ≡ true
head-is_ok k n [] c = c.0
head-is_ok zero n (x ∷ frames) c = absurd c
head-is_ok (suc k) n (x ∷ frames) c = c.0

next_frame-Reading :
    (more : Main → M (List Main)) (n : Main) {frames : List Main} {stop : ℕ} {rest : Bytes}
    (w : Link)
    → is_ok n ≡ true
    → Reading stop rest w frames (more n w)
    → Reading stop rest w (n ∷ frames) (next_frame more (some n) w)
unfolding next_frame
next_frame-Reading more n w good r =
    rw good (Reading-bind (more n) (λ rest. pure (n ∷ rest)) w r λ u later d. Reading-pure u _ d)

continuation-Reading :
    ⦃c : Codec⦄
    → (k : ℕ) (m : Main) (frames : List Main) (stop : ℕ) (rest : Bytes) (w : Link)
    → IsComplete k (m ∷ frames)
    → All Fits frames
    → stop ≤ w.clock + 2500
    → Delivers stop (on_wire frames ++ rest) w
    → Reading stop rest w frames (continuation k m w)
unfolding continuation
continuation-Reading zero m [] stop rest w c f l d = rw c.1 (Reading-pure w [] d)
continuation-Reading zero m (n ∷ frames) stop rest w c f l d = absurd c
continuation-Reading (suc k) m [] stop rest w c f l d = rw c.1 (Reading-pure w [] d)
continuation-Reading (suc k) m (n ∷ frames) stop rest w c f l d = rw c.1 (
    Reading-bind (receive_main_message 2500) (next_frame (continuation k)) w
      (receive_main_message-frame n 2500 stop (on_wire frames ++ rest) w f.0 l
        (rw append_assoc at d))
      λ u later d'.
        next_frame-Reading (continuation k) n u (head-is_ok k n frames c.2)
          (continuation-Reading k n frames stop rest u c.2 f.1 (omega arith) d'))

-- In an open session where sends succeed, a complete listing of at most 100 continuation frames, each
-- of which decodes to itself and is at most a million bytes, and all of which arrives in time, in
-- whatever pieces, is returned: all its names, in order, and what follows it is left.
pub storage_list-Reading :
    ⦃e : Codec⦄
    → (path : Text) (include_md5 : Bool) (filter_max_size : ℕ) (m : Main) (frames : List Main)
      (rest : Bytes) (w : Link)
    → IsOpen w
    → IsComplete 100 (m ∷ frames)
    → All Fits frames
    → (a : Answers 2500 m (on_wire frames ++ rest) w)
    → let first = Content.storage_list_request path include_md5 filter_max_size in
      Reading a.stop rest
        (after_request first w)
        (names_of (all_files (m ∷ frames)))
        (storage_list path include_md5 filter_max_size w)
unfolding storage_list storage_list_frames
storage_list-Reading path include_md5 filter_max_size m frames rest w o c f a =
    let first = Content.storage_list_request path include_md5 filter_max_size in
    let all = next_frame (continuation max_iterations) in
    Reading-then (storage_list_frames path include_md5 filter_max_size)
      (λ l. pure (names_of (all_files l))) w (after_request first w)
      (Reading-then (call first 2500) all w (after_request first w)
        (call-Reading first 2500 m (on_wire frames ++ rest) w o a)
        λ u later d.
          next_frame-Reading (continuation 100) m u (head-is_ok 100 m frames c) (
            continuation-Reading 100 m frames a.stop rest u c f (omega (arith, a.in_time, later))
              d))
      λ u later d. Reading-pure u _ d
