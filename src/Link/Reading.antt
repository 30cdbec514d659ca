-- ===== src/Link/Reading.antt =====
-- What an action has read, on a link on which everything arrives in time.
use native.Mathlib.Nat.{le_refl, le_trans, le-add_right}
use flipperzero_mcp.Base.{
  arith, ◌++◌, ◌∷◌, [], List, ◌∙◌, refl, ◌≡◌, ◌≤◌, ◌+◌, ℕ, Bytes, drop, take, length-append, length,
}
use flipperzero_mcp.Link.{
  send, deliver, Delivery, except, take_buffer, receive_exact, >>=-ok, ◌>>=◌, pure, M, ok, Result,
  Arrival, Link, fill_buffer,
}
use flipperzero_mcp.Link.Prompt.{Delivers, after_reading, fill_buffer-Filled}

-- An action that reads: it returns `a`, and by the time `stop` the link still delivers `rest`.
pub record Reading {A : Type 0} (stop : ℕ) (rest : Bytes) (w : Link) (a : A) (r : Result A × Link)
    : Type 0 where
  pub clock : ℕ
  pub incoming : List Arrival
  pub buffer : Bytes
  pub ended : r ≡ (ok a, after_reading w clock incoming buffer)
  pub later : w.clock ≤ clock
  pub left : Delivers stop rest (after_reading w clock incoming buffer)

-- The rest of a block goes on from what its first part left. (`u` is `w` as `m` changed it before it
-- read.)
pub Reading-then :
    {A B : Type 0} (m : M A) (f : A → M B) {stop : ℕ} {rest rest' : Bytes} (w u : Link) {a : A}
    {b : B}
    → Reading stop rest u a (m w)
    → ((v : Link) → u.clock ≤ v.clock → Delivers stop rest v → Reading stop rest' v b (f a v))
    → Reading stop rest' u b ((m >>= f) w)
Reading-then m f w u r k =
    let v = after_reading u r.clock r.incoming r.buffer in
    let s = k v r.later r.left in
    record {
      clock = s.clock;
      incoming = s.incoming;
      buffer = s.buffer;
      ended = >>=-ok m f r.ended ∙ s.ended;
      later = le_trans r.later s.later;
      left = s.left;
    }

pub Reading-bind :
    {A B : Type 0} (m : M A) (f : A → M B) {stop : ℕ} {rest rest' : Bytes} (w : Link) {a : A}
    {b : B}
    → Reading stop rest w a (m w)
    → ((v : Link) → w.clock ≤ v.clock → Delivers stop rest v → Reading stop rest' v b (f a v))
    → Reading stop rest' w b ((m >>= f) w)
Reading-bind m f w r k = Reading-then m f w w r k

pub Reading-pure :
    {A : Type 0} {stop : ℕ} {rest : Bytes} (w : Link) (a : A)
    → Delivers stop rest w
    → Reading stop rest w a (pure a w)
Reading-pure w a d = record {
  clock = w.clock;
  incoming = w.incoming;
  buffer = w.rx_buffer;
  ended = refl;
  later = le_refl _;
  left = d;
}

take-front :
    (front buffer coming rest : Bytes)
    → buffer ++ coming ≡ front ++ rest
    → length front ≤ length buffer
    → (take (length front) buffer ≡ front) × (drop (length front) buffer ++ coming ≡ rest)
take-front [] buffer coming rest e h = (refl, e)
take-front (x ∷ xs) [] coming rest e h = absurd (omega arith)
take-front (x ∷ xs) (y ∷ ys) coming rest e h = ground (arith, take-front xs ys coming rest)

take_buffer_enough :
    (n : ℕ) (w : Link) {front : Bytes}
    → n ≤ length w.rx_buffer
    → take n w.rx_buffer ≡ front
    → take_buffer n w ≡ (ok front, record w { rx_buffer = drop n w.rx_buffer })
unfolding take_buffer
take_buffer_enough n w h e = ground arith

-- When as many bytes arrive in time, `receive_exact` returns exactly the next ones.
pub receive_exact-Reading :
    (front rest : Bytes) (timeout stop : ℕ) (w : Link)
    → stop ≤ w.clock + timeout
    → Delivers stop (front ++ rest) w
    → Reading stop rest w front (receive_exact (length front) timeout w)
unfolding receive_exact
receive_exact-Reading [] rest timeout stop w l d = Reading-pure w [] d
receive_exact-Reading (x ∷ xs) rest timeout stop w l d =
    let n = length (x ∷ xs) in
    let f =
      fill_buffer-Filled w.incoming n stop (w.clock + timeout) (x ∷ xs ++ rest) w d.prompt d.allowed
        l d.all_of_it (rw length-append (le-add_right _ _)) in
    let split = take-front (x ∷ xs) f.buffer _ rest f.kept f.enough in
    record {
      clock = f.clock;
      incoming = f.incoming;
      buffer = drop n f.buffer;
      ended =
          >>=-ok (fill_buffer w.incoming n (w.clock + timeout)) _ f.ended
          ∙ take_buffer_enough n (after_reading w f.clock f.incoming f.buffer) f.enough split.0;
      later = f.later;
      left = record { all_of_it = split.1; prompt = f.prompt; allowed = d.allowed };
    }

-- A `try` around an action that reads.
pub Reading-except-from :
    {A : Type 0} (m h : M A) {stop : ℕ} {rest : Bytes} (w u : Link) {a : A}
    → Reading stop rest u a (m w)
    → Reading stop rest u a (except m h w)
Reading-except-from m h w u r = record {
  clock = r.clock;
  incoming = r.incoming;
  buffer = r.buffer;
  ended = rw r.ended;
  later = r.later;
  left = r.left;
}

pub Reading-except :
    {A : Type 0} (m h : M A) {stop : ℕ} {rest : Bytes} (w : Link) {a : A}
    → Reading stop rest w a (m w)
    → Reading stop rest w a (except m h w)
Reading-except m h w r = Reading-except-from m h w w r

-- Sends succeed at once when the environment has nothing else in store.
deliver_nothing :
    (s : List Delivery) (message : Bytes) (w : Link)
    → s ≡ []
    → deliver s message w ≡ (ok tt, record w { outgoing = []; sent = w.sent ++ message ∷ [] })
unfolding deliver
deliver_nothing [] message w e = refl
deliver_nothing (x ∷ s) message w e = cc

pub send_open :
    (message : Bytes) (w : Link)
    → w.outgoing ≡ []
    → send message w ≡ (ok tt, record w { outgoing = []; sent = w.sent ++ message ∷ [] })
unfolding send
send_open message w e = deliver_nothing w.outgoing message w e
