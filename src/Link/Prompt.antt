-- ===== src/Link/Prompt.antt =====
-- Reading from a link on which everything arrives in time, in pieces of any size.
use flipperzero_mcp.Link.Stream.{payloads, stream}
use native.Mathlib.Nat.{le_refl, le_trans, le-add_right}
use flipperzero_mcp.Base.{
  le→leb, arith, append_assoc, append-nil, ◌++◌, ◌∷◌, [], List, some, none, Option, false, inr, inl,
  ◌∙◌, ◌≡◌, ◌<◌, ◌≤◌, ◌-◌, ◌+◌, ℕ, Bytes, length, Option-cases, Bool-cases, leb→le, leb,
}
use flipperzero_mcp.Link.{
  extend_buffer, accept, pass_time, ok, Result, broken, arrive, silence, Arrival, Link, fill_buffer,
}

-- Whatever arrives does so in less than `t` ms, and no receive fails.
abbrev pub IsPrompt : ℕ → List Arrival → Type 0
IsPrompt t [] = Unit
IsPrompt t (silence ∷ rest) = ⊥
IsPrompt t (arrive dt bytes ∷ rest) = (dt < t) × IsPrompt (t - dt) rest
IsPrompt t (broken e ∷ rest) = ⊥

-- The enclosing `wait_for` leaves time until `stop`.
abbrev pub Allows : ℕ → Option ℕ → Type 0
Allows stop none = Unit
Allows stop (some d) = stop ≤ d

-- By the time `stop` the link delivers `bytes` and no more, and no deadline comes before.
pub record Delivers (stop : ℕ) (bytes : Bytes) (w : Link) : Type 0 where
  pub all_of_it : stream w ≡ bytes
  pub prompt : IsPrompt (stop - w.clock) w.incoming
  pub allowed : Allows stop w.deadline

-- The link after reading: later, with less to come and another buffer; nothing else has changed.
abbrev pub after_reading : Link → ℕ → List Arrival → Bytes → Link
after_reading w clock incoming buffer = record w {
  clock = clock;
  incoming = incoming;
  rx_buffer = buffer;
}

allowed_deadline :
    {deadline : Option ℕ} (stop : ℕ) {d : ℕ} → Allows stop deadline → deadline ≡ some d → stop ≤ d
allowed_deadline stop a e = rw e at a

pass_time-allowed :
    (dt stop : ℕ) (w : Link)
    → Allows stop w.deadline
    → w.clock + dt ≤ stop
    → pass_time dt w ≡ (ok tt, record w { clock = w.clock + dt })
unfolding pass_time
pass_time-allowed dt stop w a h = elim (Option-cases w.deadline) [
  | inl absent ↦ rw absent
  | inr (d, e) ↦ ground (arith, allowed_deadline stop a e)
]

pub record Filled (n stop : ℕ) (bytes : Bytes) (w : Link) (r : Result (Unit {0}) × Link)
    : Type 0 where
  pub clock : ℕ
  pub incoming : List Arrival
  pub buffer : Bytes
  pub ended : r ≡ (ok tt, after_reading w clock incoming buffer)
  pub later : w.clock ≤ clock
  pub enough : n ≤ length buffer
  pub kept : buffer ++ payloads incoming ≡ bytes
  pub prompt : IsPrompt (stop - clock) incoming

-- One round of the loop on bytes that arrive.
fill_round :
    (dt : ℕ) (bytes : Bytes) (rest : List Arrival) (n stop limit : ℕ) (w : Link)
    → Allows stop w.deadline
    → dt < stop - w.clock
    → stop ≤ limit
    → leb n (length w.rx_buffer) ≡ false
    → fill_buffer (arrive dt bytes ∷ rest) n limit w
      ≡ fill_buffer rest n limit (after_reading w (w.clock + dt) rest (w.rx_buffer ++ bytes))
unfolding fill_buffer accept extend_buffer
fill_round dt bytes rest n stop limit w a h l short =
    ground (arith, pass_time-allowed dt stop (record w { incoming = rest }) a)

buffer_holds :
    (buffer : Bytes) {bytes : Bytes} (n : ℕ)
    → buffer ++ [] ≡ bytes
    → n ≤ length bytes
    → n ≤ length buffer
buffer_holds buffer n e h = rw (← append-nil buffer, e) h

sub_add : (a b c : ℕ) → a - (b + c) ≡ a - b - c
sub_add a b c = omega arith

fill_more :
    {n stop : ℕ} {bytes : Bytes} (w : Link) {clock : ℕ} {incoming : List Arrival} {buffer : Bytes}
    {r r' : Result (Unit {0}) × Link}
    → r ≡ r'
    → w.clock ≤ clock
    → Filled n stop bytes (after_reading w clock incoming buffer) r'
    → Filled n stop bytes w r
fill_more w e h f = record {
  clock = f.clock;
  incoming = f.incoming;
  buffer = f.buffer;
  ended = e ∙ f.ended;
  later = le_trans h f.later;
  enough = f.enough;
  kept = f.kept;
  prompt = f.prompt;
}

pub fill_buffer-Filled :
    (s : List Arrival) (n stop limit : ℕ) (bytes : Bytes) (w : Link)
    → IsPrompt (stop - w.clock) s
    → Allows stop w.deadline
    → stop ≤ limit
    → w.rx_buffer ++ payloads s ≡ bytes
    → n ≤ length bytes
    → Filled n stop bytes w (fill_buffer s n limit w)
unfolding fill_buffer
fill_buffer-Filled [] n stop limit bytes w p a l e h = record {
  clock = w.clock;
  incoming = [];
  buffer = w.rx_buffer;
  ended = rw (le→leb _ _ (buffer_holds w.rx_buffer n e h));
  later = le_refl _;
  enough = buffer_holds w.rx_buffer n e h;
  kept = e;
  prompt = tt;
}
fill_buffer-Filled (silence ∷ rest) n stop limit bytes w p a l e h = absurd p
fill_buffer-Filled (broken x ∷ rest) n stop limit bytes w p a l e h = absurd p
fill_buffer-Filled (arrive dt chunk ∷ rest) n stop limit bytes w p a l e h =
    elim (Bool-cases (leb n (length w.rx_buffer))) [
      | inl done ↦ record {
        clock = w.clock;
        incoming = arrive dt chunk ∷ rest;
        buffer = w.rx_buffer;
        ended = rw done;
        later = le_refl _;
        enough = leb→le _ _ done;
        kept = e;
        prompt = p;
      }
      | inr short ↦
          fill_more w (fill_round dt chunk rest n stop limit w a p.0 l short)
            (le-add_right w.clock dt)
            (fill_buffer-Filled rest n stop limit bytes
              (after_reading w (w.clock + dt) rest (w.rx_buffer ++ chunk)) (rw sub_add p.1) a l
              (append_assoc w.rx_buffer chunk (payloads rest) ∙ e) h)
    ]
