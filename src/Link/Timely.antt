-- ===== src/Link/Timely.antt =====
-- `receive_exact` ends by its deadline, whatever the environment does.
use mathlib.Core.Path.{subst}
use flipperzero_mcp.Base.{
  arith, ◌≡◌, ◌<◌, refl, ap, sym, ◌∙◌, Bool, true, false, Bytes, ◌++◌, ◌∷◌, [], List, ◌||◌, inr,
  inl, ◌≤◌, ◌-◌, ◌+◌, suc, zero, ℕ, length, Bool-cases, leb,
}
use flipperzero_mcp.Link.{
  continue, M, ◌>>◌, cancelled, raised, ok, Result, broken, arrive, silence, Arrival, Link, accept,
  fill_buffer, take_buffer, receive_exact, extend_buffer, pass_time,
}

accept-clock : (s : List Arrival) (t : ℕ) (w : Link) → (accept s t w).1.clock ≤ w.clock + t
unfolding accept pass_time
accept-clock [] t w = ground arith
accept-clock (silence ∷ rest) t w = ground arith
accept-clock (arrive dt bytes ∷ rest) t w = ground arith
accept-clock (broken e ∷ rest) t w = ground arith

-- What an action that returned, or not, has left, is no later than `stop`.
continue-clock :
    {A B : Type 0} (r : Result A × Link) (f : A → M B) (stop : ℕ)
    → r.1.clock ≤ stop
    → ((a : A) (u : Link) → u.clock ≤ stop → (f a u).1.clock ≤ stop)
    → (continue r f).1.clock ≤ stop
continue-clock (ok a, u) f stop h k = k a u h
continue-clock (raised e, u) f stop h k = h
continue-clock (cancelled, u) f stop h k = h

fill_buffer-clock :
    (s : List Arrival) (n stop : ℕ) (w : Link)
    → w.clock ≤ stop
    → (fill_buffer s n stop w).1.clock ≤ stop
unfolding fill_buffer extend_buffer
fill_buffer-clock [] n stop w h =
    elim (Bool-cases (leb n (length w.rx_buffer) || leb stop w.clock)) [
      | inl done ↦ rw done h
      | inr more ↦ rw more (
          continue-clock (accept [] (stop - w.clock) w) extend_buffer stop
            (omega (arith, accept-clock [] (stop - w.clock) w)) λ a u l. l)
    ]
fill_buffer-clock (a ∷ rest) n stop w h =
    elim (Bool-cases (leb n (length w.rx_buffer) || leb stop w.clock)) [
      | inl done ↦ rw done h
      | inr more ↦ rw more (
          continue-clock (accept (a ∷ rest) (stop - w.clock) w) _ stop
            (omega (arith, accept-clock (a ∷ rest) (stop - w.clock) w))
            λ chunk u l.
              fill_buffer-clock rest n stop (record u { rx_buffer = u.rx_buffer ++ chunk }) l)
    ]

-- From one state to the other, the transport is only asked to receive while fewer than `n` bytes are
-- there and `stop` is still to come, and then for no longer than until `stop`.
pub data Waits (n stop : ℕ) : Link → Link → Type 0 where
  over : {w : Link} → Waits n stop w w
  last :
      {w : Link}
      → length w.rx_buffer < n
      → w.clock < stop
      → Waits n stop w (accept w.incoming (stop - w.clock) w).1
  round :
      {w u v : Link} {chunk : Bytes}
      → length w.rx_buffer < n
      → w.clock < stop
      → accept w.incoming (stop - w.clock) w ≡ (ok chunk, u)
      → Waits n stop (record u { rx_buffer = u.rx_buffer ++ chunk }) v
      → Waits n stop w v

not_done : (a b : Bool) → (a || b) ≡ false → (a ≡ false) × (b ≡ false)
not_done true b h = cc h
not_done false b h = (refl, h)

accept-incoming :
    (a : Arrival) (rest : List Arrival) (t : ℕ) (w : Link)
    → (accept (a ∷ rest) t w).1.incoming ≡ rest
unfolding accept pass_time
accept-incoming silence rest t w = ground arith
accept-incoming (arrive dt bytes) rest t w = ground arith
accept-incoming (broken e) rest t w = refl

not_leb : (a b : ℕ) → leb a b ≡ false → b < a
not_leb a b h = ground arith

left_over :
    (a : Arrival) (rest : List Arrival) (t : ℕ) (w u : Link) {chunk : Bytes}
    → w.incoming ≡ a ∷ rest
    → accept w.incoming t w ≡ (ok chunk, u)
    → u.incoming ≡ rest
left_over a rest t w u e q =
    ap (λ r. r.1.incoming) (sym (rw e at q))
    ∙ accept-incoming a rest t (record w { incoming = a ∷ rest })

-- One more receive, and what follows it if it returns.
receive-Waits :
    (n stop : ℕ) (w : Link) (f : Bytes → M (Unit {0}))
    → length w.rx_buffer < n
    → w.clock < stop
    → ((chunk : Bytes)
        → (u : Link) → accept w.incoming (stop - w.clock) w ≡ (ok chunk, u)
        → Waits n stop (record u { rx_buffer = u.rx_buffer ++ chunk }) (f chunk u).1)
    → Waits n stop w (continue (accept w.incoming (stop - w.clock) w) f).1
receive-Waits n stop w f short early k = by_end (accept w.incoming (stop - w.clock) w) refl
  where
    by_end :
        (r : Result Bytes × Link)
        → accept w.incoming (stop - w.clock) w ≡ r
        → Waits n stop w (continue r f).1
    by_end (ok chunk, u) e = round short early e (k chunk u e)
    by_end (raised x, u) e = subst (λ z. Waits n stop w z) (ap (λ r. r.1) e) (last short early)
    by_end (cancelled, u) e = subst (λ z. Waits n stop w z) (ap (λ r. r.1) e) (last short early)

fill_buffer-Waits :
    (s : List Arrival) (n stop : ℕ) (w : Link)
    → w.incoming ≡ s
    → Waits n stop w (fill_buffer s n stop w).1
unfolding fill_buffer extend_buffer
fill_buffer-Waits [] n stop w e =
    elim (Bool-cases (leb n (length w.rx_buffer) || leb stop w.clock)) [
      | inl done ↦ rw done (subst (λ z. Waits n stop w (record w { incoming = z })) e over)
      | inr more ↦
          let early = not_done _ _ more in
          rw more (
            subst (λ z. Waits n stop w (continue (accept z (stop - w.clock) w) extend_buffer).1) e
              (receive-Waits n stop w extend_buffer (not_leb _ _ early.0) (not_leb _ _ early.1)
                λ chunk u q. over))
    ]
fill_buffer-Waits (a ∷ rest) n stop w e =
    elim (Bool-cases (leb n (length w.rx_buffer) || leb stop w.clock)) [
      | inl done ↦ rw done (subst (λ z. Waits n stop w (record w { incoming = z })) e over)
      | inr more ↦
          let early = not_done _ _ more in
          rw more (
            subst
              (λ z.
                Waits n stop w
                  (continue (accept z (stop - w.clock) w)
                    (λ chunk. extend_buffer chunk >> fill_buffer rest n stop)).1)
              e
              (receive-Waits n stop w (λ chunk. extend_buffer chunk >> fill_buffer rest n stop)
                (not_leb _ _ early.0) (not_leb _ _ early.1)
                λ chunk u q.
                  fill_buffer-Waits rest n stop (record u { rx_buffer = u.rx_buffer ++ chunk })
                    (left_over a rest (stop - w.clock) w u e q)))
    ]

take_buffer-Waits :
    (n stop : ℕ) (w v : Link)
    → Waits n stop w v
    → (u : Link) × Waits n stop w u
      × ((take_buffer n v).1 ≡ record u { rx_buffer = (take_buffer n v).1.rx_buffer })
unfolding take_buffer
take_buffer-Waits n stop w v t = elim (Bool-cases (leb n (length v.rx_buffer))) [
  | inl y ↦ (v, t, rw y refl)
  | inr m ↦ (v, t, rw m refl)
]

take_buffer-clock : (n stop : ℕ) (w : Link) → w.clock ≤ stop → (take_buffer n w).1.clock ≤ stop
unfolding take_buffer
take_buffer-clock n stop w h = ground arith

-- However `receive_exact` ends, and however the bytes trickle in, it does so by its deadline. It asks
-- the transport only while bytes are missing and the deadline is still to come, each time for the
-- time that is left; after that it changes nothing but its buffer.
pub receive_exact-clock :
    (n timeout : ℕ) (w : Link)
    → ((receive_exact n timeout w).1.clock ≤ w.clock + timeout)
      × ((u : Link) × Waits n (w.clock + timeout) w u
          × ((receive_exact n timeout w).1
              ≡ record u { rx_buffer = (receive_exact n timeout w).1.rx_buffer }))
unfolding receive_exact
receive_exact-clock zero timeout w = (omega arith, (w, over, refl))
receive_exact-clock (suc k) timeout w = (
  continue-clock (fill_buffer w.incoming (suc k) (w.clock + timeout) w) _ (w.clock + timeout)
      (fill_buffer-clock w.incoming (suc k) (w.clock + timeout) w (omega arith))
      λ a u l. take_buffer-clock (suc k) (w.clock + timeout) u l,
  by_end (fill_buffer w.incoming (suc k) (w.clock + timeout) w)
      (fill_buffer-Waits w.incoming (suc k) (w.clock + timeout) w refl),
)
  where
    by_end :
        (r : Result (Unit {0}) × Link)
        → Waits (suc k) (w.clock + timeout) w r.1
        → (u : Link) × Waits (suc k) (w.clock + timeout) w u
          × ((continue r (λ _. take_buffer (suc k))).1
              ≡ record u { rx_buffer = (continue r (λ _. take_buffer (suc k))).1.rx_buffer })
    by_end (ok a, v) t = take_buffer-Waits (suc k) (w.clock + timeout) w v t
    by_end (raised x, v) t = (v, t, refl)
    by_end (cancelled, v) t = (v, t, refl)
