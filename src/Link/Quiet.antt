-- ===== src/Link/Quiet.antt =====
-- Actions that only receive: whatever happens, also on an exception, they send nothing and change
-- nothing but the clock, what is still to come and the buffer.
use flipperzero_mcp.Base.{
  ◌/◌, ◌*◌, arith, ◌∷◌, [], List, ◌||◌, false, true, Bool, inr, inl, refl, ◌≡◌, ◌-◌, ◌+◌, suc, zero,
  ℕ, Bytes, length, Bool-cases, if◌then◌else◌, leb,
}
use flipperzero_mcp.Link.{
  pause_if_empty, drain_host_rx, drain_until, Exn, handle, continue, pass_time, except, ◌>>◌, ◌>>=◌,
  raise, pure, M, cancelled, raised, ok, Result, broken, arrive, silence, Arrival, Link, accept,
  extend_buffer, fill_buffer, take_buffer, receive_exact, clear_receive_buffer,
}
use flipperzero_mcp.Link.Prompt.{after_reading}

abbrev pub OnlyReads : Link → Link → Type 0
OnlyReads w u = u ≡ after_reading w u.clock u.incoming u.rx_buffer

pub record IsQuiet {A : Type 0} (m : M A) : Type 0 where
  pub at : (w : Link) → OnlyReads w (m w).1

OnlyReads-trans : (w u v : Link) → OnlyReads w u → OnlyReads u v → OnlyReads w v
OnlyReads-trans w u v p q = ground arith

module _ {A : Type 0} where
  pub IsQuiet-pure : (a : A) → IsQuiet (pure a)
  IsQuiet-pure a = record { at = λ w. refl }

  pub IsQuiet-raise : (e : Exn) → IsQuiet (raise {A = A} e)
  IsQuiet-raise e = record { at = λ w. refl }

  pub IsQuiet-if : (b : Bool) (m n : M A) → IsQuiet m → IsQuiet n → IsQuiet (if b then m else n)
  IsQuiet-if true m n p q = p
  IsQuiet-if false m n p q = q

  handle-OnlyReads :
      (w : Link) (r : Result A × Link) (h : M A)
      → OnlyReads w r.1
      → IsQuiet h
      → OnlyReads w (handle r h).1
  handle-OnlyReads w (ok a, u) h p q = p
  handle-OnlyReads w (raised e, u) h p q = OnlyReads-trans w u _ p (q.at u)
  handle-OnlyReads w (cancelled, u) h p q = p

  pub IsQuiet-except : (m h : M A) → IsQuiet m → IsQuiet h → IsQuiet (except m h)
  IsQuiet-except m h p q = record { at = λ w. handle-OnlyReads w (m w) h (p.at w) q }

module _ {A B : Type 0} where
  continue-OnlyReads :
      (w : Link) (r : Result A × Link) (f : A → M B)
      → OnlyReads w r.1
      → ((a : A) → IsQuiet (f a))
      → OnlyReads w (continue r f).1
  continue-OnlyReads w (ok a, u) f p q = OnlyReads-trans w u _ p ((q a).at u)
  continue-OnlyReads w (raised e, u) f p q = p
  continue-OnlyReads w (cancelled, u) f p q = p

  pub IsQuiet-bind :
      (m : M A) (f : A → M B) → IsQuiet m → ((a : A) → IsQuiet (f a)) → IsQuiet (m >>= f)
  IsQuiet-bind m f p q = record { at = λ w. continue-OnlyReads w (m w) f (p.at w) q }

pub pass_time-IsQuiet : (dt : ℕ) → IsQuiet (pass_time dt)
unfolding pass_time
pass_time-IsQuiet dt = record { at = λ w. ground arith }

accept-OnlyReads : (s : List Arrival) (t : ℕ) (w : Link) → OnlyReads w (accept s t w).1
unfolding accept pass_time
accept-OnlyReads [] t w = ground arith
accept-OnlyReads (silence ∷ rest) t w = ground arith
accept-OnlyReads (arrive dt bytes ∷ rest) t w = ground arith
accept-OnlyReads (broken e ∷ rest) t w = refl

pub accept-IsQuiet : (s : List Arrival) (t : ℕ) → IsQuiet (accept s t)
accept-IsQuiet s t = record { at = accept-OnlyReads s t }

pub ruleset quiet_rules =
    (IsQuiet-pure, IsQuiet-raise, IsQuiet-if, IsQuiet-except, IsQuiet-bind, pass_time-IsQuiet)

extend_buffer-IsQuiet : (chunk : Bytes) → IsQuiet (extend_buffer chunk)
unfolding extend_buffer
extend_buffer-IsQuiet chunk = record { at = λ w. refl }

take_buffer-IsQuiet : (n : ℕ) → IsQuiet (take_buffer n)
unfolding take_buffer
take_buffer-IsQuiet n = record { at = λ w. ground arith }

pub clear_receive_buffer-IsQuiet : IsQuiet clear_receive_buffer
unfolding clear_receive_buffer
clear_receive_buffer-IsQuiet = record { at = λ w. refl }

fill_buffer-OnlyReads :
    (s : List Arrival) (n stop : ℕ) (w : Link) → OnlyReads w (fill_buffer s n stop w).1
unfolding fill_buffer
fill_buffer-OnlyReads [] n stop w =
    elim (Bool-cases (leb n (length w.rx_buffer) || leb stop w.clock)) [
      | inl done ↦ rw done
      | inr more ↦ rw more (
          (IsQuiet-bind (accept [] (stop - w.clock)) extend_buffer
              (accept-IsQuiet [] (stop - w.clock)) extend_buffer-IsQuiet).at
            w)
    ]
fill_buffer-OnlyReads (a ∷ rest) n stop w =
    elim (Bool-cases (leb n (length w.rx_buffer) || leb stop w.clock)) [
      | inl done ↦ rw done
      | inr more ↦ rw more ((round (record { at = fill_buffer-OnlyReads rest n stop })).at w)
    ]
  where
    round :
        IsQuiet (fill_buffer rest n stop)
        → IsQuiet (do
          chunk ← accept (a ∷ rest) (stop - w.clock)
          extend_buffer chunk
          fill_buffer rest n stop)
    round r = search (quiet_rules, accept-IsQuiet, extend_buffer-IsQuiet)

pub receive_exact-IsQuiet : (n timeout : ℕ) → IsQuiet (receive_exact n timeout)
unfolding receive_exact
receive_exact-IsQuiet zero timeout = record { at = λ w. refl }
receive_exact-IsQuiet (suc k) timeout = record {
  at = λ w.
      (IsQuiet-bind (fill_buffer w.incoming (suc k) (w.clock + timeout)) (λ _. take_buffer (suc k))
          (record { at = fill_buffer-OnlyReads w.incoming (suc k) (w.clock + timeout) })
          (λ _. take_buffer-IsQuiet (suc k))).at
        w;
}

-- A round of draining: what was received is thrown away, and an empty receive is followed by a sleep.
pause_if_empty-IsQuiet : (chunk : Bytes) → IsQuiet (pause_if_empty chunk)
unfolding pause_if_empty
pause_if_empty-IsQuiet [] = pass_time-IsQuiet 10
pause_if_empty-IsQuiet (x ∷ xs) = IsQuiet-pure tt

drain_until-OnlyReads :
    (s : List Arrival) (stop : ℕ) (w : Link) → OnlyReads w (drain_until s stop w).1
unfolding drain_until
drain_until-OnlyReads [] stop w =
    (pass_time-IsQuiet ((stop - w.clock + 59) / 60 * 60)).at (record w { incoming = [] })
drain_until-OnlyReads (a ∷ rest) stop w = elim (Bool-cases (leb stop w.clock)) [
  | inl done ↦ rw done
  | inr more ↦ rw more ((round (record { at = drain_until-OnlyReads rest stop })).at w)
]
  where
    round :
        IsQuiet (drain_until rest stop)
        → IsQuiet (do chunk ← accept (a ∷ rest) 50; pause_if_empty chunk; drain_until rest stop)
    round r = search (quiet_rules, accept-IsQuiet, pause_if_empty-IsQuiet)

pub drain_host_rx-IsQuiet : (max_ms : ℕ) → IsQuiet (drain_host_rx max_ms)
unfolding drain_host_rx
drain_host_rx-IsQuiet max_ms = record {
  at = λ w.
      (IsQuiet-except (drain_until w.incoming (w.clock + max_ms)) (pure tt)
          (record { at = drain_until-OnlyReads w.incoming (w.clock + max_ms) })
          (IsQuiet-pure tt)).at
        w;
}
