-- ===== src/Rpc/Session/Settled.antt =====
-- How a negotiation that came to its end leaves the session.
use flipperzero_mcp.Proto.{Codec}
use flipperzero_mcp.Link.{clear_receive_buffer, >>=-returned, sleep, ◌>>=◌, M, ok, Result, Link}
use flipperzero_mcp.Base.{
  arith, some, ◌||◌, false, true, Bool, inr, inl, ◌⊎◌, ◌∙◌, ap, ◌≡◌, ℕ, Bool-cases, if◌then◌else◌,
}
use flipperzero_mcp.Rpc.Session.{
  start_session_attempt, retry_unless, start_session, after_probe, negotiate_usb, negotiate,
  ensure_rpc_session_started, set_started, record_attempt, probe_rpc, is_cooling_down,
}

-- The session is open, or the failure to open it has just been recorded.
abbrev pub IsDecided : Link → Type 0
IsDecided u =
    (u.rpc_session_started ≡ true)
    ⊎ ((u.rpc_session_started ≡ false) × (u.last_negotiation_failure ≡ some u.clock))

-- The action, where it returns, leaves the session decided.
record Settles (m : M (Unit {0})) : Type 0 where
  pub at : (w u : Link) → m w ≡ (ok tt, u) → IsDecided u

module _ ⦃c : Codec⦄ where
  Settles-bind :
      {A : Type 0} (m : M A) {f : A → M (Unit {0})} → ((a : A) → Settles (f a)) → Settles (m >>= f)
  Settles-bind m {f = f} s = record { at = λ w u h. >>=-returned m f w h λ a v _ e. (s a).at v u e }

  set_started-Settles : Settles (set_started true)
  unfolding set_started
  set_started-Settles = record { at = λ w u h. inl (cc h) }

  record_attempt-Settles : (b : Bool) → Settles (record_attempt b)
  unfolding record_attempt
  record_attempt-Settles true = record { at = λ w u h. inl (cc h) }
  record_attempt-Settles false = record { at = λ w u h. inr (cc h, cc h) }

  start_session-Settles : Settles start_session
  unfolding start_session
  start_session-Settles = Settles-bind start_session_attempt λ first.
      Settles-bind (retry_unless first)
        λ second. Settles-bind (retry_unless second) record_attempt-Settles

  after_probe-Settles : (b : Bool) → Settles (after_probe b)
  unfolding after_probe
  after_probe-Settles true = set_started-Settles
  after_probe-Settles false = start_session-Settles

  negotiate_usb-Settles : (b : Bool) → Settles (negotiate_usb b)
  unfolding negotiate_usb
  negotiate_usb-Settles true = start_session-Settles
  negotiate_usb-Settles false = Settles-bind (probe_rpc 400) after_probe-Settles

  by_transport-Settles :
      Settles (λ w. if w.is_wifi then set_started true w else negotiate_usb w.force_start w)
  by_transport-Settles = record { at = λ w u h. choose w u w.is_wifi h }
    where
      choose :
          (w u : Link) (b : Bool)
          → (if b then set_started true w else negotiate_usb w.force_start w) ≡ (ok tt, u)
          → IsDecided u
      choose w u true h = set_started-Settles.at w u h
      choose w u false h = (negotiate_usb-Settles w.force_start).at w u h

  negotiate-Settles : Settles negotiate
  unfolding negotiate
  negotiate-Settles =
      Settles-bind clear_receive_buffer λ _. Settles-bind (sleep 300) λ _. by_transport-Settles

  unchanged : {w u : Link} → ◌≡◌ {A = Result (Unit {0}) × Link} (ok tt, w) (ok tt, u) → u ≡ w
  unchanged h = cc h

  now_cooling : (t : ℕ) → is_cooling_down (some t) t ≡ true
  now_cooling t = ground arith

  decided-ensure : (u : Link) → IsDecided u → ensure_rpc_session_started u ≡ (ok tt, u)
  unfolding ensure_rpc_session_started
  decided-ensure u (inl e) = rw e
  decided-ensure u (inr (e, f)) = rw (e, f, now_cooling u.clock)

  -- An `ensure_rpc_session_started` that returns has done nothing, or opened the session, or recorded
  -- its failure with the time; and a second call in the state it leaves does nothing.
  pub ensure_rpc_session_started-settled :
      (w u : Link)
      → ensure_rpc_session_started w ≡ (ok tt, u)
      → ((u ≡ w) ⊎ IsDecided u) × (ensure_rpc_session_started u ≡ (ok tt, u))
  unfolding ensure_rpc_session_started
  ensure_rpc_session_started-settled w u h =
      elim (Bool-cases
        (w.rpc_session_started || is_cooling_down w.last_negotiation_failure w.clock)) [
          | inl still ↦
              let same = unchanged (rw still at h) in
              (inl same, ap ensure_rpc_session_started same ∙ h)
          | inr going ↦
              let d = negotiate-Settles.at w u (rw going at h) in (inr d, decided-ensure u d)
        ]
