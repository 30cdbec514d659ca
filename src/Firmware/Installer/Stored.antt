-- ===== src/Firmware/Installer/Stored.antt =====
-- What a push of one file that returns has done: the write that was accepted, and the check after it.
use mathlib.Core.Path.{subst}
use flipperzero_mcp.Base.{
  ℕ, zero, suc, Bool, true, false, ◌≡◌, ◌≢◌, refl, inl, inr, Option, some, none, Text, Bytes,
  Bool-cases,
}
use flipperzero_mcp.Link.{Exn, Result, ok, raised, cancelled}
use flipperzero_mcp.Action.{F, pure, handle, >>=-returned}
use flipperzero_mcp.Firmware.Device.{Device}
use flipperzero_mcp.Firmware.Installer.{
  Status, match, mismatch, unreadable, is_transfer_error, still_written, verify_written,
  attempt_write, verify_if, settle, push_pass, push_file,
}

handle-returned :
    {D A : Type 0} (caught : Exn → Bool) (r : Result A × D) {a b : A} {d : D}
    → b ≢ a
    → handle caught r (pure b) ≡ (ok a, d)
    → r ≡ (ok a, d)
handle-returned caught (ok a, u) ne h = h
handle-returned {D = D} caught (raised e, u) ne h = elim (Bool-cases (caught e)) [
  | inl y ↦ absurd (ne (same (rw y at h)))
  | inr n ↦ cc (rw n at h)
]
  where
    same : {A : Type 0} {a b : A} {u v : D} → ◌≡◌ {A = Result A × D} (ok a, u) (ok b, v) → a ≡ b
    same e = cc e
handle-returned caught (cancelled, u) ne h = cc h

-- A `try` whose handler does nothing to the state leaves what its body has left.
handle-left :
    {D A : Type 0} (caught : Exn → Bool) (r : Result A × D) (b : A) {a : A} {d : D}
    → handle caught r (pure b) ≡ (ok a, d)
    → (end : Result A) × (r ≡ (end, d))
handle-left caught (ok x, u) b h = (ok x, cc h)
handle-left caught (raised e, u) b h = elim (Bool-cases (caught e)) [
  | inl y ↦ (raised e, cc (rw y at h))
  | inr n ↦ cc (rw n at h)
]
handle-left caught (cancelled, u) b h = cc h

-- What still counts as written has been.
still_written-written : (b : Bool) (status : Status) → still_written b status ≡ true → b ≡ true
still_written-written b match h = h
still_written-written b mismatch h = cc h
still_written-written b unreadable h = h

module _ {D : Type 0} (rpc : Device D) where
  -- A reconnect, and the pause after it.
  pub record Resynced (d d' : D) : Type 0 where
    pub action : F D (Unit {0})
    pub offered : rpc.resync ≡ some action
    pub between : D
    pub reconnected : action d ≡ (ok tt, between)
    pub paused : rpc.sleep 8000 between ≡ (ok tt, d')

  -- A pass that returned was the last one, or the next one returned.
  settle-returned :
      {C : Type 0} (resync : Option (F D (Unit {0}))) (again : Bool → F D (Unit {0}))
      (written : Bool) (status : Status) (u : D) {d : D}
      → ((r : F D (Unit {0})) → resync ≡ some r → rpc.resync ≡ some r)
      → settle rpc resync again written status u ≡ (ok tt, d)
      → (written ≡ true → status ≡ match → u ≡ d → C)
      → ((v : D) → Resynced u v → again (still_written written status) v ≡ (ok tt, d) → C)
      → C
  unfolding settle
  settle-returned resync again true match u o h k l = k refl refl (cc h)
  settle-returned none again true mismatch u o h k l = cc h
  settle-returned none again true unreadable u o h k l = cc h
  settle-returned none again false status u o h k l = cc h
  settle-returned (some resync) again true mismatch u o h k l = >>=-returned resync _ u h λ x v e h.
      >>=-returned (rpc.sleep 8000) _ v h λ y w f h.
        l w
          (record {
            action = resync;
            offered = o resync refl;
            between = v;
            reconnected = e;
            paused = f;
          })
          h
  settle-returned (some resync) again true unreadable u o h k l =
      >>=-returned resync _ u h λ x v e h. >>=-returned (rpc.sleep 8000) _ v h λ y w f h.
        l w
          (record {
            action = resync;
            offered = o resync refl;
            between = v;
            reconnected = e;
            paused = f;
          })
          h
  settle-returned (some resync) again false status u o h k l = >>=-returned resync _ u h λ x v e h.
      >>=-returned (rpc.sleep 8000) _ v h λ y w f h.
        l w
          (record {
            action = resync;
            offered = o resync refl;
            between = v;
            reconnected = e;
            paused = f;
          })
          h

  module _ (dest : Text) (content : Bytes) where
    -- Nothing but checks of the file, and reconnects.
    pub data Waits : D → D → Type 0 where
      here : {d : D} → Waits d d
      checked :
          {d u v : D} (end : Result Status)
          → Waits d u
          → verify_written rpc dest content u ≡ (end, v)
          → Waits d v
      resynced : {d u v : D} → Waits d u → Resynced u v → Waits d v

    -- The device has accepted the write of the whole content, and since then nothing was done but
    -- checks and reconnects.
    pub record IsWritten (d : D) : Type 0 where
      pub before : D
      pub after : D
      pub accepted : rpc.storage_write dest content before ≡ (ok true, after)
      pub since : Waits after d

    -- The last thing done was a check that matched, of a file that was written before.
    pub record IsStored (d : D) : Type 0 where
      pub unchecked : D
      pub written : IsWritten unchecked
      pub verified : verify_written rpc dest content unchecked ≡ (ok match, d)

    attempt_write-IsWritten :
        (written : Bool) (d : D) {w : Bool} {u : D}
        → (written ≡ true → IsWritten d)
        → attempt_write rpc written dest content d ≡ (ok w, u)
        → w ≡ true
        → IsWritten u
    unfolding attempt_write
    attempt_write-IsWritten true d p h t = subst (λ x. IsWritten x) (cc h) (p refl)
    attempt_write-IsWritten false d p h t = record {
      before = d;
      after = _;
      accepted =
          handle-returned is_transfer_error (rpc.storage_write dest content d) (λ x. cc x)
            (rw t at h);
      since = here;
    }

    verify_if-left :
        (b : Bool) (before : Status) (u : D) {status : Status} {v : D}
        → verify_if rpc b dest content before u ≡ (ok status, v)
        → b ≡ true
        → (end : Result Status) × (verify_written rpc dest content u ≡ (end, v))
    unfolding verify_if
    verify_if-left true before u h t =
        handle-left is_transfer_error (verify_written rpc dest content u) unreadable h
    verify_if-left false before u h t = cc t

    verify_if-match :
        (b : Bool) (before : Status) (u : D) {status : Status} {v d : D}
        → verify_if rpc b dest content before u ≡ (ok status, v)
        → b ≡ true
        → status ≡ match
        → v ≡ d
        → verify_written rpc dest content u ≡ (ok match, d)
    unfolding verify_if
    verify_if-match true before u h w s e =
        handle-returned is_transfer_error (verify_written rpc dest content u) (λ x. cc x)
          (rw (s, e) at h)
    verify_if-match false before u h w s e = cc w

    check-IsWritten :
        (u v : D)
        → IsWritten u
        → (end : Result Status) × (verify_written rpc dest content u ≡ (end, v))
        → IsWritten v
    check-IsWritten u v w c = record {
      before = w.before;
      after = w.after;
      accepted = w.accepted;
      since = checked c.0 w.since c.1;
    }

    resync-IsWritten : (u v : D) → IsWritten u → Resynced u v → IsWritten v
    resync-IsWritten u v w r = record {
      before = w.before;
      after = w.after;
      accepted = w.accepted;
      since = resynced w.since r;
    }

    push_pass-IsStored :
        (k : ℕ) (written : Bool) (status : Status) (d : D) {d' : D}
        → (written ≡ true → IsWritten d)
        → push_pass rpc k dest content written status d ≡ (ok tt, d')
        → IsStored d'
    unfolding push_pass
    push_pass-IsStored zero written status d p h =
        >>=-returned (attempt_write rpc written dest content) _ d h λ w u a h.
          >>=-returned (verify_if rpc w dest content status) _ u h λ s v e h.
            settle-returned none _ w s v (λ r q. cc q) h
              (λ t m q. record {
                unchecked = u;
                written = attempt_write-IsWritten written d p a t;
                verified = verify_if-match w status u e t m q;
              })
              λ x r h. cc h
    push_pass-IsStored (suc k) written status d p h =
        >>=-returned (attempt_write rpc written dest content) _ d h λ w u a h.
          >>=-returned (verify_if rpc w dest content status) _ u h λ s v e h.
            settle-returned rpc.resync _ w s v (λ r q. q) h
              (λ t m q. record {
                unchecked = u;
                written = attempt_write-IsWritten written d p a t;
                verified = verify_if-match w status u e t m q;
              })
              λ x r h.
                push_pass-IsStored k (still_written w s) s x
                  (λ t.
                    let was = still_written-written w s t in
                    resync-IsWritten v x
                      (check-IsWritten u v (attempt_write-IsWritten written d p a was)
                        (verify_if-left w status u e was))
                      r)
                  h

    -- If `_push_file` returns, the device has accepted a write of the content, and after that came
    -- nothing but checks and reconnects, the last of them a check that matched.
    pub push_file-IsStored :
        (d : D) {d' : D} → push_file rpc dest content d ≡ (ok tt, d') → IsStored d'
    unfolding push_file
    push_file-IsStored d h = push_pass-IsStored 2 false unreadable d (λ t. cc t) h
