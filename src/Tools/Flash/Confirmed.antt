-- ===== src/Tools/Flash/Confirmed.antt =====
-- What `_reconnect_and_classify` of tools/firmware.py confirms.
use mathlib.Core.Path.{subst}
use flipperzero_mcp.Tools.Common.{on_link}
use flipperzero_mcp.Tools.Flash.{
  reopen, after_info, is_settling, read_firmware, same_flavor, same_version, after_round, is_some,
  at_client, reconnect_and_classify, poll, is_changed, Bench, by_client,
}
use flipperzero_mcp.Base.{
  some, none, Option, ◌&&◌, not, false, true, Bool, inr, inl, ◌∙◌, ap, sym, refl, ◌≡◌, suc, zero, ℕ,
  Text, Bool-cases, if◌then◌else◌,
}
use flipperzero_mcp.Action.{F, pure, ◌>>=◌, handle, >>=-returned}
use flipperzero_mcp.Proto.{Codec}
use flipperzero_mcp.Client.{Client}
use flipperzero_mcp.Client.Info.{get_device_info-version}
use flipperzero_mcp.Client.Info
use flipperzero_mcp.Cli.Risk.{Case}
use flipperzero_mcp.Link.{cancelled, raised, Result, ok, Exn}
use flipperzero_mcp.Firmware.Flavor.{FirmwareInfo, classify}
use flipperzero_mcp.Tools.Transfer.{Hash}

-- A reading without a version counts as a change of a version that is known.
is_changed-version :
    (before read : FirmwareInfo) {version : Text}
    → before.version ≡ some version
    → read.version ≡ none
    → is_changed before read ≡ true
is_changed-version before read b r = by_versions before.version read.version b r
  where
    by_versions :
        (x y : Option Text) {version : Text}
        → x ≡ some version
        → y ≡ none
        → (is_some x && not (same_version y x && same_flavor read.flavor before.flavor)) ≡ true
    by_versions none y b r = cc b
    by_versions (some a) none b r = refl
    by_versions (some a) (some d) b r = cc r

module _ {N : Type 0} where
  pub by_client-rest :
      {A : Type 0} (m : F Client A) (s : Bench N) {a : A} {u : Bench N}
      → by_client m s ≡ (ok a, u)
      → u ≡ record s { client = u.client }
  unfolding by_client at_client
  by_client-rest {A = A} m s h = by_end (m s.client) h
    where
      by_end :
          (r : Result A × Client) {a : A} {u : Bench N}
          → at_client s r ≡ (ok a, u)
          → u ≡ record s { client = u.client }
      by_end (ok b, cl) {u = u} h = subst (λ x. x ≡ record s { client = x.client }) (left h) refl
        where
          left :
              {a : A} {u : Bench N}
              → at_client s (ok b, cl) ≡ (ok a, u)
              → record s { client = cl } ≡ u
          left h = cc h
      by_end (raised e, cl) h = cc h
      by_end (cancelled, cl) h = cc h

  pub by_client-returned :
      {A : Type 0} (m : F Client A) (s : Bench N) {a : A} {u : Bench N}
      → by_client m s ≡ (ok a, u)
      → m s.client ≡ (ok a, u.client)
  unfolding by_client at_client
  by_client-returned {A = A} m s h = by_end (m s.client) h
    where
      by_end :
          (r : Result A × Client) {a : A} {u : Bench N}
          → at_client s r ≡ (ok a, u)
          → r ≡ (ok a, u.client)
      by_end (ok b, cl) h = cc h
      by_end (raised e, cl) h = cc h
      by_end (cancelled, cl) h = cc h

module _ {N : Type 0} ⦃c : Codec⦄ ⦃k : Case⦄ ⦃h : Hash⦄ where
  classified_version :
      (s : Bench N) {found : Option FirmwareInfo} {read : FirmwareInfo} {u : Bench N}
      → (by_client flipperzero_mcp.Client.Info.get_device_info >>= λ info.
            pure (some (classify info)))
          s
        ≡ (ok found, u)
      → found ≡ some read
      → read.version ≡ none
  unfolding classify
  classified_version s h e =
      >>=-returned (by_client flipperzero_mcp.Client.Info.get_device_info) _ s h λ info v got rest.
        let version = get_device_info-version s.client (by_client-returned _ s got) in
        ap (λ i. i.version) (sym (info_eq rest e)) ∙ version
    where
      info_eq :
          {x : FirmwareInfo} {f : Option FirmwareInfo} {y : FirmwareInfo} {v w : Bench N}
          → ◌≡◌ {A = Result (Option FirmwareInfo) × Bench N} (ok (some x), v) (ok f, w)
          → f ≡ some y
          → x ≡ y
      info_eq q e = cc (q, e)

  read_firmware-version :
      (s : Bench N) {read : FirmwareInfo} {u : Bench N}
      → read_firmware s ≡ (ok (some read), u)
      → read.version ≡ none
  unfolding read_firmware
  read_firmware-version s h =
      by_end
        ((by_client flipperzero_mcp.Client.Info.get_device_info >>= λ info.
            pure (some (classify info)))
          s)
        refl h
    where
      some_eq :
          {f g : Option FirmwareInfo} {v w : Bench N}
          → ◌≡◌ {A = Result (Option FirmwareInfo) × Bench N} (ok f, v) (ok g, w)
          → f ≡ g
      some_eq h = cc h

      by_end :
          (r : Result (Option FirmwareInfo) × Bench N) {read : FirmwareInfo} {u : Bench N}
          → (by_client flipperzero_mcp.Client.Info.get_device_info >>= λ info.
                pure (some (classify info)))
              s
            ≡ r
          → handle is_settling r (pure none) ≡ (ok (some read), u)
          → read.version ≡ none
      by_end (ok found, v) {read = read} e h = classified_version s {read = read} e (some_eq h)
      by_end (raised x, v) e h = elim (Bool-cases (is_settling x)) [
        | inl y ↦ cc (rw y at h)
        | inr n ↦ cc (rw n at h)
      ]
      by_end (cancelled, v) e h = cc h

  poll-confirmed :
      (before : FirmwareInfo) (n : ℕ) {version : Text} (s : Bench N) {after : FirmwareInfo}
      {confirmed : Bool} {s' : Bench N}
      → before.version ≡ some version
      → poll before n none s ≡ (ok (after, confirmed), s')
      → (confirmed ≡ true) × (after.version ≡ none)
  unfolding poll after_round after_info
  poll-confirmed before zero s b q = cc q
  poll-confirmed before (suc n) {version = version} s {after = after} {confirmed = confirmed}
        {s' = s'} b h =
      >>=-returned (by_client (on_link (flipperzero_mcp.Link.sleep 5000))) _ s h λ _ s₁ _ h.
        >>=-returned reopen _ s₁ h λ up s₂ _ h.
          >>=-returned (if up then read_firmware else pure none) _ s₂ h
            λ found s₃ got h. on_found up found s₂ s₃ got h (λ u q. poll-confirmed before n u b q)
    where
      read_once :
          (up : Bool) (read : FirmwareInfo) (s₂ s₃ : Bench N)
          → (if◌then◌else◌ {A = F (Bench N) (Option FirmwareInfo)} up read_firmware (pure none)) s₂
            ≡ (ok (some read), s₃)
          → read.version ≡ none
      read_once true read s₂ s₃ got = read_firmware-version s₂ got
      read_once false read s₂ s₃ got = cc got

      on_found :
          (up : Bool) (found : Option FirmwareInfo) (s₂ s₃ : Bench N)
          → (if◌then◌else◌ {A = F (Bench N) (Option FirmwareInfo)} up read_firmware (pure none)) s₂
            ≡ (ok found, s₃)
          → after_round before (poll before n) none found s₃ ≡ (ok (after, confirmed), s')
          → ((u : Bench N)
              → poll before n none u ≡ (ok (after, confirmed), s')
              → (confirmed ≡ true) × (after.version ≡ none))
          → (confirmed ≡ true) × (after.version ≡ none)
      on_found up none s₂ s₃ got h more = more s₃ h
      on_found up (some read) s₂ s₃ got h more =
          let version = read_once up read s₂ s₃ got in
          let same = rw (is_changed-version before read b version) at h in
          (cc same, cc (same, version))

  -- Where the firmware before the update had a version, `_reconnect_and_classify` only ever returns a
  -- confirmed change, and a firmware of unknown version: the first reading counts, even that of the
  -- old image, since the client's device info has no "firmware_version".
  pub reconnect_and_classify-confirmed :
      (before : FirmwareInfo) {version : Text} (s : Bench N) {after : FirmwareInfo}
      {confirmed : Bool} {s' : Bench N}
      → before.version ≡ some version
      → reconnect_and_classify before s ≡ (ok (after, confirmed), s')
      → (confirmed ≡ true) × (after.version ≡ none)
  unfolding reconnect_and_classify
  reconnect_and_classify-confirmed before s b h = poll-confirmed before 120 s b h
