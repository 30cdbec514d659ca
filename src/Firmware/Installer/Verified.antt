-- ===== src/Firmware/Installer/Verified.antt =====
-- What an update that went through has checked.
use mathlib.Core.Path.{subst}
use flipperzero_mcp.Base.{
  ℕ, zero, suc, Bool, true, ◌≡◌, inl, inr, List, [], ◌∷◌, Text, Bytes, codes, Bool-cases, ◌==◌,
  ==_iff,
}
use flipperzero_mcp.Proto.{update_ok, update_unspecified_error}
use flipperzero_mcp.Link.{Result, ok, raised, cancelled, flash_error}
use flipperzero_mcp.Rpc.System.{Info}
use flipperzero_mcp.Action.{F, raise, handle, >>=-returned}
use flipperzero_mcp.Firmware.Device.{Device}
use flipperzero_mcp.Firmware.Installer.Stored.{IsStored, push_file-IsStored}
use flipperzero_mcp.Firmware.Installer.{
  Bundle, match, is_timeout, package_dir, within, parent_of, is_target, verify_written, push_file,
  reconnect, ask_update, after_code, trigger_loop, trigger_update, make_parent, push_files,
  install_files, install_bundle,
}

module _ {D : Type 0} (rpc : Device D) where
  -- The last thing done was a check of the file on the card, and it matched.
  abbrev pub IsVerified : Text → Bytes → D → Type 0
  IsVerified dest content d = (u : D) × (verify_written rpc dest content u ≡ (ok match, d))

  -- If `_push_file` returns, whatever was retried, the last thing done was a check of the file on the
  -- card, by size or by digest, and it matched.
  pub push_file-IsVerified :
      (dest : Text) (content : Bytes) (d : D) {d' : D}
      → push_file rpc dest content d ≡ (ok tt, d')
      → (u : D) × (verify_written rpc dest content u ≡ (ok match, d'))
  push_file-IsVerified dest content d h =
      let stored = push_file-IsStored rpc dest content d h in (stored.unchecked, stored.verified)

  -- The files of the list were pushed one after the other, from one state to the other: the folder of
  -- each was made, the file was pushed, and it was stored before the next one was begun.
  pub data Pushed (pkg_dir : Text) : List (Text × Bytes) → D → D → Type 0 where
    all_done : {d : D} → Pushed pkg_dir [] d d
    push :
        {rel_path : Text} {content : Bytes} {files : List (Text × Bytes)} {made : Bool}
        {d u v d' : D}
        → make_parent rpc pkg_dir (parent_of (within pkg_dir rel_path)) d ≡ (ok made, u)
        → push_file rpc (within pkg_dir rel_path) content u ≡ (ok tt, v)
        → IsStored rpc (within pkg_dir rel_path) content v
        → Pushed pkg_dir files v d'
        → Pushed pkg_dir ((rel_path, content) ∷ files) d d'

  push_files-Pushed :
      (pkg_dir : Text) (files : List (Text × Bytes)) (d : D) {d' : D}
      → push_files rpc pkg_dir files d ≡ (ok tt, d')
      → Pushed pkg_dir files d d'
  unfolding push_files
  push_files-Pushed pkg_dir [] d h = subst (Pushed pkg_dir [] d) (cc h) all_done
  push_files-Pushed pkg_dir ((rel_path, content) ∷ files) d h =
      >>=-returned (make_parent rpc pkg_dir (parent_of (within pkg_dir rel_path))) _ d h λ _ u m h.
        >>=-returned (push_file rpc (within pkg_dir rel_path) content) _ u h λ _ v e h.
          push m e (push_file-IsStored rpc (within pkg_dir rel_path) content u e)
            (push_files-Pushed pkg_dir files v h)

  -- The last thing done was a `system_update` whose code is OK.
  abbrev pub IsAccepted : Text → D → Type 0
  IsAccepted manifest d = (u : D) × (rpc.system_update manifest u ≡ (ok update_ok, d))

  ask_update-returned :
      (r : Result ℕ × D) {code : ℕ} {d : D}
      → handle is_timeout r (raise flash_error) ≡ (ok code, d)
      → r ≡ (ok code, d)
  ask_update-returned (ok a, u) h = h
  ask_update-returned (raised e, u) h = elim (Bool-cases (is_timeout e)) [
    | inl y ↦ cc (rw y at h)
    | inr n ↦ cc (rw n at h)
  ]
  ask_update-returned (cancelled, u) h = cc h

  after_code-returned :
      {C : Type 0} (again : F D (Unit {0})) (code : ℕ) (u : D) {d : D}
      → after_code rpc again code u ≡ (ok tt, d)
      → (code ≡ update_ok → u ≡ d → C)
      → (again u ≡ (ok tt, d) → C)
      → C
  unfolding after_code
  after_code-returned again code u h k l = elim (Bool-cases (code == update_ok)) [
    | inl y ↦ k ((==_iff code update_ok).0 y) (cc (rw y at h))
    | inr n ↦ elim (Bool-cases (code == update_unspecified_error)) [
      | inl y ↦ l (rw (n, y) at h)
      | inr m ↦ cc (rw (n, m) at h)
    ]
  ]

  accepted :
      (manifest : Text) (u v : D) {code : ℕ} {d : D}
      → ask_update rpc manifest u ≡ (ok code, v)
      → code ≡ update_ok
      → v ≡ d
      → IsAccepted manifest d
  unfolding ask_update
  accepted manifest u v h e f =
      (u, rw (e, f) at (ask_update-returned (rpc.system_update manifest u) h))

  trigger_loop-IsAccepted :
      (k : ℕ) (manifest : Text) (d : D) {d' : D}
      → trigger_loop rpc k manifest d ≡ (ok tt, d')
      → IsAccepted manifest d'
  unfolding trigger_loop
  trigger_loop-IsAccepted zero manifest d h = >>=-returned (rpc.sleep 3000) _ d h λ _ u _ h.
      >>=-returned (ask_update rpc manifest) _ u h
        λ code v e h. after_code-returned _ code v h (accepted manifest u v e) λ h. cc h
  trigger_loop-IsAccepted (suc k) manifest d h = >>=-returned (rpc.sleep 3000) _ d h λ _ u _ h.
      >>=-returned (ask_update rpc manifest) _ u h λ code v e h.
        after_code-returned _ code v h (accepted manifest u v e) λ h.
          >>=-returned (reconnect rpc rpc.resync) _ v h
            λ _ x _ h. trigger_loop-IsAccepted k manifest x h

  trigger_update-IsAccepted :
      (manifest : Text) (d : D) {d' : D}
      → trigger_update rpc manifest d ≡ (ok tt, d')
      → IsAccepted manifest d'
  unfolding trigger_update
  trigger_update-IsAccepted manifest d h = trigger_loop-IsAccepted 2 manifest d h

  -- The run of `install_bundle` past the check of the target, from one state to the other: both
  -- folders were made, the files were pushed in order, the update was triggered and accepted, and
  -- the reboot was the last thing done.
  pub record IsInstalled (bundle : Bundle) (pkg_name : Text) (d d' : D) : Type 0 where
    pub rooted : D
    pub begun : D
    pub pushed : D
    pub staged : D
    pub made_root : Bool
    pub made_dir : Bool
    pub root : rpc.storage_mkdir (codes "/ext/update") d ≡ (ok made_root, rooted)
    pub dir : rpc.storage_mkdir (package_dir pkg_name) rooted ≡ (ok made_dir, begun)
    pub every_file : Pushed (package_dir pkg_name) bundle.files begun pushed
    pub triggered :
        trigger_update rpc (within (package_dir pkg_name) bundle.manifest_name) pushed
        ≡ (ok tt, staged)
    pub accepted : IsAccepted (within (package_dir pkg_name) bundle.manifest_name) staged
    pub rebooted : rpc.system_reboot_update staged ≡ (ok tt, d')

  install_files-IsInstalled :
      (bundle : Bundle) (pkg_name : Text) (d : D) {d' : D}
      → install_files rpc bundle pkg_name d ≡ (ok tt, d')
      → IsInstalled bundle pkg_name d d'
  unfolding install_files
  install_files-IsInstalled bundle pkg_name d h =
      >>=-returned (rpc.storage_mkdir (codes "/ext/update")) _ d h λ p u r h.
        >>=-returned (rpc.storage_mkdir (package_dir pkg_name)) _ u h λ q v m h.
          >>=-returned (push_files rpc (package_dir pkg_name) bundle.files) _ v h λ _ x e h.
            >>=-returned (trigger_update rpc (within (package_dir pkg_name) bundle.manifest_name)) _
              x h
              λ _ y e' h. record {
                rooted = u;
                begun = v;
                pushed = x;
                staged = y;
                made_root = p;
                made_dir = q;
                root = r;
                dir = m;
                every_file = push_files-Pushed (package_dir pkg_name) bundle.files v e;
                triggered = e';
                accepted =
                    trigger_update-IsAccepted (within (package_dir pkg_name) bundle.manifest_name) x
                      e';
                rebooted = h;
              }

  -- If `install_bundle` returns, the device reported the bundle's hardware target, and from there one
  -- step led to the next: the two folders were made; every file of the bundle was pushed, in order,
  -- each written whole, and then checked on the card with a match, before the next one was begun; the
  -- update was triggered, which ended with the device accepting the manifest; and the reboot into the
  -- updater was the last thing done.
  pub install_bundle-IsInstalled :
      (bundle : Bundle) (pkg_name : Text) (d : D) {d' : D}
      → install_bundle rpc bundle pkg_name d ≡ (ok tt, d')
      → (info : Info) × (u : D) × (rpc.get_device_info d ≡ (ok info, u))
        × (is_target bundle info ≡ true)
        × IsInstalled bundle pkg_name u d'
  unfolding install_bundle
  install_bundle-IsInstalled bundle pkg_name d h =
      >>=-returned rpc.get_device_info _ d h λ info u e h.
        elim (Bool-cases (is_target bundle info)) [
          | inl y ↦ (info, u, e, y, install_files-IsInstalled bundle pkg_name u (rw y at h))
          | inr n ↦ cc (rw n at h)
        ]
