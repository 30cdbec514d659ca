-- ===== src/Firmware/Installer/Aborted.antt =====
-- A FlashError comes before the reboot.
use flipperzero_mcp.Base.{
  ℕ, zero, suc, Bool, true, false, Option, some, none, List, [], ◌∷◌, Text, Bytes, codes, ltb,
  length, ◌≡◌, ◌≢◌, refl, ◌==◌, text_eq, if◌then◌else◌,
}
use mathlib.Core.Path.{subst}
use flipperzero_mcp.Proto.{update_ok, update_unspecified_error}
use flipperzero_mcp.Link.{Result, ok, raised, cancelled, flash_error}
use flipperzero_mcp.Action.{F, raise, continue, ◌>>=◌}
use flipperzero_mcp.Firmware.Device.{Device}
use flipperzero_mcp.Action.Keeps.{
  Keeps, Keeps-pure, Keeps-raise, Keeps-if, Keeps-handle, Keeps-bind,
}
use flipperzero_mcp.Firmware.Installer.{
  Bundle, Status, match, mismatch, unreadable, is_transfer_error, is_timeout, package_dir, within,
  parent_of, is_target, check_size, after_digest, md5_loop, check_md5, md5_verify_max_bytes,
  verify_written, attempt_write, verify_if, settle, push_pass, push_file, reconnect, ask_update,
  after_code, trigger_loop, trigger_update, make_parent, push_files, install_files, install_bundle,
}

module _ {D : Type 0} (Q : D → Type 0) where
  -- Every call but the reboot keeps the property.
  pub record KeepsCalls (rpc : Device D) : Type 0 where
    pub device_info : Keeps Q rpc.get_device_info
    pub mkdir : (path : Text) → Keeps Q (rpc.storage_mkdir path)
    pub write : (path : Text) (content : Bytes) → Keeps Q (rpc.storage_write path content)
    pub md5sum : (path : Text) → Keeps Q (rpc.storage_md5sum path)
    pub stat : (path : Text) → Keeps Q (rpc.storage_stat path)
    pub update : (manifest : Text) → Keeps Q (rpc.system_update manifest)
    pub pause : (t : ℕ) → Keeps Q (rpc.sleep t)
    pub reconnects : (r : F D (Unit {0})) → rpc.resync ≡ some r → Keeps Q r

  module _ (rpc : Device D) (k : KeepsCalls rpc) where
    after_digest-Keeps :
        (expected : Text) (again : F D Status) (o : Option Text)
        → Keeps Q again
        → Keeps Q (after_digest rpc expected again o)
    unfolding after_digest
    after_digest-Keeps expected again none a = a
    after_digest-Keeps expected again (some digest) a = Keeps-pure _

    md5_loop-Keeps : (n : ℕ) (path expected : Text) → Keeps Q (md5_loop rpc n path expected)
    unfolding md5_loop
    md5_loop-Keeps zero path expected =
        Keeps-bind _ _ (k.md5sum path) λ o. after_digest-Keeps expected _ o (Keeps-pure unreadable)
    md5_loop-Keeps (suc n) path expected = Keeps-bind _ _ (k.md5sum path) λ o.
        after_digest-Keeps expected _ o
          (Keeps-bind _ _ (k.pause 2000) λ _. md5_loop-Keeps n path expected)

    verify_written-Keeps :
        (dest : Text) (content : Bytes) → Keeps Q (verify_written rpc dest content)
    unfolding verify_written check_size check_md5
    verify_written-Keeps dest content =
        Keeps-if (ltb md5_verify_max_bytes (length content)) _ _
          (Keeps-bind _ _ (k.stat dest) λ s. Keeps-pure _) (md5_loop-Keeps 4 dest (rpc.md5 content))

    attempt_write-Keeps :
        (b : Bool) (dest : Text) (content : Bytes) → Keeps Q (attempt_write rpc b dest content)
    unfolding attempt_write
    attempt_write-Keeps true dest content = Keeps-pure true
    attempt_write-Keeps false dest content =
        Keeps-handle is_transfer_error _ _ (k.write dest content) (Keeps-pure false)

    verify_if-Keeps :
        (b : Bool) (dest : Text) (content : Bytes) (s : Status)
        → Keeps Q (verify_if rpc b dest content s)
    unfolding verify_if
    verify_if-Keeps false dest content s = Keeps-pure s
    verify_if-Keeps true dest content s =
        Keeps-handle is_transfer_error _ _ (verify_written-Keeps dest content)
          (Keeps-pure unreadable)

    settle-Keeps :
        (resync : Option (F D (Unit {0}))) (again : Bool → F D (Unit {0})) (b : Bool) (s : Status)
        → ((r : F D (Unit {0})) → resync ≡ some r → Keeps Q r)
        → ((b : Bool) → Keeps Q (again b))
        → Keeps Q (settle rpc resync again b s)
    unfolding settle
    settle-Keeps resync again true match r a = Keeps-pure tt
    settle-Keeps none again true mismatch r a = Keeps-raise flash_error
    settle-Keeps none again true unreadable r a = Keeps-raise flash_error
    settle-Keeps none again false s r a = Keeps-raise flash_error
    settle-Keeps (some x) again true mismatch r a =
        Keeps-bind _ _ (r x refl) λ _. Keeps-bind _ _ (k.pause 8000) λ _. a _
    settle-Keeps (some x) again true unreadable r a =
        Keeps-bind _ _ (r x refl) λ _. Keeps-bind _ _ (k.pause 8000) λ _. a _
    settle-Keeps (some x) again false s r a =
        Keeps-bind _ _ (r x refl) λ _. Keeps-bind _ _ (k.pause 8000) λ _. a _

    push_pass-Keeps :
        (n : ℕ) (dest : Text) (content : Bytes) (b : Bool) (s : Status)
        → Keeps Q (push_pass rpc n dest content b s)
    unfolding push_pass
    push_pass-Keeps zero dest content b s = Keeps-bind _ _ (attempt_write-Keeps b dest content) λ w.
        Keeps-bind _ _ (verify_if-Keeps w dest content s)
          λ t. settle-Keeps none _ w t (λ r e. cc e) λ _. Keeps-raise flash_error
    push_pass-Keeps (suc n) dest content b s =
        Keeps-bind _ _ (attempt_write-Keeps b dest content) λ w.
          Keeps-bind _ _ (verify_if-Keeps w dest content s)
            λ t. settle-Keeps rpc.resync _ w t k.reconnects λ c. push_pass-Keeps n dest content c t

    reconnect-Keeps :
        (resync : Option (F D (Unit {0})))
        → ((r : F D (Unit {0})) → resync ≡ some r → Keeps Q r)
        → Keeps Q (reconnect rpc resync)
    unfolding reconnect
    reconnect-Keeps none r = Keeps-pure tt
    reconnect-Keeps (some x) r = r x refl

    after_code-Keeps :
        (again : F D (Unit {0})) (code : ℕ) → Keeps Q again → Keeps Q (after_code rpc again code)
    unfolding after_code
    after_code-Keeps again code a =
        Keeps-if (code == update_ok) _ _ (Keeps-pure tt)
          (Keeps-if (code == update_unspecified_error) _ _ a (Keeps-raise flash_error))

    ask_update-Keeps : (manifest : Text) → Keeps Q (ask_update rpc manifest)
    unfolding ask_update
    ask_update-Keeps manifest =
        Keeps-handle is_timeout _ _ (k.update manifest) (Keeps-raise flash_error)

    trigger_loop-Keeps : (n : ℕ) (manifest : Text) → Keeps Q (trigger_loop rpc n manifest)
    unfolding trigger_loop
    trigger_loop-Keeps zero manifest = Keeps-bind _ _ (k.pause 3000) λ _.
        Keeps-bind _ _ (ask_update-Keeps manifest)
          λ code. after_code-Keeps _ code (Keeps-raise flash_error)
    trigger_loop-Keeps (suc n) manifest = Keeps-bind _ _ (k.pause 3000) λ _.
        Keeps-bind _ _ (ask_update-Keeps manifest) λ code. after_code-Keeps _ code (
          Keeps-bind _ _ (reconnect-Keeps rpc.resync k.reconnects)
            λ _. trigger_loop-Keeps n manifest)

    push_files-Keeps :
        (pkg_dir : Text) (files : List (Text × Bytes)) → Keeps Q (push_files rpc pkg_dir files)
    unfolding push_files make_parent push_file
    push_files-Keeps pkg_dir [] = Keeps-pure tt
    push_files-Keeps pkg_dir ((rel_path, content) ∷ files) =
        Keeps-bind _ _
          (Keeps-if (text_eq (parent_of (within pkg_dir rel_path)) pkg_dir) _ _ (Keeps-pure true)
            (k.mkdir (parent_of (within pkg_dir rel_path))))
          λ _.
            Keeps-bind _ _ (push_pass-Keeps 2 (within pkg_dir rel_path) content false unreadable)
              λ _. push_files-Keeps pkg_dir files

    -- Where the action ends in a FlashError, it has kept the property.
    record KeepsOnError {A : Type 0} (m : F D A) : Type 0 where
      pub at : (d d' : D) → Q d → m d ≡ (raised flash_error, d') → Q d'

    Keeps-KeepsOnError : {A : Type 0} (m : F D A) → Keeps Q m → KeepsOnError m
    Keeps-KeepsOnError m p = record { at = λ d d' q e. subst (λ r. Q r.1) e (p.at d q) }

    KeepsOnError-bind :
        {A B : Type 0} (m : F D A) (f : A → F D B)
        → Keeps Q m
        → ((a : A) → KeepsOnError (f a))
        → KeepsOnError (m >>= f)
    KeepsOnError-bind {A = A} {B = B} m f p g = record {
      at = λ d d' q e. by_end (m d) d' (p.at d q) e;
    }
      where
        by_end :
            (r : Result A × D) (d' : D) → Q r.1 → continue r f ≡ (raised flash_error, d') → Q d'
        by_end (ok a, u) d' q e = (g a).at u d' q e
        by_end (raised x, u) d' q e = subst Q (left e) q
          where
            left : ◌≡◌ {A = Result B × D} (raised x, u) (raised flash_error, d') → u ≡ d'
            left e = cc e
        by_end (cancelled, u) d' q e = cc e

    -- When `install_bundle` raises FlashError, the device has not been asked to reboot: whatever all
    -- the other calls keep, such as not having been rebooted, still holds. (The reboot call itself
    -- raises no FlashError.)
    pub install_bundle-aborted :
        (bundle : Bundle) (pkg_name : Text) (d : D) {d' : D}
        → ((u v : D) → rpc.system_reboot_update u ≢ (raised flash_error, v))
        → Q d
        → install_bundle rpc bundle pkg_name d ≡ (raised flash_error, d')
        → Q d'
    unfolding install_bundle install_files trigger_update
    install_bundle-aborted bundle pkg_name d never q e =
        (KeepsOnError-bind rpc.get_device_info _ k.device_info
            λ info. either (is_target bundle info)).at
          d _ q e
      where
        rest : KeepsOnError (install_files rpc bundle pkg_name)
        rest = KeepsOnError-bind _ _ (k.mkdir (codes "/ext/update")) λ _.
            KeepsOnError-bind _ _ (k.mkdir (package_dir pkg_name)) λ _.
              KeepsOnError-bind _ _ (push_files-Keeps (package_dir pkg_name) bundle.files) λ _.
                KeepsOnError-bind _ _
                  (trigger_loop-Keeps 2 (within (package_dir pkg_name) bundle.manifest_name))
                  λ _. record { at = λ u v q e. absurd (never u v e) }

        either :
            (b : Bool)
            → KeepsOnError (if b then install_files rpc bundle pkg_name else raise flash_error)
        either true = rest
        either false = Keeps-KeepsOnError _ (Keeps-raise flash_error)
