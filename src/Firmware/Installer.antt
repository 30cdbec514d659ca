-- ===== src/Firmware/Installer.antt =====
-- firmware/installer.py: push a bundle, verify each file, trigger the update, reboot into it.
pub mod Stored
pub mod Verified
pub mod Aborted
use flipperzero_mcp.Base.{
  ℕ, zero, suc, ◌*◌, Bool, true, false, not, ◌&&◌, Option, some, none, List, [], ◌∷◌, ◌++◌, length,
  Text, Bytes, text_eq, is_empty, codes, ltb, ◌==◌, if◌then◌else◌,
}
use flipperzero_mcp.Base.Dict.{lookup}
use flipperzero_mcp.Proto.{update_ok, update_unspecified_error}
use flipperzero_mcp.Link.{Exn, flash_error}
use flipperzero_mcp.Client.{is_os_or_runtime}
use flipperzero_mcp.Cli.Words.{strip}
use flipperzero_mcp.Rpc.Storage.{Entry}
use flipperzero_mcp.Rpc.System.{Info}
use flipperzero_mcp.Action.{F, pure, raise, ◌>>=◌, ◌>>◌, handle}
use flipperzero_mcp.Firmware.Device.{Device}

-- _BundleLike
pub record Bundle : Type 0 where
  pub manifest_name : Text
  pub target : Text
  pub files : List (Text × Bytes)

-- _Md5Status
pub data Status : Type 0 where
  match : Status
  mismatch : Status
  unreadable : Status

-- _MD5_VERIFY_MAX_BYTES and _RESYNC_ATTEMPTS
abbrev pub md5_verify_max_bytes : ℕ
md5_verify_max_bytes = 2 * 1024 * 1024

abbrev pub resync_attempts : ℕ
resync_attempts = 2

-- `except (OSError, RuntimeError, FlipperTimeoutError)`
abbrev pub is_transfer_error : Exn → Bool
is_transfer_error Exn.flipper_timeout = true
is_transfer_error e = is_os_or_runtime e

abbrev is_timeout : Exn → Bool
is_timeout Exn.flipper_timeout = true
is_timeout _ = false

abbrev pub size_status : ℕ → Option Entry → Status
size_status expected none = unreadable
size_status expected (some entry) = if entry.size == expected then match else mismatch

-- The text before the last "/", which a path of the package has.
abbrev before_last : ℕ → Text → Option Text → Option Text
before_last c t (some parent) = some (c ∷ parent)
before_last c t none = if c == 47 then some [] else none

abbrev rsplit_parent : Text → Option Text
rsplit_parent [] = none
rsplit_parent (c ∷ t) = before_last c t (rsplit_parent t)

abbrev or_whole : Text → Option Text → Text
or_whole t none = t
or_whole t (some parent) = parent

-- `dest.rsplit("/", 1)[0]`
abbrev pub parent_of : Text → Text
parent_of dest = or_whole dest (rsplit_parent dest)

abbrev or_empty : Option Text → Text
or_empty none = []
or_empty (some t) = t

-- `device_info.get("hardware_target", "").strip()`
abbrev pub raw_target : Info → Text
raw_target info = strip (or_empty (lookup (codes "hardware_target") info))

abbrev pub package_dir : Text → Text
package_dir pkg_name = codes "/ext/update/" ++ pkg_name

abbrev pub within : Text → Text → Text
within dir name = dir ++ 47 ∷ name

-- What is still on the card once a check has disagreed is written again.
abbrev pub still_written : Bool → Status → Bool
still_written written mismatch = false
still_written written _ = written

-- The device reports a target, and `f` in front of it is the bundle's.
abbrev pub is_target : Bundle → Info → Bool
is_target bundle info =
    not (is_empty (raw_target info)) && text_eq (102 ∷ raw_target info) bundle.target

module _ {D : Type 0} (rpc : Device D) where
  -- `_check_size`
  unfoldable pub check_size : Text → ℕ → F D Status
  check_size path expected_len = do
    stat ← rpc.storage_stat path
    pure (size_status expected_len stat)

  -- A digest ends the loop; without one it goes on.
  after_digest : Text → F D Status → Option Text → F D Status
  after_digest expected again none = again
  after_digest expected again (some digest) =
      pure (if text_eq digest expected then match else mismatch)

  -- The loop of `_check_md5`, by the attempts that follow this one of five; no pause follows the last.
  md5_loop : ℕ → Text → Text → F D Status
  md5_loop zero path expected = rpc.storage_md5sum path >>= after_digest expected (pure unreadable)
  md5_loop (suc k) path expected =
      rpc.storage_md5sum path >>= after_digest expected (rpc.sleep 2000 >> md5_loop k path expected)

  -- `_check_md5`
  unfoldable pub check_md5 : Text → Text → F D Status
  unfolding after_digest md5_loop
  check_md5 path expected = md5_loop 4 path expected

  -- `_verify_written`
  unfoldable pub verify_written : Text → Bytes → F D Status
  verify_written dest content =
      if ltb md5_verify_max_bytes (length content)
      then check_size dest (length content)
      else check_md5 dest (rpc.md5 content)

  attempt_write : Bool → Text → Bytes → F D Bool
  attempt_write true dest content = pure true
  attempt_write false dest content =
      λ d. handle is_transfer_error (rpc.storage_write dest content d) (pure false)

  verify_if : Bool → Text → Bytes → Status → F D Status
  verify_if false dest content status = pure status
  verify_if true dest content status =
      λ d. handle is_transfer_error (verify_written dest content d) (pure unreadable)

  -- The end of a pass: done, or given up, or reconnected for the next pass.
  settle : Option (F D (Unit {0})) → (Bool → F D (Unit {0})) → Bool → Status → F D (Unit {0})
  settle resync again true match = pure tt
  settle none again written status = raise flash_error
  settle (some resync) again written status = do
    resync
    rpc.sleep 8000
    again (still_written written status)

  -- The passes of `_push_file`, by those that follow this one. (`ever_written` only chooses the text
  -- of the error.)
  push_pass : ℕ → Text → Bytes → Bool → Status → F D (Unit {0})
  push_pass zero dest content written status = do
    written' ← attempt_write written dest content
    status' ← verify_if written' dest content status
    settle none (λ _. raise flash_error) written' status'
  push_pass (suc k) dest content written status = do
    written' ← attempt_write written dest content
    status' ← verify_if written' dest content status
    settle rpc.resync (λ again. push_pass k dest content again status') written' status'

  -- `_push_file`
  unfoldable pub push_file : Text → Bytes → F D (Unit {0})
  unfolding attempt_write verify_if settle push_pass
  push_file dest content = push_pass resync_attempts dest content false unreadable

  reconnect : Option (F D (Unit {0})) → F D (Unit {0})
  reconnect none = pure tt
  reconnect (some resync) = resync

  -- One call of `system_update`; a FlipperTimeoutError becomes a FlashError.
  ask_update : Text → F D ℕ
  ask_update manifest = λ d. handle is_timeout (rpc.system_update manifest d) (raise flash_error)

  after_code : F D (Unit {0}) → ℕ → F D (Unit {0})
  after_code again code =
      if code == update_ok
      then pure tt
      else if code == update_unspecified_error
      then again
      else raise flash_error

  -- The loop of `_trigger_update`, by the calls that follow this one.
  trigger_loop : ℕ → Text → F D (Unit {0})
  trigger_loop zero manifest = do
    rpc.sleep 3000
    code ← ask_update manifest
    after_code (raise flash_error) code
  trigger_loop (suc k) manifest = do
    rpc.sleep 3000
    code ← ask_update manifest
    after_code (reconnect rpc.resync >> trigger_loop k manifest) code

  -- `_trigger_update`
  unfoldable pub trigger_update : Text → F D (Unit {0})
  unfolding reconnect ask_update after_code trigger_loop
  trigger_update manifest = trigger_loop resync_attempts manifest

  pub make_parent : Text → Text → F D Bool
  make_parent pkg_dir parent =
      if text_eq parent pkg_dir then pure true else rpc.storage_mkdir parent

  -- The `for` loop over the files of the bundle.
  unfoldable pub push_files : Text → List (Text × Bytes) → F D (Unit {0})
  unfolding make_parent
  push_files pkg_dir [] = pure tt
  push_files pkg_dir ((rel_path, content) ∷ files) = do
    make_parent pkg_dir (parent_of (within pkg_dir rel_path))
    push_file (within pkg_dir rel_path) content
    push_files pkg_dir files

  -- `install_bundle` past the check of the target.
  unfoldable pub install_files : Bundle → Text → F D (Unit {0})
  install_files bundle pkg_name = do
    rpc.storage_mkdir (codes "/ext/update")
    rpc.storage_mkdir (package_dir pkg_name)
    push_files (package_dir pkg_name) bundle.files
    trigger_update (within (package_dir pkg_name) bundle.manifest_name)
    rpc.system_reboot_update

  -- `install_bundle`
  unfoldable pub install_bundle : Bundle → Text → F D (Unit {0})
  install_bundle bundle pkg_name = do
    info ← rpc.get_device_info
    if is_target bundle info then install_files bundle pkg_name else raise flash_error
