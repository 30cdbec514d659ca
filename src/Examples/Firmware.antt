-- ===== src/Examples/Firmware.antt =====
-- An update of a small device: its state is the card, and a digest is the content itself.
use flipperzero_mcp.Base.{some, ℕ, suc, true, ◌≡◌, refl, none, List, [], ◌∷◌, Text, Bytes, codes}
use flipperzero_mcp.Base.Dict.{lookup, insert}
use flipperzero_mcp.Link.{ok, raised, flash_error}
use flipperzero_mcp.Rpc.System.{Info}
use flipperzero_mcp.Action.{pure}
use flipperzero_mcp.Firmware.Device.{Device}
use flipperzero_mcp.Firmware.Installer.{
  Bundle, match, is_target, verify_written, push_file, push_files, trigger_update, install_files,
  install_bundle, check_md5,
}
use flipperzero_mcp.Firmware.Installer.Aborted.{KeepsCalls, install_bundle-aborted}
use flipperzero_mcp.Firmware.Installer.Verified.{
  push_file-IsVerified, IsInstalled, install_bundle-IsInstalled,
}

abbrev Card : Type 0
Card = List (Text × Bytes)

abbrev reported : Info
reported = (codes "hardware_target", codes "7 ") ∷ []

abbrev small : Device Card
small = record {
  get_device_info = pure reported;
  storage_mkdir = λ path. pure true;
  storage_write = λ path content card. (ok true, insert path content card);
  storage_md5sum = λ path card. (ok (lookup path card), card);
  storage_stat = λ path. pure none;
  system_update = λ manifest. pure 0;
  system_reboot_update = pure tt;
  sleep = λ t. pure tt;
  resync = none;
  md5 = λ content. content;
}

abbrev bundle : Bundle
bundle = record {
  manifest_name = codes "update.fuf";
  target = codes "f7";
  files = (codes "a", codes "xyz") ∷ [];
}

abbrev card : Card
card = (codes "/ext/update/p/a", codes "xyz") ∷ []

pushed_file : push_file small (codes "/ext/update/p/a") (codes "xyz") [] ≡ (ok tt, card)
unfolding push_file verify_written check_md5
pushed_file = refl

push_file-IsVerified_example :
    (u : Card) × (verify_written small (codes "/ext/update/p/a") (codes "xyz") u ≡ (ok match, card))
push_file-IsVerified_example =
    push_file-IsVerified small (codes "/ext/update/p/a") (codes "xyz") [] pushed_file

installed : install_bundle small bundle (codes "p") [] ≡ (ok tt, card)
unfolding install_bundle install_files push_files push_file verify_written check_md5 trigger_update
installed = refl

install_bundle-IsInstalled_example :
    (info : Info) × (u : Card) × (small.get_device_info [] ≡ (ok info, u))
    × (is_target bundle info ≡ true)
    × IsInstalled small bundle (codes "p") u card
install_bundle-IsInstalled_example =
    install_bundle-IsInstalled small bundle (codes "p") [] installed

-- A device that counts its reboots and refuses the manifest.
abbrev refusing : Device ℕ
refusing = record {
  get_device_info = pure reported;
  storage_mkdir = λ path. pure true;
  storage_write = λ path content. pure true;
  storage_md5sum = λ path. pure (some (codes "xyz"));
  storage_stat = λ path. pure none;
  system_update = λ manifest. pure 3;
  system_reboot_update = λ n. (ok tt, suc n);
  sleep = λ t. pure tt;
  resync = none;
  md5 = λ content. content;
}

abbrev IsUp : ℕ → Type 0
IsUp n = n ≡ 0

refusing-KeepsCalls : KeepsCalls IsUp refusing
refusing-KeepsCalls = record {
  device_info = record { at = λ d q. q };
  mkdir = λ path. record { at = λ d q. q };
  write = λ path content. record { at = λ d q. q };
  md5sum = λ path. record { at = λ d q. q };
  stat = λ path. record { at = λ d q. q };
  update = λ manifest. record { at = λ d q. q };
  pause = λ t. record { at = λ d q. q };
  reconnects = λ r e. cc e;
}

refused_update : install_bundle refusing bundle (codes "p") 0 ≡ (raised flash_error, 0)
unfolding install_bundle install_files push_files push_file verify_written check_md5 trigger_update
refused_update = refl

install_bundle-aborted_example : IsUp 0
install_bundle-aborted_example =
    install_bundle-aborted IsUp refusing refusing-KeepsCalls bundle (codes "p") 0 (λ u v e. cc e)
      refl refused_update
