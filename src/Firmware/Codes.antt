-- ===== src/Firmware/Codes.antt =====
-- firmware/codes.py: what the agent is told of a SystemUpdate result code.
use flipperzero_mcp.Proto.{update_ok}
use flipperzero_mcp.Base.{◌∷◌, [], List, some, none, Option, ℕ, if◌then◌else◌, ◌==◌}

-- The texts of `_MESSAGES`, and the one that names the code.
pub data Message : Type 0 where
  manifest_path_invalid : Message
  manifest_folder_not_found : Message
  manifest_invalid : Message
  stage_missing : Message
  stage_integrity_error : Message
  manifest_pointer_error : Message
  target_mismatch : Message
  outdated_manifest_version : Message
  int_full : Message
  unspecified_error : Message
  update_failed : ℕ → Message

-- _MESSAGES, by the numbers of UpdateResultCode in proto/system.proto
abbrev pub messages : List (ℕ × Message)
messages =
    (1, manifest_path_invalid)
    ∷ (2, manifest_folder_not_found)
    ∷ (3, manifest_invalid)
    ∷ (4, stage_missing)
    ∷ (5, stage_integrity_error)
    ∷ (6, manifest_pointer_error)
    ∷ (7, target_mismatch)
    ∷ (8, outdated_manifest_version)
    ∷ (9, int_full)
    ∷ (10, unspecified_error)
    ∷ []

-- `_MESSAGES.get(code, f"update failed (code {code})")`
abbrev pub message_of : ℕ → List (ℕ × Message) → Message
message_of code [] = update_failed code
message_of code ((number, message) ∷ rest) =
    let later = message_of code rest in if code == number then message else later

-- `update_code_message`
unfoldable pub update_code_message : ℕ → Option Message
update_code_message code = if code == update_ok then none else some (message_of code messages)
