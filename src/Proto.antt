-- ===== src/Proto.antt =====
-- The protobuf messages (proto/*.proto, and the generated rpc/protobuf_gen/*_pb2.py): the fields
-- that the client reads or writes. The protobuf library's encoder and decoder are a parameter.
use flipperzero_mcp.Base.{ℕ, ◌≡◌, Bool, false, Bytes, Text, List, Option, some, ◌==◌}

-- PB_Storage.File; `kind` is the FileType number.
pub record File : Type 0 where
  pub kind : ℕ
  pub name : Text
  pub size : ℕ
  pub file_data : Bytes
  pub md5sum : Text

-- FileType.DIR
abbrev pub dir_type : ℕ
dir_type = 1

-- PB_System.DateTime
pub record DateTime : Type 0 where
  pub hour : ℕ
  pub minute : ℕ
  pub second : ℕ
  pub day : ℕ
  pub month : ℕ
  pub year : ℕ
  pub weekday : ℕ

-- The `oneof content` of PB.Main. `other` is any field that the client never names.
pub data Content : Type 0 where
  empty : Content
  stop_session : Content
  system_ping_request : Bytes → Content
  system_ping_response : Bytes → Content
  system_reboot_request : ℕ → Content
  system_device_info_request : Content
  system_device_info_response : Text → Text → Content
  system_get_datetime_request : Content
  system_get_datetime_response : DateTime → Content
  system_protobuf_version_request : Content
  system_protobuf_version_response : ℕ → ℕ → Content
  system_update_request : Text → Content
  system_update_response : ℕ → Content
  system_power_info_request : Content
  system_power_info_response : Text → Text → Content
  storage_info_request : Text → Content
  storage_info_response : ℕ → ℕ → Content
  storage_timestamp_request : Text → Content
  storage_timestamp_response : ℕ → Content
  storage_stat_request : Text → Content
  storage_stat_response : File → Content
  -- path, include_md5, filter_max_size
  storage_list_request : Text → Bool → ℕ → Content
  storage_list_response : List File → Content
  storage_read_request : Text → Content
  storage_read_response : File → Content
  -- path, file.data
  storage_write_request : Text → Bytes → Content
  -- path, recursive
  storage_delete_request : Text → Bool → Content
  storage_mkdir_request : Text → Content
  storage_md5sum_request : Text → Content
  storage_md5sum_response : Text → Content
  storage_rename_request : Text → Text → Content
  app_start_request : Text → Text → Content
  app_lock_status_request : Content
  app_lock_status_response : Bool → Content
  app_get_error_request : Content
  app_get_error_response : ℕ → Text → Content
  desktop_is_locked_request : Content
  gpio_get_pin_mode : ℕ → Content
  gpio_get_pin_mode_response : ℕ → Content
  gpio_read_pin : ℕ → Content
  gpio_read_pin_response : ℕ → Content
  property_get_request : Text → Content
  property_get_response : Text → Text → Content
  other : ℕ → Content

-- PB.Main
pub record Main : Type 0 where
  pub command_id : ℕ
  pub command_status : ℕ
  pub has_next : Bool
  pub content : Content

-- The numbers of CommandStatus and of UpdateResultCode that the client tests for.
abbrev pub status_ok : ℕ
status_ok = 0

abbrev pub status_error : ℕ
status_error = 1

abbrev pub status_gpio_unknown_pin_mode : ℕ
status_gpio_unknown_pin_mode = 59

abbrev pub update_ok : ℕ
update_ok = 0

abbrev pub update_unspecified_error : ℕ
update_unspecified_error = 10

-- RebootRequest.UPDATE
abbrev pub reboot_update : ℕ
reboot_update = 2

-- `response.command_status == CommandStatus.OK`
abbrev pub is_ok : Main → Bool
is_ok m = m.command_status == status_ok

-- A request as the client builds it: status 0 and no continuation.
abbrev pub request : ℕ → Content → Main
request command_id content = record {
  command_id = command_id;
  command_status = 0;
  has_next = false;
  content = content;
}

-- google.protobuf: `SerializeToString` and `ParseFromString` (`none` is a DecodeError).
pub record Codec : Type 0 where
  pub serialize : Main → Bytes
  pub parse : Bytes → Option Main

-- What the library documents for a message whose values fit their fields.
abbrev pub RoundTrips : ⦃c : Codec⦄ → Main → Type 0
RoundTrips ⦃c⦄ m = c.parse (c.serialize m) ≡ some m
