-- ===== src/Rpc/System.antt =====
-- The system, application, desktop, GPIO and property requests of rpc/protobuf_rpc.py.
use flipperzero_mcp.Base.{
  ◌∷◌, [], List, some, none, Option, ◌||◌, false, true, Bool, suc, zero, ℕ, is_empty, codes, Text,
  Bytes, if◌then◌else◌, ◌==◌,
}
use flipperzero_mcp.Base.Dict.{insert}
use flipperzero_mcp.Proto.{
  Main, Codec, Content, DateTime, request, is_ok, status_ok, status_error,
  status_gpio_unknown_pin_mode, update_unspecified_error, reboot_update,
}
use flipperzero_mcp.Link.{flipper_timeout, value_error, except, ◌>>◌, ◌>>=◌, raise, pure, M, send}
use flipperzero_mcp.Rpc.Frame.{frame, receive_main_message}
use flipperzero_mcp.Rpc.Session.{get_next_command_id, ensure_rpc_session_started}
use flipperzero_mcp.Rpc.Call.{answer, limited, call, query, command}

abbrev ping_data : Content → Option Bytes
ping_data (Content.system_ping_response echoed) = some echoed
ping_data _ = none

abbrev lock_status : Content → Option Bool
lock_status (Content.app_lock_status_response locked) = some locked
lock_status _ = none

abbrev app_error : Content → Option (ℕ × Text)
app_error (Content.app_get_error_response number text) = some (number, text)
app_error _ = none

abbrev version : Content → Option (ℕ × ℕ)
version (Content.system_protobuf_version_response major minor) = some (major, minor)
version _ = none

abbrev datetime : Content → Option DateTime
datetime (Content.system_get_datetime_response t) = some t
datetime _ = none

abbrev property_value : Content → Option Text
property_value (Content.property_get_response key value) = some value
property_value _ = none

-- The status of an IsLockedRequest is its answer.
abbrev pub locked_by_status : Option Main → Option Bool
locked_by_status none = none
locked_by_status (some m) =
    if m.command_status == status_ok
    then some true
    else if m.command_status == status_error
    then some false
    else none

abbrev update_code : Content → ℕ
update_code (Content.system_update_response number) = number
update_code _ = update_unspecified_error

pub data PinMode : Type 0 where
  output input unconfigured : PinMode

pub record Pin : Type 0 where
  pub pin : ℕ
  pub mode : PinMode
  pub value : Option ℕ

-- `GpioPinMode.Name(mode).lower()`, a ValueError for a number that is no mode.
unfoldable pub mode_name : ℕ → M (Option PinMode)
mode_name zero = pure (some output)
mode_name (suc zero) = pure (some input)
mode_name _ = raise value_error

unfoldable pub reported_mode : Content → M (Option PinMode)
reported_mode (Content.gpio_get_pin_mode_response mode) = mode_name mode
reported_mode _ = pure none

-- The mode, or none where `gpio_read` returns None at once.
unfoldable pub mode_of : Option Main → M (Option PinMode)
mode_of none = pure none
mode_of (some m) =
    if is_ok m
    then reported_mode m.content
    else if m.command_status == status_gpio_unknown_pin_mode
    then pure (some unconfigured)
    else pure none

abbrev level : Content → Option ℕ
level (Content.gpio_read_pin_response value) = some value
level _ = none

abbrev pin_of : ℕ → PinMode → Option Main → Option Pin
pin_of pin mode none = none
pin_of pin mode (some m) = some (record { pin = pin; mode = mode; value = answer level (some m) })

abbrev pub Info : Type 0
Info = List (Text × Text)

-- `if key and value: info[key] = value`
abbrev add_pair : Text → Text → Info → Info
add_pair key value info = if is_empty key || is_empty value then info else insert key value info

abbrev collect_power : Content → Info → Info
collect_power (Content.system_power_info_response key value) info = add_pair key value info
collect_power _ info = info

abbrev collect_device : Content → Info → Info
collect_device (Content.system_device_info_response key value) info = add_pair key value info
collect_device _ info = info

-- The keys that are asked for one by one when DeviceInfo gave nothing.
abbrev property_keys : List Text
property_keys =
    codes "firmware_version"
    ∷ codes "hardware_model"
    ∷ codes "hardware_version"
    ∷ codes "serial_number"
    ∷ codes "firmware_build_date"
    ∷ codes "firmware_git_hash"
    ∷ []

module _ ⦃c : Codec⦄ where
  unfoldable pub ping : Bytes → M (Option Bytes)
  ping payload = query (Content.system_ping_request payload) 2500 ping_data

  unfoldable pub app_lock_status : M (Option Bool)
  app_lock_status = query Content.app_lock_status_request 2500 lock_status

  unfoldable pub app_get_error : M (Option (ℕ × Text))
  app_get_error = query Content.app_get_error_request 2500 app_error

  unfoldable pub desktop_is_locked : M (Option Bool)
  desktop_is_locked =
      except
        (do
          response ← call Content.desktop_is_locked_request 2500
          pure (locked_by_status response))
        (pure none)

  unfoldable pub read_level : ℕ → Option PinMode → M (Option Pin)
  read_level pin none = pure none
  read_level pin (some mode) = do
    response ← call (Content.gpio_read_pin pin) 2500
    pure (pin_of pin mode response)

  unfoldable pub gpio_read : ℕ → M (Option Pin)
  unfolding mode_name reported_mode mode_of read_level
  gpio_read pin =
      except
        (do
          response ← call (Content.gpio_get_pin_mode pin) 2500
          mode ← mode_of response
          read_level pin mode)
        (pure none)

  unfoldable pub system_protobuf_version : M (Option (ℕ × ℕ))
  system_protobuf_version =
      limited 3000 none (query Content.system_protobuf_version_request 2500 version)

  update_result : Option Main → M ℕ
  update_result none = raise flipper_timeout
  update_result (some m) = pure (update_code m.content)

  unfoldable pub system_update : Text → M ℕ
  unfolding update_result
  system_update manifest_path =
      call (Content.system_update_request manifest_path) 2500 >>= update_result

  unfoldable pub system_reboot_update : M (Unit {0})
  system_reboot_update = do
    ensure_rpc_session_started
    id ← get_next_command_id
    send (frame (request id (Content.system_reboot_request reboot_update)))

  unfoldable pub system_datetime : M (Option DateTime)
  system_datetime = limited 3000 none (query Content.system_get_datetime_request 2500 datetime)

  -- The `while main_response.has_next`, by the iterations left.
  unfoldable pub power_next : (Main → Info → M Info) → Info → Option Main → M Info
  power_next more info none = pure info
  power_next more info (some m) =
      if is_ok m then more m (collect_power m.content info) else pure info

  unfoldable pub power_loop : ℕ → Main → Info → M Info
  power_loop zero response info = pure info
  power_loop (suc k) response info =
      let round = receive_main_message 2500 >>= power_next (power_loop k) info in
      if response.has_next then round else pure info

  unfoldable pub power_start : Option Main → M (Option Info)
  power_start none = pure none
  power_start (some m) =
      if is_ok m
      then (do info ← power_loop 100 m (collect_power m.content []); pure (some info))
      else pure none

  unfoldable pub system_power_info : M (Option Info)
  unfolding power_next power_loop power_start
  system_power_info = limited 6000 none (
      except (do response ← call Content.system_power_info_request 2500; power_start response)
        (pure none))

  unfoldable pub app_start : Text → Text → M Bool
  app_start name args = command (Content.app_start_request name args)

  unfoldable pub get_property_internal : Text → M (Option Text)
  get_property_internal key = query (Content.property_get_request key) 2500 property_value

  unfoldable pub get_property : Text → M (Option Text)
  get_property key = limited 2000 none (get_property_internal key)

  device_next : (Main → Info → M Info) → Info → Option Main → M Info
  device_next more info none = pure info
  device_next more info (some m) =
      let info' = collect_device m.content info in if is_ok m then more m info' else pure info'

  device_loop : ℕ → Main → Info → M Info
  device_loop zero response info = pure info
  device_loop (suc k) response info =
      let round = receive_main_message 2500 >>= device_next (device_loop k) info in
      if response.has_next then except round (pure info) else pure info

  device_start : Option Main → M Info
  device_start none = pure []
  device_start (some m) =
      if is_ok m then device_loop 100 m (collect_device m.content []) else pure []

  add_property : Text → Info → Option Text → M Info
  add_property key info none = pure info
  add_property key info (some value) = pure (if is_empty value then info else insert key value info)

  read_properties : List Text → Info → M Info
  read_properties [] info = pure info
  read_properties (key ∷ keys) info = do
    info' ← except (get_property_internal key >>= add_property key info) (pure info)
    read_properties keys info'

  -- `if not info: …`
  or_properties : Info → M Info
  or_properties [] = read_properties property_keys []
  or_properties (pair ∷ info) = pure (pair ∷ info)

  get_device_info_internal : M Info
  get_device_info_internal = do
    info ← except (call Content.system_device_info_request 2500 >>= device_start) (pure [])
    or_properties info

  unfoldable pub get_device_info : M Info
  unfolding device_next device_loop device_start add_property read_properties or_properties
      get_device_info_internal
  get_device_info = limited 6000 [] get_device_info_internal
