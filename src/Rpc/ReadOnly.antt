-- ===== src/Rpc/ReadOnly.antt =====
-- The requests that only read: what each method of rpc/protobuf_rpc.py that answers a question puts
-- on the wire.
use flipperzero_mcp.Link.{M}
use flipperzero_mcp.Base.{
  [], List, some, none, Option, false, true, Bool, refl, suc, zero, ℕ, Text, Bytes, ◌==◌,
}
use flipperzero_mcp.Link.Sends.{SendsOnly, SendsOnly-bind, SendsOnly-except, SendsOnly-weaken}
use flipperzero_mcp.Link.Quiet.{IsQuiet, IsQuiet-pure, IsQuiet-raise, IsQuiet-if, IsQuiet-bind}
use flipperzero_mcp.Proto.{Codec, Content, Main, is_ok, status_gpio_unknown_pin_mode}
use flipperzero_mcp.Rpc.Call.Sends.{
  IsAllowed, query-SendsOnly, call-SendsOnly, limited-SendsOnly, quiet-SendsOnly,
}
use flipperzero_mcp.Rpc.Frame.Quiet.{receive_main_message-IsQuiet}
use flipperzero_mcp.Rpc.Storage.{
  storage_info, storage_stat, storage_timestamp, storage_read, storage_md5sum,
}
use flipperzero_mcp.Rpc.Listing.{
  storage_list_frames, storage_list_detailed, continuation, next_frame,
}
use flipperzero_mcp.Rpc.System.{
  PinMode, Info, mode_of, mode_name, reported_mode, read_level, power_loop, power_next, power_start,
  ping, app_lock_status, app_get_error, desktop_is_locked, gpio_read, get_property,
  get_property_internal, system_protobuf_version, system_datetime, system_power_info,
}

-- The requests that change nothing on the device.
abbrev pub reads : Content → Bool
reads (Content.system_ping_request _) = true
reads Content.system_device_info_request = true
reads Content.system_get_datetime_request = true
reads Content.system_protobuf_version_request = true
reads Content.system_power_info_request = true
reads (Content.storage_info_request _) = true
reads (Content.storage_timestamp_request _) = true
reads (Content.storage_stat_request _) = true
reads (Content.storage_list_request _ _ _) = true
reads (Content.storage_read_request _) = true
reads (Content.storage_md5sum_request _) = true
reads Content.app_lock_status_request = true
reads Content.app_get_error_request = true
reads Content.desktop_is_locked_request = true
reads (Content.gpio_get_pin_mode _) = true
reads (Content.gpio_read_pin _) = true
reads (Content.property_get_request _) = true
reads _ = false

module _ ⦃c : Codec⦄ where
  -- The action sends the negotiation and requests that only read, at most `n` messages in all.
  abbrev pub OnlyReads : {A : Type 0} → ℕ → M A → Type 0
  OnlyReads n m = SendsOnly (IsAllowed reads) n m

  pub ping-OnlyReads : (payload : Bytes) → OnlyReads 11 (ping payload)
  unfolding ping
  ping-OnlyReads payload = query-SendsOnly _ refl _ _

  pub app_lock_status-OnlyReads : OnlyReads 11 app_lock_status
  unfolding app_lock_status
  app_lock_status-OnlyReads = query-SendsOnly _ refl _ _

  pub app_get_error-OnlyReads : OnlyReads 11 app_get_error
  unfolding app_get_error
  app_get_error-OnlyReads = query-SendsOnly _ refl _ _

  pub desktop_is_locked-OnlyReads : OnlyReads 11 desktop_is_locked
  unfolding desktop_is_locked
  desktop_is_locked-OnlyReads =
      SendsOnly-except 11 0
        (SendsOnly-bind 11 0 (call-SendsOnly _ refl 2500) λ r. quiet-SendsOnly (IsQuiet-pure _))
        (quiet-SendsOnly (IsQuiet-pure none))

  pub get_property-OnlyReads : (key : Text) → OnlyReads 11 (get_property key)
  unfolding get_property get_property_internal
  get_property-OnlyReads key = limited-SendsOnly 11 2000 none (query-SendsOnly _ refl _ _)

  pub system_protobuf_version-OnlyReads : OnlyReads 11 system_protobuf_version
  unfolding system_protobuf_version
  system_protobuf_version-OnlyReads = limited-SendsOnly 11 3000 none (query-SendsOnly _ refl _ _)

  pub system_datetime-OnlyReads : OnlyReads 11 system_datetime
  unfolding system_datetime
  system_datetime-OnlyReads = limited-SendsOnly 11 3000 none (query-SendsOnly _ refl _ _)

  pub storage_info-OnlyReads : (path : Text) → OnlyReads 11 (storage_info path)
  unfolding storage_info
  storage_info-OnlyReads path = limited-SendsOnly 11 3000 none (query-SendsOnly _ refl _ _)

  pub storage_stat-OnlyReads : (path : Text) → OnlyReads 11 (storage_stat path)
  unfolding storage_stat
  storage_stat-OnlyReads path = limited-SendsOnly 11 3000 none (query-SendsOnly _ refl _ _)

  pub storage_timestamp-OnlyReads : (path : Text) → OnlyReads 11 (storage_timestamp path)
  unfolding storage_timestamp
  storage_timestamp-OnlyReads path = limited-SendsOnly 11 3000 none (query-SendsOnly _ refl _ _)

  pub storage_md5sum-OnlyReads : (path : Text) → OnlyReads 11 (storage_md5sum path)
  unfolding storage_md5sum
  storage_md5sum-OnlyReads path = limited-SendsOnly 11 185000 none (query-SendsOnly _ refl _ _)

  pub storage_read-OnlyReads : (path : Text) → OnlyReads 11 (storage_read path)
  unfolding storage_read
  storage_read-OnlyReads path =
      limited-SendsOnly 11 3000 []
        (SendsOnly-bind 11 0 (query-SendsOnly _ refl _ _) λ r. quiet-SendsOnly (IsQuiet-pure _))

  -- The frames of a listing after the first are only received.
  next_frame-IsQuiet :
      (more : Main → M (List Main))
      → ((m : Main) → IsQuiet (more m))
      → (o : Option Main) → IsQuiet (next_frame more o)
  unfolding next_frame
  next_frame-IsQuiet more q none = IsQuiet-raise _
  next_frame-IsQuiet more q (some m) =
      IsQuiet-if (is_ok m) _ _ (IsQuiet-bind _ _ (q m) λ rest. IsQuiet-pure _) (IsQuiet-raise _)

  continuation-IsQuiet : (k : ℕ) (m : Main) → IsQuiet (continuation k m)
  unfolding continuation
  continuation-IsQuiet zero m = IsQuiet-if m.has_next _ _ (IsQuiet-raise _) (IsQuiet-pure [])
  continuation-IsQuiet (suc k) m =
      IsQuiet-if m.has_next _ _
        (IsQuiet-bind _ _ (receive_main_message-IsQuiet 2500)
          (next_frame-IsQuiet (continuation k) (continuation-IsQuiet k)))
        (IsQuiet-pure [])

  pub storage_list_detailed-OnlyReads :
      (path : Text) (include_md5 : Bool) (filter_max_size : ℕ)
      → OnlyReads 11 (storage_list_detailed path include_md5 filter_max_size)
  unfolding storage_list_detailed storage_list_frames
  storage_list_detailed-OnlyReads path include_md5 filter_max_size =
      SendsOnly-bind 11 0
        (SendsOnly-bind 11 0 (call-SendsOnly _ refl 2500)
          λ o. quiet-SendsOnly (next_frame-IsQuiet _ (continuation-IsQuiet 100) o))
        λ frames. quiet-SendsOnly (IsQuiet-pure _)

  -- A pin is asked for its mode, and then for its level.
  mode_name-IsQuiet : (mode : ℕ) → IsQuiet (mode_name mode)
  unfolding mode_name
  mode_name-IsQuiet zero = IsQuiet-pure _
  mode_name-IsQuiet (suc zero) = IsQuiet-pure _
  mode_name-IsQuiet (suc (suc n)) = IsQuiet-raise _

  reported_mode-IsQuiet : (content : Content) → IsQuiet (reported_mode content)
  unfolding reported_mode
  reported_mode-IsQuiet (Content.gpio_get_pin_mode_response mode) = mode_name-IsQuiet mode
  reported_mode-IsQuiet _ = IsQuiet-pure none

  mode_of-IsQuiet : (o : Option Main) → IsQuiet (mode_of o)
  unfolding mode_of
  mode_of-IsQuiet none = IsQuiet-pure none
  mode_of-IsQuiet (some m) = IsQuiet-if (is_ok m) _ _ (reported_mode-IsQuiet m.content) (
      IsQuiet-if (m.command_status == status_gpio_unknown_pin_mode) _ _ (IsQuiet-pure _)
        (IsQuiet-pure _))

  read_level-OnlyReads : (pin : ℕ) (o : Option PinMode) → OnlyReads 11 (read_level pin o)
  unfolding read_level
  read_level-OnlyReads pin none = SendsOnly-weaken 0 11 (quiet-SendsOnly (IsQuiet-pure none))
  read_level-OnlyReads pin (some mode) =
      SendsOnly-bind 11 0 (call-SendsOnly _ refl 2500) λ r. quiet-SendsOnly (IsQuiet-pure _)

  pub gpio_read-OnlyReads : (pin : ℕ) → OnlyReads 22 (gpio_read pin)
  unfolding gpio_read
  gpio_read-OnlyReads pin =
      SendsOnly-except 22 0
        (SendsOnly-bind 11 11 (call-SendsOnly _ refl 2500)
          λ r. SendsOnly-bind 0 11 (quiet-SendsOnly (mode_of-IsQuiet r)) (read_level-OnlyReads pin))
        (quiet-SendsOnly (IsQuiet-pure none))

  -- The pairs of the power information after the first are only received.
  power_next-IsQuiet :
      (more : Main → Info → M Info)
      → ((m : Main) (info : Info) → IsQuiet (more m info))
      → (info : Info) (o : Option Main) → IsQuiet (power_next more info o)
  unfolding power_next
  power_next-IsQuiet more q info none = IsQuiet-pure info
  power_next-IsQuiet more q info (some m) = IsQuiet-if (is_ok m) _ _ (q m _) (IsQuiet-pure info)

  power_loop-IsQuiet : (k : ℕ) (m : Main) (info : Info) → IsQuiet (power_loop k m info)
  unfolding power_loop
  power_loop-IsQuiet zero m info = IsQuiet-pure info
  power_loop-IsQuiet (suc k) m info =
      IsQuiet-if m.has_next _ _
        (IsQuiet-bind _ _ (receive_main_message-IsQuiet 2500)
          (power_next-IsQuiet (power_loop k) (power_loop-IsQuiet k) info))
        (IsQuiet-pure info)

  power_start-IsQuiet : (o : Option Main) → IsQuiet (power_start o)
  unfolding power_start
  power_start-IsQuiet none = IsQuiet-pure none
  power_start-IsQuiet (some m) =
      IsQuiet-if (is_ok m) _ _
        (IsQuiet-bind _ _ (power_loop-IsQuiet 100 m _) λ info. IsQuiet-pure _) (IsQuiet-pure none)

  pub system_power_info-OnlyReads : OnlyReads 11 system_power_info
  unfolding system_power_info
  system_power_info-OnlyReads = limited-SendsOnly 11 6000 none (
      SendsOnly-except 11 0
        (SendsOnly-bind 11 0 (call-SendsOnly _ refl 2500)
          λ o. quiet-SendsOnly (power_start-IsQuiet o))
        (quiet-SendsOnly (IsQuiet-pure none)))
