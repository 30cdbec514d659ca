-- ===== src/Client/Info.antt =====
-- `get_device_info` of rpc/client.py: the device's pairs under the names that the tools show.
use flipperzero_mcp.Link.{cancelled, ok, Result}
use flipperzero_mcp.Base.{
  ◌∷◌, [], List, some, none, Option, ◌||◌, false, true, Bool, inr, inl, ◌∙◌, ap, refl, ◌≡◌,
  text_eq→eq, text_eq, codes, Text, Bool-cases, if◌then◌else◌,
}
use flipperzero_mcp.Base.Dict.{lookup}
use flipperzero_mcp.Proto.{Codec}
use flipperzero_mcp.Client.{raised, Client, guarded}
use flipperzero_mcp.Rpc.System.{Info}
use flipperzero_mcp.Rpc.System

-- _NORMALIZED_SOURCE_KEYS
abbrev pub normalized_source_keys : List Text
normalized_source_keys =
    codes "hardware_name"
    ∷ codes "name"
    ∷ codes "hardware_model"
    ∷ codes "hardware"
    ∷ codes "firmware_version"
    ∷ codes "firmware"
    ∷ codes "version"
    ∷ []

abbrev pub is_key_of : List Text → Text → Bool
is_key_of [] key = false
is_key_of (k ∷ keys) key = text_eq k key || is_key_of keys key

-- `x or default`
abbrev pub or_default : Text → Option Text → Text
or_default default none = default
or_default default (some []) = default
or_default default (some (c ∷ t)) = c ∷ t

-- The pairs whose keys are not normalized.
abbrev pub others : Info → Info
others [] = []
others ((key, value) ∷ info) =
    let rest = others info in
    if is_key_of normalized_source_keys key then rest else (key, value) ∷ rest

-- `info.get(key) or info.get(other) or default`
abbrev pub either_key : Text → Text → Text → Info → Text
either_key key other default info =
    or_default (or_default default (lookup other info)) (lookup key info)

unfoldable pub normalize : Info → Info
normalize info =
    (codes "name", either_key (codes "hardware_name") (codes "name") (codes "Flipper Zero") info)
    ∷ (
      codes "hardware",
      either_key (codes "hardware_model") (codes "hardware") (codes "Unknown") info,
    )
    ∷ (
      codes "firmware",
      either_key (codes "firmware_version") (codes "firmware") (codes "Unknown") info,
    )
    ∷ others info

unfoldable pub normalized : Result Info × Client → Result Info × Client
normalized (ok info, cl) = (ok (normalize info), cl)
normalized (raised e, cl) = (raised e, cl)
normalized (cancelled, cl) = (cancelled, cl)

abbrev without_rpc : Info
without_rpc =
    (codes "name", codes "Flipper Zero")
    ∷ (codes "hardware", codes "Unknown")
    ∷ (codes "firmware", codes "Unknown")
    ∷ []

module _ ⦃c : Codec⦄ where
  -- `get_device_info`
  unfoldable pub get_device_info : Client → Result Info × Client
  unfolding normalized
  get_device_info cl =
      if cl.has_rpc
      then normalized (guarded [] cl (flipperzero_mcp.Rpc.System.get_device_info cl.link))
      else (ok without_rpc, cl)

-- A key that is normalized is not among the other pairs.
others-lookup :
    (key : Text) (info : Info)
    → is_key_of normalized_source_keys key ≡ true
    → lookup key (others info) ≡ none
others-lookup key [] h = refl
others-lookup key ((k, value) ∷ info) h = elim (Bool-cases (is_key_of normalized_source_keys k)) [
  | inl y ↦ rw y (others-lookup key info h)
  | inr n ↦ elim (Bool-cases (text_eq k key)) [
    | inl e ↦
        absurd (both n (ap (λ x. is_key_of normalized_source_keys x) (text_eq→eq k key e) ∙ h))
    | inr e ↦ rw (n, e) (others-lookup key info h)
  ]
]
  where
    both : {b : Bool} → b ≡ false → b ≡ true → ⊥
    both n y = cc (n, y)

normalize-version : (info : Info) → lookup (codes "firmware_version") (normalize info) ≡ none
unfolding normalize
normalize-version info = others-lookup (codes "firmware_version") info refl

-- The version that the classifier of firmware looks for is never there.
pub get_device_info-version :
    ⦃c : Codec⦄
    → (cl : Client) {info : Info} {cl' : Client} → get_device_info cl ≡ (ok info, cl')
    → lookup (codes "firmware_version") info ≡ none
unfolding get_device_info normalized
get_device_info-version cl h =
    by_rpc cl.has_rpc (guarded [] cl (flipperzero_mcp.Rpc.System.get_device_info cl.link)) h
  where
    by_end :
        (r : Result Info × Client) {i : Info} {u : Client}
        → normalized r ≡ (ok i, u)
        → lookup (codes "firmware_version") i ≡ none
    by_end (ok found, v) e = cc (normalize-version found, e)
    by_end (raised x, v) e = cc e
    by_end (cancelled, v) e = cc e

    by_rpc :
        (b : Bool) (r : Result Info × Client) {i : Info} {u : Client}
        → (if b then normalized r else (ok without_rpc, cl)) ≡ (ok i, u)
        → lookup (codes "firmware_version") i ≡ none
    by_rpc true r e = by_end r e
    by_rpc false r e = cc e
