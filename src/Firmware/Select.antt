-- ===== src/Firmware/Select.antt =====
-- What firmware/bundles.py picks from the upstream directories.
use flipperzero_mcp.Link.{cancelled, raised, Exn, ok, Result}
use flipperzero_mcp.Base.{
  ◌∷◌, [], List, some, none, Option, ◌&&◌, Bool, text_eq, codes, Text, if◌then◌else◌,
}
use flipperzero_mcp.Action.{F, pure, raise, cancel, ◌>>=◌, ◌>>◌}
use flipperzero_mcp.Firmware.Json.{
  JsonList, Json, get, subscript, iterate, first, is_text, is_falsy, null, array,
}

-- `except (KeyError, TypeError) as e: raise BundleError(…)`
abbrev pub malformed : {A : Type 0} → Result A → Result A
malformed (raised Exn.key_error) = raised Exn.bundle_error
malformed (raised Exn.type_error) = raised Exn.bundle_error
malformed r = r

abbrev pub later_or : Option Json → Bool → Json → Option Json
later_or (some later) is_it entry = some later
later_or none is_it entry = if is_it then some entry else none

module _ {N : Type 0} where
  -- What raises or returns at once, as an action.
  abbrev pub from : {A : Type 0} → Result A → F N A
  from (ok a) = pure a
  from (raised e) = raise e
  from cancelled = cancel

  abbrev pub or_bundle_error : {A : Type 0} → Option A → F N A
  or_bundle_error none = raise Exn.bundle_error
  or_bundle_error (some a) = pure a

  -- `x is None`
  abbrev pub not_none : Json → F N Json
  not_none null = raise Exn.bundle_error
  not_none x = pure x

  -- `next((x for x in … if x.get(key) == value), None)`
  unfoldable pub find : Text → Text → List Json → F N Json
  find key value [] = pure null
  find key value (x ∷ l) = do
    y ← from (get key null x)
    if is_text value y then pure x else find key value l

  -- The dict of channels, at one id: the last entry that has it.
  abbrev pub hashable : Json → F N (Unit {0})
  hashable (array l) = raise Exn.type_error
  hashable (Json.object pairs) = raise Exn.type_error
  hashable _ = pure tt

  unfoldable pub channel_of : Text → List Json → F N (Option Json)
  channel_of channel [] = pure none
  channel_of channel (entry ∷ l) = do
    id ← from (subscript (codes "id") entry)
    hashable id
    later ← channel_of channel l
    pure (later_or later (is_text channel id) entry)

  -- `versions[0] if version == "latest" else next(…)`; of the Momentum releases too.
  unfoldable pub pick : Text → Text → Json → F N Json
  pick key version versions =
      if text_eq version (codes "latest")
      then from (first versions)
      else (from (iterate versions) >>= find key version)

  unfoldable pub entry_for : Text → List Json → F N Json
  entry_for target [] = raise Exn.bundle_error
  entry_for target (entry ∷ l) = do
    t ← from (get (codes "target") null entry)
    k ← from (get (codes "type") null entry)
    if is_text target t && is_text (codes "update_tgz") k then pure entry else entry_for target l

  unfoldable pub malformed_in : {A : Type 0} → F N A → F N A
  malformed_in m s = (malformed (m s).0, (m s).1)

  -- `_select_official_file`
  unfoldable pub select_official_file : Json → Text → Text → Text → F N Json
  select_official_file directory channel version target = do
    found ← malformed_in (do
      channels ← from (get (codes "channels") (array JsonList.no_items) directory)
      entries ← from (iterate channels)
      channel_of channel entries)
    entry ← or_bundle_error found
    versions ← from (get (codes "versions") (array JsonList.no_items) entry)
    if is_falsy versions then raise Exn.bundle_error else pure tt
    picked ← pick (codes "version") version versions
    picked' ← not_none picked
    files ← from (get (codes "files") (array JsonList.no_items) picked')
    entries ← from (iterate files)
    entry_for target entries
