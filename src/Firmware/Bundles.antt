-- ===== src/Firmware/Bundles.antt =====
-- firmware/bundles.py: an update bundle from a local archive or from upstream.
pub mod Returned
pub mod Selected
pub mod Named
pub mod Verified
use flipperzero_mcp.Cli.Lines.{after_colon}
use flipperzero_mcp.Firmware.Select.{
  pick, not_none, find, malformed_in, select_official_file, from, or_bundle_error,
}
use flipperzero_mcp.Link.{raised, Exn, Result}
use flipperzero_mcp.Firmware.Archive.{build_bundle, members_from_tar, search_target, Upstream}
use flipperzero_mcp.Base.{◌++◌, [], starts_with, text_eq, codes, Text, Bytes, if◌then◌else◌}
use flipperzero_mcp.Action.{F, pure, raise, ◌>>=◌, ◌>>◌}
use flipperzero_mcp.Firmware.Json.{JsonList, Json, get, subscript, iterate, is_falsy, string, array}
use flipperzero_mcp.Cli.Risk.{Case}
use flipperzero_mcp.Firmware.Installer.{Bundle}
use flipperzero_mcp.Firmware.Flavor.{FirmwareFlavor, official, momentum}

module _ {N : Type 0} (u : Upstream N) where
  -- `str(x)`
  abbrev pub text_of : Json → Text
  text_of (string t) = t
  text_of x = u.show x

  -- httpx takes a text only.
  abbrev pub url_of : Json → F N Text
  url_of (string t) = pure t
  url_of _ = raise Exn.type_error

  fetched : Result Bytes × N → Result Bytes × N
  fetched (raised Exn.http_error, s) = (raised Exn.bundle_error, s)
  fetched r = r

  -- `_fetch`
  unfoldable pub fetch : Text → F N Bytes
  unfolding fetched
  fetch url s = fetched (u.fetch_url url s)

  -- `_load_json`
  unfoldable pub load_json : Bytes → F N Json
  load_json raw = or_bundle_error (u.loads raw)

  module _ ⦃k : Case⦄ where
    -- `_target_from_name`
    unfoldable pub target_from_name : Text → F N Text
    target_from_name name = do
      group ← or_bundle_error (search_target u.same_letter u.is_word name)
      pure (k.lower group)

    -- `load_local_bundle`
    unfoldable pub load_local_bundle : Text → F N Bundle
    load_local_bundle tgz_path = do
      target ← target_from_name tgz_path
      members ← from (u.open_file tgz_path)
      files ← from (members_from_tar members)
      from (build_bundle files target)

    -- `_verify_sha256`
    unfoldable pub verify_sha256 : Bytes → Text → F N (Unit {0})
    verify_sha256 content expected =
        if text_eq (k.lower (u.sha256_hex content)) (k.lower expected)
        then pure tt
        else raise Exn.bundle_error

    -- `_bundle_from_tgz_bytes`
    unfoldable pub bundle_from_tgz_bytes : Bytes → Text → F N Bundle
    bundle_from_tgz_bytes content target = do
      members ← from (u.open_bytes content)
      files ← from (members_from_tar members)
      from (build_bundle files target)

    -- The end of both downloads.
    unfoldable pub verified_bundle : Bytes → Text → Text → F N Bundle
    verified_bundle content expected target = do
      verify_sha256 content expected
      bundle_from_tgz_bytes content target

    -- `_download_official`; the URL is `_OFFICIAL_DIRECTORY`.
    unfoldable pub download_official : Text → Text → Text → F N Bundle
    download_official channel version target = do
      raw ← fetch (codes "https://update.flipperzero.one/firmware/directory.json")
      directory ← load_json raw
      entry ← select_official_file directory channel version target
      url ← malformed_in (from (subscript (codes "url") entry))
      expected ← malformed_in (from (subscript (codes "sha256") entry))
      content ← fetch (text_of url)
      verified_bundle content (text_of expected) target

    abbrev pub wanted_name : Text → Text → Text
    wanted_name target tag = codes "flipper-z-" ++ target ++ codes "-update-" ++ tag ++ codes ".tgz"

    -- The asset of a release, and its `browser_download_url`.
    unfoldable pub asset_of : Text → Json → F N (Json × Json)
    asset_of target release = malformed_in (do
      tag ← from (subscript (codes "tag_name") release)
      assets ← from (get (codes "assets") (array JsonList.no_items) release)
      candidates ← from (iterate assets)
      found ← find (codes "name") (wanted_name target (text_of tag)) candidates
      asset ← not_none found
      url ← from (subscript (codes "browser_download_url") asset)
      pure (asset, url))

    -- `digest.startswith("sha256:")`, and what follows the colon.
    unfoldable pub digest_of : Json → F N Text
    digest_of (string t) =
        if starts_with (codes "sha256:") t
        then or_bundle_error (after_colon t)
        else raise Exn.bundle_error
    digest_of _ = raise Exn.attribute_error

    -- `_download_momentum`; the URL is `_MOMENTUM_RELEASES`.
    unfoldable pub download_momentum : Text → Text → F N Bundle
    unfolding asset_of digest_of
    download_momentum version target = do
      raw ← fetch (codes "https://api.github.com/repos/Next-Flip/Momentum-Firmware/releases")
      releases ← load_json raw
      if is_falsy releases then raise Exn.bundle_error else pure tt
      picked ← pick (codes "tag_name") version releases
      release ← not_none picked
      (asset, download_url) ← asset_of target release
      url ← url_of download_url
      content ← fetch url
      digest ← from (get (codes "digest") (string []) asset)
      expected ← digest_of digest
      verified_bundle content expected target

    -- `download_bundle`
    unfoldable pub download_bundle : FirmwareFlavor → Text → Text → Text → F N Bundle
    download_bundle official channel version target = download_official channel version target
    download_bundle momentum channel version target = download_momentum version target
    download_bundle _ channel version target = raise Exn.bundle_error
