-- ===== src/Examples/Upstream.antt =====
-- A toy upstream with one bundle, and the theorem on downloads applied to it.
use flipperzero_mcp.Firmware.Select.{
  find, entry_for, pick, channel_of, malformed_in, select_official_file,
}
use flipperzero_mcp.Link.{ok, os_error, raised}
use flipperzero_mcp.Base.{◌∷◌, [], some, ◌||◌, ◌&&◌, true, Bool, refl, ◌≡◌, ℕ, codes, ◌==◌, leb}
use flipperzero_mcp.Examples.Toy.{toy, ascii}
use flipperzero_mcp.Firmware.Flavor.{official}
use flipperzero_mcp.Firmware.Json.{Json, string, array, object, item, no_items, field, no_fields}
use flipperzero_mcp.Firmware.Archive.{build_bundle, read_members, members_from_tar, Upstream}
use flipperzero_mcp.Firmware.Bundles.{
  bundle_from_tgz_bytes, verify_sha256, verified_bundle, load_json, fetch, download_official,
  download_bundle,
}
use flipperzero_mcp.Firmware.Bundles.Verified.{IsGenuine, download_bundle-IsGenuine}
use flipperzero_mcp.Firmware.Installer.{Bundle}

-- A directory with one channel, version and file.
abbrev file_entry : Json
file_entry = object (
    field (codes "target") (string (codes "f7")) (
      field (codes "type") (string (codes "update_tgz")) (
        field (codes "url") (string (codes "u"))
          (field (codes "sha256") (string (codes "AA")) no_fields))))

abbrev version_entry : Json
version_entry = object (
    field (codes "version") (string (codes "1.0"))
      (field (codes "files") (array (item file_entry no_items)) no_fields))

abbrev pub directory : Json
directory = object (
    field (codes "channels")
      (array (
        item
          (object (
            field (codes "id") (string (codes "release"))
              (field (codes "versions") (array (item version_entry no_items)) no_fields)))
          no_items))
      no_fields)

abbrev same_case : ℕ → ℕ → Bool
same_case a b = a == b

abbrev pub upstream : Upstream (Unit {0})
upstream = record {
  same_letter = same_case;
  is_word = λ c. leb 97 c || (leb 48 c && leb c 57);
  open_file = λ path. raised os_error;
  open_bytes = λ content.
      ok (
        record { name = codes "f7-update/update.fuf"; is_file = true; content = some content }
        ∷ []);
  loads = λ raw. some directory;
  sha256_hex = λ content. codes "aa";
  show = λ x. [];
  fetch_url = λ url s. (ok (7 ∷ []), s);
}

abbrev bundle : Bundle
bundle = record {
  manifest_name = codes "update.fuf";
  target = codes "f7";
  files = (codes "update.fuf", 7 ∷ []) ∷ [];
}

downloads :
    download_bundle upstream official (codes "release") (codes "latest") (codes "f7") tt
    ≡ (ok bundle, tt)
unfolding download_bundle download_official fetch load_json select_official_file malformed_in
    channel_of pick entry_for verified_bundle verify_sha256 bundle_from_tgz_bytes members_from_tar
    read_members build_bundle find
downloads = refl

download_bundle-IsGenuine_example :
    IsGenuine upstream official (codes "release") (codes "latest") (codes "f7") tt bundle
download_bundle-IsGenuine_example =
    download_bundle-IsGenuine upstream official (codes "release") (codes "latest") (codes "f7") tt
      downloads
