-- ===== src/Firmware/Bundles/Verified.antt =====
-- What is known of a bundle that was resolved.
use mathlib.Core.Path.{subst}
use flipperzero_mcp.Firmware.Bundles.Named.{
  IsAsset, IsNamed, in_directory, asset_of-returned, digest_of-string, url_of-string,
}
use flipperzero_mcp.Firmware.Bundles.Selected.{pick-returned, select_official_file-IsListed}
use flipperzero_mcp.Firmware.Bundles.Returned.{
  from-returned, malformed_from-returned, not_none-returned, or_bundle_error-returned,
}
use flipperzero_mcp.Firmware.Bundles.{
  digest_of, url_of, asset_of, text_of, bundle_from_tgz_bytes, load_json, verify_sha256, raised,
  download_bundle, download_momentum, download_official, verified_bundle, fetch,
}
use flipperzero_mcp.Firmware.Select.{
  or_bundle_error, not_none, pick, malformed_in, select_official_file, from,
}
use flipperzero_mcp.Link.{Exn, cancelled, ok, Result}
use flipperzero_mcp.Firmware.Archive.{
  regular, manifest, prefix_of, remove_prefix, files_from, add_file, has_file, Upstream,
  build_bundle, members_from_tar, read_members, Member, is_unsafe,
}
use flipperzero_mcp.Base.{
  ◌∷◌, [], List, some, none, Option, false, true, inr, inl, sym, refl, ap, ◌∙◌, Bool, ◌≡◌,
  text_eq→eq, text_eq, codes, Text, Bytes, All, Bool-cases, if◌then◌else◌,
}
use flipperzero_mcp.Action.{F, pure, raise, >>=-returned}
use flipperzero_mcp.Cli.Risk.{Case}
use flipperzero_mcp.Firmware.Installer.{Bundle}
use flipperzero_mcp.Firmware.Flavor.{
  FirmwareFlavor, official, momentum, unleashed, roguemaster, unknown_flavor,
}
use flipperzero_mcp.Firmware.Json.{get, subscript, is_falsy, string}

-- No path of a file leaves the folder of the bundle.
abbrev pub AreSafe : List (Text × Bytes) → Type 0
AreSafe = All (λ f. is_unsafe f.0 ≡ false)

-- A bundle made of the regular members of an archive, with its manifest among them.
pub record IsBundle (members : List Member) (bundle : Bundle) : Type 0 where
  pub read : members_from_tar members ≡ ok bundle.files
  pub safe : AreSafe bundle.files
  pub complete : has_file bundle.manifest_name bundle.files ≡ true

add_file-AreSafe :
    (rel : Text) (content : Option Bytes) (rest : Result (List (Text × Bytes)))
    {files : List (Text × Bytes)}
    → is_unsafe rel ≡ false
    → ((l : List (Text × Bytes)) → rest ≡ ok l → AreSafe l)
    → add_file rel content rest ≡ ok files
    → AreSafe files
add_file-AreSafe rel none rest s h e = h _ e
add_file-AreSafe rel (some content) (ok l) s h e = subst (λ r. AreSafe r) (ok_eq e) (s, h l refl)
  where
    ok_eq :
        {a b : List (Text × Bytes)} → ◌≡◌ {A = Result (List (Text × Bytes))} (ok a) (ok b) → a ≡ b
    ok_eq e = cc e
add_file-AreSafe rel (some content) (raised x) s h e = cc e
add_file-AreSafe rel (some content) cancelled s h e = cc e

read_members-AreSafe :
    (prefix : Text) (members : List Member) {files : List (Text × Bytes)}
    → read_members prefix members ≡ ok files
    → AreSafe files
unfolding read_members
read_members-AreSafe prefix [] e = subst (λ r. AreSafe r) (ok_eq e) tt
  where
    ok_eq :
        {a b : List (Text × Bytes)} → ◌≡◌ {A = Result (List (Text × Bytes))} (ok a) (ok b) → a ≡ b
    ok_eq e = cc e
read_members-AreSafe prefix (m ∷ members) e =
    elim (Bool-cases (is_unsafe (remove_prefix prefix m.name))) [
      | inl bad ↦ cc (rw bad at e)
      | inr good ↦
          add_file-AreSafe (remove_prefix prefix m.name) m.content (read_members prefix members)
            good (λ l. read_members-AreSafe prefix members) (rw good at e)
    ]

members_from_tar-AreSafe :
    (members : List Member) {files : List (Text × Bytes)}
    → members_from_tar members ≡ ok files
    → AreSafe files
unfolding members_from_tar
members_from_tar-AreSafe members e = by_members (regular members) e
  where
    by_members :
        (l : List Member) {files : List (Text × Bytes)} → files_from l ≡ ok files → AreSafe files
    by_members [] e = cc e
    by_members (m ∷ l) e = read_members-AreSafe (prefix_of m.name) (m ∷ l) e

build_bundle-returned :
    (files : List (Text × Bytes)) (target : Text) {bundle : Bundle}
    → build_bundle files target ≡ ok bundle
    → (has_file manifest files ≡ true)
      × (bundle ≡ record { manifest_name = manifest; target = target; files = files })
unfolding build_bundle
build_bundle-returned files target e = elim (Bool-cases (has_file manifest files)) [
  | inl y ↦ (y, cc (rw y at e))
  | inr n ↦ cc (rw n at e)
]

-- A check that went through has changed nothing.
checked-returned :
    {N : Type 0} (b : Bool) (s : N) {x : Unit {0}} {v : N}
    → (if◌then◌else◌ {A = F N (Unit {0})} b (raise Exn.bundle_error) (pure tt)) s ≡ (ok x, v)
    → v ≡ s
checked-returned true s e = cc e
checked-returned false s e = cc e

made :
    (members : List Member) (files : List (Text × Bytes)) (target : Text) {bundle : Bundle}
    → members_from_tar members ≡ ok files
    → build_bundle files target ≡ ok bundle
    → IsBundle members bundle × (bundle.target ≡ target)
made members files target e b =
    let built = build_bundle-returned files target b in
    subst (λ x. IsBundle members x × (x.target ≡ target)) (sym built.1)
      (record { read = e; safe = members_from_tar-AreSafe members e; complete = built.0 }, refl)

module _ {N : Type 0} (u : Upstream N) ⦃k : Case⦄ where
  -- From the state `s`, upstream named an archive and its digest; the archive was fetched next, it
  -- has that digest, and the bundle was read from it.
  pub record IsGenuine (flavor : FirmwareFlavor) (channel version target : Text) (s : N)
      (bundle : Bundle) : Type 0 where
    pub url : Text
    pub expected : Text
    pub content : Bytes
    pub before : N
    pub after : N
    pub named : IsNamed u channel version target url expected s before flavor
    pub fetched : fetch u url before ≡ (ok content, after)
    pub digest : k.lower (u.sha256_hex content) ≡ k.lower expected
    pub members : List Member
    pub opened : u.open_bytes content ≡ ok members
    pub bundled : IsBundle members bundle
    pub targeted : bundle.target ≡ target

  verified_bundle-IsGenuine :
      (flavor : FirmwareFlavor) (channel version target url expected : Text) (content : Bytes)
      (begun v w s : N) {bundle : Bundle} {s' : N}
      → IsNamed u channel version target url expected begun v flavor
      → fetch u url v ≡ (ok content, w)
      → verified_bundle u content expected target s ≡ (ok bundle, s')
      → IsGenuine flavor channel version target begun bundle
  unfolding verified_bundle verify_sha256 bundle_from_tgz_bytes
  verified_bundle-IsGenuine flavor channel version target url expected content begun v w s n f e =
      elim (Bool-cases (text_eq (k.lower (u.sha256_hex content)) (k.lower expected))) [
        | inr other ↦ cc (rw other at e)
        | inl y ↦ >>=-returned (from (u.open_bytes content)) _ s (rw y at e) λ members s₁ e₁ e.
            >>=-returned (from (members_from_tar members)) _ s₁ e λ files s₂ e₂ e.
              let whole =
                made members files target (from-returned (members_from_tar members) s₁ e₂).0
                  (from-returned (build_bundle files target) s₂ e).0 in
              record {
                url = url;
                content = content;
                before = v;
                after = w;
                named = n;
                fetched = f;
                expected = expected;
                digest = text_eq→eq _ _ y;
                members = members;
                opened = (from-returned (u.open_bytes content) s e₁).0;
                bundled = whole.0;
                targeted = whole.1;
              }
      ]

  official-IsGenuine :
      (channel version target : Text) (s : N) {bundle : Bundle} {s' : N}
      → download_official u channel version target s ≡ (ok bundle, s')
      → IsGenuine official channel version target s bundle
  unfolding download_official load_json
  official-IsGenuine channel version target s e =
      >>=-returned (fetch u (codes "https://update.flipperzero.one/firmware/directory.json")) _ s e
        λ raw s₁ e₁ e. >>=-returned (or_bundle_error (u.loads raw)) _ s₁ e λ directory s₂ e₂ e.
          let loaded = or_bundle_error-returned (u.loads raw) s₁ e₂ in
          >>=-returned (select_official_file directory channel version target) _ s₂ e
            λ entry s₃ e₃ e.
              let chosen = select_official_file-IsListed directory channel version target s₂ e₃ in
              >>=-returned (malformed_in (from (subscript (codes "url") entry))) _ s₃ e
                λ url s₄ e₄ e.
                  >>=-returned (malformed_in (from (subscript (codes "sha256") entry))) _ s₄ e
                    λ expected s₅ e₅ e.
                      let at_url = malformed_from-returned _ s₃ e₄ in
                      let at_digest = malformed_from-returned _ s₄ e₅ in
                      >>=-returned (fetch u (text_of u url)) _ s₅ e λ content s₆ f e.
                        verified_bundle-IsGenuine official channel version target (text_of u url)
                          (text_of u expected) content s s₅ s₆ s₆
                          (in_directory (record {
                            raw = raw;
                            listed = s₁;
                            directory = directory;
                            entry = entry;
                            url_item = url;
                            digest_item = expected;
                            fetched = e₁;
                            loaded = loaded.0;
                            selected = rw (at_digest.1 ∙ at_url.1) (rw loaded.1 at e₃);
                            is_listed = chosen;
                            has_url = at_url.0;
                            has_digest = at_digest.0;
                            url_text = refl;
                            digest_text = refl;
                          }))
                          f e

  momentum-IsGenuine :
      (channel version target : Text) (s : N) {bundle : Bundle} {s' : N}
      → download_momentum u version target s ≡ (ok bundle, s')
      → IsGenuine momentum channel version target s bundle
  unfolding download_momentum load_json
  momentum-IsGenuine channel version target s e =
      >>=-returned
        (fetch u (codes "https://api.github.com/repos/Next-Flip/Momentum-Firmware/releases")) _ s e
        λ raw s₁ e₁ e. >>=-returned (or_bundle_error (u.loads raw)) _ s₁ e λ releases s₂ e₂ e.
          let loaded = or_bundle_error-returned (u.loads raw) s₁ e₂ in
          >>=-returned (if is_falsy releases then raise Exn.bundle_error else pure tt) _ s₂ e
            λ _ s₃ e₃ e.
              >>=-returned (pick (codes "tag_name") version releases) _ s₃ e λ picked s₄ e₄ e.
                >>=-returned (not_none picked) _ s₄ e λ release s₅ e₅ e.
                  let kept = not_none-returned picked s₄ e₅ in
                  >>=-returned (asset_of u target release) _ s₅ e λ asset s₆ e₆ e.
                    >>=-returned (url_of u asset.1) _ s₆ e λ url s₇ e₇ e.
                      let link = url_of-string u asset.1 s₆ e₇ in
                      >>=-returned (fetch u url) _ s₇ e λ content s₈ f e.
                        >>=-returned (from (get (codes "digest") (string []) asset.0)) _ s₈ e
                          λ digest s₉ e₉ e.
                            >>=-returned (digest_of u digest) _ s₉ e λ expected s₁₀ e₁₀ e.
                              let known = asset_of-returned u target release s₅ e₆ in
                              verified_bundle-IsGenuine momentum channel version target url expected
                                content s s₇ s₈ s₁₀
                                (IsNamed.released (record {
                                  raw = raw;
                                  listed = s₁;
                                  picked_at = s₅;
                                  releases = releases;
                                  release = release;
                                  asset = asset.0;
                                  fetched = e₁;
                                  loaded = loaded.0;
                                  of_version =
                                      pick-returned (codes "tag_name") version releases s₃
                                        (rw kept.0 at e₄) kept.1;
                                  picked =
                                      rw (sym kept.0, kept.2)
                                        (rw (checked-returned (is_falsy releases) s₂ e₃, loaded.1)
                                          at e₄);
                                  found = rw (link.1, sym link.0) e₆;
                                  is_asset =
                                      subst (λ x. IsAsset u target release asset.0 x) link.0 known;
                                  has_digest =
                                      (from-returned _ s₈ e₉).0
                                      ∙ ap ok (digest_of-string u digest s₉ e₁₀);
                                }))
                                f e

  -- A bundle that is downloaded is for the target asked for, and is read from an archive which
  -- upstream named with its digest: in the official directory, as the update for the target among the
  -- files of the version of the channel; or as the asset of this name of the Momentum release of the
  -- version. (The version "latest" is the first one listed.) The archive was fetched from that URL and
  -- has that SHA-256 digest, but for case. The bundle's paths do not leave its folder, and the
  -- manifest is among its files. No other flavor is downloaded.
  pub download_bundle-IsGenuine :
      (flavor : FirmwareFlavor) (channel version target : Text) (s : N) {bundle : Bundle} {s' : N}
      → download_bundle u flavor channel version target s ≡ (ok bundle, s')
      → IsGenuine flavor channel version target s bundle
  unfolding download_bundle
  download_bundle-IsGenuine official channel version target s e =
      official-IsGenuine channel version target s e
  download_bundle-IsGenuine momentum channel version target s e =
      momentum-IsGenuine channel version target s e
  download_bundle-IsGenuine unleashed channel version target s e = cc e
  download_bundle-IsGenuine roguemaster channel version target s e = cc e
  download_bundle-IsGenuine unknown_flavor channel version target s e = cc e
