-- ===== src/Firmware/Bundles/Named.antt =====
-- What upstream names for a download: the archive's URL and its SHA-256 digest.
use mathlib.Core.Path.{subst}
use flipperzero_mcp.Base.{
  List, ◌++◌, [], some, Option, inr, inl, ◌⊎◌, ◌∙◌, ap, sym, ◌≡◌, ◌≢◌, starts_with, codes, Text,
  Bytes, Bool-cases,
}
use flipperzero_mcp.Action.{>>=-returned}
use flipperzero_mcp.Cli.Lines.{after_colon}
use flipperzero_mcp.Cli.Risk.{Case}
use flipperzero_mcp.Firmware.Archive.{Upstream}
use flipperzero_mcp.Firmware.Bundles.{asset_of, digest_of, fetch, text_of, url_of, wanted_name}
use flipperzero_mcp.Firmware.Flavor.{FirmwareFlavor, official, momentum}
use flipperzero_mcp.Firmware.Json.{
  iterate, Json, JsonList, array, get, iterate, null, string, subscript,
}
use flipperzero_mcp.Firmware.Select.{find, from, not_none, pick, select_official_file}
use flipperzero_mcp.Link.{ok, Result}
use flipperzero_mcp.Firmware.Bundles.Selected.{IsListed, IsOfVersion}
use flipperzero_mcp.Firmware.Bundles.Returned.{
  IsIn, find-returned, from-returned, malformed_in-returned, not_none-returned,
  or_bundle_error-returned, starts_with-rest,
}

module _ {N : Type 0} (u : Upstream N) ⦃k : Case⦄ where
  -- The directory, fetched first, has an entry of the channel and version, which is the archive of an
  -- update for the target; it holds the URL and the digest.
  pub record IsInDirectory (channel version target url expected : Text) (s v : N) : Type 0 where
    pub raw : Bytes
    pub listed : N
    pub directory : Json
    pub entry : Json
    pub url_item : Json
    pub digest_item : Json
    pub fetched :
        fetch u (codes "https://update.flipperzero.one/firmware/directory.json") s
        ≡ (ok raw, listed)
    pub loaded : u.loads raw ≡ some directory
    pub selected : select_official_file directory channel version target listed ≡ (ok entry, v)
    pub is_listed : IsListed directory channel version target entry
    pub has_url : subscript (codes "url") entry ≡ ok url_item
    pub has_digest : subscript (codes "sha256") entry ≡ ok digest_item
    pub url_text : url ≡ text_of u url_item
    pub digest_text : expected ≡ text_of u digest_item

  -- The asset: of the release, with the name that its tag and the target make.
  pub record IsAsset (target : Text) (release asset url : Json) : Type 0 where
    pub tag : Json
    pub assets : Json
    pub asset_list : List Json
    pub tagged : subscript (codes "tag_name") release ≡ ok tag
    pub has_assets : get (codes "assets") (array JsonList.no_items) release ≡ ok assets
    pub assets_are : iterate assets ≡ ok asset_list
    pub of_assets : IsIn asset asset_list
    pub named :
        get (codes "name") null asset
        ≡ ok (
            string
              (codes "flipper-z-" ++ target ++ codes "-update-" ++ text_of u tag ++ codes ".tgz"))
    pub has_url : subscript (codes "browser_download_url") asset ≡ ok url

  -- The releases, fetched first, have one of the version with an asset for the target, which holds
  -- the URL and the digest.
  pub record IsReleased (version target url expected : Text) (s v : N) : Type 0 where
    pub raw : Bytes
    pub listed : N
    pub picked_at : N
    pub releases : Json
    pub release : Json
    pub asset : Json
    pub fetched :
        fetch u (codes "https://api.github.com/repos/Next-Flip/Momentum-Firmware/releases") s
        ≡ (ok raw, listed)
    pub loaded : u.loads raw ≡ some releases
    pub of_version : IsOfVersion (codes "tag_name") version releases release
    pub picked : pick (codes "tag_name") version releases listed ≡ (ok release, picked_at)
    pub found : asset_of u target release picked_at ≡ (ok (asset, string url), v)
    pub is_asset : IsAsset target release asset (string url)
    pub has_digest :
        get (codes "digest") (string []) asset ≡ ok (string (codes "sha256:" ++ expected))

  -- Upstream names the URL and the digest, from one state to the other.
  pub data IsNamed (channel version target url expected : Text) (s v : N)
      : FirmwareFlavor → Type 0 where
    in_directory :
        IsInDirectory channel version target url expected s v
        → IsNamed channel version target url expected s v official
    released :
        IsReleased version target url expected s v
        → IsNamed channel version target url expected s v momentum

  pub url_of-string :
      (x : Json) (s : N) {url : Text} {v : N}
      → url_of u x s ≡ (ok url, v)
      → (x ≡ string url) × (v ≡ s)
  url_of-string (string t) s e = (cc e, cc e)
  url_of-string null s e = cc e
  url_of-string (Json.boolean b) s e = cc e
  url_of-string (Json.number n) s e = cc e
  url_of-string (array l) s e = cc e
  url_of-string (Json.object l) s e = cc e

  pub digest_of-string :
      (x : Json) (s : N) {expected : Text} {v : N}
      → digest_of u x s ≡ (ok expected, v)
      → x ≡ string (codes "sha256:" ++ expected)
  unfolding digest_of
  digest_of-string (string t) s e = elim (Bool-cases (starts_with (codes "sha256:") t)) [
    | inl y ↦
        let rest = starts_with-rest (codes "sha256:") t y in
        ap string (
          rest.1
          ∙ ap (λ z. codes "sha256:" ++ z)
              (some_eq
                (ap after_colon (sym rest.1) ∙ (or_bundle_error-returned _ s (rw y at e)).0)))
    | inr n ↦ cc (rw n at e)
  ]
    where
      some_eq : {a b : Text} → ◌≡◌ {A = Option Text} (some a) (some b) → a ≡ b
      some_eq e = cc e
  digest_of-string null s e = cc e
  digest_of-string (Json.boolean b) s e = cc e
  digest_of-string (Json.number n) s e = cc e
  digest_of-string (array l) s e = cc e
  digest_of-string (Json.object l) s e = cc e

  pub asset_of-returned :
      (target : Text) (release : Json) (s : N) {asset url : Json} {v : N}
      → asset_of u target release s ≡ (ok (asset, url), v)
      → IsAsset target release asset url
  unfolding asset_of
  asset_of-returned target release s e =
      let q = malformed_in-returned _ s e in
      >>=-returned (from (subscript (codes "tag_name") release)) _ s q λ tag s₁ e₁ q.
        >>=-returned (from (get (codes "assets") (array JsonList.no_items) release)) _ s₁ q
          λ assets s₂ e₂ q. >>=-returned (from (iterate assets)) _ s₂ q λ candidates s₃ e₃ q.
            >>=-returned (find (codes "name") (wanted_name u target (text_of u tag)) candidates) _
              s₃ q
              λ found s₄ e₄ q. >>=-returned (not_none found) _ s₄ q λ asset s₅ e₅ q.
                >>=-returned (from (subscript (codes "browser_download_url") asset)) _ s₅ q
                  λ url s₆ e₆ q.
                    let kept = not_none-returned found s₄ e₅ in
                    let picked =
                      found_asset candidates (find-returned _ _ candidates s₃ e₄) kept.0 kept.1 in
                    subst {A = Json × Json} (λ p. IsAsset target release p.0 p.1) (pair_eq q)
                      (record {
                        tag = tag;
                        assets = assets;
                        asset_list = candidates;
                        tagged = (from-returned _ s e₁).0;
                        has_assets = (from-returned _ s₁ e₂).0;
                        assets_are = (from-returned _ s₂ e₃).0;
                        of_assets = picked.0;
                        named = picked.1;
                        has_url = (from-returned _ s₅ e₆).0;
                      })
    where
      pair_eq :
          {p q : Json × Json} {v w : N}
          → ◌≡◌ {A = Result (Json × Json) × N} (ok p, v) (ok q, w)
          → p ≡ q
      pair_eq q = cc q

      found_asset :
          (candidates : List Json) {found asset : Json} {name : Text}
          → (found ≡ null)
            ⊎ (IsIn found candidates × (get (codes "name") null found ≡ ok (string name)))
          → found ≡ asset
          → asset ≢ null
          → IsIn asset candidates × (get (codes "name") null asset ≡ ok (string name))
      found_asset candidates (inl e) same n = absurd (n (sym same ∙ e))
      found_asset candidates (inr (there, e)) same n =
          (subst (λ x. IsIn x candidates) same there, rw same at e)
