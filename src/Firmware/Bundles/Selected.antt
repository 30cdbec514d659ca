-- ===== src/Firmware/Bundles/Selected.antt =====
-- What `_select_official_file` of firmware/bundles.py picks from the directory.
use mathlib.Core.Path.{subst}
use flipperzero_mcp.Base.{
  sym, text_eq, ◌∷◌, [], List, some, none, Option, ◌&&◌, inr, inl, ◌⊎◌, ◌∙◌, ap, ◌≡◌, ◌≢◌,
  text_eq→eq, codes, Text, Bool-cases, if◌then◌else◌,
}
use flipperzero_mcp.Action.{pure, raise, ◌>>=◌, >>=-returned}
use flipperzero_mcp.Firmware.Json.{
  Json, JsonList, array, get, is_falsy, is_text, iterate, null, string,
}
use flipperzero_mcp.Firmware.Select.{
  channel_of, entry_for, from, malformed_in, not_none, or_bundle_error, pick, select_official_file,
}
use flipperzero_mcp.Link.{Exn, ok, Result}
use flipperzero_mcp.Firmware.Select.{hashable, later_or}
use flipperzero_mcp.Firmware.Json.{first, subscript}
use flipperzero_mcp.Firmware.Bundles.Returned.{
  IsIn, both_true, find-returned, from-returned, is_text-string, json_eq, malformed_in-returned,
  not_none-returned, or_bundle_error-returned,
}

-- Of the versions of a channel, or of the releases: the first one for "latest", else one whose key is
-- the version.
abbrev pub IsOfVersion : Text → Text → Json → Json → Type 0
IsOfVersion key version versions x =
    ((version ≡ codes "latest") × (first versions ≡ ok x))
    ⊎ ((l : List Json) × (iterate versions ≡ ok l)
        × IsIn x l
        × (get key null x ≡ ok (string version)))

-- The file: of the directory's channel of this id, of its version, for the target, an update.
pub record IsListed (directory : Json) (channel version target : Text) (entry : Json) : Type 0 where
  pub channels : Json
  pub channel_list : List Json
  pub channel_item : Json
  pub versions : Json
  pub picked : Json
  pub files : Json
  pub file_list : List Json
  pub has_channels : get (codes "channels") (array JsonList.no_items) directory ≡ ok channels
  pub channels_are : iterate channels ≡ ok channel_list
  pub of_channels : IsIn channel_item channel_list
  pub of_channel : subscript (codes "id") channel_item ≡ ok (string channel)
  pub has_versions : get (codes "versions") (array JsonList.no_items) channel_item ≡ ok versions
  pub of_version : IsOfVersion (codes "version") version versions picked
  pub has_files : get (codes "files") (array JsonList.no_items) picked ≡ ok files
  pub files_are : iterate files ≡ ok file_list
  pub of_files : IsIn entry file_list
  pub for_target : get (codes "target") null entry ≡ ok (string target)
  pub is_update : get (codes "type") null entry ≡ ok (string (codes "update_tgz"))

module _ {N : Type 0} where
  entry_for-returned :
      (target : Text) (l : List Json) (s : N) {entry : Json} {v : N}
      → entry_for target l s ≡ (ok entry, v)
      → IsIn entry l
        × (get (codes "target") null entry ≡ ok (string target))
        × (get (codes "type") null entry ≡ ok (string (codes "update_tgz")))
  unfolding entry_for
  entry_for-returned target [] s e = cc e
  entry_for-returned target (x ∷ l) s {entry = entry} e =
      >>=-returned (from (get (codes "target") null x)) _ s e λ t s₁ e₁ e.
        >>=-returned (from (get (codes "type") null x)) _ s₁ e λ k s₂ e₂ e.
          elim (Bool-cases (is_text target t && is_text (codes "update_tgz") k)) [
            | inl y ↦
                let both = both_true _ _ y in
                let same = json_eq (rw y at e) in
                (
                  inl (sym same),
                  subst (λ z. get (codes "target") null z ≡ ok (string target)) same
                      ((from-returned _ s e₁).0 ∙ ap ok (is_text-string target t both.0)),
                  subst (λ z. get (codes "type") null z ≡ ok (string (codes "update_tgz"))) same
                      ((from-returned _ s₁ e₂).0 ∙ ap ok (is_text-string _ k both.1)),
                )
            | inr n ↦
                let later = entry_for-returned target l s₂ (rw n at e) in
                (inr later.0, later.1, later.2)
          ]

  -- The entry of a channel is of the list and has its id.
  channel_of-returned :
      (channel : Text) (l : List Json) (s : N) {x : Json} {v : N}
      → channel_of channel l s ≡ (ok (some x), v)
      → IsIn x l × (subscript (codes "id") x ≡ ok (string channel))
  unfolding channel_of
  channel_of-returned channel [] s e = cc e
  channel_of-returned channel (entry ∷ l) s {x = x} e =
      >>=-returned (from (subscript (codes "id") entry)) _ s e λ id s₁ e₁ e.
        >>=-returned (hashable id) _ s₁ e λ _ s₂ _ e.
          >>=-returned (channel_of channel l) _ s₂ e λ later s₃ e₃ e.
            by_later id later (from-returned _ s e₁).0
              (λ y q. channel_of-returned channel l s₂ (rw q at e₃)) (option_eq e)
    where
      option_eq :
          {a b : Option Json} {v w : N}
          → ◌≡◌ {A = Result (Option Json) × N} (ok a, v) (ok b, w)
          → a ≡ b
      option_eq e = cc e

      some_eq : {a b : Json} → ◌≡◌ {A = Option Json} (some a) (some b) → a ≡ b
      some_eq e = cc e

      by_later :
          (id : Json) (later : Option Json)
          → subscript (codes "id") entry ≡ ok id
          → ((y : Json)
              → later ≡ some y
              → IsIn y l × (subscript (codes "id") y ≡ ok (string channel)))
          → later_or later (is_text channel id) entry ≡ some x
          → IsIn x (entry ∷ l) × (subscript (codes "id") x ≡ ok (string channel))
      by_later id (some y) has h q = let it = h x q in (inr it.0, it.1)
      by_later id none has h q = elim (Bool-cases (is_text channel id)) [
        | inl y ↦
            let same = some_eq (rw y at q) in
            (
              inl (sym same),
              subst (λ z. subscript (codes "id") z ≡ ok (string channel)) same
                  (has ∙ ap ok (is_text-string channel id y)),
            )
        | inr n ↦ cc (rw n at q)
      ]

  pub pick-returned :
      (key version : Text) (versions : Json) (s : N) {x : Json} {v : N}
      → pick key version versions s ≡ (ok x, v)
      → x ≢ null
      → IsOfVersion key version versions x
  unfolding pick
  pick-returned key version versions s {x = x} e real =
      elim (Bool-cases (text_eq version (codes "latest"))) [
        | inl y ↦ inl (text_eq→eq version _ y, (from-returned (first versions) s (rw y at e)).0)
        | inr n ↦ >>=-returned (from (iterate versions)) _ s (rw n at e) λ l s₁ e₁ e.
            elim (find-returned key version l s₁ e) [
              | inl missing ↦ absurd (real missing)
              | inr (there, has) ↦ inr (l, (from-returned _ s e₁).0, there, has)
            ]
      ]

  pub select_official_file-IsListed :
      (directory : Json) (channel version target : Text) (s : N) {entry : Json} {v : N}
      → select_official_file directory channel version target s ≡ (ok entry, v)
      → IsListed directory channel version target entry
  unfolding select_official_file
  select_official_file-IsListed directory channel version target s e =
      >>=-returned
        (malformed_in (
          from (get (codes "channels") (array JsonList.no_items) directory) >>= λ channels.
          from (iterate channels) >>= channel_of channel))
        _ s e
        λ found s₁ e₁ e. >>=-returned (or_bundle_error found) _ s₁ e λ item s₂ e₂ e.
          >>=-returned (from (get (codes "versions") (array JsonList.no_items) item)) _ s₂ e
            λ versions s₃ e₃ e.
              >>=-returned (if is_falsy versions then raise Exn.bundle_error else pure tt) _ s₃ e
                λ _ s₄ _ e.
                  >>=-returned (pick (codes "version") version versions) _ s₄ e λ picked s₅ e₅ e.
                    >>=-returned (not_none picked) _ s₅ e λ picked' s₆ e₆ e.
                      >>=-returned (from (get (codes "files") (array JsonList.no_items) picked')) _
                        s₆ e
                        λ files s₇ e₇ e.
                          >>=-returned (from (iterate files)) _ s₇ e λ entries s₈ e₈ e.
                            let chosen = entry_for-returned target entries s₈ e in
                            let kept = not_none-returned picked s₅ e₆ in
                            let known = or_bundle_error-returned found s₁ e₂ in
                            >>=-returned
                              (from (get (codes "channels") (array JsonList.no_items) directory)) _
                              s (rw known.0 at (malformed_in-returned _ s e₁))
                              λ channels t₁ q₁ q.
                                >>=-returned (from (iterate channels)) _ t₁ q
                                  λ channel_list t₂ q₂ q.
                                    let at_id = channel_of-returned channel channel_list t₂ q in
                                    record {
                                      channels = channels;
                                      channel_list = channel_list;
                                      channel_item = item;
                                      versions = versions;
                                      picked = picked';
                                      files = files;
                                      file_list = entries;
                                      has_channels = (from-returned _ s q₁).0;
                                      channels_are = (from-returned _ t₁ q₂).0;
                                      of_channels = at_id.0;
                                      of_channel = at_id.1;
                                      has_versions = (from-returned _ s₂ e₃).0;
                                      of_version =
                                          pick-returned (codes "version") version versions s₄
                                            (rw kept.0 at e₅) kept.1;
                                      has_files = (from-returned _ s₆ e₇).0;
                                      files_are = (from-returned _ s₇ e₈).0;
                                      of_files = chosen.0;
                                      for_target = chosen.1;
                                      is_update = chosen.2;
                                    }
