-- ===== src/Firmware/Flavor.antt =====
-- firmware/flavor.py: which firmware a device runs, by its device info.
use flipperzero_mcp.Base.{
  ◌∷◌, [], List, some, none, Option, false, true, inr, inl, ◌⊎◌, refl, ◌≡◌, codes, Text, All,
  Bool-cases, if◌then◌else◌,
}
use flipperzero_mcp.Base.Dict.{lookup}
use flipperzero_mcp.Cli.Risk.{Case}
use flipperzero_mcp.Cli.Words.{strip, contains}
use flipperzero_mcp.Rpc.System.{Info}

pub data FirmwareFlavor : Type 0 where
  official momentum unleashed roguemaster unknown_flavor : FirmwareFlavor

pub record FirmwareInfo : Type 0 where
  pub flavor : FirmwareFlavor
  pub version : Option Text
  pub origin_fork : Option Text
  pub origin_git : Option Text
  pub target : Option Text

-- _GIT_MARKERS
abbrev pub git_markers : List (Text × FirmwareFlavor)
git_markers =
    (codes "next-flip/momentum", momentum)
    ∷ (codes "darkflippers/unleashed", unleashed)
    ∷ (codes "roguemaster/", roguemaster)
    ∷ (codes "flipperdevices/flipperzero-firmware", official)
    ∷ []

-- _FORK_MARKERS
abbrev pub fork_markers : List (Text × FirmwareFlavor)
fork_markers =
    (codes "momentum", momentum)
    ∷ (codes "unleashed", unleashed)
    ∷ (codes "roguemaster", roguemaster)
    ∷ (codes "official", official)
    ∷ []

-- `x or ""`
abbrev pub or_empty : Option Text → Text
or_empty none = []
or_empty (some t) = t

-- The `for` loop: the first marker in the text.
abbrev pub first_marker : List (Text × FirmwareFlavor) → Text → Option FirmwareFlavor
first_marker [] git = none
first_marker ((marker, flavor) ∷ markers) git =
    let later = first_marker markers git in if contains marker git then some flavor else later

abbrev pub or_unknown : Option FirmwareFlavor → FirmwareFlavor
or_unknown none = unknown_flavor
or_unknown (some flavor) = flavor

-- Past the loop over the git markers.
abbrev pub or_fork : Option FirmwareFlavor → Text → FirmwareFlavor
or_fork (some flavor) fork = flavor
or_fork none fork = or_unknown (lookup fork fork_markers)

-- `_target_from`
abbrev pub target_from : Option Text → Option Text
target_from none = none
target_from (some []) = none
target_from (some (c ∷ t)) = some (102 ∷ strip (c ∷ t))

module _ ⦃k : Case⦄ where
  -- `_flavor_from`
  unfoldable pub flavor_from : Option Text → Option Text → FirmwareFlavor
  flavor_from origin_git origin_fork =
      or_fork (first_marker git_markers (k.lower (or_empty origin_git)))
        (k.lower (strip (or_empty origin_fork)))

  -- `classify`
  unfoldable pub classify : Info → FirmwareInfo
  classify device_info =
      let origin_fork = lookup (codes "firmware_origin_fork") device_info in
      let origin_git = lookup (codes "firmware_origin_git") device_info in
      record {
        flavor = flavor_from origin_git origin_fork;
        version = lookup (codes "firmware_version") device_info;
        origin_fork = origin_fork;
        origin_git = origin_git;
        target = target_from (lookup (codes "hardware_target") device_info);
      }

  -- A marker of the flavor is in the text, among these.
  abbrev pub Marks : List (Text × FirmwareFlavor) → Text → FirmwareFlavor → Type 0
  Marks [] git flavor = ⊥
  Marks ((marker, marked) ∷ markers) git flavor =
      ((contains marker git ≡ true) × (marked ≡ flavor)) ⊎ Marks markers git flavor

  -- No marker is in the text.
  abbrev pub MarksNone : List (Text × FirmwareFlavor) → Text → Type 0
  MarksNone markers git = All (λ m. contains m.0 git ≡ false) markers

  first_marker-cases :
      (markers : List (Text × FirmwareFlavor)) (git : Text)
      → ((flavor : FirmwareFlavor) × (first_marker markers git ≡ some flavor)
          × Marks markers git flavor)
        ⊎ ((first_marker markers git ≡ none) × MarksNone markers git)
  first_marker-cases [] git = inr (refl, tt)
  first_marker-cases ((marker, flavor) ∷ markers) git = elim (Bool-cases (contains marker git)) [
    | inl y ↦ inl (flavor, rw y, inl (y, refl))
    | inr n ↦ elim (first_marker-cases markers git) [
      | inl (found, e, m) ↦ inl (found, rw n e, inr m)
      | inr (e, none_of) ↦ inr (rw n e, (n, none_of))
    ]
  ]

  -- The flavor is that of a marker which the lowercased git URL contains; if it contains none, it is
  -- that of the fork of this name, and unknown if there is none such.
  pub classify-flavor :
      (device_info : Info)
      → Marks git_markers
          (k.lower (or_empty (lookup (codes "firmware_origin_git") device_info)))
          (classify device_info).flavor
        ⊎ (MarksNone git_markers
              (k.lower (or_empty (lookup (codes "firmware_origin_git") device_info)))
            × ((classify device_info).flavor
                ≡ or_unknown (
                    lookup
                      (k.lower
                        (strip (or_empty (lookup (codes "firmware_origin_fork") device_info))))
                      fork_markers)))
  unfolding classify flavor_from
  classify-flavor device_info =
      let git = k.lower (or_empty (lookup (codes "firmware_origin_git") device_info)) in
      elim (first_marker-cases git_markers git) [
        | inl (flavor, e, m) ↦ inl (rw e m)
        | inr (e, none_of) ↦ inr (none_of, rw e)
      ]
