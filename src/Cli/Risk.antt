-- ===== src/Cli/Risk.antt =====
-- rpc/cli_risk.py: which command lines transmit or destroy, by the denylist.
pub mod Words
use flipperzero_mcp.Cli.Words.{strip, split, join}
use flipperzero_mcp.Base.{
  ◌++◌, ◌∷◌, [], List, some, none, Option, ◌||◌, false, true, Bool, starts_with, text_eq, codes,
  Text, if◌then◌else◌,
}

-- Category
pub data Category : Type 0 where
  benign : Category
  transmit : Category
  destructive : Category

-- Risk; `_WARNINGS` has one text for each category, so the warning is there or not.
pub record Risk : Type 0 where
  pub category : Category
  pub gated : Bool
  pub has_warning : Bool

-- DENYLIST
abbrev pub denylist : List (Text × Category)
denylist =
    (codes "subghz tx", transmit)
    ∷ (codes "ir tx", transmit)
    ∷ (codes "rfid write", transmit)
    ∷ (codes "ikey write", transmit)
    ∷ (codes "factory reset", destructive)
    ∷ (codes "storage format", destructive)
    ∷ (codes "update install", destructive)
    ∷ (codes "power off", destructive)
    ∷ (codes "power reboot", destructive)
    ∷ []

-- `str.lower`, from Python's Unicode tables.
pub record Case : Type 0 where
  pub lower : Text → Text

module _ ⦃c : Case⦄ where
  -- `_normalize`
  unfoldable pub normalize : Text → Text
  normalize command = join (split (c.lower (strip command)))

-- `normalized == prefix or normalized.startswith(prefix + " ")`
abbrev pub matches : Text → Text → Bool
matches prefix normalized = text_eq normalized prefix || starts_with (prefix ++ 32 ∷ []) normalized

-- The `for` loop: the first rule that matches.
abbrev pub first_match : List (Text × Category) → Text → Option Category
first_match [] normalized = none
first_match ((prefix, category) ∷ rules) normalized =
    let later = first_match rules normalized in
    if matches prefix normalized then some category else later

abbrev pub risk_of : Option Category → Risk
risk_of none = record { category = benign; gated = false; has_warning = false }
risk_of (some category) = record { category = category; gated = true; has_warning = true }

module _ ⦃c : Case⦄ where
  -- `classify`
  unfoldable pub classify : Text → Risk
  classify command = risk_of (first_match denylist (normalize command))
