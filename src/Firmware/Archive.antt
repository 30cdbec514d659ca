-- ===== src/Firmware/Archive.antt =====
-- The archives of firmware/bundles.py: the target in their names, their members, and the manifest.
use flipperzero_mcp.Link.{cancelled, Exn, raised, ok, Result}
use flipperzero_mcp.Base.{
  ◌∷◌, [], List, some, none, Option, ◌||◌, false, Bool, ℕ, starts_with, text_eq, codes, Text, Bytes,
  drop, length, if◌then◌else◌, ◌==◌,
}
use flipperzero_mcp.Action.{F}
use flipperzero_mcp.Firmware.Json.{Json}
use flipperzero_mcp.Firmware.Installer.{Bundle}

-- _MANIFEST
abbrev pub manifest : Text
manifest = codes "update.fuf"

-- A member of an archive; `content` is what `extractfile` gives and `read` reads.
pub record Member : Type 0 where
  pub name : Text
  pub is_file : Bool
  pub content : Option Bytes

-- The libraries: `re` with IGNORECASE and `\w`, tarfile, json, hashlib, `str` of what is no text,
-- and httpx, over the state `N` of the network.
pub record Upstream (N : Type 0) : Type 0 where
  pub same_letter : ℕ → ℕ → Bool
  pub is_word : ℕ → Bool
  pub open_file : Text → Result (List Member)
  pub open_bytes : Bytes → Result (List Member)
  pub loads : Bytes → Option Json
  pub sha256_hex : Bytes → Text
  pub show : Json → Text
  pub fetch_url : Text → F N Bytes

-- A literal of `_TARGET_RE` at the start of a text: what follows it.
abbrev pub literal : (ℕ → ℕ → Bool) → Text → Text → Option Text
literal same [] t = some t
literal same (p ∷ ps) [] = none
literal same (p ∷ ps) (c ∷ t) = let rest = literal same ps t in if same p c then rest else none

-- `(f\w+)-update` past the `f`: the word, if "-update" follows it. A word has no "-" in it.
abbrev pub word_before : (ℕ → ℕ → Bool) → (ℕ → Bool) → Text → Option Text
word_before same is_word [] = none
word_before same is_word (c ∷ t) = elim (word_before same is_word t) [
  | some w ↦ if is_word c then some (c ∷ w) else none
  | none ↦
      if is_word c
      then (elim (literal same (codes "-update") t) [ some _ ↦ some (c ∷ []) | none ↦ none ])
      else none
]

abbrev pub with_letter : Text → Option Text → Option Text
with_letter [] w = none
with_letter (f ∷ t) none = none
with_letter (f ∷ t) (some w) = some (f ∷ w)

abbrev pub group_after : (ℕ → ℕ → Bool) → (ℕ → Bool) → Text → Option Text
group_after same is_word [] = none
group_after same is_word (f ∷ t) =
    if same 102 f then with_letter (f ∷ t) (word_before same is_word t) else none

abbrev pub group_at : (ℕ → ℕ → Bool) → (ℕ → Bool) → Option Text → Option Text
group_at same is_word none = none
group_at same is_word (some t) = group_after same is_word t

-- `_TARGET_RE.search(name)`: the group of the first match.
abbrev pub search_target : (ℕ → ℕ → Bool) → (ℕ → Bool) → Text → Option Text
search_target same is_word [] = none
search_target same is_word (c ∷ t) =
    elim (group_at same is_word (literal same (codes "flipper-z-") (c ∷ t))) [
      | some group ↦ some group
      | none ↦ search_target same is_word t
    ]

-- `t.split("/")`
abbrev pub add_letter : ℕ → List Text → List Text
add_letter c [] = (c ∷ []) ∷ []
add_letter c (s ∷ parts) = (c ∷ s) ∷ parts

abbrev pub split_slash : Text → List Text
split_slash [] = [] ∷ []
split_slash (c ∷ t) = let rest = split_slash t in if c == 47 then [] ∷ rest else add_letter c rest

abbrev pub has_part : Text → List Text → Bool
has_part part [] = false
has_part part (s ∷ parts) = text_eq s part || has_part part parts

abbrev pub is_unsafe : Text → Bool
is_unsafe rel = starts_with (codes "/") rel || has_part (codes "..") (split_slash rel)

-- `name.split("/", 1)[0] + "/"`
abbrev pub prefix_of : Text → Text
prefix_of [] = 47 ∷ []
prefix_of (c ∷ t) = let rest = prefix_of t in if c == 47 then 47 ∷ [] else c ∷ rest

-- `name.removeprefix(prefix)`
abbrev pub remove_prefix : Text → Text → Text
remove_prefix prefix name = if starts_with prefix name then drop (length prefix) name else name

abbrev pub regular : List Member → List Member
regular [] = []
regular (m ∷ l) = let rest = regular l in if m.is_file then m ∷ rest else rest

abbrev pub add_file :
    Text → Option Bytes → Result (List (Text × Bytes)) → Result (List (Text × Bytes))
add_file rel none files = files
add_file rel (some content) (ok files) = ok ((rel, content) ∷ files)
add_file rel (some content) (raised e) = raised e
add_file rel (some content) cancelled = cancelled

-- The loop of `_members_from_tar`.
unfoldable pub read_members : Text → List Member → Result (List (Text × Bytes))
read_members prefix [] = ok []
read_members prefix (m ∷ members) =
    let rest = read_members prefix members in
    let rel = remove_prefix prefix m.name in
    if is_unsafe rel then raised Exn.bundle_error else add_file rel m.content rest

abbrev pub files_from : List Member → Result (List (Text × Bytes))
files_from [] = raised Exn.bundle_error
files_from (m ∷ members) = read_members (prefix_of m.name) (m ∷ members)

-- `_members_from_tar`
unfoldable pub members_from_tar : List Member → Result (List (Text × Bytes))
members_from_tar members = files_from (regular members)

abbrev pub has_file : Text → List (Text × Bytes) → Bool
has_file name [] = false
has_file name ((rel, content) ∷ files) = text_eq rel name || has_file name files

-- `_build_bundle`
unfoldable pub build_bundle : List (Text × Bytes) → Text → Result Bundle
build_bundle files target =
    if has_file manifest files
    then ok (record { manifest_name = manifest; target = target; files = files })
    else raised Exn.bundle_error
