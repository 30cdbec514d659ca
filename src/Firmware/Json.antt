-- ===== src/Firmware/Json.antt =====
-- What Python's `json.loads` gives, and how the code looks into it. A number stands for any that
-- JSON has; only its being zero matters.
use flipperzero_mcp.Link.{Exn, raised, ok, Result}
use flipperzero_mcp.Base.{
  ◌∷◌, [], List, some, none, Option, not, false, true, Bool, ℕ, is_empty, text_eq, Text,
  if◌then◌else◌, ◌==◌,
}

mutual
  pub data Json : Type 0 where
    null : Json
    boolean : Bool → Json
    number : ℕ → Json
    string : Text → Json
    array : JsonList → Json
    object : JsonFields → Json

  pub data JsonList : Type 0 where
    no_items : JsonList
    item : Json → JsonList → JsonList

  -- A key that comes twice has been replaced already.
  pub data JsonFields : Type 0 where
    no_fields : JsonFields
    field : Text → Json → JsonFields → JsonFields

abbrev pub field_of : Text → JsonFields → Option Json
field_of key no_fields = none
field_of key (field name value rest) =
    let later = field_of key rest in if text_eq name key then some value else later

abbrev pub items : JsonList → List Json
items no_items = []
items (item x l) = x ∷ items l

abbrev names : JsonFields → List Json
names no_fields = []
names (field name value rest) = string name ∷ names rest

abbrev letters : Text → List Json
letters [] = []
letters (c ∷ t) = string (c ∷ []) ∷ letters t

-- `if not x`
abbrev pub is_falsy : Json → Bool
is_falsy null = true
is_falsy (boolean b) = not b
is_falsy (number n) = n == 0
is_falsy (string t) = is_empty t
is_falsy (array no_items) = true
is_falsy (array (item x l)) = false
is_falsy (object no_fields) = true
is_falsy (object (field name value rest)) = false

abbrev or_else : Json → Option Json → Result Json
or_else default none = ok default
or_else default (some x) = ok x

-- `x.get(key, default)`: only a dict has `get`.
abbrev pub get : Text → Json → Json → Result Json
get key default (object pairs) = or_else default (field_of key pairs)
get key default _ = raised Exn.attribute_error

abbrev or_key_error : Option Json → Result Json
or_key_error none = raised Exn.key_error
or_key_error (some x) = ok x

-- `x[key]` with a text as the key
abbrev pub subscript : Text → Json → Result Json
subscript key (object pairs) = or_key_error (field_of key pairs)
subscript key _ = raised Exn.type_error

-- `for y in x`
abbrev pub iterate : Json → Result (List Json)
iterate (array l) = ok (items l)
iterate (object pairs) = ok (names pairs)
iterate (string t) = ok (letters t)
iterate _ = raised Exn.type_error

-- `x[0]`
abbrev pub first : Json → Result Json
first (array (item x l)) = ok x
first (string (c ∷ t)) = ok (string (c ∷ []))
first (object pairs) = raised Exn.key_error
first _ = raised Exn.type_error

-- `x == t`
abbrev pub is_text : Text → Json → Bool
is_text t (string u) = text_eq u t
is_text t _ = false
