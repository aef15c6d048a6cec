-- ===== src/Shared/Json.antt =====
-- packages/shared/src/json.ts. A number stands by its text: nothing here computes with one.
use chain_port.Prelude.{String, Bool, List, [], ◌∷◌, Option, none, some, ◌===◌, if◌then◌else◌}

mutual
  pub data Json : Type 0 where
    null : Json
    bool : Bool → Json
    num : String → Json
    str : String → Json
    arr : Items → Json
    obj : Fields → Json

  pub data Items : Type 0 where
    nil : Items
    item : Json → Items → Items

  pub data Fields : Type 0 where
    end : Fields
    field : String → Json → Fields → Fields

-- A `JsonObject`: its fields in their order.
abbrev pub JsonObject : Type 0
JsonObject = Fields

-- `object[name]`; `none` is `undefined`.
abbrev pub get_field : String → JsonObject → Option Json
get_field name end = none
get_field name (field key value rest) =
    let later = get_field name rest in if key === name then some value else later

-- `{ ...object, [name]: value }`
abbrev pub set_field : String → Json → JsonObject → JsonObject
set_field name value end = field name value end
set_field name value (field key old rest) =
    let later = field key old (set_field name value rest) in
    if key === name then field key value rest else later

-- `typeof object[name] === "string" ? object[name] : ...`
abbrev pub get_string : String → JsonObject → Option String
get_string name object = elim (get_field name object) [ some (str s) ↦ some s | _ ↦ none ]

abbrev pub string_items : List String → Items
string_items [] = nil
string_items (s ∷ rest) = item (str s) (string_items rest)
