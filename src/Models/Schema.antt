-- ===== src/Models/Schema.antt =====
-- The schema check of packages/models/routing.py. A schema is the members of a JSON object, and
-- each function recurs on the part of the schema that it reads.
pub mod Recursion
mod Types
pub mod Relation
mod Sound
mod Complete
pub mod Meaning
use multi_agent_based_intell.Prelude.{
  String, Bool, true, false, ◌&&◌, Option, none, some, ◌==◌, string_eq, is_some, if◌then◌else◌,
}
use multi_agent_based_intell.Domain.Json.{
  Json, null, boolean, integer, float, string, array, object, Items, nil, cons, Fields, end, field,
}

-- `members.get(name)`
abbrev pub member : Fields → String → Option Json
member end name = none
member (field k v rest) name = if k == name then some v else member rest name

-- The test of `_matches_type` for each type that it knows; any other type matches.
abbrev is_object : Json → Bool
is_object (object fields) = true
is_object _ = false

abbrev is_array : Json → Bool
is_array (array items) = true
is_array _ = false

abbrev is_string : Json → Bool
is_string (string text) = true
is_string _ = false

abbrev is_integer : Json → Bool
is_integer (integer literal) = true
is_integer _ = false

abbrev is_number : Json → Bool
is_number (integer literal) = true
is_number (float literal) = true
is_number _ = false

abbrev is_boolean : Json → Bool
is_boolean (boolean b) = true
is_boolean _ = false

abbrev is_null : Json → Bool
is_null null = true
is_null _ = false

abbrev pub matches_type : Json → String → Bool
matches_type value expected =
    if expected == "object"
    then is_object value
    else if expected == "array"
    then is_array value
    else if expected == "string"
    then is_string value
    else if expected == "integer"
    then is_integer value
    else if expected == "number"
    then is_number value
    else if expected == "boolean"
    then is_boolean value
    else if expected == "null"
    then is_null value
    else true

-- `isinstance(expected_type, str) and not _matches_type(value, expected_type)`, negated.
abbrev pub type_ok : Option Json → Json → Bool
type_ok (some (string expected)) value = matches_type value expected
type_ok _ value = true

-- `expected_type == name`
abbrev pub names_type : Option Json → String → Bool
names_type (some (string expected)) name = expected == name
names_type _ name = false

-- Each name of the list that is a text is a member.
abbrev pub all_present : Items → Fields → Bool
all_present nil members = true
all_present (cons (string name) rest) members =
    is_some (member members name) && all_present rest members
all_present (cons _ rest) members = all_present rest members

abbrev pub required_ok : Option Json → Fields → Bool
required_ok (some (array names)) members = all_present names members
required_ok _ members = true

abbrev pub all_items : (Json → Bool) → Items → Bool
all_items test nil = true
all_items test (cons item rest) = test item && all_items test rest

abbrev pub object_part : Fields → (Fields → Bool) → Json → Bool
object_part schema properties (object members) =
    required_ok (member schema "required") members && properties members
object_part schema properties _ = true

abbrev pub array_part : (Items → Bool) → Json → Bool
array_part items (array values) = items values
array_part items _ = true

-- The body of `_value_conforms`, by the checks of the schema's properties and items.
abbrev pub conforms_by : Fields → (Fields → Bool) → (Items → Bool) → Json → Bool
conforms_by schema properties items value =
    type_ok (member schema "type") value
    && (if names_type (member schema "type") "object"
        then object_part schema properties value
        else true)
    && (if names_type (member schema "type") "array" then array_part items value else true)

-- Where there is no value there is nothing to check.
abbrev pub none_or : (Json → Bool) → Option Json → Bool
none_or test none = true
none_or test (some value) = test value

unfoldable mutual
  -- The member "properties" of a schema, if it is an object.
  pub properties_of : Fields → Fields → Bool
  properties_of end members = true
  properties_of (field k v rest) members =
      if k == "properties" then properties_value v members else properties_of rest members

  pub properties_value : Json → Fields → Bool
  properties_value (object properties) members = each_property properties members
  properties_value null members = true
  properties_value (boolean b) members = true
  properties_value (integer literal) members = true
  properties_value (float literal) members = true
  properties_value (string text) members = true
  properties_value (array items) members = true

  pub each_property : Fields → Fields → Bool
  each_property end members = true
  each_property (field name child rest) members =
      child_conforms child (member members name) && each_property rest members

  pub child_conforms : Json → Option Json → Bool
  child_conforms (object child) value =
      none_or (conforms_by child (properties_of child) (items_of child)) value
  child_conforms null value = true
  child_conforms (boolean b) value = true
  child_conforms (integer literal) value = true
  child_conforms (float literal) value = true
  child_conforms (string text) value = true
  child_conforms (array items) value = true

  -- The member "items" of a schema, if it is an object.
  pub items_of : Fields → Items → Bool
  items_of end items = true
  items_of (field k v rest) items =
      if k == "items" then items_value v items else items_of rest items

  pub items_value : Json → Items → Bool
  items_value (object child) items =
      all_items (conforms_by child (properties_of child) (items_of child)) items
  items_value null items = true
  items_value (boolean b) items = true
  items_value (integer literal) items = true
  items_value (float literal) items = true
  items_value (string text) items = true
  items_value (array values) items = true

-- `_value_conforms`, the schema first.
abbrev pub value_conforms : Fields → Json → Bool
value_conforms schema = conforms_by schema (properties_of schema) (items_of schema)

-- `_output_conforms`
abbrev pub output_conforms : Option Fields → Option Fields → Bool
output_conforms (some output) (some schema) = value_conforms schema (object output)
output_conforms _ _ = true
