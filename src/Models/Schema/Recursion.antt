-- ===== src/Models/Schema/Recursion.antt =====
-- The schema check, and the recursion that its source writes.
use multi_agent_based_intell.Prelude.{
  ◌≡◌, refl, ap, Bool, true, ◌&&◌, Option, some, ◌==◌, string_eq, if◌then◌else◌, inl, inr,
  Bool-cases,
}
use multi_agent_based_intell.Domain.Json.{
  Json, null, boolean, integer, float, string, array, object, Items, Fields, end, field,
}
use multi_agent_based_intell.Models.Schema.{
  member, type_ok, names_type, required_ok, all_items, none_or, properties_of, properties_value,
  each_property, items_of, items_value, value_conforms,
}

module _ (check : Fields → Json → Bool) where
  -- The loop over `properties.items()`: a property that is present and whose schema is an object
  -- is checked.
  abbrev pub each_checked : Fields → Fields → Bool
  each_checked end members = true
  each_checked (field name (object child) rest) members =
      none_or (check child) (member members name) && each_checked rest members
  each_checked (field name _ rest) members = each_checked rest members

  abbrev pub properties_checked : Option Json → Fields → Bool
  properties_checked (some (object properties)) members = each_checked properties members
  properties_checked _ members = true

  abbrev pub items_checked : Option Json → Items → Bool
  items_checked (some (object child)) items = all_items (check child) items
  items_checked _ items = true

  abbrev pub object_checked : Fields → Json → Bool
  object_checked schema (object members) =
      required_ok (member schema "required") members
      && properties_checked (member schema "properties") members
  object_checked schema _ = true

  abbrev pub array_checked : Fields → Json → Bool
  array_checked schema (array items) = items_checked (member schema "items") items
  array_checked schema _ = true

  -- The body of `_value_conforms`, with `check` for its recursive calls.
  abbrev pub checked_by_source : Fields → Json → Bool
  checked_by_source schema value =
      type_ok (member schema "type") value
      && (if names_type (member schema "type") "object" then object_checked schema value else true)
      && (if names_type (member schema "type") "array" then array_checked schema value else true)

each_property-checked :
    (properties members : Fields)
    → each_property properties members ≡ each_checked value_conforms properties members
unfolding properties_of
each_property-checked end members = refl
each_property-checked (field name null rest) members = each_property-checked rest members
each_property-checked (field name (boolean b) rest) members = each_property-checked rest members
each_property-checked (field name (integer n) rest) members = each_property-checked rest members
each_property-checked (field name (float n) rest) members = each_property-checked rest members
each_property-checked (field name (string s) rest) members = each_property-checked rest members
each_property-checked (field name (array l) rest) members = each_property-checked rest members
each_property-checked (field name (object child) rest) members =
    ap (λ b. none_or (value_conforms child) (member members name) && b)
      (each_property-checked rest members)

properties_value-checked :
    (j : Json) (members : Fields)
    → properties_value j members ≡ properties_checked value_conforms (some j) members
unfolding properties_of
properties_value-checked null members = refl
properties_value-checked (boolean b) members = refl
properties_value-checked (integer n) members = refl
properties_value-checked (float n) members = refl
properties_value-checked (string s) members = refl
properties_value-checked (array l) members = refl
properties_value-checked (object properties) members = each_property-checked properties members

properties_of-checked :
    (schema members : Fields)
    → properties_of schema members
      ≡ properties_checked value_conforms (member schema "properties") members
unfolding properties_of
properties_of-checked end members = refl
properties_of-checked (field k v rest) members = elim (Bool-cases (k == "properties")) [
  | inl here ↦ rw here (properties_value-checked v members)
  | inr later ↦ rw later (properties_of-checked rest members)
]

items_value-checked :
    (j : Json) (items : Items) → items_value j items ≡ items_checked value_conforms (some j) items
unfolding properties_of
items_value-checked null items = refl
items_value-checked (boolean b) items = refl
items_value-checked (integer n) items = refl
items_value-checked (float n) items = refl
items_value-checked (string s) items = refl
items_value-checked (array l) items = refl
items_value-checked (object child) items = refl

items_of-checked :
    (schema : Fields) (items : Items)
    → items_of schema items ≡ items_checked value_conforms (member schema "items") items
unfolding properties_of
items_of-checked end items = refl
items_of-checked (field k v rest) items = elim (Bool-cases (k == "items")) [
  | inl here ↦ rw here (items_value-checked v items)
  | inr later ↦ rw later (items_of-checked rest items)
]

-- The check by recursion on the schema satisfies the equation of `_value_conforms`, whose recursive
-- calls go to what `schema.get` finds: the schemas of the properties that are present, and that of
-- the items.
pub value_conforms_source :
    (schema : Fields) (value : Json)
    → value_conforms schema value ≡ checked_by_source value_conforms schema value
value_conforms_source schema null = refl
value_conforms_source schema (boolean b) = refl
value_conforms_source schema (integer n) = refl
value_conforms_source schema (float n) = refl
value_conforms_source schema (string s) = refl
value_conforms_source schema (array items) = rw (items_of-checked schema items) refl
value_conforms_source schema (object members) = rw (properties_of-checked schema members) refl
