-- ===== src/Models/Schema/Relation.antt =====
-- What it means to conform to a schema, as a relation.
use multi_agent_based_intell.Prelude.{String, ◌≡◌, some, string_eq}
use multi_agent_based_intell.Domain.Json.{Json, string, array, object, Items, cons, Fields, field}
use multi_agent_based_intell.Models.Schema.{member}
use multi_agent_based_intell.Models.Schema.Types.{HasType}

pub data IsItem (item : Json) : Items → Type 0 where
  first : (rest : Items) → IsItem item (cons item rest)
  later : (other : Json) (rest : Items) → IsItem item rest → IsItem item (cons other rest)

pub data IsField (name : String) (value : Json) : Fields → Type 0 where
  field_first : (rest : Fields) → IsField name value (field name value rest)
  field_later :
      (k : String) (v : Json) (rest : Fields)
      → IsField name value rest
      → IsField name value (field k v rest)

-- A value conforms to a schema: it has the type that the schema names; as an object, it has the
-- members that are required, and those for which there is a schema conform to it; as an array, its
-- items conform to the schema for items.
pub data Conforms : Fields → Json → Type 0 where
  conforms :
      (schema : Fields) (value : Json)
      → ((name : String) → member schema "type" ≡ some (string name) → HasType name value)
      → ((members : Fields) (names : Items) (name : String)
          → member schema "type" ≡ some (string "object")
          → value ≡ object members
          → member schema "required" ≡ some (array names)
          → IsItem (string name) names
          → (found : Json) × (member members name ≡ some found))
      → ((members properties child : Fields) (name : String) (found : Json)
          → member schema "type" ≡ some (string "object")
          → value ≡ object members
          → member schema "properties" ≡ some (object properties)
          → IsField name (object child) properties
          → member members name ≡ some found
          → Conforms child found)
      → ((items : Items) (child : Fields) (item : Json)
          → member schema "type" ≡ some (string "array")
          → value ≡ array items
          → member schema "items" ≡ some (object child)
          → IsItem item items
          → Conforms child item)
      → Conforms schema value
