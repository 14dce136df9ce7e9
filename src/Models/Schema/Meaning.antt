-- ===== src/Models/Schema/Meaning.antt =====
-- The schema check and the relation of conforming to a schema.
use multi_agent_based_intell.Prelude.{◌≡◌, ◌↔◌, true, string_eq}
use multi_agent_based_intell.Domain.Json.{Json, Fields}
use multi_agent_based_intell.Models.Schema.{value_conforms}
use multi_agent_based_intell.Models.Schema.Relation.{Conforms}
use multi_agent_based_intell.Models.Schema.Sound.{sound}
use multi_agent_based_intell.Models.Schema.Complete.{complete}

-- The check accepts exactly the values that conform to the schema: those of the type that it names,
-- an object with the required members and with members that conform to the schemas given for them,
-- and an array whose items conform to the schema for items.
pub value_conforms-Conforms :
    (schema : Fields) (value : Json) → (value_conforms schema value ≡ true) ↔ Conforms schema value
value_conforms-Conforms schema value = (sound value schema, complete schema value)
