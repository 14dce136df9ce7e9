-- ===== src/Domain/Json.antt =====
-- `JsonValue`. Numbers keep their literal, which no code of the repository reads.
use multi_agent_based_intell.Prelude.{String, Bool}

mutual
  pub data Json : Type 0 where
    null : Json
    boolean : Bool → Json
    integer float : (literal : String) → Json
    string : String → Json
    array : Items → Json
    object : Fields → Json

  pub data Items : Type 0 where
    nil : Items
    cons : Json → Items → Items

  -- The members of an object, in order.
  pub data Fields : Type 0 where
    end : Fields
    field : String → Json → Fields → Fields
