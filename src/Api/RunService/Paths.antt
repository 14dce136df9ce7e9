-- ===== src/Api/RunService/Paths.antt =====
-- `_changed_paths` of apps/api/run_service.py, which recurs on the earlier of two JSON values.
use Prim.Native.String as Text
use multi_agent_based_intell.Prelude.{
  ℕ, ◌+◌, String, Bool, true, false, Option, some, List, [], ◌∷◌, ◌++◌, ◌==◌, string_eq, contains,
  if◌then◌else◌, select, not,
}
use multi_agent_based_intell.Prelude.Dict
use multi_agent_based_intell.Prelude.Dict.{Dict, keys}
use multi_agent_based_intell.Prelude.Sorting.{sort_by}
use multi_agent_based_intell.Prelude.Strings.{str_le, show_nat}
use multi_agent_based_intell.Domain.Json.{
  Json, null, boolean, integer, float, string, array, object, Items, nil, cons, Fields, end, field,
}

-- The paths below a value, given the later value and the path so far.
abbrev pub Comparison : Type 0
Comparison = Json → String → List String

abbrev pub members : Fields → Dict String Json
members end = []
members (field k v rest) = (k, v) ∷ members rest

-- `f"{prefix}.{key}"` and `f"{prefix}[{index}]"`
abbrev at_key : String → String → String
at_key prefix key = Text.◌++◌ prefix (Text.◌++◌ "." key)

abbrev at_index : String → ℕ → String
at_index prefix index = Text.◌++◌ prefix (Text.◌++◌ "[" (Text.◌++◌ (show_nat index) "]"))

-- The paths of one key: it is missing on a side, or both values are compared.
abbrev key_paths : String → String → Option Comparison → Option Json → List String
key_paths prefix key (some compare) (some value) = compare value (at_key prefix key)
key_paths prefix key _ _ = at_key prefix key ∷ []

-- The loop over `sorted(set(before) | set(after))`.
abbrev paths_of_keys :
    String → Dict String Comparison → Dict String Json → List String → List String
paths_of_keys prefix before after [] = []
paths_of_keys prefix before after (key ∷ rest) =
    key_paths prefix key (Dict.get before key) (Dict.get after key)
    ++ paths_of_keys prefix before after rest

abbrev pub all_keys : Dict String Comparison → Dict String Json → List String
all_keys before after =
    sort_by str_le (keys before ++ select (λ k. not (contains (keys before) k)) (keys after))

-- The loop over the indices of the longer list.
abbrev paths_of_items : String → ℕ → List Comparison → Items → List String
paths_of_items prefix index [] nil = []
paths_of_items prefix index [] (cons item rest) =
    at_index prefix index ∷ paths_of_items prefix (index + 1) [] rest
paths_of_items prefix index (compare ∷ more) nil =
    at_index prefix index ∷ paths_of_items prefix (index + 1) more nil
paths_of_items prefix index (compare ∷ more) (cons item rest) =
    compare item (at_index prefix index) ++ paths_of_items prefix (index + 1) more rest

abbrev unless : Bool → String → List String
unless test path = if test then [] else path ∷ []

abbrev bool_beq : Bool → Bool → Bool
bool_beq true b = b
bool_beq false b = not b

abbrev pub compare_objects : Dict String Comparison → Comparison
compare_objects before (object fields) prefix =
    paths_of_keys prefix before (members fields) (all_keys before (members fields))
compare_objects before _ prefix = prefix ∷ []

abbrev pub compare_arrays : List Comparison → Comparison
compare_arrays before (array items) prefix = paths_of_items prefix 0 before items
compare_arrays before _ prefix = prefix ∷ []

-- A leaf has no path where the later value has its type and equals it.
abbrev pub same_leaf : Json → Json → Bool
same_leaf null null = true
same_leaf (boolean a) (boolean b) = bool_beq a b
same_leaf (integer a) (integer b) = a == b
same_leaf (float a) (float b) = a == b
same_leaf (string a) (string b) = a == b
same_leaf _ _ = false

unfoldable mutual
  pub changed_paths : Json → Comparison
  changed_paths null after prefix = unless (same_leaf null after) prefix
  changed_paths (boolean b) after prefix = unless (same_leaf (boolean b) after) prefix
  changed_paths (integer n) after prefix = unless (same_leaf (integer n) after) prefix
  changed_paths (float n) after prefix = unless (same_leaf (float n) after) prefix
  changed_paths (string s) after prefix = unless (same_leaf (string s) after) prefix
  changed_paths (array items) after prefix = compare_arrays (item_comparisons items) after prefix
  changed_paths (object fields) after prefix =
      compare_objects (field_comparisons fields) after prefix

  pub item_comparisons : Items → List Comparison
  item_comparisons nil = []
  item_comparisons (cons item rest) = changed_paths item ∷ item_comparisons rest

  pub field_comparisons : Fields → Dict String Comparison
  field_comparisons end = []
  field_comparisons (field k v rest) = (k, changed_paths v) ∷ field_comparisons rest
