-- ===== src/Models/Schema/Complete.antt =====
-- From the relation of conforming to the schema check.
use multi_agent_based_intell.Prelude.{
  String, ◌≡◌, refl, ap, ◌∙◌, Bool, true, ◌&&◌, Option, none, some, string_eq, eq_iff, if_both,
}
use multi_agent_based_intell.Domain.Json.{
  Json, null, boolean, integer, float, string, array, object, Items, nil, cons, Fields, end, field,
}
use multi_agent_based_intell.Models.Schema.{
  member, type_ok, names_type, all_present, required_ok, all_items, none_or, value_conforms,
}
use multi_agent_based_intell.Models.Schema.Types.{HasType, HasType-matches_type}
use multi_agent_based_intell.Models.Schema.Recursion.{
  each_checked, properties_checked, items_checked, object_checked, array_checked,
  value_conforms_source,
}
use multi_agent_based_intell.Models.Schema.Relation.{
  IsItem, first, later, IsField, field_first, field_later, Conforms, conforms,
}

-- What conforms passes the check.
both : {a b : Bool} → a ≡ true → b ≡ true → (a && b) ≡ true
both p q = rw (p, q) refl

type_passes :
    (o : Option Json) (value : Json)
    → ((name : String) → o ≡ some (string name) → HasType name value)
    → type_ok o value ≡ true
type_passes (some (string name)) value t = HasType-matches_type value name (t name refl)
type_passes none value t = refl
type_passes (some null) value t = refl
type_passes (some (boolean b)) value t = refl
type_passes (some (integer n)) value t = refl
type_passes (some (float n)) value t = refl
type_passes (some (array l)) value t = refl
type_passes (some (object f)) value t = refl

names_of : (o : Option Json) (name : String) → names_type o name ≡ true → o ≡ some (string name)
names_of (some (string t)) name h = ap (λ z. some (string z)) ((eq_iff t name).0 h)
names_of none name h = absurd (cc)
names_of (some null) name h = absurd (cc)
names_of (some (boolean b)) name h = absurd (cc)
names_of (some (integer n)) name h = absurd (cc)
names_of (some (float n)) name h = absurd (cc)
names_of (some (array l)) name h = absurd (cc)
names_of (some (object f)) name h = absurd (cc)

all_present_passes :
    (members : Fields) (names : Items)
    → ((name : String)
        → IsItem (string name) names
        → (found : Json) × (member members name ≡ some found))
    → all_present names members ≡ true
all_present_passes members nil p = refl
all_present_passes members (cons (string name) rest) p =
    let (found, at) = p name (first rest) in
    both (rw at refl) (all_present_passes members rest λ n m. p n (later _ rest m))
all_present_passes members (cons null rest) p =
    all_present_passes members rest λ n m. p n (later _ rest m)
all_present_passes members (cons (boolean b) rest) p =
    all_present_passes members rest λ n m. p n (later _ rest m)
all_present_passes members (cons (integer n) rest) p =
    all_present_passes members rest λ n m. p n (later _ rest m)
all_present_passes members (cons (float n) rest) p =
    all_present_passes members rest λ n m. p n (later _ rest m)
all_present_passes members (cons (array l) rest) p =
    all_present_passes members rest λ n m. p n (later _ rest m)
all_present_passes members (cons (object f) rest) p =
    all_present_passes members rest λ n m. p n (later _ rest m)

required_passes :
    (o : Option Json) (members : Fields)
    → ((names : Items) (name : String)
        → o ≡ some (array names)
        → IsItem (string name) names
        → (found : Json) × (member members name ≡ some found))
    → required_ok o members ≡ true
required_passes (some (array names)) members p =
    all_present_passes members names λ n m. p names n refl m
required_passes none members p = refl
required_passes (some null) members p = refl
required_passes (some (boolean b)) members p = refl
required_passes (some (integer n)) members p = refl
required_passes (some (float n)) members p = refl
required_passes (some (string s)) members p = refl
required_passes (some (object f)) members p = refl

member_passes :
    (test : Json → Bool) (o : Option Json)
    → ((found : Json) → o ≡ some found → test found ≡ true)
    → none_or test o ≡ true
member_passes test none p = refl
member_passes test (some found) p = p found refl

each_passes :
    (check : Fields → Json → Bool) (members properties : Fields)
    → ((child : Fields) (name : String) (found : Json)
        → IsField name (object child) properties
        → member members name ≡ some found
        → check child found ≡ true)
    → each_checked check properties members ≡ true
each_passes check members end p = refl
each_passes check members (field k (object child) rest) p =
    both
      (member_passes (check child) (member members k)
        λ found at. p child k found (field_first rest) at)
      (each_passes check members rest λ c n f m at. p c n f (field_later _ _ rest m) at)
each_passes check members (field k null rest) p =
    each_passes check members rest λ c m f i at. p c m f (field_later _ _ rest i) at
each_passes check members (field k (boolean b) rest) p =
    each_passes check members rest λ c m f i at. p c m f (field_later _ _ rest i) at
each_passes check members (field k (integer q) rest) p =
    each_passes check members rest λ c m f i at. p c m f (field_later _ _ rest i) at
each_passes check members (field k (float q) rest) p =
    each_passes check members rest λ c m f i at. p c m f (field_later _ _ rest i) at
each_passes check members (field k (string s) rest) p =
    each_passes check members rest λ c m f i at. p c m f (field_later _ _ rest i) at
each_passes check members (field k (array l) rest) p =
    each_passes check members rest λ c m f i at. p c m f (field_later _ _ rest i) at

properties_pass :
    (check : Fields → Json → Bool) (o : Option Json) (members : Fields)
    → ((properties child : Fields) (name : String) (found : Json)
        → o ≡ some (object properties)
        → IsField name (object child) properties
        → member members name ≡ some found
        → check child found ≡ true)
    → properties_checked check o members ≡ true
properties_pass check (some (object properties)) members p =
    each_passes check members properties λ c n f m at. p properties c n f refl m at
properties_pass check none members p = refl
properties_pass check (some null) members p = refl
properties_pass check (some (boolean b)) members p = refl
properties_pass check (some (integer n)) members p = refl
properties_pass check (some (float n)) members p = refl
properties_pass check (some (string s)) members p = refl
properties_pass check (some (array l)) members p = refl

all_items_pass :
    (test : Json → Bool) (items : Items)
    → ((item : Json) → IsItem item items → test item ≡ true)
    → all_items test items ≡ true
all_items_pass test nil p = refl
all_items_pass test (cons item rest) p =
    both (p item (first rest)) (all_items_pass test rest λ i m. p i (later _ rest m))

items_pass :
    (check : Fields → Json → Bool) (o : Option Json) (items : Items)
    → ((child : Fields) (item : Json)
        → o ≡ some (object child)
        → IsItem item items
        → check child item ≡ true)
    → items_checked check o items ≡ true
items_pass check (some (object child)) items p =
    all_items_pass (check child) items λ i m. p child i refl m
items_pass check none items p = refl
items_pass check (some null) items p = refl
items_pass check (some (boolean b)) items p = refl
items_pass check (some (integer n)) items p = refl
items_pass check (some (float n)) items p = refl
items_pass check (some (string s)) items p = refl
items_pass check (some (array l)) items p = refl

object_passes :
    (schema : Fields) (value : Json)
    → ((members : Fields)
        → value ≡ object members
        → (required_ok (member schema "required") members
            && properties_checked value_conforms (member schema "properties") members)
          ≡ true)
    → object_checked value_conforms schema value ≡ true
object_passes schema (object members) p = p members refl
object_passes schema null p = refl
object_passes schema (boolean b) p = refl
object_passes schema (integer n) p = refl
object_passes schema (float n) p = refl
object_passes schema (string s) p = refl
object_passes schema (array l) p = refl

array_passes :
    (schema : Fields) (value : Json)
    → ((items : Items)
        → value ≡ array items
        → items_checked value_conforms (member schema "items") items ≡ true)
    → array_checked value_conforms schema value ≡ true
array_passes schema (array items) p = p items refl
array_passes schema null p = refl
array_passes schema (boolean b) p = refl
array_passes schema (integer n) p = refl
array_passes schema (float n) p = refl
array_passes schema (string s) p = refl
array_passes schema (object f) p = refl

pub complete :
    (schema : Fields) (value : Json) → Conforms schema value → value_conforms schema value ≡ true
complete _ _ (conforms schema value types required properties items) =
    value_conforms_source schema value
    ∙ both
        (both (type_passes (member schema "type") value types) (
          if_both (λ b. b ≡ true) (names_type (member schema "type") "object")
            (λ named.
              let e = names_of (member schema "type") "object" named in
              object_passes schema value λ members same.
                both
                  (required_passes (member schema "required") members
                    λ names name at listed. required members names name e same at listed)
                  (properties_pass value_conforms (member schema "properties") members
                    λ ps child name found at listed there.
                      complete child found
                        (properties members ps child name found e same at listed there)))
            (λ _. refl)))
        (if_both (λ b. b ≡ true) (names_type (member schema "type") "array")
          (λ named.
            let e = names_of (member schema "type") "array" named in
            array_passes schema value λ values same.
              items_pass value_conforms (member schema "items") values λ child item at listed.
                complete child item (items values child item e same at listed))
          (λ _. refl))
