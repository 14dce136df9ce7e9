-- ===== src/Models/Schema/Sound.antt =====
-- From the schema check to the relation of conforming.
use multi_agent_based_intell.Prelude.{
  String, ◌≡◌, sym, ◌∙◌, subst, inl, inr, Bool, true, some, arith, ◌==◌, string_eq, is_some,
  Bool-cases, Option-cases, &&-eq_true, if◌then◌else◌,
}
use multi_agent_based_intell.Domain.Json.{
  Json, null, boolean, integer, float, string, array, object, Items, nil, cons, Fields, end, field,
}
use multi_agent_based_intell.Models.Schema.{
  member, type_ok, names_type, all_present, required_ok, all_items, none_or, value_conforms,
}
use multi_agent_based_intell.Models.Schema.Types.{matches_type-HasType}
use multi_agent_based_intell.Models.Schema.Recursion.{
  each_checked, properties_checked, items_checked, object_checked, array_checked,
  value_conforms_source,
}
use multi_agent_based_intell.Models.Schema.Relation.{
  IsItem, first, later, IsField, field_first, field_later, Conforms, conforms,
}

-- What the check finds, taken apart.
rest_present :
    (other : Json) (rest : Items) (members : Fields)
    → all_present (cons other rest) members ≡ true
    → all_present rest members ≡ true
rest_present (string name) rest members h =
    (&&-eq_true (is_some (member members name)) (all_present rest members) h).1
rest_present null rest members h = h
rest_present (boolean b) rest members h = h
rest_present (integer n) rest members h = h
rest_present (float n) rest members h = h
rest_present (array l) rest members h = h
rest_present (object f) rest members h = h

present_of :
    (members : Fields) (name : String) (names : Items)
    → all_present names members ≡ true
    → IsItem (string name) names
    → (found : Json) × (member members name ≡ some found)
present_of members name _ h (first rest) = elim (Option-cases (member members name)) [
  | inl absent ↦ absurd (ground (arith, absent, h))
  | inr found ↦ found
]
present_of members name _ h (later other rest there) =
    present_of members name rest (rest_present other rest members h) there

rest_checked :
    (check : Fields → Json → Bool) (k : String) (v : Json) (rest members : Fields)
    → each_checked check (field k v rest) members ≡ true
    → each_checked check rest members ≡ true
rest_checked check k (object child) rest members h =
    (&&-eq_true (none_or (check child) (member members k)) (each_checked check rest members) h).1
rest_checked check k null rest members h = h
rest_checked check k (boolean b) rest members h = h
rest_checked check k (integer n) rest members h = h
rest_checked check k (float n) rest members h = h
rest_checked check k (string s) rest members h = h
rest_checked check k (array l) rest members h = h

child_of :
    (check : Fields → Json → Bool) (members child : Fields) (name : String) (found : Json)
    (properties : Fields)
    → each_checked check properties members ≡ true
    → IsField name (object child) properties
    → member members name ≡ some found
    → check child found ≡ true
child_of check members child name found _ h (field_first rest) at =
    subst (λ o. none_or (check child) o ≡ true) at
      (&&-eq_true (none_or (check child) (member members name)) (each_checked check rest members)
        h).0
child_of check members child name found _ h (field_later k v rest there) at =
    child_of check members child name found rest (rest_checked check k v rest members h) there at

item_of :
    (test : Json → Bool) (item : Json) (items : Items)
    → all_items test items ≡ true
    → IsItem item items
    → test item ≡ true
item_of test item _ h (first rest) = (&&-eq_true (test item) (all_items test rest) h).0
item_of test item _ h (later other rest there) =
    item_of test item rest (&&-eq_true (test other) (all_items test rest) h).1 there

-- A value that passes the check conforms, if its parts that pass it do.
module _ (schema : Fields) (value : Json) (passes : value_conforms schema value ≡ true) where
  parts :
      (type_ok (member schema "type") value ≡ true)
      × ((if names_type (member schema "type") "object"
            then object_checked value_conforms schema value
            else true)
          ≡ true)
      × ((if names_type (member schema "type") "array"
            then array_checked value_conforms schema value
            else true)
          ≡ true)
  parts =
      let all = sym (value_conforms_source schema value) ∙ passes in
      let (two, third) = &&-eq_true _ _ all in
      let (one, second) = &&-eq_true _ _ two in (one, second, third)

  object_part_of :
      (members : Fields)
      → member schema "type" ≡ some (string "object")
      → value ≡ object members
      → (required_ok (member schema "required") members ≡ true)
        × (properties_checked value_conforms (member schema "properties") members ≡ true)
  object_part_of members e same = &&-eq_true _ _ (
      subst (λ v. object_checked value_conforms schema v ≡ true) same
        (subst
          (λ o.
            (if names_type o "object" then object_checked value_conforms schema value else true)
            ≡ true)
          e parts.1))

  array_part_of :
      (items : Items)
      → member schema "type" ≡ some (string "array")
      → value ≡ array items
      → items_checked value_conforms (member schema "items") items ≡ true
  array_part_of items e same =
      subst (λ v. array_checked value_conforms schema v ≡ true) same
        (subst
          (λ o.
            (if names_type o "array" then array_checked value_conforms schema value else true)
            ≡ true)
          e parts.2)

  conforming :
      ((members child : Fields) (name : String) (found : Json)
        → value ≡ object members
        → member members name ≡ some found
        → value_conforms child found ≡ true
        → Conforms child found)
      → ((items : Items) (child : Fields) (item : Json)
          → value ≡ array items
          → IsItem item items
          → value_conforms child item ≡ true
          → Conforms child item)
      → Conforms schema value
  conforming below_members below_items =
      conforms schema value
        (λ name e. matches_type-HasType value name (subst (λ o. type_ok o value ≡ true) e parts.0))
        (λ members names name e same required listed.
          present_of members name names
            (subst (λ o. required_ok o members ≡ true) required (object_part_of members e same).0)
            listed)
        (λ members properties child name found e same at listed there.
          below_members members child name found same there (
            child_of value_conforms members child name found properties
              (subst (λ o. properties_checked value_conforms o members ≡ true) at
                (object_part_of members e same).1)
              listed there))
        (λ items child item e same at listed. below_items items child item same listed (
          item_of (value_conforms child) item items
            (subst (λ o. items_checked value_conforms o items ≡ true) at
              (array_part_of items e same))
            listed))

mutual
  pub sound :
      (value : Json) (schema : Fields) → value_conforms schema value ≡ true → Conforms schema value
  sound null schema h = conforming schema null h (λ m c n f e. absurd (cc)) (λ l c i e. absurd (cc))
  sound (boolean b) schema h =
      conforming schema (boolean b) h (λ m c n f e. absurd (cc)) (λ l c i e. absurd (cc))
  sound (integer n) schema h =
      conforming schema (integer n) h (λ m c k f e. absurd (cc)) (λ l c i e. absurd (cc))
  sound (float n) schema h =
      conforming schema (float n) h (λ m c k f e. absurd (cc)) (λ l c i e. absurd (cc))
  sound (string s) schema h =
      conforming schema (string s) h (λ m c n f e. absurd (cc)) (λ l c i e. absurd (cc))
  sound (array items) schema h =
      conforming schema (array items) h (λ m c n f e. absurd (cc))
        λ l c i e listed k. sound_items items c i (subst (λ z. IsItem i z) (cc (e)) listed) k
  sound (object members) schema h =
      conforming schema (object members) h
        (λ m c n f e at k.
          sound_members members c n f (subst (λ z. member z n ≡ some f) (cc (e)) at) k)
        (λ l c i e. absurd (cc))

  sound_items :
      (items : Items) (child : Fields) (item : Json)
      → IsItem item items
      → value_conforms child item ≡ true
      → Conforms child item
  sound_items nil child item listed h = elim listed [ ]
  sound_items (cons x rest) child _ (first _) h = sound x child h
  sound_items (cons x rest) child item (later _ _ there) h = sound_items rest child item there h

  sound_members :
      (members child : Fields) (name : String) (found : Json)
      → member members name ≡ some found
      → value_conforms child found ≡ true
      → Conforms child found
  sound_members end child name found at h = absurd (cc)
  sound_members (field k v rest) child name found at h = elim (Bool-cases (k == name)) [
    | inl here ↦
        let same : v ≡ found = ground (arith, here, at) in
        subst (Conforms child) same
          (sound v child (subst (λ z. value_conforms child z ≡ true) (sym same) h))
    | inr other ↦ sound_members rest child name found (ground (arith, other, at)) h
  ]
