-- ===== src/Models/Schema/Types.antt =====
-- What the type named in a schema asks of a value.
use multi_agent_based_intell.Prelude.{
  String, ◌≡◌, refl, subst, ◌⊎◌, inl, inr, Bool, true, ◌==◌, string_eq, eq_iff, if_both,
}
use multi_agent_based_intell.Domain.Json.{
  Json, null, boolean, integer, float, string, array, object, Items, Fields,
}
use multi_agent_based_intell.Models.Schema.{
  is_object, is_array, is_string, is_integer, is_number, is_boolean, is_null, matches_type,
}

-- The value is of the type of that name, where the name is one of the seven.
pub record HasType (name : String) (value : Json) : Type 0 where
  pub as_object : name ≡ "object" → (members : Fields) × (value ≡ object members)
  pub as_array : name ≡ "array" → (items : Items) × (value ≡ array items)
  pub as_string : name ≡ "string" → (text : String) × (value ≡ string text)
  pub as_integer : name ≡ "integer" → (literal : String) × (value ≡ integer literal)
  pub as_number :
      name ≡ "number" → (literal : String) × ((value ≡ integer literal) ⊎ (value ≡ float literal))
  pub as_boolean : name ≡ "boolean" → (b : Bool) × (value ≡ boolean b)
  pub as_null : name ≡ "null" → value ≡ null

object_of : (v : Json) → is_object v ≡ true → (members : Fields) × (v ≡ object members)
object_of (object members) h = (members, refl)
object_of null h = absurd (cc)
object_of (boolean b) h = absurd (cc)
object_of (integer n) h = absurd (cc)
object_of (float n) h = absurd (cc)
object_of (string s) h = absurd (cc)
object_of (array l) h = absurd (cc)

array_of : (v : Json) → is_array v ≡ true → (items : Items) × (v ≡ array items)
array_of (array items) h = (items, refl)
array_of null h = absurd (cc)
array_of (boolean b) h = absurd (cc)
array_of (integer n) h = absurd (cc)
array_of (float n) h = absurd (cc)
array_of (string s) h = absurd (cc)
array_of (object f) h = absurd (cc)

string_of : (v : Json) → is_string v ≡ true → (text : String) × (v ≡ string text)
string_of (string text) h = (text, refl)
string_of null h = absurd (cc)
string_of (boolean b) h = absurd (cc)
string_of (integer n) h = absurd (cc)
string_of (float n) h = absurd (cc)
string_of (array l) h = absurd (cc)
string_of (object f) h = absurd (cc)

integer_of : (v : Json) → is_integer v ≡ true → (literal : String) × (v ≡ integer literal)
integer_of (integer literal) h = (literal, refl)
integer_of null h = absurd (cc)
integer_of (boolean b) h = absurd (cc)
integer_of (float n) h = absurd (cc)
integer_of (string s) h = absurd (cc)
integer_of (array l) h = absurd (cc)
integer_of (object f) h = absurd (cc)

number_of :
    (v : Json)
    → is_number v ≡ true
    → (literal : String) × ((v ≡ integer literal) ⊎ (v ≡ float literal))
number_of (integer literal) h = (literal, inl refl)
number_of (float literal) h = (literal, inr refl)
number_of null h = absurd (cc)
number_of (boolean b) h = absurd (cc)
number_of (string s) h = absurd (cc)
number_of (array l) h = absurd (cc)
number_of (object f) h = absurd (cc)

boolean_of : (v : Json) → is_boolean v ≡ true → (b : Bool) × (v ≡ boolean b)
boolean_of (boolean b) h = (b, refl)
boolean_of null h = absurd (cc)
boolean_of (integer n) h = absurd (cc)
boolean_of (float n) h = absurd (cc)
boolean_of (string s) h = absurd (cc)
boolean_of (array l) h = absurd (cc)
boolean_of (object f) h = absurd (cc)

null_of : (v : Json) → is_null v ≡ true → v ≡ null
null_of null h = refl
null_of (boolean b) h = absurd (cc)
null_of (integer n) h = absurd (cc)
null_of (float n) h = absurd (cc)
null_of (string s) h = absurd (cc)
null_of (array l) h = absurd (cc)
null_of (object f) h = absurd (cc)

pub matches_type-HasType : (v : Json) (name : String) → matches_type v name ≡ true → HasType name v
matches_type-HasType v name h = record {
  as_object = λ e. object_of v (named "object" e);
  as_array = λ e. array_of v (named "array" e);
  as_string = λ e. string_of v (named "string" e);
  as_integer = λ e. integer_of v (named "integer" e);
  as_number = λ e. number_of v (named "number" e);
  as_boolean = λ e. boolean_of v (named "boolean" e);
  as_null = λ e. null_of v (named "null" e);
}
  where
    named : (known : String) → name ≡ known → matches_type v known ≡ true
    named known e = subst (λ n. matches_type v n ≡ true) e h

number_is :
    (v : Json) (literal : String) → (v ≡ integer literal) ⊎ (v ≡ float literal) → is_number v ≡ true
number_is v literal (inl e) = rw e refl
number_is v literal (inr e) = rw e refl

pub HasType-matches_type : (v : Json) (name : String) → HasType name v → matches_type v name ≡ true
HasType-matches_type v name t =
    if_both P (name == "object") (λ h. rw ((t.as_object ((eq_iff name "object").0 h)).1) refl)
      λ _.
        if_both P (name == "array") (λ h. rw ((t.as_array ((eq_iff name "array").0 h)).1) refl)
          λ _.
            if_both P (name == "string")
              (λ h. rw ((t.as_string ((eq_iff name "string").0 h)).1) refl)
              λ _.
                if_both P (name == "integer")
                  (λ h. rw ((t.as_integer ((eq_iff name "integer").0 h)).1) refl)
                  λ _.
                    if_both P (name == "number")
                      (λ h.
                        let (literal, e) = t.as_number ((eq_iff name "number").0 h) in
                        number_is v literal e)
                      λ _.
                        if_both P (name == "boolean")
                          (λ h. rw ((t.as_boolean ((eq_iff name "boolean").0 h)).1) refl)
                          λ _.
                            if_both P (name == "null")
                              (λ h. rw (t.as_null ((eq_iff name "null").0 h)) refl) (λ _. refl)
  where
    P : Bool → Type 0
    P b = b ≡ true
