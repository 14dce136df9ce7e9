-- ===== src/Prelude/Lists.antt =====
-- Lists: measures over the native numbers, Boolean searches and predicates on every element.
use mathlib.Core.List.{Memᴰ}
use Prim.Native.Nat.{ℕ, suc, ◌+◌, ◌≤◌}
use mathlib.Core.Path.{◌≡◌, refl, ap}
use mathlib.Core.Bool.{Bool, true, false, not, ◌&&◌, ◌||◌}
use mathlib.Core.Logic.{◌⊎◌, inl, inr}
use mathlib.Core.List.{List, [], ◌∷◌, ◌++◌, map}
use native.Mathlib.Omega.{arith}
use multi_agent_based_intell.Prelude.Tests.{if◌then◌else◌, Bool-cases}
use multi_agent_based_intell.Prelude.Equality.{Eq, ◌==◌}

module _ {ℓ} {A : Type ℓ} where
  abbrev pub length : List A → ℕ
  length [] = 0
  length (x ∷ xs) = suc (length xs)

  -- A comprehension's filter, by a Boolean test.
  abbrev pub select : (A → Bool) → List A → List A
  select p [] = []
  select p (x ∷ xs) = let rest = select p xs in if p x then x ∷ rest else rest

  -- any(...) and all(...)
  abbrev pub any_of : (A → Bool) → List A → Bool
  any_of p [] = false
  any_of p (x ∷ xs) = p x || any_of p xs

  abbrev pub all_of : (A → Bool) → List A → Bool
  all_of p [] = true
  all_of p (x ∷ xs) = p x && all_of p xs

  abbrev pub is_empty : List A → Bool
  is_empty [] = true
  is_empty (x ∷ xs) = false

  pub is_empty-append : (xs ys : List A) → is_empty (xs ++ ys) ≡ (is_empty xs && is_empty ys)
  is_empty-append [] ys = refl
  is_empty-append (x ∷ xs) ys = refl

  abbrev pub All {κ} : (A → Type κ) → List A → Type κ
  All P [] = Unit
  All P (x ∷ xs) = P x × All P xs

  pub length-append : (xs ys : List A) → length (xs ++ ys) ≡ length xs + length ys
  length-append [] ys = omega arith
  length-append (x ∷ xs) ys = omega (arith, length-append xs ys)

  pub length-select-le : (p : A → Bool) (xs : List A) → length (select p xs) ≤ length xs
  length-select-le p [] = omega arith
  length-select-le p (x ∷ xs) = ground (arith, length-select-le p xs)

  pub all_of_mem :
      (p : A → Bool) (xs : List A) {x : A} → all_of p xs ≡ true → Memᴰ x xs → p x ≡ true
  all_of_mem p [] h m = elim m [ ]
  all_of_mem p (y ∷ xs) h (Memᴰ.head e) = ground (arith, ap p e)
  all_of_mem p (y ∷ xs) h (Memᴰ.tail m) = all_of_mem p xs (ground arith) m

  pub any_of_mem :
      (p : A → Bool) (xs : List A) {x : A} → Memᴰ x xs → p x ≡ true → any_of p xs ≡ true
  any_of_mem p [] m h = elim m [ ]
  any_of_mem p (y ∷ xs) (Memᴰ.head e) h = ground (arith, ap p e)
  any_of_mem p (y ∷ xs) (Memᴰ.tail m) h = ground (arith, any_of_mem p xs m h)

  pub any_of-false :
      (p : A → Bool) (xs : List A) {x : A} → any_of p xs ≡ false → Memᴰ x xs → p x ≡ false
  any_of-false p [] h m = elim m [ ]
  any_of-false p (y ∷ xs) h (Memᴰ.head e) = ground (arith, ap p e)
  any_of-false p (y ∷ xs) h (Memᴰ.tail m) = any_of-false p xs (ground arith) m

  pub mem-cons_cases : {x y : A} {xs : List A} → Memᴰ x (y ∷ xs) → (x ≡ y) ⊎ Memᴰ x xs
  mem-cons_cases (Memᴰ.head e) = inl e
  mem-cons_cases (Memᴰ.tail m) = inr m

  kept_cases :
      (p : A → Bool) (y : A) {x : A} {xs : List A}
      → p y ≡ true
      → (x ≡ y) ⊎ Memᴰ x (select p xs)
      → (Memᴰ x (select p xs) → Memᴰ x xs × (p x ≡ true))
      → Memᴰ x (y ∷ xs) × (p x ≡ true)
  kept_cases p y kept (inl e) ih = (Memᴰ.head e, rw e kept)
  kept_cases p y kept (inr m) ih = let r = ih m in (Memᴰ.tail r.0, r.1)

  pub mem-of-select :
      (p : A → Bool) (xs : List A) {x : A} → Memᴰ x (select p xs) → Memᴰ x xs × (p x ≡ true)
  mem-of-select p [] m = elim m [ ]
  mem-of-select p (y ∷ xs) {x} m = elim (Bool-cases (p y)) [
    | inl kept ↦ kept_cases p y kept (mem-cons_cases (rw kept at m)) (mem-of-select p xs)
    | inr dropped ↦ let r = mem-of-select p xs (rw dropped at m) in (Memᴰ.tail r.0, r.1)
  ]

  pub mem-select :
      (p : A → Bool) (xs : List A) {x : A} → Memᴰ x xs → p x ≡ true → Memᴰ x (select p xs)
  mem-select p [] m h = elim m [ ]
  mem-select p (y ∷ xs) (Memᴰ.head e) h = rw (← e) (rw h (Memᴰ.head refl))
  mem-select p (y ∷ xs) (Memᴰ.tail m) h = elim (Bool-cases (p y)) [
    | inl kept ↦ rw kept (Memᴰ.tail (mem-select p xs m h))
    | inr dropped ↦ rw dropped (mem-select p xs m h)
  ]

  pub All_mem {κ} : (P : A → Type κ) (xs : List A) {x : A} → All P xs → Memᴰ x xs → P x
  All_mem P [] h m = elim m [ ]
  All_mem P (y ∷ xs) h (Memᴰ.head e) = rw e h.0
  All_mem P (y ∷ xs) h (Memᴰ.tail m) = All_mem P xs h.1 m

  pub All-of_mem {κ} : {P : A → Type κ} (xs : List A) → ((x : A) → Memᴰ x xs → P x) → All P xs
  All-of_mem [] f = tt
  All-of_mem (x ∷ xs) f = (f x (Memᴰ.head refl), All-of_mem xs λ y m. f y (Memᴰ.tail m))

module _ {ℓ} {A : Type ℓ} ⦃e : Eq A⦄ where
  -- `x in xs`
  abbrev pub contains : List A → A → Bool
  contains [] a = false
  contains (x ∷ xs) a = x == a || contains xs a

  -- `len(xs) == len(set(xs))`
  abbrev pub is_unique : List A → Bool
  is_unique [] = true
  is_unique (x ∷ xs) = not (contains xs x) && is_unique xs

  pub contains-mem : (xs : List A) (a : A) → contains xs a ≡ true → Memᴰ a xs
  contains-mem [] a h = absurd (cc)
  contains-mem (x ∷ xs) a h = elim (Bool-cases (x == a)) [
    | inl same ↦ Memᴰ.head (sym_of ((e.beq_iff x a).0 same))
    | inr other ↦ Memᴰ.tail (contains-mem xs a (ground arith))
  ]
    where
      sym_of : x ≡ a → a ≡ x
      sym_of p = cc

  pub mem-contains : (xs : List A) {a : A} → Memᴰ a xs → contains xs a ≡ true
  mem-contains [] m = elim m [ ]
  mem-contains (x ∷ xs) {a} (Memᴰ.head p) = ground (arith, p, e.beq_iff x a)
  mem-contains (x ∷ xs) {a} (Memᴰ.tail m) = ground (arith, mem-contains xs m)

  pub contains-append :
      (xs ys : List A) (a : A) → contains (xs ++ ys) a ≡ (contains xs a || contains ys a)
  contains-append [] ys a = refl
  contains-append (x ∷ xs) ys a = ground (arith, contains-append xs ys a)

module _ {ℓ κ} {A : Type ℓ} {B : Type κ} (f : A → B) where
  pub mem-map : (xs : List A) {x : A} → Memᴰ x xs → Memᴰ (f x) (map f xs)
  mem-map [] m = elim m [ ]
  mem-map (y ∷ xs) (Memᴰ.head e) = Memᴰ.head (ap f e)
  mem-map (y ∷ xs) (Memᴰ.tail m) = Memᴰ.tail (mem-map xs m)

  pub mem-of-map : (xs : List A) {y : B} → Memᴰ y (map f xs) → (x : A) × Memᴰ x xs × (f x ≡ y)
  mem-of-map [] m = elim m [ ]
  mem-of-map (x ∷ xs) (Memᴰ.head e) = (x, Memᴰ.head refl, cc)
  mem-of-map (x ∷ xs) (Memᴰ.tail m) = let (z, n, e) = mem-of-map xs m in (z, Memᴰ.tail n, e)
