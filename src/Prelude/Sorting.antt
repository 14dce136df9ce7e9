-- ===== src/Prelude/Sorting.antt =====
-- Python's `sorted`, which is stable: a list sorted by insertion, equal elements in their order.
use mathlib.Core.List.{Memᴰ}
use mathlib.Core.Path.{◌≡◌, refl}
use mathlib.Core.Logic.{◌⊎◌, inl, inr}
use mathlib.Core.Bool.{Bool, true, false, ◌||◌}
use mathlib.Core.List.{List, [], ◌∷◌, map}
use native.Mathlib.Omega.{arith}
use multi_agent_based_intell.Prelude.Tests.{if◌then◌else◌, Bool-cases, if_both}
use multi_agent_based_intell.Prelude.Lists.{All, mem-cons_cases, select, contains, is_unique}
use multi_agent_based_intell.Prelude.Equality.{Eq, ◌==◌, beq_sym}

pub All-select {ℓ κ} :
    {A : Type ℓ} (P : A → Type κ) (p : A → Bool) (xs : List A) → All P xs → All P (select p xs)
All-select P p [] a = tt
All-select P p (x ∷ xs) a =
    if_both (All P) (p x) (λ e. (a.0, All-select P p xs a.1)) (λ e. All-select P p xs a.1)

module _ {ℓ} {A : Type ℓ} (le : A → A → Bool) where
  unfoldable pub insert_sorted : A → List A → List A
  insert_sorted x [] = x ∷ []
  insert_sorted x (y ∷ ys) = if le x y then x ∷ y ∷ ys else y ∷ insert_sorted x ys

  unfoldable pub sort_by : List A → List A
  unfolding insert_sorted
  sort_by [] = []
  sort_by (x ∷ xs) = insert_sorted x (sort_by xs)

  -- Each element is at most every later one.
  abbrev pub IsSorted : List A → Type ℓ
  IsSorted [] = Unit
  IsSorted (x ∷ xs) = All (λ y. le x y ≡ true) xs × IsSorted xs

  pub mem-insert_sorted :
      (x : A) (xs : List A) {y : A} → Memᴰ y (insert_sorted x xs) → (y ≡ x) ⊎ Memᴰ y xs
  unfolding insert_sorted
  mem-insert_sorted x [] m = mem-cons_cases m
  mem-insert_sorted x (z ∷ xs) {y} m = elim (Bool-cases (le x z)) [
    | inl e ↦ mem-cons_cases (rw e at m)
    | inr e ↦ elim (mem-cons_cases (rw e at m)) [
      | inl same ↦ inr (Memᴰ.head same)
      | inr later ↦ elim (mem-insert_sorted x xs later) [
        | inl new ↦ inl new
        | inr old ↦ inr (Memᴰ.tail old)
      ]
    ]
  ]

  pub mem-insert_sorted_self : (x : A) (xs : List A) → Memᴰ x (insert_sorted x xs)
  unfolding insert_sorted
  mem-insert_sorted_self x [] = Memᴰ.head refl
  mem-insert_sorted_self x (z ∷ xs) = elim (Bool-cases (le x z)) [
    | inl e ↦ rw e (Memᴰ.head refl)
    | inr e ↦ rw e (Memᴰ.tail (mem-insert_sorted_self x xs))
  ]

  pub mem-insert_sorted_old :
      (x : A) (xs : List A) {y : A} → Memᴰ y xs → Memᴰ y (insert_sorted x xs)
  unfolding insert_sorted
  mem-insert_sorted_old x [] m = elim m [ ]
  mem-insert_sorted_old x (z ∷ xs) (Memᴰ.head p) = elim (Bool-cases (le x z)) [
    | inl e ↦ rw e (Memᴰ.tail (Memᴰ.head p))
    | inr e ↦ rw e (Memᴰ.head p)
  ]
  mem-insert_sorted_old x (z ∷ xs) (Memᴰ.tail m) = elim (Bool-cases (le x z)) [
    | inl e ↦ rw e (Memᴰ.tail (Memᴰ.tail m))
    | inr e ↦ rw e (Memᴰ.tail (mem-insert_sorted_old x xs m))
  ]

  pub mem-of-sort_by : (xs : List A) {y : A} → Memᴰ y (sort_by xs) → Memᴰ y xs
  unfolding sort_by
  mem-of-sort_by [] m = elim m [ ]
  mem-of-sort_by (x ∷ xs) m = elim (mem-insert_sorted x (sort_by xs) m) [
    | inl same ↦ Memᴰ.head same
    | inr old ↦ Memᴰ.tail (mem-of-sort_by xs old)
  ]

  pub mem-sort_by : (xs : List A) {y : A} → Memᴰ y xs → Memᴰ y (sort_by xs)
  unfolding sort_by
  mem-sort_by [] m = elim m [ ]
  mem-sort_by (x ∷ xs) {y} (Memᴰ.head p) = rw p (mem-insert_sorted_self x (sort_by xs))
  mem-sort_by (x ∷ xs) (Memᴰ.tail m) = mem-insert_sorted_old x (sort_by xs) (mem-sort_by xs m)

  module _ (total : (x y : A) → le x y ≡ false → le y x ≡ true)
      (trans : (x y z : A) → le x y ≡ true → le y z ≡ true → le x z ≡ true) where
    All-le_trans :
        (x y : A) (ys : List A)
        → le x y ≡ true
        → All (λ z. le y z ≡ true) ys
        → All (λ z. le x z ≡ true) ys
    All-le_trans x y [] h a = tt
    All-le_trans x y (z ∷ ys) h a = (trans x y z h a.0, All-le_trans x y ys h a.1)

    All-insert_sorted :
        (x y : A) (ys : List A)
        → le y x ≡ true
        → All (λ z. le y z ≡ true) ys
        → All (λ z. le y z ≡ true) (insert_sorted x ys)
    unfolding insert_sorted
    All-insert_sorted x y [] h a = (h, tt)
    All-insert_sorted x y (z ∷ ys) h a = elim (Bool-cases (le x z)) [
      | inl e ↦ rw e (h, a)
      | inr e ↦ rw e (a.0, All-insert_sorted x y ys h a.1)
    ]

    insert_sorted-IsSorted : (x : A) (xs : List A) → IsSorted xs → IsSorted (insert_sorted x xs)
    unfolding insert_sorted
    insert_sorted-IsSorted x [] s = (tt, tt)
    insert_sorted-IsSorted x (y ∷ ys) s = elim (Bool-cases (le x y)) [
      | inl e ↦ rw e ((e, All-le_trans x y ys e s.0), s)
      | inr e ↦ rw e (All-insert_sorted x y ys (total x y e) s.0, insert_sorted-IsSorted x ys s.1)
    ]

    pub sort_by-IsSorted : (xs : List A) → IsSorted (sort_by xs)
    unfolding sort_by
    sort_by-IsSorted [] = tt
    sort_by-IsSorted (x ∷ xs) = insert_sorted-IsSorted x (sort_by xs) (sort_by-IsSorted xs)

  pub select-IsSorted : (p : A → Bool) (xs : List A) → IsSorted xs → IsSorted (select p xs)
  select-IsSorted p [] s = tt
  select-IsSorted p (x ∷ xs) s =
      if_both IsSorted (p x) (λ e. (All-select _ p xs s.0, select-IsSorted p xs s.1))
        (λ e. select-IsSorted p xs s.1)

-- Sorting neither adds nor loses a key, nor repeats one.
module _ {ℓ κ} {A : Type ℓ} {B : Type κ} ⦃e : Eq B⦄ (le : A → A → Bool) (f : A → B) where
  contains-map-insert_sorted :
      (x : A) (xs : List A) (b : B)
      → contains (map f (insert_sorted le x xs)) b ≡ (f x == b || contains (map f xs) b)
  unfolding insert_sorted
  contains-map-insert_sorted x [] b = refl
  contains-map-insert_sorted x (y ∷ ys) b = ground (arith, contains-map-insert_sorted x ys b)

  insert_sorted-is_unique :
      (x : A) (xs : List A)
      → contains (map f xs) (f x) ≡ false
      → is_unique (map f xs) ≡ true
      → is_unique (map f (insert_sorted le x xs)) ≡ true
  unfolding insert_sorted
  insert_sorted-is_unique x [] fresh u = refl
  insert_sorted-is_unique x (y ∷ ys) fresh u = ground (
    arith,
    insert_sorted-is_unique x ys,
    contains-map-insert_sorted x ys (f y),
    beq_sym (f x) (f y),
  )

  contains-map-sort_by :
      (xs : List A) (b : B) → contains (map f (sort_by le xs)) b ≡ contains (map f xs) b
  unfolding sort_by
  contains-map-sort_by [] b = refl
  contains-map-sort_by (x ∷ xs) b =
      ground (arith, contains-map-insert_sorted x (sort_by le xs) b, contains-map-sort_by xs b)

  pub sort_by-is_unique :
      (xs : List A) → is_unique (map f xs) ≡ true → is_unique (map f (sort_by le xs)) ≡ true
  unfolding sort_by
  sort_by-is_unique [] u = refl
  sort_by-is_unique (x ∷ xs) u =
      insert_sorted-is_unique x (sort_by le xs) (ground (arith, contains-map-sort_by xs (f x)))
        (sort_by-is_unique xs (ground arith))
