-- ===== src/Domain/Validators/Opening/Systems.antt =====
-- When `validate_coordinates` reports nothing.
use multi_agent_based_intell.Prelude.{
  ℕ, suc, ◌≤◌, ◌↔◌, ◌≡◌, refl, inl, inr, Bool, true, false, ◌&&◌, List, [], ◌∷◌, arith, ltb, length,
  all_of, is_empty, is_empty-append, ap, subst, sym, Bool-cases,
}
use multi_agent_based_intell.Domain.Travel.{
  CoordinateSystem, wgs84, gcj02, bd09, same_system, Place, Route,
}
use multi_agent_based_intell.Domain.Validators.Opening.{
  has_system, systems_of, route_issues, validate_coordinates,
}

same_system_iff : (a b : CoordinateSystem) → (same_system a b ≡ true) ↔ (a ≡ b)
same_system_iff wgs84 wgs84 = ground arith
same_system_iff wgs84 gcj02 = ground arith
same_system_iff wgs84 bd09 = ground arith
same_system_iff gcj02 wgs84 = ground arith
same_system_iff gcj02 gcj02 = ground arith
same_system_iff gcj02 bd09 = ground arith
same_system_iff bd09 wgs84 = ground arith
same_system_iff bd09 gcj02 = ground arith
same_system_iff bd09 bd09 = ground arith

abbrev in_system : CoordinateSystem → Place → Bool
in_system system place = same_system place.canonical_system system

-- All the places have the coordinate system of the first, and so do the routes.
abbrev pub in_one_system : List Place → List Route → Bool
in_one_system [] routes = true
in_one_system (place ∷ places) routes =
    all_of (in_system place.canonical_system) places
    && all_of (λ route. same_system route.coordinate_system place.canonical_system) routes

all_of_implies :
    (p q : Place → Bool) (xs : List Place)
    → ((x : Place) → p x ≡ true → q x ≡ true)
    → all_of p xs ≡ true
    → all_of q xs ≡ true
all_of_implies p q [] f h = refl
all_of_implies p q (x ∷ xs) f h = ground (arith, f x, all_of_implies p q xs f)

-- Places of the first one's system have that system alone.
one_system :
    (place : Place) (places : List Place)
    → all_of (in_system place.canonical_system) places ≡ true
    → systems_of (place ∷ places) ≡ place.canonical_system ∷ []
unfolding systems_of
one_system p [] h = refl
one_system p (q ∷ qs) h =
    let same = (same_system_iff q.canonical_system p.canonical_system).0 (ground arith) in
    let ih = one_system p qs (ground arith) in
    let self = (same_system_iff p.canonical_system p.canonical_system).1 refl in
    ground (arith, same, ih, self)

only_system :
    (xs : List CoordinateSystem) (a b : CoordinateSystem)
    → length xs ≤ 1
    → has_system xs a ≡ true
    → has_system xs b ≡ true
    → same_system a b ≡ true
only_system [] a b le h k = absurd (ground arith)
only_system (x ∷ []) a b le h k =
    ground (arith, same_system_iff a x, same_system_iff b x, same_system_iff a b)
only_system (x ∷ y ∷ xs) a b le h k = absurd (omega arith)

no_systems : (places : List Place) → length (systems_of places) ≤ 0 → places ≡ []
unfolding systems_of
no_systems [] le = refl
no_systems (p ∷ ps) le = elim (Bool-cases (has_system (systems_of ps) p.canonical_system)) [
  | inl seen ↦
      let none_left = no_systems ps (ground arith) in
      absurd (
        ground
          (arith, none_left, ap (λ qs. has_system (systems_of qs) p.canonical_system) none_left))
  | inr new ↦ absurd (ground arith)
]

-- A single system is that of every place.
place-has_system :
    (s : CoordinateSystem) (places : List Place)
    → length (systems_of places) ≤ 1
    → has_system (systems_of places) s ≡ true
    → all_of (in_system s) places ≡ true
unfolding systems_of
place-has_system s [] le h = refl
place-has_system s (p ∷ ps) le h =
    elim (Bool-cases (has_system (systems_of ps) p.canonical_system)) [
      | inl seen ↦
          let rest = place-has_system s ps (ground arith) (ground arith) in
          ground (
            arith,
            rest,
            only_system (systems_of ps) p.canonical_system s (ground arith) seen (ground arith),
          )
      | inr new ↦
          let nothing = no_systems ps (ground arith) in
          let alone : has_system (p.canonical_system ∷ systems_of ps) s ≡ true = ground arith in
          subst
            (λ qs.
              has_system (p.canonical_system ∷ systems_of qs) s ≡ true
              → (in_system s p && all_of (in_system s) qs) ≡ true)
            (sym nothing)
            (λ k.
              ground
                (arith, same_system_iff p.canonical_system s, same_system_iff s p.canonical_system))
            alone
    ]

routes-in_system :
    (s : CoordinateSystem) (i : ℕ) (routes : List Route)
    → is_empty (route_issues s i routes)
      ≡ all_of (λ route. same_system route.coordinate_system s) routes
unfolding route_issues
routes-in_system s i [] = refl
routes-in_system s i (route ∷ routes) =
    grind (arith, is_empty-append, routes-in_system s (suc i) routes)

first_has_system :
    (p : Place) (ps : List Place) → has_system (systems_of (p ∷ ps)) p.canonical_system ≡ true
unfolding systems_of
first_has_system p ps = ground (arith, same_system_iff p.canonical_system p.canonical_system)

module _ (next_of : CoordinateSystem → List CoordinateSystem → CoordinateSystem)
    (chosen : (s : CoordinateSystem) (ss : List CoordinateSystem)
      → has_system (s ∷ ss) (next_of s ss) ≡ true) where
  same_places :
      (p : Place) (ps : List Place) (routes : List Route)
      → all_of (in_system p.canonical_system) ps ≡ true
      → is_empty (validate_coordinates next_of (p ∷ ps) routes) ≡ in_one_system (p ∷ ps) routes
  unfolding validate_coordinates
  same_places p ps routes h =
      let one = one_system p ps h in
      let s = p.canonical_system in
      let same : next_of s [] ≡ s = ground (arith, chosen s [], same_system_iff (next_of s []) s) in
      rw (one, same) (ground (arith, routes-in_system s 0 routes))

  mixed_places :
      (p : Place) (ps : List Place) (routes : List Route)
      → all_of (in_system p.canonical_system) ps ≡ false
      → is_empty (validate_coordinates next_of (p ∷ ps) routes) ≡ in_one_system (p ∷ ps) routes
  unfolding validate_coordinates
  mixed_places p ps routes h = elim (Bool-cases (ltb 1 (length (systems_of (p ∷ ps))))) [
    | inl several ↦ grind (arith, is_empty-append)
    | inr single ↦ absurd (
        ground (
          arith,
          place-has_system p.canonical_system (p ∷ ps) (ground arith) (first_has_system p ps),
        ))
  ]

  -- `validate_coordinates` reports nothing exactly when all places and all routes have one and the
  -- same coordinate system, whichever element of the set of systems `next(iter(systems))` gives.
  pub validate_coordinates-Exact :
      (places : List Place) (routes : List Route)
      → is_empty (validate_coordinates next_of places routes) ≡ in_one_system places routes
  unfolding validate_coordinates systems_of
  validate_coordinates-Exact [] routes = refl
  validate_coordinates-Exact (p ∷ ps) routes =
      elim (Bool-cases (all_of (in_system p.canonical_system) ps)) [
        | inl same ↦ same_places p ps routes same
        | inr mixed ↦ mixed_places p ps routes mixed
      ]
