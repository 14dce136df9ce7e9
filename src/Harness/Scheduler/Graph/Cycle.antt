-- ===== src/Harness/Scheduler/Graph/Cycle.antt =====
-- What a graph looks like that `_validate_acyclic` turns down, and why the rounds suffice.
use multi_agent_based_intell.Prelude.{
  ℕ, zero, suc, ◌≤◌, ◌<◌, String, ◌≡◌, refl, sym, subst, inl, inr, Bool, true, false, not, List, [],
  ◌∷◌, Memᴰ, map, err, arith, string_eq, contains, contains-mem, mem-contains, is_empty, select,
  mem-select, mem-of-select, mem-map, mem-of-map, ap, Bool-cases, length, length-select-le,
}
use multi_agent_based_intell.Harness.Scheduler.Graph.{
  GraphError, cycle, Remaining, ready_ids, without_dependencies, left_over, difference, peel,
  validate_acyclic,
}
use multi_agent_based_intell.Harness.Scheduler.Graph.Acyclic.{IsStuck}

abbrev ids_of : Remaining → List String
ids_of r = map (λ p. p.0) r

-- Every dependency is an id of the table.
pub record IsClosedGraph (r : Remaining) : Type 0 where
  pub known :
      (id : String) (ds : List String) (d : String)
      → Memᴰ (id, ds) r
      → Memᴰ d ds
      → (es : List String) × Memᴰ (d, es) r

length-map :
    (f : String × List String → String × List String) (r : Remaining) → length (map f r) ≡ length r
length-map f [] = refl
length-map f (p ∷ r) = omega (arith, length-map f r)

select-shorter :
    (p : String × List String → Bool) (r : Remaining) {x : String × List String}
    → Memᴰ x r
    → p x ≡ false
    → length (select p r) < length r
select-shorter p [] m h = elim m [ ]
select-shorter p (y ∷ r) (Memᴰ.head e) h = ground (arith, ap p e, length-select-le p r)
select-shorter p (y ∷ r) (Memᴰ.tail m) h = ground (arith, select-shorter p r m h)

first_of : (xs : List String) → is_empty xs ≡ false → (x : String) × Memᴰ x xs
first_of [] h = absurd (ground arith)
first_of (x ∷ xs) h = (x, Memᴰ.head refl)

peel-shorter : (r : Remaining) → is_empty (ready_ids r) ≡ false → length (peel r) < length r
peel-shorter r h =
    let (id, m) = first_of (ready_ids r) h in
    let (p, n, own) = mem-of-map (λ p. p.0) (select without_dependencies r) m in
    let (k, _) = mem-of-select without_dependencies r n in
    let taken : left_over (ready_ids r) p ≡ false =
      ground (arith, own, mem-contains (ready_ids r) m) in
    omega (
      arith,
      length-map (difference (ready_ids r)) (select (left_over (ready_ids r)) r),
      select-shorter (left_over (ready_ids r)) r k taken,
    )

left-kept :
    (r : Remaining) (id : String) (ds : List String)
    → Memᴰ (id, ds) r
    → contains (ready_ids r) id ≡ false
    → Memᴰ (difference (ready_ids r) (id, ds)) (peel r)
left-kept r id ds m h =
    mem-map (difference (ready_ids r)) (select (left_over (ready_ids r)) r)
      (mem-select (left_over (ready_ids r)) r m (ground arith))

-- A row of the peeled table comes from a row whose id is not ready.
left-old :
    (r : Remaining) (id : String) (ds : List String)
    → Memᴰ (id, ds) (peel r)
    → (es : List String) × Memᴰ (id, es) r
      × (contains (ready_ids r) id ≡ false)
      × (ds ≡ select (λ d. not (contains (ready_ids r) d)) es)
left-old r id ds m =
    let (p, n, e) = mem-of-map (difference (ready_ids r)) (select (left_over (ready_ids r)) r) m in
    let (k, stays) = mem-of-select (left_over (ready_ids r)) r n in
    let own : p.0 ≡ id = ap (λ q. q.0) e in
    (p.1, subst (λ i. Memᴰ (i, p.1) r) own k, ground (arith, own), sym (ap (λ q. q.1) e))

peel-IsClosedGraph : (r : Remaining) → IsClosedGraph r → IsClosedGraph (peel r)
peel-IsClosedGraph r c = record {
  known = λ id ds d m n.
      let (es, k, away, same) = left-old r id ds m in
      let (l, stays) =
        mem-of-select (λ x. not (contains (ready_ids r) x)) es (subst (λ xs. Memᴰ d xs) same n) in
      let (fs, j) = c.known id es d k l in (_, left-kept r d fs j (ground arith));
}

unpeel-IsStuck : (stuck : String → Bool) (r : Remaining) → IsStuck stuck (peel r) → IsStuck stuck r
unpeel-IsStuck stuck r s = record {
  inside = λ id h. let (ds, m) = s.inside id h in let (es, k, _, _) = left-old r id ds m in (es, k);
  blocked = λ id es m h.
      let (ds, n) = s.inside id h in
      let (fs, k, away, _) = left-old r id ds n in
      let (d, l, t) = s.blocked id _ (left-kept r id es m away) h in
      (d, (mem-of-select (λ x. not (contains (ready_ids r) x)) es l).0, t);
}

row_of :
    (r : Remaining) (id : String)
    → contains (ids_of r) id ≡ true
    → (ds : List String) × Memᴰ (id, ds) r
row_of r id h =
    let (p, m, own) = mem-of-map (λ p. p.0) r (contains-mem (ids_of r) id h) in
    (p.1, subst (λ i. Memᴰ (i, p.1) r) own m)

holds_none : (xs : List String) (x : String) → is_empty xs ≡ true → contains xs x ≡ false
holds_none [] x e = refl
holds_none (y ∷ xs) x e = absurd (ground arith)

-- With no id ready, all the ids are stuck.
all-IsStuck :
    (r : Remaining)
    → IsClosedGraph r
    → is_empty (ready_ids r) ≡ true
    → IsStuck (contains (ids_of r)) r
all-IsStuck r c none_ready = record {
  inside = row_of r;
  blocked = λ id ds m h.
      let (d, n) = first_of ds (waits id ds m) in
      let (es, k) = c.known id ds d m n in (d, n, mem-contains (ids_of r) (mem-map (λ p. p.0) r k));
}
  where
    waits : (id : String) (ds : List String) → Memᴰ (id, ds) r → is_empty ds ≡ false
    waits id ds m = elim (Bool-cases (is_empty ds)) [
      | inr some_left ↦ some_left
      | inl free ↦
          let there =
            mem-map (λ p. p.0) (select without_dependencies r)
              (mem-select without_dependencies r m free) in
          absurd (
            ground
              (arith, mem-contains (ready_ids r) there, holds_none (ready_ids r) id none_ready))
    ]

-- A graph of known dependencies that `_validate_acyclic` turns down has ids each of which depends
-- on another of them; the rounds it is given are enough, so it never gives up for want of them.
pub validate_acyclic-cycle :
    (fuel : ℕ) (r : Remaining) (error : GraphError)
    → IsClosedGraph r
    → length r ≤ fuel
    → validate_acyclic fuel r ≡ err error
    → (error ≡ cycle)
      × ((stuck : String → Bool) × (id : String) × (stuck id ≡ true) × IsStuck stuck r)
unfolding validate_acyclic
validate_acyclic-cycle fuel [] error c le e = absurd (cc)
validate_acyclic-cycle zero (p ∷ r) error c le e = absurd (omega arith)
validate_acyclic-cycle (suc fuel) (p ∷ r) error c le e =
    elim (Bool-cases (is_empty (ready_ids (p ∷ r)))) [
      | inl none_ready ↦ (
        ground arith,
        (
          contains (ids_of (p ∷ r)),
          p.0,
          mem-contains (ids_of (p ∷ r)) (Memᴰ.head refl),
          all-IsStuck (p ∷ r) c none_ready,
        ),
      )
      | inr some_ready ↦
          let (which, (stuck, id, h, s)) =
            validate_acyclic-cycle fuel (peel (p ∷ r)) error (peel-IsClosedGraph (p ∷ r) c)
              (omega (arith, peel-shorter (p ∷ r) some_ready)) (ground arith) in
          (which, (stuck, id, h, unpeel-IsStuck stuck (p ∷ r) s))
    ]
