-- ===== src/Harness/Scheduler/Graph/Acyclic.antt =====
-- What `_validate_acyclic` excludes.
use multi_agent_based_intell.Prelude.{
  ℕ, zero, suc, String, ◌≡◌, subst, inl, inr, Bool, true, false, not, List, [], ◌∷◌, Memᴰ, ok,
  arith, string_eq, contains, contains-mem, is_empty, select, mem-select, mem-of-select, mem-map,
  mem-of-map, ap, Bool-cases,
}
use multi_agent_based_intell.Harness.Scheduler.Graph.{
  Remaining, ready_ids, without_dependencies, left_over, difference, peel, validate_acyclic,
}

-- Ids of `remaining`, each of which depends on another of them.
pub record IsStuck (stuck : String → Bool) (remaining : Remaining) : Type 0 where
  pub inside : (id : String) → stuck id ≡ true → (ds : List String) × Memᴰ (id, ds) remaining
  pub blocked :
      (id : String) (ds : List String)
      → Memᴰ (id, ds) remaining
      → stuck id ≡ true
      → (d : String) × Memᴰ d ds × (stuck d ≡ true)

module _ (stuck : String → Bool) where
  ready-mem :
      (r : Remaining) (id : String)
      → contains (ready_ids r) id ≡ true
      → (ds : List String) × Memᴰ (id, ds) r × (is_empty ds ≡ true)
  ready-mem r id h =
      let (p, m, own) =
        mem-of-map (λ p. p.0) (select without_dependencies r) (contains-mem (ready_ids r) id h) in
      let (n, none_left) = mem-of-select without_dependencies r m in
      (p.1, subst (λ i. Memᴰ (i, p.1) r) own n, none_left)

  stuck-not_ready :
      (r : Remaining) (id : String)
      → IsStuck stuck r
      → stuck id ≡ true
      → contains (ready_ids r) id ≡ false
  stuck-not_ready r id s h = elim (Bool-cases (contains (ready_ids r) id)) [
    | inr away ↦ away
    | inl ready ↦
        let (ds, m, nothing) = ready-mem r id ready in
        let (d, n, _) = s.blocked id ds m h in absurd (ground (arith, nonempty ds n nothing))
  ]
    where
      nonempty : (ds : List String) {d : String} → Memᴰ d ds → is_empty ds ≡ true → false ≡ true
      nonempty [] m e = elim m [ ]
      nonempty (x ∷ ds) m e = e

  peel-IsStuck : (r : Remaining) → IsStuck stuck r → IsStuck stuck (peel r)
  peel-IsStuck r s = record {
    inside = λ id h.
        let (ds, m) = s.inside id h in
        let away = stuck-not_ready r id s h in
        (
          select (λ d. not (contains (ready_ids r) d)) ds,
          mem-map (difference (ready_ids r)) (select (left_over (ready_ids r)) r)
              (mem-select (left_over (ready_ids r)) r m (ground arith)),
        );
    blocked = λ id ds m h.
        let (p, n, e) =
          mem-of-map (difference (ready_ids r)) (select (left_over (ready_ids r)) r) m in
        let (k, _) = mem-of-select (left_over (ready_ids r)) r n in
        let (d, l, t) = s.blocked p.0 p.1 k (ground arith) in
        let away = stuck-not_ready r d s t in
        (
          d,
          subst (λ q. Memᴰ d q) (ap (λ q. q.1) e)
              (mem-select (λ x. not (contains (ready_ids r) x)) p.1 l (ground arith)),
          t,
        );
  }

  -- A graph that `_validate_acyclic` accepts has no set of ids each of which depends on another one
  -- of the set, so it has no cycle.
  pub validate_acyclic-IsAcyclic :
      (fuel : ℕ) (r : Remaining) (id : String)
      → validate_acyclic fuel r ≡ ok tt
      → IsStuck stuck r
      → stuck id ≡ false
  unfolding validate_acyclic
  validate_acyclic-IsAcyclic fuel [] id e s = elim (Bool-cases (stuck id)) [
    | inr free ↦ free
    | inl h ↦ let (ds, m) = s.inside id h in elim m [ ]
  ]
  validate_acyclic-IsAcyclic zero (p ∷ r) id e s = absurd (cc)
  validate_acyclic-IsAcyclic (suc fuel) (p ∷ r) id e s =
      validate_acyclic-IsAcyclic fuel (peel (p ∷ r)) id (ground arith) (peel-IsStuck (p ∷ r) s)
