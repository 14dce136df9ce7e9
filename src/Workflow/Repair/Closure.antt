-- ===== src/Workflow/Repair/Closure.antt =====
-- Which tasks a repair invalidates: the least set that holds the seeds and is closed under the
-- dependencies.
use multi_agent_based_intell.Prelude.{
  ℕ, ◌≤◌, ◌<◌, String, ◌≡◌, refl, inl, inr, Bool, true, false, not, ◌||◌, List, [], ◌∷◌, Memᴰ,
  arith, eq_iff, ◌==◌, string_eq, contains, any_of, all_of, select, length, Bool-cases, ap, subst,
}
use multi_agent_based_intell.Prelude.Dict.{Dict}
use multi_agent_based_intell.Workflow.Repair.{is_reached, sweep}

abbrev pub Rows : Type 0
Rows = Dict String (List String)

-- A row whose task is in the set if one of its dependencies is.
abbrev pub row_closed : (String → Bool) → String × List String → Bool
row_closed p row = not (any_of p row.1) || p row.0

abbrev is_missing : List String → String × List String → Bool
is_missing inv row = not (contains inv row.0)

-- How many tasks of the table are outside of the set.
abbrev pub missing_count : Rows → List String → ℕ
missing_count rows inv = length (select (is_missing inv) rows)

count-add :
    (rows : Rows) (inv : List String) (x : String)
    → missing_count rows (x ∷ inv) ≤ missing_count rows inv
count-add [] inv x = omega arith
count-add (row ∷ rows) inv x = ground (arith, count-add rows inv x)

count-new :
    (rows : Rows) (inv : List String) {row : String × List String}
    → Memᴰ row rows
    → contains inv row.0 ≡ false
    → missing_count rows (row.0 ∷ inv) < missing_count rows inv
count-new [] inv m h = elim m [ ]
count-new (r ∷ rows) inv {row} (Memᴰ.head e) h =
    ground (arith, ap (λ q. q.0) e, count-add rows inv row.0, eq_iff row.0 r.0)
count-new (r ∷ rows) inv {row} (Memᴰ.tail m) h = ground (arith, count-new rows inv m h)

-- What one pass does to the set.
pub record IsSweep (all rows : Rows) (inv : List String) (changed : Bool)
    (next : List String × Bool) : Type 0 where
  pub grows : (t : String) → contains inv t ≡ true → contains next.0 t ≡ true
  pub shrinks : missing_count all next.0 ≤ missing_count all inv
  pub progress : next.1 ≡ true → changed ≡ false → missing_count all next.0 < missing_count all inv
  pub stable :
      next.1 ≡ false
      → (changed ≡ false) × (next.0 ≡ inv) × (all_of (λ row. not (is_reached inv row)) rows ≡ true)
  pub least :
      (p : String → Bool)
      → all_of (row_closed p) rows ≡ true
      → ((t : String) → contains inv t ≡ true → p t ≡ true)
      → (t : String) → contains next.0 t ≡ true
      → p t ≡ true

reached-new :
    (inv : List String) (row : String × List String)
    → is_reached inv row ≡ true
    → contains inv row.0 ≡ false
reached-new inv row h = ground arith

pub any_of-implies :
    (p q : String → Bool) (xs : List String)
    → ((t : String) → p t ≡ true → q t ≡ true)
    → any_of p xs ≡ true
    → any_of q xs ≡ true
any_of-implies p q [] f h = absurd (ground arith)
any_of-implies p q (x ∷ xs) f h = elim (Bool-cases (p x)) [
  | inl holds ↦ ground (arith, f x holds)
  | inr fails ↦ ground (arith, any_of-implies p q xs f (ground arith))
]

-- The reached task of a row is in every closed set around the set so far.
reached_in :
    (p : String → Bool) (inv : List String) (row : String × List String)
    → is_reached inv row ≡ true
    → row_closed p row ≡ true
    → ((t : String) → contains inv t ≡ true → p t ≡ true)
    → (t : String) → contains (row.0 ∷ inv) t ≡ true
    → p t ≡ true
reached_in p inv row h c f t k = elim (Bool-cases (row.0 == t)) [
  | inl same ↦
      let there = any_of-implies (contains inv) p row.1 f (ground arith) in
      let here : p row.0 ≡ true = ground arith in
      subst (λ x. p x ≡ true) ((eq_iff row.0 t).0 same) here
  | inr other ↦ f t (ground arith)
]

pub sweep-IsSweep :
    (all rows : Rows) (inv : List String) (changed : Bool)
    → ((row : String × List String) → Memᴰ row rows → Memᴰ row all)
    → IsSweep all rows inv changed (sweep rows (inv, changed))
unfolding sweep
sweep-IsSweep all [] inv changed inside = record {
  grows = λ t h. h;
  shrinks = omega arith;
  progress = λ e h. absurd (ground arith);
  stable = λ e. (e, refl, refl);
  least = λ p c f. f;
}
sweep-IsSweep all (row ∷ rows) inv changed inside = elim (Bool-cases (is_reached inv row)) [
  | inl holds ↦
      let ih = sweep-IsSweep all rows (row.0 ∷ inv) true (λ r m. inside r (Memᴰ.tail m)) in
      let less = count-new all inv (inside row (Memᴰ.head refl)) (reached-new inv row holds) in
      rw holds (record {
        grows = λ t h. ih.grows t (ground arith);
        shrinks = omega (arith, ih.shrinks, less);
        progress = λ e h. omega (arith, ih.shrinks, less);
        stable = λ e. absurd (ground (arith, (ih.stable e).0));
        least = λ p c f. ih.least p (ground arith) (reached_in p inv row holds (ground arith) f);
      })
  | inr fails ↦
      let ih = sweep-IsSweep all rows inv changed (λ r m. inside r (Memᴰ.tail m)) in
      rw fails (record {
        grows = ih.grows;
        shrinks = ih.shrinks;
        progress = ih.progress;
        stable = λ e. let (a, b, c) = ih.stable e in (a, b, rw fails c);
        least = λ p c f. ih.least p (ground arith) f;
      })
]
