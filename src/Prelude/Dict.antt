-- ===== src/Prelude/Dict.antt =====
-- Python's `dict`: an association list in insertion order, where a write to a present key keeps
-- its place.
use mathlib.Core.List.{Memᴰ}
use Prim.Native.Nat.{suc, ◌≤◌}
use mathlib.Core.Path.{◌≡◌, refl, ap}
use mathlib.Core.Logic.{inl, inr}
use mathlib.Core.Bool.{Bool, true, ◌||◌}
use mathlib.Core.Option.{Option, none, some}
use mathlib.Core.List.{List, [], ◌∷◌, map}
use native.Mathlib.Omega.{arith}
use multi_agent_based_intell.Prelude.Tests.{if◌then◌else◌, Bool-cases, is_some, if_both}
use multi_agent_based_intell.Prelude.Equality.{Eq, ◌==◌}
use multi_agent_based_intell.Prelude.Lists.{contains, is_unique, length, All}

abbrev pub Dict {ℓ κ} : Type ℓ → Type κ → Type (ℓ ⊔ κ)
Dict K V = List (K × V)

module _ {ℓ κ} {K : Type ℓ} {V : Type κ} where
  abbrev pub keys : Dict K V → List K
  keys d = map (λ p. p.0) d

  abbrev pub values : Dict K V → List V
  values d = map (λ p. p.1) d

module _ {ℓ κ} {K : Type ℓ} {V : Type κ} ⦃e : Eq K⦄ where
  -- d.get(k)
  unfoldable pub get : Dict K V → K → Option V
  get [] k = none
  get ((j, v) ∷ d) k = if j == k then some v else get d k

  -- d[k] = v
  unfoldable pub put : Dict K V → K → V → Dict K V
  put [] k v = (k, v) ∷ []
  put ((j, w) ∷ d) k v = if j == k then (j, v) ∷ d else (j, w) ∷ put d k v

  -- `k in d`
  abbrev pub has : Dict K V → K → Bool
  has d k = is_some (get d k)

  pub get-put :
      (d : Dict K V) (k j : K) (v : V) → get (put d k v) j ≡ (if k == j then some v else get d j)
  unfolding get put
  get-put [] k j v = refl
  get-put ((i, w) ∷ d) k j v =
      ground (arith, get-put d k j v, e.beq_iff i k, e.beq_iff i j, e.beq_iff k j)

  pub get-put_self : (d : Dict K V) (k : K) (v : V) → get (put d k v) k ≡ some v
  get-put_self d k v = ground (arith, get-put d k k v, e.beq_iff k k)

  pub contains-keys : (d : Dict K V) (k : K) → contains (keys d) k ≡ has d k
  unfolding get
  contains-keys [] k = refl
  contains-keys ((j, v) ∷ d) k = ground (arith, contains-keys d k)

  pub contains-keys-put :
      (d : Dict K V) (k j : K) (v : V)
      → contains (keys (put d k v)) j ≡ (k == j || contains (keys d) j)
  unfolding put
  contains-keys-put [] k j v = refl
  contains-keys-put ((i, w) ∷ d) k j v =
      ground (arith, contains-keys-put d k j v, e.beq_iff i k, e.beq_iff i j, e.beq_iff k j)

  -- The keys of a dict built by writes are distinct.
  pub put-is_unique :
      (d : Dict K V) (k : K) (v : V)
      → is_unique (keys d) ≡ true
      → is_unique (keys (put d k v)) ≡ true
  unfolding put
  put-is_unique [] k v h = refl
  put-is_unique ((i, w) ∷ d) k v h =
      ground (arith, put-is_unique d k v, contains-keys-put d k i v, e.beq_iff i k, e.beq_iff k i)

  -- What holds of every item and of the value written, under any key equal to its own.
  pub All-put {μ} :
      (P : K × V → Type μ) (d : Dict K V) (k : K) (v : V)
      → ((j : K) → j ≡ k → P (j, v))
      → All P d
      → All P (put d k v)
  unfolding put
  All-put P [] k v new a = (new k refl, tt)
  All-put P ((j, w) ∷ d) k v new a =
      if_both (All P) (j == k) (λ same. (new j ((e.beq_iff j k).0 same), a.1))
        (λ other. (a.0, All-put P d k v new a.1))

  -- Every stored value is found under its key.
  pub get_of_mem :
      (d : Dict K V) {k : K} {v : V} → is_unique (keys d) ≡ true → Memᴰ (k, v) d → get d k ≡ some v
  unfolding get
  get_of_mem [] h m = elim m [ ]
  get_of_mem ((i, w) ∷ d) {k} {v} h (Memᴰ.head p) = ground (arith, p, e.beq_iff i k)
  get_of_mem ((i, w) ∷ d) {k} {v} h (Memᴰ.tail m) =
      ground (arith, get_of_mem d (ground arith) m, contains-keys d i, e.beq_iff i k)

  pub mem_of_get : (d : Dict K V) {k : K} {v : V} → get d k ≡ some v → Memᴰ (k, v) d
  unfolding get
  mem_of_get [] h = absurd (cc)
  mem_of_get ((i, w) ∷ d) {k} {v} h = elim (Bool-cases (i == k)) [
    | inl same ↦ Memᴰ.head (cc ((e.beq_iff i k).0 same, here same))
    | inr other ↦ Memᴰ.tail (mem_of_get d (ground arith))
  ]
    where
      here : (i == k) ≡ true → w ≡ v
      here same = ground arith

  pub length-put_new :
      (d : Dict K V) (k : K) (v : V) → get d k ≡ none → length (put d k v) ≡ suc (length d)
  unfolding get put
  length-put_new [] k v h = refl
  length-put_new ((i, w) ∷ d) k v h = ground (arith, length-put_new d k v)

  pub length-put-le : (d : Dict K V) (k : K) (v : V) → length d ≤ length (put d k v)
  unfolding put
  length-put-le [] k v = omega arith
  length-put-le ((i, w) ∷ d) k v = ground (arith, length-put-le d k v)

  -- A value of a dict with distinct keys is found under some key.
  pub get_of_value :
      (d : Dict K V) {v : V}
      → is_unique (keys d) ≡ true
      → Memᴰ v (values d)
      → (k : K) × (get d k ≡ some v)
  get_of_value d {v} u m = let (k, at) = entry d m in (k, get_of_mem d u at)
    where
      entry : (l : Dict K V) → Memᴰ v (values l) → (k : K) × Memᴰ (k, v) l
      entry [] n = elim n [ ]
      entry ((i, w) ∷ l) (Memᴰ.head p) = (i, Memᴰ.head (cc))
      entry ((i, w) ∷ l) (Memᴰ.tail n) = let (k, at) = entry l n in (k, Memᴰ.tail at)

  pub value_of_get : (d : Dict K V) (k : K) {v : V} → get d k ≡ some v → Memᴰ v (values d)
  value_of_get d k {v} h = value d (mem_of_get d h)
    where
      value : (l : Dict K V) → Memᴰ (k, v) l → Memᴰ v (values l)
      value [] m = elim m [ ]
      value ((i, w) ∷ l) (Memᴰ.head p) = Memᴰ.head (ap (λ (q : K × V). q.1) p)
      value ((i, w) ∷ l) (Memᴰ.tail m) = Memᴰ.tail (value l m)
