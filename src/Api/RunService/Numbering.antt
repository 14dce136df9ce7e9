-- ===== src/Api/RunService/Numbering.antt =====
-- Lists of version numbers, and of the summaries of versions.
use multi_agent_based_intell.Prelude.{
  ℕ, zero, suc, ◌≤◌, ◌≡◌, refl, sym, ap, ◌∙◌, Bool, true, false, List, [], ◌∷◌, ◌++◌, map, arith,
  leb, nat_beq, nat_beq_iff, nat_eq, string_eq, length, length-append, contains, all_of,
}
use multi_agent_based_intell.Prelude.Dict
use multi_agent_based_intell.Prelude.Dict.{Dict, keys}
use multi_agent_based_intell.Api.RunModels.{RunVersionSummary}
use multi_agent_based_intell.Api.RunService.Runs.{highest, not_current}

-- 1, …, n
abbrev pub up_to : ℕ → List ℕ
up_to zero = []
up_to (suc n) = up_to n ++ suc n ∷ []

pub length-up_to : (n : ℕ) → length (up_to n) ≡ n
length-up_to zero = refl
length-up_to (suc n) = omega (arith, length-up_to n, length-append (up_to n) (suc n ∷ []))

pub all_of-append :
    (p : ℕ → Bool) (xs : List ℕ) (x : ℕ)
    → all_of p xs ≡ true
    → p x ≡ true
    → all_of p (xs ++ x ∷ []) ≡ true
all_of-append p [] x h k = ground arith
all_of-append p (y ∷ ys) x h k = ground (arith, all_of-append p ys x)

-- No number up to n is above m, where n is not.
pub up_to_bounded : (n m : ℕ) → n ≤ m → all_of (λ v. leb v m) (up_to n) ≡ true
up_to_bounded zero m h = refl
up_to_bounded (suc n) m h =
    all_of-append (λ v. leb v m) (up_to n) (suc n) (up_to_bounded n m (omega arith)) (ground arith)

pub bounded-contains :
    (xs : List ℕ) (m : ℕ) → all_of (λ v. leb v m) xs ≡ true → contains xs (suc m) ≡ false
bounded-contains [] m h = refl
bounded-contains (x ∷ xs) m h = ground (arith, bounded-contains xs m)

pub highest-append : (xs : List ℕ) (m : ℕ) → highest xs ≤ m → highest (xs ++ suc m ∷ []) ≡ suc m
highest-append [] m h = ground arith
highest-append (x ∷ xs) m h = ground (arith, highest-append xs m)

pub highest-up_to : (n : ℕ) → highest (up_to n) ≡ n
highest-up_to zero = refl
highest-up_to (suc n) = highest-append (up_to n) n (omega (arith, highest-up_to n))

pub put_new {ℓ} :
    {V : Type ℓ} (d : Dict ℕ V) (k : ℕ) (v : V)
    → contains (keys d) k ≡ false
    → Dict.put d k v ≡ d ++ (k, v) ∷ []
unfolding Dict.put
put_new [] k v h = refl
put_new ((j, w) ∷ d) k v h = ground (arith, put_new d k v)

pub keys-append {ℓ} :
    {V : Type ℓ} (d : Dict ℕ V) (k : ℕ) (v : V) → keys (d ++ (k, v) ∷ []) ≡ keys d ++ k ∷ []
keys-append [] k v = refl
keys-append ((j, w) ∷ d) k v = ap (λ l. j ∷ l) (keys-append d k v)

pub length-keys {ℓ} : {V : Type ℓ} (d : Dict ℕ V) → length d ≡ length (keys d)
length-keys [] = refl
length-keys (x ∷ d) = ap suc (length-keys d)

abbrev pub summary_versions : List RunVersionSummary → List ℕ
summary_versions summaries = map (λ (item : RunVersionSummary). item.version) summaries

abbrev pub current_flags : List RunVersionSummary → List Bool
current_flags summaries = map (λ (item : RunVersionSummary). item.current) summaries

-- Which of the versions is the given one.
abbrev pub flags_of : ℕ → List ℕ → List Bool
flags_of current versions = map (λ v. nat_beq v current) versions

pub map-append {ℓ κ} :
    {A : Type ℓ} {B : Type κ} (f : A → B) (xs : List A) (x : A)
    → map f (xs ++ x ∷ []) ≡ map f xs ++ f x ∷ []
map-append f [] x = refl
map-append f (y ∷ ys) x = ap (λ l. f y ∷ l) (map-append f ys x)

pub cleared_versions :
    (summaries : List RunVersionSummary)
    → summary_versions (map not_current summaries) ≡ summary_versions summaries
cleared_versions [] = refl
cleared_versions (item ∷ summaries) = ap (λ l. item.version ∷ l) (cleared_versions summaries)

pub cleared_flags :
    (summaries : List RunVersionSummary) (m : ℕ)
    → all_of (λ v. leb v m) (summary_versions summaries) ≡ true
    → current_flags (map not_current summaries) ≡ flags_of (suc m) (summary_versions summaries)
cleared_flags [] m h = refl
cleared_flags (item ∷ summaries) m h = ground (arith, cleared_flags summaries m)

-- The marks once a version above all others is added.
pub flags_next :
    (n next : ℕ)
    → next ≡ suc n
    → (summaries : List RunVersionSummary) (versions : List ℕ)
    → summary_versions summaries ≡ versions
    → all_of (λ v. leb v n) versions ≡ true
    → current_flags (map not_current summaries) ++ true ∷ [] ≡ flags_of next (versions ++ next ∷ [])
flags_next n next e summaries versions same bounded =
    ap (λ l. l ++ true ∷ [])
      (cleared_flags summaries n (rw same bounded) ∙ cc (e, ap (flags_of (suc n)) same))
    ∙ ap (λ b. flags_of next versions ++ b ∷ []) (sym ((nat_beq_iff next next).1 refl))
    ∙ sym (map-append (λ v. nat_beq v next) versions next)

abbrev pub marked : ℕ → RunVersionSummary → RunVersionSummary
marked version item = record item { current = nat_beq item.version version }

pub marked_versions :
    (version : ℕ) (summaries : List RunVersionSummary)
    → summary_versions (map (marked version) summaries) ≡ summary_versions summaries
marked_versions version [] = refl
marked_versions version (item ∷ summaries) =
    ap (λ l. item.version ∷ l) (marked_versions version summaries)

pub marked_flags :
    (version : ℕ) (summaries : List RunVersionSummary)
    → current_flags (map (marked version) summaries) ≡ flags_of version (summary_versions summaries)
marked_flags version [] = refl
marked_flags version (item ∷ summaries) =
    ap (λ l. nat_beq item.version version ∷ l) (marked_flags version summaries)
