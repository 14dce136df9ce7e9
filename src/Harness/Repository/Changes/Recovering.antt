-- ===== src/Harness/Repository/Changes/Recovering.antt =====
-- `recover_expired_leases` treats each row on its own.
use multi_agent_based_intell.Prelude.{
  ℕ, ◌+◌, String, ◌≡◌, refl, if_both, true, Option, none, some, [], ◌∷◌, arith, eq_iff, string_eq,
  pair_eq, is_unique, if◌then◌else◌,
}
use multi_agent_based_intell.Prelude.Dict
use multi_agent_based_intell.Prelude.Dict.{
  Dict, values, keys, get-put, contains-keys, put-is_unique,
}
use multi_agent_based_intell.Harness.Repository.Records.{TaskRecord, Repository}
use multi_agent_based_intell.Harness.Repository.Tasks.{
  is_expired, released_copy, recover_each, recover_expired_leases,
}
use multi_agent_based_intell.Harness.Repository.Leasing.{IsKeyed}
use multi_agent_based_intell.Harness.Repository.Requests.{recover}
use multi_agent_based_intell.Harness.Repository.Changes.Rows.{Change, kept, released}

-- What recovery leaves under an id, by its row in the snapshot and in the table.
abbrev pub recover_at : ℕ → Option TaskRecord → Option TaskRecord → Option TaskRecord
recover_at now none o = o
recover_at now (some t) o = if is_expired now t then some (released_copy t now) else o

pub get-recover_each :
    (now : ℕ) (l d : Dict String TaskRecord) (n : ℕ) (i : String)
    → is_unique (keys l) ≡ true
    → Dict.get (recover_each now l (n, d)).1 i ≡ recover_at now (Dict.get l i) (Dict.get d i)
unfolding recover_each Dict.get
get-recover_each now [] d n i u = refl
get-recover_each now ((k, t) ∷ rest) d n i u = ground (
  arith,
  get-recover_each now rest (Dict.put d k (released_copy t now)) (n + 1) i (ground arith),
  get-recover_each now rest d n i (ground arith),
  get-put d k i (released_copy t now),
  contains-keys rest k,
  eq_iff k i,
)

-- Recovery treats each row on its own.
pub get-recover :
    (s : Repository) (now : ℕ) (i : String)
    → IsKeyed s.tasks
    → Dict.get (recover_expired_leases s now).1.tasks i
      ≡ recover_at now (Dict.get s.tasks i) (Dict.get s.tasks i)
unfolding recover_expired_leases
get-recover s now i keyed = get-recover_each now s.tasks s.tasks 0 i keyed.distinct

pub recover-Change :
    (s : Repository) (now : ℕ) (i : String) (o : Option TaskRecord)
    → Change s.tasks i (recover now) o (recover_at now o o)
recover-Change s now i none = kept _ _
recover-Change s now i (some t) =
    if_both (λ o. Change s.tasks i (recover now) (some t) o) (is_expired now t)
      (λ over. released now t over) (λ _. kept _ _)
