-- ===== src/Api/RunService/Leads.antt =====
-- Run identifiers are distinct, and idempotency keys lead to stored runs, after each request.
use multi_agent_based_intell.Prelude.{
  ℕ, String, ◌≡◌, refl, true, false, not, Option, none, some, List, [], ◌∷◌, Result, ok, err, ◌>>=◌,
  arith, ◌==◌, string_eq, All, contains, is_unique, if_both, Bool-cases, inl, inr, select, eq_iff,
  ◌∙◌,
}
use Prim.Native.String as Text
use multi_agent_based_intell.Prelude.Dict
use multi_agent_based_intell.Prelude.Dict.{Dict, keys}
use multi_agent_based_intell.Domain.TripRequest.{TripRequest}
use multi_agent_based_intell.Api.RunService.Runs.{
  RunError, StoredTripRun, Backend, cancel_run, clarify_run, replan_run, restore_run,
}
use multi_agent_based_intell.Api.RunService.Requests.{
  Call, creating, cancelling, clarifying, replanning, restoring, deleting, serve,
}
use multi_agent_based_intell.Api.RunService.{
  RunService, Reply, authorized, written, on_run, initial_run, create_by, create,
  is_fixture_request, remove, deleted, delete,
}

-- The identifiers that the idempotency keys lead to.
abbrev Led : (List String) → Dict String (String × String) → Type 0
Led ids entries = All (λ entry. contains ids entry.1.0 ≡ true) entries

Led-more :
    (ids more : List String) (entries : Dict String (String × String))
    → ((k : String) → contains ids k ≡ true → contains more k ≡ true)
    → Led ids entries
    → Led more entries
Led-more ids more [] h led = tt
Led-more ids more (entry ∷ entries) h led = (h entry.1.0 led.0, Led-more ids more entries h led.1)

put_more :
    {V : Type 0} (d : Dict String V) (k : String) (v : V) (j : String)
    → contains (keys d) j ≡ true
    → contains (keys (Dict.put d k v)) j ≡ true
put_more d k v j h = ground (arith, Dict.contains-keys-put d k j v)

contains-remove :
    {V : Type 0} (d : Dict String V) (k j : String)
    → j == k ≡ false
    → contains (keys (remove k d)) j ≡ contains (keys d) j
contains-remove [] k j h = refl
contains-remove ((i, v) ∷ d) k j h =
    ground (arith, contains-remove d k j, eq_iff i j, eq_iff i k, eq_iff j k)

remove-Led :
    {V : Type 0} (d : Dict String V) (k : String) (entries : Dict String (String × String))
    → Led (keys d) entries
    → Led (keys (remove k d)) (select (λ entry. not (entry.1.0 == k)) entries)
remove-Led d k [] led = tt
remove-Led d k (entry ∷ entries) led = elim (Bool-cases (entry.1.0 == k)) [
  | inl same ↦ rw same (remove-Led d k entries led.1)
  | inr other ↦
      rw other ((contains-remove d k entry.1.0 other ∙ led.0, remove-Led d k entries led.1))
]

remove-is_unique :
    {V : Type 0} (d : Dict String V) (k : String)
    → is_unique (keys d) ≡ true
    → is_unique (keys (remove k d)) ≡ true
remove-is_unique [] k h = refl
remove-is_unique ((i, v) ∷ d) k h = elim (Bool-cases (i == k)) [
  | inl same ↦ rw same (remove-is_unique d k (ground arith))
  | inr other ↦ rw other (ground (arith, remove-is_unique d k, contains-remove d k i other))
]

-- Distinct identifiers, and keys that lead to them.
abbrev pub KeysLead : RunService → Type 0
KeysLead s = is_unique (keys s.runs) ≡ true × Led (keys s.runs) s.idempotency

written-KeysLead :
    {A : Type 0} (s : RunService) (run_id : String) (r : Result RunError (A × StoredTripRun))
    → KeysLead s
    → KeysLead (written s run_id r).1
written-KeysLead s run_id (err e) led = led
written-KeysLead s run_id (ok (a, run)) led = (
  Dict.put-is_unique s.runs run_id run led.0,
  Led-more (keys s.runs) _ s.idempotency (put_more s.runs run_id run) led.1,
)

on_run-KeysLead :
    {A : Type 0} (backend : Backend) (step : StoredTripRun → Result RunError (A × StoredTripRun))
    (s : RunService) (run_id token : String)
    → KeysLead s
    → KeysLead (on_run backend step s run_id token).1
unfolding on_run
on_run-KeysLead backend step s run_id token led =
    written-KeysLead s run_id (authorized backend s run_id token >>= step) led

deleted-KeysLead :
    (s : RunService) (run_id : String) (found : Result RunError StoredTripRun)
    → KeysLead s
    → KeysLead (deleted s run_id found).1
deleted-KeysLead s run_id (err e) led = led
deleted-KeysLead s run_id (ok run) led =
    (remove-is_unique s.runs run_id led.0, remove-Led s.runs run_id s.idempotency led.1)

create_by-KeysLead :
    (backend : Backend) (s : RunService) (request : TripRequest) (key model_id fresh : String)
    (now : ℕ) (entry : Option (String × String))
    → KeysLead s
    → KeysLead (create_by backend s request key model_id fresh now entry).1
create_by-KeysLead backend s request key model_id fresh now none led =
    let run_id = Text.◌++◌ "run_" fresh in
    let run = initial_run backend s run_id request model_id now in
    let digest = backend.request_digest request model_id in
    (
      Dict.put-is_unique s.runs run_id run led.0,
      Dict.All-put (λ entry. contains (keys (Dict.put s.runs run_id run)) entry.1.0 ≡ true)
          s.idempotency key (run_id, digest)
          (λ j e.
            ground (arith, Dict.contains-keys-put s.runs run_id run_id run, eq_iff run_id run_id))
          (Led-more (keys s.runs) _ s.idempotency (put_more s.runs run_id run) led.1),
    )
create_by-KeysLead backend s request key model_id fresh now (some entry) led = led

pub serve-KeysLead :
    (backend : Backend) (s : RunService) (call : Call)
    → KeysLead s
    → KeysLead (serve backend s call)
unfolding create delete
serve-KeysLead backend s (creating request key model_id fresh now) led =
    if_both (λ (r : Reply _). KeysLead r.1) (is_fixture_request request)
      (λ e.
        create_by-KeysLead backend s request key model_id fresh now (Dict.get s.idempotency key)
          led)
      (λ e. led)
serve-KeysLead backend s (cancelling run_id token now) led =
    on_run-KeysLead backend (cancel_run now) s run_id token led
serve-KeysLead backend s (clarifying run_id token answer now) led =
    on_run-KeysLead backend (clarify_run answer now) s run_id token led
serve-KeysLead backend s (replanning run_id token request now) led =
    on_run-KeysLead backend (replan_run backend request now) s run_id token led
serve-KeysLead backend s (restoring run_id token version now) led =
    on_run-KeysLead backend (restore_run version now) s run_id token led
serve-KeysLead backend s (deleting run_id token) led =
    deleted-KeysLead s run_id (authorized backend s run_id token) led
