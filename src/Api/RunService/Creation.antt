-- ===== src/Api/RunService/Creation.antt =====
-- Creation under an idempotency key.
use multi_agent_based_intell.Prelude.{
  ℕ, String, ◌≡◌, refl, Option, none, some, string_eq, Bool-cases, inl, inr, eq_iff,
}
use Prim.Native.String as Text
use multi_agent_based_intell.Prelude.Dict
use multi_agent_based_intell.Domain.TripRequest.{TripRequest}
use multi_agent_based_intell.Api.RunService.Runs.{Backend}
use multi_agent_based_intell.Api.RunService.{
  RunService, create_new, create_again, create_by, create, is_fixture_request, initial_run,
}

-- What the key of a new run leads to.
new_again :
    (backend : Backend) (s : RunService) (request : TripRequest) (key model_id fresh again : String)
    (now later : ℕ)
    → create_by backend
        (create_new backend s request key model_id fresh now).1
        request
        key
        model_id
        again
        later
        (Dict.get (create_new backend s request key model_id fresh now).1.idempotency key)
      ≡ create_new backend s request key model_id fresh now
new_again backend s request key model_id fresh again now later =
    let run_id = Text.◌++◌ "run_" fresh in
    let run = initial_run backend s run_id request model_id now in
    let digest = backend.request_digest request model_id in
    rw (Dict.get-put_self s.idempotency key (run_id, digest))
      (rw ((eq_iff digest digest).1 refl) (rw (Dict.get-put_self s.runs run_id run) refl))

again_kept :
    (backend : Backend) (s : RunService) (request : TripRequest) (model_id : String)
    (entry : String × String)
    → (create_again backend s request model_id entry).1 ≡ s
again_kept backend s request model_id (run_id, digest) = refl

by_twice :
    (backend : Backend) (s : RunService) (request : TripRequest) (key model_id fresh again : String)
    (now later : ℕ) (entry : Option (String × String))
    → Dict.get s.idempotency key ≡ entry
    → let first = create_by backend s request key model_id fresh now entry in
      create_by backend first.1 request key model_id again later (Dict.get first.1.idempotency key)
      ≡ first
by_twice backend s request key model_id fresh again now later none at =
    new_again backend s request key model_id fresh again now later
by_twice backend s request key model_id fresh again now later (some (run_id, digest)) at =
    rw at refl

-- A request sent again under its idempotency key has the first reply again, the token included and
-- a refusal too, whatever the clock and the random identifier are by then, and changes nothing.
pub create_twice :
    (backend : Backend) (s : RunService) (request : TripRequest) (key model_id fresh again : String)
    (now later : ℕ)
    → create backend
        (create backend s request key model_id fresh now).1
        request
        key
        model_id
        again
        later
      ≡ create backend s request key model_id fresh now
unfolding create
create_twice backend s request key model_id fresh again now later =
    elim (Bool-cases (is_fixture_request request)) [
      | inl served ↦
          rw served (by_twice backend s request key model_id fresh again now later _ refl)
      | inr refused ↦ rw refused refl
    ]
