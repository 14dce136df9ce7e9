-- ===== src/Api/RunService/Readers.antt =====
-- The operations of apps/api/run_service.py that read a run.
use multi_agent_based_intell.Prelude.{
  ℕ, String, Result, ok, err, ◌>>=◌, ◌==◌, string_eq, nat_eq, length, if◌then◌else◌,
}
use Prim.Native.String as Text
use multi_agent_based_intell.Prelude.Dict
use multi_agent_based_intell.Prelude.Dict.{Dict, keys}
use multi_agent_based_intell.Prelude.Strings.{show_nat}
use multi_agent_based_intell.Api.RunModels.{
  TripRunResource, TripRunResultResponse, PlanComparisonResponse, RunVersionList, RunVersionDiff,
}
use multi_agent_based_intell.Api.RunService.Paths.{changed_paths}
use multi_agent_based_intell.Api.RunService.Runs.{RunError, not_found, conflict, Backend, or_error}
use multi_agent_based_intell.Api.RunService.{RunService, authorized}

module _ (backend : Backend) where
  -- The operations that read.
  unfoldable pub get : RunService → String → String → Result RunError TripRunResource
  unfolding authorized
  get s run_id token = authorized backend s run_id token >>= λ run. ok run.resource

  unfoldable pub result : RunService → String → String → Result RunError TripRunResultResponse
  unfolding authorized
  result s run_id token = authorized backend s run_id token >>= λ run.
      if run.resource.result_available then ok run.result else err conflict

  unfoldable pub comparison : RunService → String → String → Result RunError PlanComparisonResponse
  unfolding result
  comparison s run_id token = result s run_id token >>= λ response. ok (record {
    run_id = run_id;
    comparison = response.bundle.comparison;
    generated_at = response.bundle.generated_at;
  })

  unfoldable pub versions : RunService → String → String → Result RunError RunVersionList
  unfolding authorized
  versions s run_id token = authorized backend s run_id token >>= λ run.
      ok (record { run_id = run_id; versions = run.version_summaries })

  abbrev summary_text : ℕ → ℕ → ℕ → String
  summary_text before after count = Text.◌++◌ "版本 " (
      Text.◌++◌ (show_nat before) (
        Text.◌++◌ " → "
          (Text.◌++◌ (show_nat after) (Text.◌++◌ " 共改变 " (Text.◌++◌ (show_nat count) " 个结构化路径")))))

  unfoldable pub diff : RunService → String → String → ℕ → ℕ → Result RunError RunVersionDiff
  unfolding authorized
  diff s run_id token from_version to_version = authorized backend s run_id token >>= λ run.
      or_error (Dict.get run.versions from_version) not_found >>= λ before.
      or_error (Dict.get run.versions to_version) not_found >>= λ after.
      let changed =
        changed_paths (backend.model_dump before.bundle) (backend.model_dump after.bundle) "$" in
      ok (record {
        run_id = run_id;
        from_version = from_version;
        to_version = to_version;
        changed_paths = changed;
        summary = summary_text from_version to_version (length changed);
      })

  -- The text and its media type.
  unfoldable pub export : RunService → String → String → String → Result RunError (String × String)
  unfolding result
  export s run_id token format_name = result s run_id token >>= λ response.
      if format_name == "markdown"
      then ok (response.markdown, "text/markdown; charset=utf-8")
      else if format_name == "json"
      then ok (backend.dump_json response.bundle, "application/json")
      else err conflict
