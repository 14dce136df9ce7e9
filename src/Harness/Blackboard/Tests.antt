-- ===== src/Harness/Blackboard/Tests.antt =====
-- Runs of the Blackboard on small inputs, and the theorems at such inputs.
use multi_agent_based_intell.Prelude.{
  ℕ, String, ◌≡◌, refl, some, List, [], ◌∷◌, ◌++◌, ok, err, All, string_eq, pair_eq,
}
use multi_agent_based_intell.Prelude.Dict
use multi_agent_based_intell.Domain.Json.{end}
use multi_agent_based_intell.Harness.Blackboard.{
  ArtifactRecord, parent_missing, own_parent, empty_board, Board, head_key, write, get, lineage,
  check_parents, create, head_version,
}
use multi_agent_based_intell.Harness.Blackboard.Invariant.{
  IsConsistent, IsAccepted, empty_board-IsConsistent,
}
use multi_agent_based_intell.Harness.Blackboard.Write.{Outcome, write-Outcome, write-IsConsistent}
use multi_agent_based_intell.Harness.Blackboard.History.{write_all, get-write_all}
use multi_agent_based_intell.Harness.Blackboard.Lineage.{lineage-write_all}
use multi_agent_based_intell.Harness.Blackboard.Lineage.Topology.{IsTopological}
use multi_agent_based_intell.Harness.Blackboard.Lineage.Trails.{IsListed}

abbrev artifact : String → String → ℕ → List String → ArtifactRecord
artifact artifact_id task_id version parents = record {
  artifact_id = artifact_id;
  run_id = "run_one";
  task_id = task_id;
  artifact_type = "plan";
  schema_version = "1.0";
  version = version;
  producer_agent = "planner";
  parent_artifact_ids = parents;
  content_hash = "h";
  payload = end;
  created_at = 7;
}

abbrev first : ArtifactRecord
first = artifact "art_first" "task_plan" 1 []

abbrev second : ArtifactRecord
second = artifact "art_second" "task_plan" 2 ("art_first" ∷ [])

abbrev review : ArtifactRecord
review = artifact "art_review" "task_review" 1 ("art_first" ∷ "art_second" ∷ [])

abbrev calls : List (ArtifactRecord × ℕ)
calls = (first, 0) ∷ (second, 1) ∷ (second, 0) ∷ (review, 0) ∷ []

writes_by_turn :
    (write_all empty_board calls).heads ≡ (head_key first, 2) ∷ (head_key review, 1) ∷ []
unfolding write_all write check_parents Dict.get Dict.put
writes_by_turn = refl

unknown_parent :
    (write empty_board (artifact "art_x" "task_plan" 1 ("art_y" ∷ [])) 0).0
    ≡ err (parent_missing "art_y")
unfolding write check_parents Dict.get
unknown_parent = refl

lineage_of_review :
    lineage (write_all empty_board calls) "art_review" ≡ ok (first ∷ second ∷ review ∷ [])
unfolding lineage write_all write check_parents Dict.get Dict.put
lineage_of_review = refl

create_own_parent :
    create (λ _. "h") "art_a" "run_one" "task_a" "plan" 1 "planner" end 0 ("art_a" ∷ []) "1.0"
    ≡ err own_parent
unfolding create
create_own_parent = refl

first-IsAccepted : IsAccepted empty_board first 0
unfolding Dict.get
first-IsAccepted = record { expected_head = refl; next_version = refl; fresh = refl; parents = tt }

write-Outcome_example : Outcome empty_board first 0 (write empty_board first 0)
write-Outcome_example = write-Outcome empty_board first 0

abbrev one_written : Board
one_written = (write empty_board first 0).1

one_at_head : head_version one_written (head_key first) ≡ 1
unfolding write check_parents Dict.get Dict.put
one_at_head = refl

first_read : get one_written (head_key first) 1 ≡ ok (some first)
unfolding write get check_parents Dict.get Dict.put
first_read = refl

one_written-IsConsistent : IsConsistent one_written
one_written-IsConsistent = write-IsConsistent empty_board first 0 empty_board-IsConsistent

get-write_all_example :
    get (write_all one_written ((second, 1) ∷ [])) (head_key first) 1 ≡ ok (some first)
get-write_all_example =
    get-write_all one_written ((second, 1) ∷ []) (head_key first) 1 first one_written-IsConsistent
      first_read

second_found : Dict.get (write_all empty_board calls).records "art_second" ≡ some second
unfolding write_all write check_parents Dict.get Dict.put
second_found = refl

lineage-write_all_example :
    (line : List ArtifactRecord) × (lineage (write_all empty_board calls) "art_second"
      ≡ ok (line ++ second ∷ []))
    × IsTopological [] (line ++ second ∷ [])
    × All (IsListed (write_all empty_board calls) "art_second" "run_one") (line ++ second ∷ [])
lineage-write_all_example = lineage-write_all calls "art_second" second second_found
