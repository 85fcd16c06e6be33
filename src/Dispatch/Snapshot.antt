-- ===== src/Dispatch/Snapshot.antt =====
-- internal/dispatch/snapshot.go: the hash of a DAG. JSON and SHA-256 are parameters; sort.Slice is taken as an
-- insertion sort, and the marshalling of the projection does not fail.
use software_distribution_pl.Prelude.{String, text_lt, List, [], ◌∷◌, map, if◌then◌else◌}
use software_distribution_pl.Api.Pipeline.{PipelineTaskSpec, PipelineTaskType, ExecutionMode}

pub record Proj : Type 0 where
  pub name : String
  pub type : PipelineTaskType
  pub stage : String
  pub execution_mode : ExecutionMode
  pub depends_on : List String
  pub image : String
  pub script_path : String

module _ {A : Type 0} (key : A → String) where
  unfoldable pub insert_by : A → List A → List A
  insert_by x [] = x ∷ []
  insert_by x (y ∷ ys) =
      let rest = insert_by x ys in if text_lt (key y) (key x) then y ∷ rest else x ∷ y ∷ ys

  unfoldable pub sort_by : List A → List A
  unfolding insert_by
  sort_by [] = []
  sort_by (x ∷ xs) = insert_by x (sort_by xs)

-- `sort.Strings`
abbrev pub sort_strings : List String → List String
sort_strings = sort_by (λ (s : String). s)

unfoldable pub project : PipelineTaskSpec → Proj
unfolding sort_by
project t = record {
  name = t.name;
  type = t.type;
  stage = t.stage;
  execution_mode = t.execution_mode;
  depends_on = sort_strings t.depends_on;
  image = t.image;
  script_path = t.script_path;
}

abbrev pub task_name : PipelineTaskSpec → String
task_name t = t.name

unfoldable pub snapshot_spec : (digest : List Proj → String) → List PipelineTaskSpec → String
unfolding sort_by project
snapshot_spec digest tasks = digest (map project (sort_by task_name tasks))
