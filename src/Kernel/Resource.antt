-- ===== src/Kernel/Resource.antt =====
-- internal/kernel/resource.go: generations, settled effects, captures and the choice of a checkpoint.
pub mod Selection
use rebuno.Prelude.{
  Bool, List, Option, String, [], contains, false, filter, find, if◌then◌else◌, length, ltb, map,
  none, not, some, string_eq, ℕ, ℕ_eq, ◌%◌, ◌&&◌, ◌++◌, ◌+◌, ◌==◌, ◌||◌, ◌∷◌,
}
use rebuno.Action.{Action, for_each, ok, pure, reads, ◌>>=◌, ◌>>◌}
use rebuno.Context.{Context}
use rebuno.Domain.Json.{end, field, json, num, obj, str}
use rebuno.Domain.Payload.{event_resource_checkpoint_failed, event_resource_checkpointed}
use rebuno.Domain.Records.{
  EventRecord, Resource, ResourceCheckpoint, ResourceSelection, Step, StepResource, Uuid, covers,
  step_kind_llm,
}
use rebuno.Domain.Status.{is_executing}
use rebuno.Memstore.Events.{append_batch}
use rebuno.Memstore.Executions.Session.{execution_id}
use rebuno.Memstore.Resources.{add_checkpoint, list_resources, put_resource}
use rebuno.Memstore.Steps.{list_by_execution}
use rebuno.Memstore.Store.{Store}

pub record ResourceCapture : Type 0 where
  pub key : String
  pub generation : ℕ
  pub checkpoint_ref : String

pub record ResourceCaptureFailure : Type 0 where
  pub key : String
  pub generation : ℕ
  pub error : String

-- findResource
unfoldable pub find_resource : List Resource → String → Option Resource
find_resource resources key = find (λ r. r.key == key) resources

-- affects in touchResources
abbrev pub affects : Step → Resource → Bool
affects step r = not (step.kind == step_kind_llm) && contains step.resources r.key

abbrev touched : Step → Resource → StepResource
touched step r = record {
  key = r.key;
  generation = r.generation + 1;
  due = affects step r && (ltb 0 r.every_steps && (r.count + 1) % r.every_steps == 0);
}

-- the loop of touchResources, first the resources touched
unfoldable pub touched_resources : Step → List Resource → List StepResource
touched_resources step [] = []
touched_resources step (r ∷ rs) =
    let rest = touched_resources step rs in
    if not (affects step r) && r.coverage_reuse then rest else touched step r ∷ rest

-- touchResources: what is touched, and the step with the resources that it affects
unfoldable pub touch_resources : List Resource → Step → List StepResource × Step
touch_resources [] step = ([], step)
touch_resources (r ∷ rs) step = (
  touched_resources step (r ∷ rs),
  record step { resources = map (λ x. x.key) (filter (affects step) (r ∷ rs)) },
)

abbrev pub count_effect : Step → Resource → Action Store (Unit {0})
count_effect step r =
    if contains step.resources r.key
    then put_resource (record r { count = r.count + 1 })
    else pure tt

-- settleEffect
unfoldable pub settle_effect : Step → Action Store (Unit {0})
settle_effect step = if length step.resources == 0 then pure tt else do
  resources ← reads (λ s. ok (list_resources step.execution_id s))
  for_each (count_effect step) resources

-- the keys that executing steps write
unfoldable pub writing_keys : List Step → List String
writing_keys [] = []
writing_keys (s ∷ steps) =
    if is_executing s.status then s.resources ++ writing_keys steps else writing_keys steps

abbrev failed_capture : String → ℕ → String → EventRecord
failed_capture key generation reason = record {
  type = event_resource_checkpoint_failed;
  payload = json (
      obj (
        field "key" (str key)
          (field "generation" (num generation) (field "error" (str reason) end))));
}

abbrev checkpointed : ResourceCapture → ℕ → EventRecord
checkpointed c covered_seq = record {
  type = event_resource_checkpointed;
  payload = json (
      obj (
        field "key" (str c.key) (
          field "generation" (num c.generation) (
            field "checkpoint_ref" (str c.checkpoint_ref)
              (field "covered_seq" (num covered_seq) end)))));
}

-- the switch of recordCaptures: why a capture is refused, "" if it is not
unfoldable pub refusal : List Resource → List String → List String → ResourceCapture → String
refusal resources writing recorded c = elim (find_resource resources c.key) [
  | none ↦ "unknown_resource"
  | some r ↦
      if c.checkpoint_ref == ""
      then "missing_checkpoint_ref"
      else if contains recorded c.key
      then "duplicate_capture"
      else if not (c.generation == r.generation)
      then "stale_generation"
      else if contains writing c.key
      then "writers_active"
      else ""
]

module _ (exec_id : Uuid) (covered_seq : ℕ) (resources : List Resource)
    (writing : List String) where
  -- the loop over the captures: its events, with the checkpoints added on the way
  unfoldable pub record_each : List String → List ResourceCapture → Action Store (List EventRecord)
  record_each recorded [] = pure []
  record_each recorded (c ∷ cs) =
      let why = refusal resources writing recorded c in
      let accept =
        add_checkpoint (record {
          execution_id = exec_id;
          key = c.key;
          generation = c.generation;
          ref = c.checkpoint_ref;
          covered_seq = covered_seq;
          invalidated_seq = 0;
        })
        >>= λ _.
            (record_each (c.key ∷ recorded) cs >>= λ rest.
            pure (checkpointed c covered_seq ∷ rest)) in
      let refuse =
        record_each recorded cs >>= λ rest. pure (failed_capture c.key c.generation why ∷ rest) in
      if why == "" then accept else refuse

-- recordCaptures
unfoldable pub record_captures :
    Context
    → Uuid
    → ℕ
    → List ResourceCapture
    → List ResourceCaptureFailure
    → Action Store (Unit {0})
record_captures ctx exec_id covered_seq captures failures =
    if length captures + length failures == 0 then pure tt else do
      resources ← reads (λ s. ok (list_resources exec_id s))
      steps ← reads (λ s. ok (list_by_execution exec_id s))
      evts ← record_each exec_id covered_seq resources (writing_keys steps) [] captures
      append_batch ctx exec_id
          (map (λ f. failed_capture f.key f.generation f.error) failures ++ evts)
      pure tt

-- the loop of selectResource
unfoldable pub select_from :
    String → ℕ → ResourceSelection → List ResourceCheckpoint → ResourceSelection
select_from key seq selected [] = selected
select_from key seq selected (c ∷ cs) =
    select_from key seq
      (if not (c.key == key) || ltb seq c.covered_seq
        then selected
        else if selected.covered && not (covers c seq)
        then selected
        else record {
          checkpoint_ref = c.ref;
          checkpoint_seq = c.covered_seq;
          covered = covers c seq;
        })
      cs

abbrev pub no_selection : ResourceSelection
no_selection = record { checkpoint_ref = ""; checkpoint_seq = 0; covered = false }

-- selectResource
unfoldable pub select_resource : List ResourceCheckpoint → String → ℕ → ResourceSelection
select_resource checkpoints key seq = select_from key seq no_selection checkpoints
