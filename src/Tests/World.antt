-- ===== src/Tests/World.antt =====
-- A small API server: one task group, the tasks `foo`, and the TaskRuns that were created. A Run's
-- conditions are its condition, and a TaskRun's status is whether it succeeded, once it is done.
use tekton_task_group.Base.{
  String, ◌<>◌, ◌==◌, ◌≡◌, refl, Bool, true, false, List, [], ◌∷◌, ◌++◌, map, append-nil, Option,
  none, some, if◌then◌else◌, keep, every, plain, error_text, Result, ok, err, Returned,
}
use tekton_task_group.Upstream.{TaskRef, TaskSpec}
use tekton_task_group.Upstream.FieldError
use tekton_task_group.Upstream.FieldError.{FieldErrors}
use tekton_task_group.Upstream.Run.{
  RunTypes, RunStatus, Run, TaskRun, Condition, is_true, is_false, is_unknown,
}
use tekton_task_group.Api.{TaskGroup, TaskGroupRunStatus}
use tekton_task_group.Api.Validation.{Validators}
use tekton_task_group.Reconciler.Labels.{has_entry, entries}
use tekton_task_group.Reconciler.Env
use tekton_task_group.Reconciler.Env.{RunApi, TaskRunApi, Cluster, Env}
use tekton_task_group.Tests.Sample.{sample, sample_api}
use tekton_task_group.Tests.Resolve.{task, param, step}

abbrev pub runs : RunTypes
runs = record {
  Conditions = Option Condition;
  RawExtension = String;
  Param = String;
  PodTemplate = Unit;
  WorkspaceBinding = String;
  OwnerReference = String;
  TaskRunStatus = Option Bool;
  no_task_run_status = none;
}

-- The errors are texts.
abbrev pub is_null : List String → Bool
is_null [] = true
is_null (_ ∷ _) = false

abbrev pub texts : FieldErrors
texts = record {
  FieldError = List String;
  nil = [];
  is_nil = is_null;
  is_empty = is_null;
  also = λ errs e. errs ++ e;
  via_field = λ field e. map (λ text. field <> ("." <> text)) e;
  via_index = λ _ e. map (λ text. "[]." <> text) e;
  missing_field = λ field. ("missing " <> field) ∷ [];
}

is_null-map : (f : String → String) (e : List String) → is_null (map f e) ≡ is_null e
is_null-map f [] = refl
is_null-map f (x ∷ e) = refl

append_null : (errs e : List String) → is_null e ≡ true → errs ++ e ≡ errs
append_null errs [] h = append-nil errs
append_null errs (x ∷ e) h = cc

append_not_null : (errs e : List String) → is_null e ≡ false → is_null (errs ++ e) ≡ false
append_not_null [] e h = h
append_not_null (x ∷ errs) e h = refl

pub texts-IsLawful : FieldError.IsLawful texts
texts-IsLawful = record {
  nil_nil = refl;
  nil_empty = refl;
  not_nil = λ e h. h;
  also_empty = append_null;
  also_error = append_not_null;
  via_field_empty = λ field e. is_null-map _ e;
  via_index_empty = λ index e. is_null-map _ e;
  missing_field_error = λ field. refl;
}

abbrev pub no_checks : Validators sample texts
no_checks = record {
  object_metadata = λ _. [];
  validate_volumes = λ _. [];
  validate_parameter_types = λ _. [];
  validate_parameter_variables = λ _ _. [];
  validate_resources_variables = λ _. [];
  validate_result = λ r. if r.name == "" then "missing name" ∷ [] else [];
}

abbrev pub is_decided : Option Condition → Bool
is_decided none = false
is_decided (some c) = elim c.status [ is_true ↦ true | is_false ↦ true | is_unknown ↦ false ]

abbrev mark : (String → String → Condition) → String → String → RunStatus runs → RunStatus runs
mark c reason message s = record s { conditions = some (c reason message) }

abbrev pub begun_condition : Option Condition → Condition
begun_condition none = record { status = is_unknown; reason = "Started"; message = "" }
begun_condition (some c) = c

abbrev started_at : RunStatus runs → RunStatus runs
started_at s = record s { start_time = some 5; conditions = some (begun_condition s.conditions) }

-- The JSON of a status tells whether there is a TaskRun.
abbrev pub written : Option (Option Bool) → String
written none = ""
written (some _) = "recorded"

abbrev pub read_status :
    String → TaskGroupRunStatus sample runs → Returned (TaskGroupRunStatus sample runs)
read_status json status =
    if json == "broken"
    then (status, some (plain "no JSON"))
    else (if json == "recorded" then record status { task_run = some none } else status, none)

abbrev pub run_api : RunApi sample runs
run_api = record {
  has_started = λ s. elim s.start_time [ none ↦ false | some _ ↦ true ];
  is_done = λ s. is_decided s.conditions;
  is_cancelled = λ run. run.spec.status == "RunCancelled";
  get_condition = λ s. s.conditions;
  initialize_conditions = started_at;
  mark_run_failed = mark (λ r m. record { status = is_false; reason = r; message = m });
  mark_run_succeeded = mark (λ r m. record { status = is_true; reason = r; message = m });
  mark_run_running = mark (λ r m. record { status = is_unknown; reason = r; message = m });
  decode_extra_fields = λ s status. read_status s.extra_fields status;
  encode_extra_fields = λ status s. ok (record s { extra_fields = written status.task_run });
  new_controller_ref = λ run. run.meta.name;
}

pub run_api-IsLawful : Env.IsLawful run_api
run_api-IsLawful = record {
  condition_failed = λ r m s. refl;
  condition_succeeded = λ r m s. refl;
  condition_running = λ r m s. refl;
}

abbrev pub task_run_api : TaskRunApi sample runs
task_run_api = record {
  is_done = λ tr. elim tr.status [ none ↦ false | some _ ↦ true ];
  is_successful = λ tr. elim tr.status [ none ↦ false | some b ↦ b ];
  is_cancelled = λ tr. tr.spec.status == "TaskRunCancelled";
}

pub record World : Type 0 where
  pub groups : List (TaskGroup sample)
  pub task_runs : List (TaskRun sample runs)
  pub run : Option (Run runs)
  -- Whether TaskRuns are accepted.
  pub is_open : Bool

abbrev find_group : List (TaskGroup sample) → String → Result (TaskGroup sample)
find_group [] name = err (plain (name <> " not found"))
find_group (g ∷ groups) name = if g.meta.name == name then ok g else find_group groups name

abbrev found_run : Option (Run runs) → Result (Run runs)
found_run none = err (plain "not found")
found_run (some run) = ok run

abbrev pub foo_task : TaskSpec sample
foo_task =
    task (param "paramBar" "string" ∷ []) []
      (step "baz" "bash:latest" ("$(params.paramBar)" ∷ []) ∷ [])

abbrev fetch : TaskRef sample → Result (TaskSpec sample)
fetch ref = if ref.name == "foo" then ok foo_task else err (plain (ref.name <> " not found"))

abbrev pub cluster : Cluster sample runs
cluster = record {
  World = World;
  get_task_group = λ w _ name. find_group w.groups name;
  list_task_runs = λ w _ selector.
      ok (keep (λ tr. every (has_entry (entries tr.meta.labels)) selector) w.task_runs);
  create_task_run = λ w _ tr.
      if w.is_open
      then (ok tr, record w { task_runs = w.task_runs ++ tr ∷ [] })
      else (err (plain "forbidden"), w);
  patch_task_run = λ w _ _ _. (none, w);
  get_run = λ w _ _. found_run w.run;
  patch_run = λ w _ _ _ _. (none, w);
  emit = λ w _ _ _. w;
  random_name = λ w name. (name <> "-abcde", w);
  TaskGetter = Unit;
  get_task_func = λ _ ref _ _. if ref.name == "" then err (plain "no name") else ok tt;
  get_task_data = λ _ ref _. fetch ref;
  is_get_task_err_transient = λ _. false;
}

abbrev pub env : Env.Env sample runs
env = record {
  steps = sample_api;
  fields = texts;
  validators = no_checks;
  field_error_text = λ e. elim e [ [] ↦ "" | text ∷ _ ↦ text ];
  runs = run_api;
  task_runs = task_run_api;
  cluster = cluster;
  unmarshal_spec = λ _. err (plain "no JSON");
  error_go_syntax = error_text;
}
