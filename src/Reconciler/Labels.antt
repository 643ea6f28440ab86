-- ===== src/Reconciler/Labels.antt =====
-- pkg/reconciler/taskgroup/taskgroup.go: the labels and annotations that are passed on, from the
-- task group to the Run and from the Run to its TaskRun.
pub mod Laws
use tekton_task_group.Base.{
  String, ◌<>◌, Bool, true, false, ◌==◌, ◌&&◌, [], ◌∷◌, Option, none, some, if◌then◌else◌, every,
  length, same_number,
}
use tekton_task_group.Base.GoMap.{GoMap, lookup, insert}
use tekton_task_group.Upstream.{ObjectMeta}
use tekton_task_group.Upstream.Run.{RunTypes, Run}
use tekton_task_group.Api.{group_name}

-- The label keys of a TaskGroup and of a Run, behind their groups' names. `pipeline.GroupName` is
-- the constant of the library that serves Runs.
abbrev pub task_group_label : String
task_group_label = group_name <> "/taskGroup"

abbrev pub pipeline_group_name : String
pipeline_group_name = "tekton.dev"

abbrev pub run_label : String
run_label = pipeline_group_name <> "/run"

-- The entries of a map that may be nil.
abbrev pub entries : Option (GoMap String) → GoMap String
entries none = []
entries (some m) = m

-- `for key, val := range from { into[key] = val }`
unfoldable pub copy_into : GoMap String → GoMap String → GoMap String
copy_into [] into = into
copy_into ((key, val) ∷ from) into = copy_into from (insert key val into)

module _ {R : RunTypes} where
  unfoldable pub get_task_run_annotations : Run R → GoMap String
  unfolding copy_into
  get_task_run_annotations run = copy_into (entries run.meta.annotations) []

  unfoldable pub get_task_run_labels : Run R → Bool → GoMap String
  unfolding copy_into
  get_task_run_labels run include_run_labels =
      insert run_label run.meta.name
        (if include_run_labels then copy_into (entries run.meta.labels) [] else [])

  -- `propagateTaskGroupLabelsAndAnnotations`
  unfoldable pub propagate : Run R → ObjectMeta → Run R
  unfolding copy_into
  propagate run group = record run {
    meta = record run.meta {
      labels = some (
          insert task_group_label group.name
            (copy_into (entries group.labels) (entries run.meta.labels)));
      annotations = some (copy_into (entries group.annotations) (entries run.meta.annotations));
    };
  }

-- `reflect.DeepEqual` on maps of strings: nil and empty differ, and the order does not count.
unfoldable pub has_entry : GoMap String → String × String → Bool
unfolding lookup
has_entry m (k, v) = elim (lookup k m) [ none ↦ false | some w ↦ v == w ]

unfoldable pub deep_equal : Option (GoMap String) → Option (GoMap String) → Bool
unfolding has_entry
deep_equal none none = true
deep_equal none (some _) = false
deep_equal (some _) none = false
deep_equal (some a) (some b) = same_number (length a) (length b) && every (has_entry b) a
