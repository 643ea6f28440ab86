-- ===== src/Reconciler/Controller.antt =====
-- pkg/reconciler/taskgroup/controller.go: the event handlers that the controller registers.
use tekton_task_group.Base.{
  String, ◌==◌, ◌≡◌, ◌∙◌, sym, refl, Bool, false, not, ◌&&◌, ◌||◌, ◌!=◌, Option, none, some, arith,
}
use tekton_task_group.Upstream.{Types}
use tekton_task_group.Upstream.Run.{RunTypes, Run, RunRef, EmbeddedRunSpec, TaskRun}
use tekton_task_group.Api.{scheme_group_version, task_group_controller_name}
use tekton_task_group.Reconciler.Env.{Env}
use tekton_task_group.Reconciler.Kind.{referenced, is_foreign}

-- knative's queue, the lister of Runs, and the filters of tektoncd/pipeline's controller package.
pub record ControllerApi (T : Types) (R : RunTypes) : Type 1 where
  pub Queue : Type 0
  pub enqueue : Run R → Queue → Queue
  pub enqueue_controller_of : TaskRun T R → Queue → Queue
  pub RunLister : Type 0
  pub filter_run_ref : String → String → Run R → Bool
  pub filter_owner_run_ref : RunLister → String → String → TaskRun T R → Bool

module _ {T : Types} {R : RunTypes} (A : ControllerApi T R) where
  -- `cache.FilteringResourceEventHandler` with `controller.HandleAll`
  pub record EventHandler (O : Type 0) : Type 0 where
    pub filter_func : O → Bool
    pub handler : O → A.Queue → A.Queue

  pub record Controller : Type 0 where
    pub agent_name : String
    pub run_events : EventHandler (Run R)
    pub task_run_events : EventHandler (TaskRun T R)

  -- `NewController`, given the lister of its informer of Runs
  unfoldable pub new_controller : A.RunLister → Controller
  new_controller run_lister = record {
    agent_name = "run-taskgroup";
    run_events = record {
      filter_func = A.filter_run_ref scheme_group_version task_group_controller_name;
      handler = A.enqueue;
    };
    task_run_events = record {
      filter_func =
          A.filter_owner_run_ref run_lister scheme_group_version task_group_controller_name;
      handler = A.enqueue_controller_of;
    };
  }

  -- `FilterRunRef` is documented to keep the Runs that refer to the API version and the kind.
  abbrev pub refers : String → String → Option RunRef → Option (EmbeddedRunSpec R) → Bool
  refers api_version kind (some ref) _ = ref.api_version == api_version && ref.kind == kind
  refers api_version kind none (some embedded) =
      embedded.api_version == api_version && embedded.kind == kind
  refers api_version kind none none = false

  pub record IsFiltering : Type 0 where
    pub run_ref :
        (api_version kind : String) (run : Run R)
        → A.filter_run_ref api_version kind run ≡ refers api_version kind run.spec.ref run.spec.spec

module _ {T : Types} {R : RunTypes} (E : Env T R) (A : ControllerApi T R) where
  not_or : (a b c d : String) → not (a != b || c != d) ≡ (a == b && c == d)
  not_or a b c d = ground (arith)

  refers-referenced :
      (ref : Option RunRef) (embedded : Option (EmbeddedRunSpec R))
      → let (api_version, kind) = referenced E ref embedded in
        not (api_version != scheme_group_version || kind != task_group_controller_name)
        ≡ refers A scheme_group_version task_group_controller_name ref embedded
  unfolding referenced
  refers-referenced (some ref) embedded =
      not_or ref.api_version scheme_group_version ref.kind task_group_controller_name
  refers-referenced none (some embedded) =
      not_or embedded.api_version scheme_group_version embedded.kind task_group_controller_name
  refers-referenced none none = refl

  -- Where `FilterRunRef` keeps the Runs that refer to the API version and the kind, as it is
  -- documented to, the filter that the controller registers for the events of Runs lets a Run
  -- through exactly if `ReconcileKind` does not take it for a foreign one.
  pub filter_func-is_foreign :
      (lister : A.RunLister) (run : Run R)
      → IsFiltering A
      → (new_controller A lister).run_events.filter_func run ≡ not (is_foreign E run)
  unfolding new_controller is_foreign
  filter_func-is_foreign lister run filtering =
      filtering.run_ref scheme_group_version task_group_controller_name run
      ∙ sym (refers-referenced run.spec.ref run.spec.spec)
