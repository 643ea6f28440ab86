-- ===== src/Client/Fake/Clientset.antt =====
-- pkg/client/clientset/versioned/fake/clientset_generated.go: the clientset that tests use, which
-- keeps its objects in a tracker.
pub mod Laws
use mathlib.Core.Option
use tekton_task_group.Base.{
  String, ◌==◌, Bool, true, false, ◌&&◌, List, [], ◌∷◌, Option, none, some, if◌then◌else◌, Error,
  Result, ok, err,
}
use tekton_task_group.Base.Panics.{Panicking, done, or_die, ◌>>=◌}
use tekton_task_group.Base.GoMap.{GoMap}
use tekton_task_group.Upstream.{Types}
use tekton_task_group.Api.{TaskGroup}
use tekton_task_group.Client.Options.{ClientTypes, ListOptions, TaskGroupList}
use tekton_task_group.Client.Fake.{Action, Fake}

-- Whether an action is handled, the result and the error, and the objects that are left.
abbrev pub Reaction : Types → ClientTypes → Type 0 → Type 0 → Type 0
Reaction T C Ret Tracker = Action T C → Tracker → (Bool × (Option Ret × Option Error)) × Tracker

-- k8s.io/client-go/testing: the tracker with its objects, and `testing.Fake` with its reactors.
pub record TestingApi (T : Types) (C : ClientTypes) : Type 1 where
  -- `runtime.Object`
  pub Object : Type 0
  pub Tracker : Type 0
  pub new_object_tracker : Tracker
  pub add : Object → Tracker → Result Tracker
  -- Of a resource, a namespace and a name.
  pub get : String → String → String → Tracker → Result Object
  pub watch : String → String → Tracker → Result C.Watch × Tracker
  pub object_reaction : Reaction T C Object Tracker
  pub get_resource : Action T C → String
  pub get_namespace : Action T C → String
  pub Reactors : Type 0
  pub no_reactors : Reactors
  -- For a verb and a resource.
  pub add_reactor : String → String → Reaction T C Object Tracker → Reactors → Reactors
  pub add_watch_reactor : String → Reaction T C C.Watch Tracker → Reactors → Reactors
  pub invokes : Reactors → Action T C → Tracker → (Option Object × Option Error) × Tracker
  pub invokes_watch : Reactors → Action T C → Tracker → (Option C.Watch × Option Error) × Tracker
  -- A TaskGroup as an object, and the type assertions.
  pub object : TaskGroup T → Object
  pub as_task_group : Object → TaskGroup T
  pub as_task_groups : Object → TaskGroupList T C
  pub extract_label : ListOptions C → Option (GoMap String → Bool)
  -- `fakediscovery.FakeDiscovery`
  pub FakeDiscovery : Type 0
  pub fake_discovery : Reactors → FakeDiscovery

module _ {T : Types} {C : ClientTypes} (A : TestingApi T C) where
  -- `Clientset`, with the objects that its tracker begins with.
  pub record FakeClientset : Type 0 where
    pub fake : A.Reactors
    pub tracker : A.Tracker

  -- The loop of `NewSimpleClientset`.
  unfoldable pub add_all : List A.Object → A.Tracker → Panicking A.Tracker
  unfolding or_die
  add_all [] o = done o
  add_all (obj ∷ objects) o = or_die (A.add obj o) >>= λ o. add_all objects o

  -- A watch that the tracker refuses is not handled.
  unfoldable pub watch_reaction : Result C.Watch → Bool × (Option C.Watch × Option Error)
  watch_reaction (err e) = (false, (none, some e))
  watch_reaction (ok watch) = (true, (some watch, none))

  unfoldable pub watch_tracker : Reaction T C C.Watch A.Tracker
  unfolding watch_reaction
  watch_tracker action o =
      let (watch, o) = A.watch (A.get_resource action) (A.get_namespace action) o in
      (watch_reaction watch, o)

  abbrev pub reactors : A.Reactors
  reactors =
      A.add_watch_reactor "*" watch_tracker (A.add_reactor "*" "*" A.object_reaction A.no_reactors)

  -- `NewSimpleClientset`
  unfoldable pub new_simple_clientset : List A.Object → Panicking FakeClientset
  unfolding add_all
  new_simple_clientset objects =
      add_all objects A.new_object_tracker >>= λ o. done (record { fake = reactors; tracker = o })

  -- `Discovery`
  unfoldable pub discovery : FakeClientset → A.FakeDiscovery
  discovery c = A.fake_discovery c.fake

  -- `CustomV1alpha1`: the client of the group, on the clientset's reactors
  abbrev pub custom_v1alpha1 : FakeClientset → Fake T C
  custom_v1alpha1 c = record {
    World = A.Tracker;
    invokes = λ action o.
        let ((obj, e), o) = A.invokes c.fake action o in ((Option.map A.as_task_group obj, e), o);
    invokes_list = λ action o.
        let ((obj, e), o) = A.invokes c.fake action o in ((Option.map A.as_task_groups obj, e), o);
    invokes_watch = A.invokes_watch c.fake;
    extract_label = A.extract_label;
  }
