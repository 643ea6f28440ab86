-- ===== src/Tests/Tracking.antt =====
-- The clientset of tests over a small tracker, a list of TaskGroups.
use tekton_task_group.Base.{
  ◌<>◌, String, ◌≡◌, refl, sym, ap, ok_inj, Bool, true, false, List, [], ◌∷◌, Option, none, some,
  if◌then◌else◌, Error, plain, Result, ok, err,
}
use tekton_task_group.Api.{TaskGroup}
use tekton_task_group.Client.Fake.{get_action, task_groups_resource}
use tekton_task_group.Client.Fake.Clientset.{Reaction, TestingApi}
use tekton_task_group.Client.Fake.Clientset.Laws
use tekton_task_group.Client.Fake.Clientset.Laws.{
  is_named, returned, repeated, Made, new_simple_clientset-Made,
}
use tekton_task_group.Tests.Sample.{sample}
use tekton_task_group.Tests.Running.{meta_of}
use tekton_task_group.Tests.Clients.{units, shop}

abbrev Tracker : Type 0
Tracker = List (TaskGroup sample)

look_up : String → String → Tracker → Result (TaskGroup sample)
look_up ns name [] = err (plain name)
look_up ns name (g ∷ groups) = if is_named ns name g then ok g else look_up ns name groups

-- Only reading is handled.
react : Reaction sample units (TaskGroup sample) Tracker
react (get_action resource ns name) o = ((true, returned (look_up ns name o)), o)
react _ o = ((false, (none, none)), o)

abbrev handled :
    (Bool × (Option (TaskGroup sample) × Option Error)) × Tracker
    → (Bool × (Option (TaskGroup sample) × Option Error)) × Tracker
    → (Bool × (Option (TaskGroup sample) × Option Error)) × Tracker
handled ((true, answer), o) _ = ((true, answer), o)
handled ((false, _), _) later = later

abbrev exists : String → Error
exists name = plain (name <> " already exists")

abbrev add_to : TaskGroup sample → Tracker → Result (TaskGroup sample) → Result Tracker
add_to g o (ok _) = err (exists g.meta.name)
add_to g o (err _) = ok (g ∷ o)

abbrev tracking : TestingApi sample units
tracking = record {
  Object = TaskGroup sample;
  Tracker = Tracker;
  new_object_tracker = [];
  add = λ g o. add_to g o (look_up g.meta.namespace g.meta.name o);
  get = λ _ ns name o. look_up ns name o;
  watch = λ _ _ o. (ok tt, o);
  object_reaction = react;
  get_resource = λ _. task_groups_resource;
  get_namespace = λ _. "ns";
  Reactors = Reaction sample units (TaskGroup sample) Tracker;
  no_reactors = λ _ o. ((false, (none, none)), o);
  add_reactor = λ _ _ r first action o. handled (first action o) (r action o);
  add_watch_reactor = λ _ _ c. c;
  invokes = λ c action o. let ((_, answer), o') = c action o in (answer, o');
  invokes_watch = λ _ _ o. ((none, none), o);
  object = λ g. g;
  as_task_group = λ g. g;
  as_task_groups = λ _. record { list_meta = tt; items = [] };
  extract_label = λ _. none;
  FakeDiscovery = Unit;
  fake_discovery = λ _. tt;
}

added :
    (ns name : String) (g : TaskGroup sample) (o o' : Tracker) (r : Result (TaskGroup sample))
    → add_to g o r ≡ ok o'
    → look_up ns name o' ≡ (if is_named ns name g then ok g else look_up ns name o)
unfolding look_up
added ns name g o o' (ok x) h = cc
added ns name g o o' (err e) h = ap (λ o. look_up ns name o) (sym (ok_inj h))

tracking-IsLawful : Laws.IsLawful tracking
unfolding look_up react
tracking-IsLawful = record {
  not_found = λ name. plain name;
  get_empty = λ ns name. refl;
  already_exists = exists;
  add_taken = λ g o x h. ap (add_to g o) h;
  add_free = λ g o e h. (g ∷ o, ap (add_to g o) h);
  get_added = λ ns name g o o' h. added ns name g o o' (look_up g.meta.namespace g.meta.name o) h;
  reaction_get = λ resource ns name o. refl;
  invokes_handled = λ r action o o' answer h. ap (λ x. (x.0.1, x.1)) h;
  invokes_watched = λ r c action o. refl;
  task_group_object = λ g. refl;
}

-- Two of different names, and the first of them again.
abbrev three_groups : List (TaskGroup sample)
three_groups = shop ∷ record shop { meta = meta_of "cart" } ∷ shop ∷ []

new_simple_clientset-Made_example : Made tracking tracking-IsLawful three_groups "ns" "shop" tt
new_simple_clientset-Made_example =
    new_simple_clientset-Made tracking tracking-IsLawful three_groups "ns" "shop" tt

shop-repeated : repeated [] three_groups ≡ some shop
unfolding repeated
shop-repeated = refl
