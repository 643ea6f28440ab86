-- ===== src/Client/Fake/Clientset/Laws.antt =====
-- What the clientset of tests gives of the TaskGroups that it is made of.
use mathlib.Core.Option
use tekton_task_group.Base.{
  String, ◌==◌, ◌≡◌, refl, sym, ap, ◌∙◌, Bool, true, ◌&&◌, List, [], ◌∷◌, map, Option, none, some,
  if◌then◌else◌, Error, Result, ok, err, Bool-cases, inl, inr, false, ◌++◌, append-nil,
  append_assoc, subst, error_text, eq_iff,
}
use tekton_task_group.Base.Panics.{done, panics, or_die}
use tekton_task_group.Upstream.{Types}
use tekton_task_group.Api.{TaskGroup}
use tekton_task_group.Client.Options.{ClientTypes, get}
use tekton_task_group.Client.Fake.{
  Action, get_action, task_group, task_groups_resource, action, perform,
}
use tekton_task_group.Client.Fake.Clientset.{
  Reaction, TestingApi, FakeClientset, add_all, new_simple_clientset, reactors, custom_v1alpha1,
}

abbrev pub is_named : {T : Types} → String → String → TaskGroup T → Bool
is_named ns name g = g.meta.namespace == ns && g.meta.name == name

-- The first TaskGroup of a namespace and a name.
unfoldable pub named : {T : Types} → String → String → List (TaskGroup T) → Option (TaskGroup T)
named ns name [] = none
named ns name (g ∷ groups) = if is_named ns name g then some g else named ns name groups

-- The first one that has the namespace and the name of one before it, or of one of those that are
-- given.
unfoldable pub repeated :
    {T : Types} → List (TaskGroup T) → List (TaskGroup T) → Option (TaskGroup T)
unfolding named
repeated given [] = none
repeated given (g ∷ groups) =
    let rest = repeated (given ++ g ∷ []) groups in
    elim (named g.meta.namespace g.meta.name given) [ none ↦ rest | some _ ↦ some g ]

both_true : (a b : Bool) → (a && b) ≡ true → (a ≡ true) × (b ≡ true)
both_true true true h = (refl, refl)
both_true true false h = cc
both_true false b h = cc

-- A TaskGroup has the namespace and the name that it is found by.
is_named-named :
    {T : Types} (ns name : String) (g : TaskGroup T) (given : List (TaskGroup T))
    → is_named ns name g ≡ true
    → named ns name given ≡ named g.meta.namespace g.meta.name given
is_named-named ns name g given h =
    let (same_ns, same_name) = both_true (g.meta.namespace == ns) (g.meta.name == name) h in
    sym (
      ap (λ x. named x g.meta.name given) ((eq_iff g.meta.namespace ns).0 same_ns)
      ∙ ap (λ x. named ns x given) ((eq_iff g.meta.name name).0 same_name))

named-append_none :
    {T : Types} (ns name : String) (g : TaskGroup T) (given : List (TaskGroup T))
    → is_named ns name g ≡ true
    → named ns name given ≡ none
    → named ns name (given ++ g ∷ []) ≡ some g
unfolding named
named-append_none ns name g [] h e = rw h
named-append_none ns name g (x ∷ given) h e = elim (Bool-cases (is_named ns name x)) [
  | inl is ↦ cc (rw is at e)
  | inr other ↦ rw other (named-append_none ns name g given h (rw other at e))
]

named-append_other :
    {T : Types} (ns name : String) (g : TaskGroup T) (given : List (TaskGroup T))
    → is_named ns name g ≡ false
    → named ns name (given ++ g ∷ []) ≡ named ns name given
unfolding named
named-append_other ns name g [] h = rw h
named-append_other ns name g (x ∷ given) h = elim (Bool-cases (is_named ns name x)) [
  | inl is ↦ rw is
  | inr other ↦ rw other (named-append_other ns name g given h)
]

-- A result and an error, one of which is nil.
abbrev pub returned : {A : Type 0} → Result A → Option A × Option Error
returned (ok a) = (some a, none)
returned (err e) = (none, some e)

-- What client-go documents of its tracker and of its reactors.
pub record IsLawful {T : Types} {C : ClientTypes} (A : TestingApi T C) : Type 0 where
  pub not_found : String → Error
  pub already_exists : String → Error
  pub get_empty :
      (ns name : String)
      → A.get task_groups_resource ns name A.new_object_tracker ≡ err (not_found name)
  -- A TaskGroup is refused where there is one with its namespace and name.
  pub add_taken :
      (g : TaskGroup T) (o : A.Tracker) (x : A.Object)
      → A.get task_groups_resource g.meta.namespace g.meta.name o ≡ ok x
      → A.add (A.object g) o ≡ err (already_exists g.meta.name)
  -- Else it is there from then on.
  pub add_free :
      (g : TaskGroup T) (o : A.Tracker) (e : Error)
      → A.get task_groups_resource g.meta.namespace g.meta.name o ≡ err e
      → (o' : A.Tracker) × (A.add (A.object g) o ≡ ok o')
  pub get_added :
      (ns name : String) (g : TaskGroup T) (o o' : A.Tracker)
      → A.add (A.object g) o ≡ ok o'
      → A.get task_groups_resource ns name o'
        ≡ (if is_named ns name g then ok (A.object g) else A.get task_groups_resource ns name o)
  pub reaction_get :
      (resource ns name : String) (o : A.Tracker)
      → A.object_reaction (get_action resource ns name) o
        ≡ ((true, returned (A.get resource ns name o)), o)
  -- The first reactor that handles an action answers it.
  pub invokes_handled :
      (r : Reaction T C A.Object A.Tracker) (action : Action T C) (o o' : A.Tracker)
      → (answer : Option A.Object × Option Error) → r action o ≡ ((true, answer), o')
      → A.invokes (A.add_reactor "*" "*" r A.no_reactors) action o ≡ (answer, o')
  pub invokes_watched :
      (r : Reaction T C C.Watch A.Tracker) (c : A.Reactors) (action : Action T C) (o : A.Tracker)
      → A.invokes (A.add_watch_reactor "*" r c) action o ≡ A.invokes c action o
  pub task_group_object : (g : TaskGroup T) → A.as_task_group (A.object g) ≡ g

module _ {T : Types} {C : ClientTypes} (A : TestingApi T C) (L : IsLawful A) where
  -- What the tracker has.
  abbrev kept : String → Option (TaskGroup T) → Result A.Object
  kept name none = err (L.not_found name)
  kept name (some g) = ok (A.object g)

  -- What `Get` gives.
  abbrev pub answer : String → Option (TaskGroup T) → Option (TaskGroup T) × Option Error
  answer name none = (none, some (L.not_found name))
  answer name (some g) = (some g, none)

  -- The tracker has the TaskGroups that were given, and no other one.
  abbrev Keeps : List (TaskGroup T) → A.Tracker → Type 0
  Keeps given o =
      (ns name : String) → A.get task_groups_resource ns name o ≡ kept name (named ns name given)

  Keeps-add :
      (given : List (TaskGroup T)) (g : TaskGroup T) (o o' : A.Tracker)
      → A.add (A.object g) o ≡ ok o'
      → named g.meta.namespace g.meta.name given ≡ none
      → Keeps given o
      → Keeps (given ++ g ∷ []) o'
  Keeps-add given g o o' added free keeps ns name = elim (Bool-cases (is_named ns name g)) [
    | inl h ↦
        (rw h at (L.get_added ns name g o o' added))
        ∙ ap (kept name)
            (sym (named-append_none ns name g given h (is_named-named ns name g given h ∙ free)))
    | inr h ↦
        (rw h at (L.get_added ns name g o o' added))
        ∙ keeps ns name
        ∙ ap (kept name) (sym (named-append_other ns name g given h))
  ]

  -- How the loop over TaskGroups ends.
  data Added (given groups : List (TaskGroup T)) (o : A.Tracker) : Type 0 where
    all_added :
        (o' : A.Tracker)
        → repeated given groups ≡ none
        → add_all A (map A.object groups) o ≡ done o'
        → Keeps (given ++ groups) o'
        → Added given groups o
    refused :
        (g : TaskGroup T)
        → repeated given groups ≡ some g
        → add_all A (map A.object groups) o ≡ panics (error_text (L.already_exists g.meta.name))
        → Added given groups o

  Added-next :
      (given : List (TaskGroup T)) (g : TaskGroup T) (groups : List (TaskGroup T))
      (o o' : A.Tracker)
      → named g.meta.namespace g.meta.name given ≡ none
      → A.add (A.object g) o ≡ ok o'
      → Added (given ++ g ∷ []) groups o'
      → Added given (g ∷ groups) o
  unfolding add_all or_die repeated
  Added-next given g groups o o' free added (all_added o'' none_repeated e keeps) =
      all_added o'' (rw (free, repeated) none_repeated) (rw added e)
        (subst (λ l. Keeps l o'') (append_assoc given (g ∷ []) groups) keeps)
  Added-next given g groups o o' free added (refused h is_repeated e) =
      refused h (rw (free, repeated) is_repeated) (rw added e)

  Added-first :
      (given : List (TaskGroup T)) (g : TaskGroup T) (groups : List (TaskGroup T)) (o : A.Tracker)
      (taken : Option (TaskGroup T))
      → named g.meta.namespace g.meta.name given ≡ taken
      → Keeps given o
      → ((o' : A.Tracker) → Keeps (given ++ g ∷ []) o' → Added (given ++ g ∷ []) groups o')
      → Added given (g ∷ groups) o
  unfolding add_all or_die repeated
  Added-first given g groups o none e keeps later =
      let (o', added) =
        L.add_free g o _ (keeps g.meta.namespace g.meta.name ∙ ap (kept g.meta.name) e) in
      Added-next given g groups o o' e added (later o' (Keeps-add given g o o' added e keeps))
  Added-first given g groups o (some x) e keeps later = refused g (rw (e, repeated)) (
      rw (
        L.add_taken g o (A.object x)
          (keeps g.meta.namespace g.meta.name ∙ ap (kept g.meta.name) e)))

  add_all-Added :
      (given groups : List (TaskGroup T)) (o : A.Tracker) → Keeps given o → Added given groups o
  unfolding add_all repeated
  add_all-Added given [] o keeps =
      all_added o refl refl (subst (λ l. Keeps l o) (sym (append-nil given)) keeps)
  add_all-Added given (g ∷ groups) o keeps =
      Added-first given g groups o (named g.meta.namespace g.meta.name given) refl keeps
        (λ o' keeps'. add_all-Added (given ++ g ∷ []) groups o' keeps')

  returned-kept :
      (name : String) (found : Option (TaskGroup T))
      → ((Option.map A.as_task_group (returned (kept name found)).0, (returned (kept name found)).1)
          ≡ answer name found)
  returned-kept name none = refl
  returned-kept name (some g) = ap (λ g. (some g, none)) (L.task_group_object g)

  invokes-get :
      (ns name : String) (o : A.Tracker) (found : Option (TaskGroup T))
      → A.get task_groups_resource ns name o ≡ kept name found
      → A.invokes (reactors A) (get_action task_groups_resource ns name) o
        ≡ (returned (kept name found), o)
  invokes-get ns name o found h =
      L.invokes_watched _ _ _ o
      ∙ L.invokes_handled A.object_reaction _ o o _
          (L.reaction_get task_groups_resource ns name o ∙ ap (λ r. ((true, returned r), o)) h)

  perform-get :
      (groups : List (TaskGroup T)) (o : A.Tracker) (ns name : String) (opts : C.GetOptions)
      → Keeps groups o
      → perform (custom_v1alpha1 A (record { fake = reactors A; tracker = o })) ns (get name opts) o
        ≡ (task_group (answer name (named ns name groups)), o)
  unfolding perform action
  perform-get groups o ns name opts keeps =
      rw (invokes-get ns name o (named ns name groups) (keeps ns name))
        (ap (λ a. (task_group a, o)) (returned-kept name (named ns name groups)))

  -- What becomes of `NewSimpleClientset`, and what `Get` gives then.
  pub data Made (groups : List (TaskGroup T)) (ns name : String) (opts : C.GetOptions)
      : Type 0 where
    made :
        (c : FakeClientset A)
        → repeated [] groups ≡ none
        → new_simple_clientset A (map A.object groups) ≡ done c
        → perform (custom_v1alpha1 A c) ns (get name opts) c.tracker
          ≡ (task_group (answer name (named ns name groups)), c.tracker)
        → Made groups ns name opts
    panicked :
        (g : TaskGroup T)
        → repeated [] groups ≡ some g
        → new_simple_clientset A (map A.object groups)
          ≡ panics (error_text (L.already_exists g.meta.name))
        → Made groups ns name opts

  -- Given the laws of client-go's tracker and reactors, a clientset is made of TaskGroups exactly if
  -- no two of them have one namespace and name, and else the first one that repeats these makes
  -- `NewSimpleClientset` panic, with its name. Of a clientset that is made, `Get` gives the TaskGroup
  -- of the namespace and the name, or the tracker's error where there is none, and the objects are
  -- left as they are.
  pub new_simple_clientset-Made :
      (groups : List (TaskGroup T)) (ns name : String) (opts : C.GetOptions)
      → Made groups ns name opts
  unfolding new_simple_clientset named
  new_simple_clientset-Made groups ns name opts =
      elim (add_all-Added [] groups A.new_object_tracker (λ ns name. L.get_empty ns name)) [
        | all_added o none_repeated e keeps ↦
            made (record { fake = reactors A; tracker = o }) none_repeated (rw e)
              (perform-get groups o ns name opts keeps)
        | refused g is_repeated e ↦ panicked g is_repeated (rw e)
      ]
