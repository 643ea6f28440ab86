-- ===== src/Resolve/Task/Expansion.antt =====
-- What the loop of `TaskSpec` computes: the steps are each step's expansion, one behind the other,
-- and the slices hold what the used tasks contribute, in the order of the steps that use them.
use tekton_task_group.Base.{
  ℕ, suc, ◌<>◌, ◌≡◌, refl, ap, ◌∙◌, List, [], ◌∷◌, ◌++◌, append-nil, append_assoc, not, Option,
  none, some, keep, Error, plain, Result, ok, err, ◌>>=◌, >>=-eq-ok, >>=-eq-err, ok_inj,
  and_then_stop, inl, inr,
}
use tekton_task_group.Base.Named.{declares}
use tekton_task_group.Upstream
use tekton_task_group.Upstream.{
  Types, ParamSpec, WorkspaceDeclaration, TaskResult, Sidecar, Volume, TaskSpec, StepApi,
}
use tekton_task_group.Api.{Step, Uses}
use tekton_task_group.Resolve.Task.{
  UsedTasks, Collected, collect_used, append_steps, used_steps, collect_by, collect_step, collect,
}
use tekton_task_group.Resolve.Task.Bindings.{binding_name, collect_params_lem}
use tekton_task_group.Resolve.Task.WorkspaceBindings.{
  workspace_binding_name, collect_workspaces_lem,
}

-- A step's use of a task that was fetched.
pub record Use (T : Types) : Type 0 where
  pub uses : Uses T
  pub task : TaskSpec T

module _ {T : Types} where
  abbrev pub use_of : Option (Uses T) → Option (TaskSpec T) → List (Use T)
  use_of (some uses) (some task) = record { uses = uses; task = task } ∷ []
  use_of (some uses) none = []
  use_of none _ = []

  -- The used tasks in the order of the steps, the first of which is at position `i`.
  unfoldable pub uses_of : UsedTasks T → ℕ → List (Step T) → List (Use T)
  uses_of used i [] = []
  uses_of used i (s ∷ steps) = use_of s.uses (used i) ++ uses_of used (suc i) steps

  -- What a used task contributes: its parameters and workspaces, less the bound ones.
  abbrev pub own_params : Use T → List (ParamSpec T)
  own_params u = keep (λ p. not (declares binding_name u.uses.param_bindings p.name)) u.task.params

  abbrev pub own_workspaces : Use T → List WorkspaceDeclaration
  own_workspaces u =
      keep (λ w. not (declares workspace_binding_name u.uses.workspace_bindings w.name))
        u.task.workspaces

  abbrev pub all_of : {A : Type 0} → (Use T → List A) → List (Use T) → List A
  all_of f [] = []
  all_of f (u ∷ us) = f u ++ all_of f us

  -- The slices with the contributions and the steps `xs` behind what they held.
  abbrev pub gathered : Collected T → List (Upstream.Step T) → List (Use T) → Collected T
  gathered c xs us = record {
    steps = c.steps ++ xs;
    params = c.params ++ all_of own_params us;
    workspaces = c.workspaces ++ all_of own_workspaces us;
    results = c.results ++ all_of (λ u. u.task.results) us;
    sidecars = c.sidecars ++ all_of (λ u. u.task.sidecars) us;
    volumes = c.volumes ++ all_of (λ u. u.task.volumes) us;
  }

  all_of-append :
      {A : Type 0} (f : Use T → List A) (us vs : List (Use T))
      → all_of f (us ++ vs) ≡ all_of f us ++ all_of f vs
  all_of-append f [] vs = refl
  all_of-append f (u ∷ us) vs = rw (all_of-append f us vs, append_assoc)

  gathered-gathered :
      (c : Collected T) (xs ys : List (Upstream.Step T)) (us vs : List (Use T))
      → gathered (gathered c xs us) ys vs ≡ gathered c (xs ++ ys) (us ++ vs)
  gathered-gathered c xs ys us vs = simp (all_of-append, append_assoc)

module _ {T : Types} (P : StepApi T) where
  -- A step of its own is merged with the group's template. A step that uses a task is the steps of
  -- that task under its bindings, merged with that task's template.
  abbrev pub expansion :
      Option T.Container
      → ℕ
      → Step T
      → Option (Uses T)
      → Option (TaskSpec T)
      → Result (List (Upstream.Step T))
  expansion template i s none _ = P.merge_steps_with_step_template template (s.step ∷ [])
  expansion template i s (some uses) none =
      err (plain ("step " <> (s.step.name <> " uses not found")))
  expansion template i s (some uses) (some task) =
      used_steps P i s.step.name uses task >>= P.merge_steps_with_step_template task.step_template

  unfoldable pub expand :
      Option T.Container → UsedTasks T → ℕ → List (Step T) → Result (List (Upstream.Step T))
  expand template used i [] = ok []
  expand template used i (s ∷ steps) = expansion template i s s.uses (used i) >>= λ xs.
      expand template used (suc i) steps >>= λ rest. ok (xs ++ rest)

  append_steps_ok :
      (template : Option T.Container) (resolved : Result (List (Upstream.Step T))) (c : Collected T)
      (xs : List (Upstream.Step T))
      → (resolved >>= P.merge_steps_with_step_template template) ≡ ok xs
      → append_steps P template resolved c ≡ (record c { steps = c.steps ++ xs }, none)
  unfolding append_steps
  append_steps_ok template resolved c xs h = rw (append_steps, h)

  append_steps_err :
      (template : Option T.Container) (resolved : Result (List (Upstream.Step T))) (c : Collected T)
      (e : Error)
      → (resolved >>= P.merge_steps_with_step_template template) ≡ err e
      → append_steps P template resolved c ≡ (c, some e)
  unfolding append_steps
  append_steps_err template resolved c e h = rw (append_steps, h)

  -- One round, on a step of its own and on one that uses a task.
  collect_by_ok :
      (template : Option T.Container) (i : ℕ) (s : Step T) (uses : Option (Uses T))
      (task : Option (TaskSpec T)) (c : Collected T) (xs : List (Upstream.Step T))
      → expansion template i s uses task ≡ ok xs
      → collect_by P template i s uses task c ≡ (gathered c xs (use_of uses task), none)
  unfolding collect_by
  collect_by_ok template i s none task c xs h =
      append_steps_ok template (ok (s.step ∷ [])) c xs h ∙ simp append-nil
  collect_by_ok template i s (some uses) none c xs h = cc
  collect_by_ok template i s (some uses) (some task) c xs h =
      append_steps_ok task.step_template (used_steps P i s.step.name uses task)
        (collect_used uses task c) xs h
      ∙ simp (collect_params_lem, collect_workspaces_lem, append-nil)

  collect_by_err :
      (template : Option T.Container) (i : ℕ) (s : Step T) (uses : Option (Uses T))
      (task : Option (TaskSpec T)) (c : Collected T) (e : Error)
      → expansion template i s uses task ≡ err e
      → (collect_by P template i s uses task c).1 ≡ some e
  unfolding collect_by
  collect_by_err template i s none task c e h =
      ap (λ r. r.1) (append_steps_err template (ok (s.step ∷ [])) c e h)
  collect_by_err template i s (some uses) none c e h = cc
  collect_by_err template i s (some uses) (some task) c e h =
      ap (λ r. r.1)
        (append_steps_err task.step_template (used_steps P i s.step.name uses task)
          (collect_used uses task c) e h)

  collect_next :
      (template : Option T.Container) (used : UsedTasks T) (i : ℕ) (s : Step T)
      (steps : List (Step T)) (c c' : Collected T)
      → collect_step P template used i s c ≡ (c', none)
      → collect P template used i (s ∷ steps) c ≡ collect P template used (suc i) steps c'
  unfolding collect
  collect_next template used i s steps c c' h = rw h

  collect_stop :
      (template : Option T.Container) (used : UsedTasks T) (i : ℕ) (s : Step T)
      (steps : List (Step T)) (c : Collected T) (e : Error)
      → (collect_step P template used i s c).1 ≡ some e
      → (collect P template used i (s ∷ steps) c).1 ≡ some e
  unfolding collect
  collect_stop template used i s steps c e h =
      and_then_stop (collect_step P template used i s c) _ h

  -- Where every step has an expansion, the loop appends all of them and gathers what the used
  -- tasks contribute.
  pub collect_ok :
      (template : Option T.Container) (used : UsedTasks T) (i : ℕ) (steps : List (Step T))
      (c : Collected T) (xs : List (Upstream.Step T))
      → expand template used i steps ≡ ok xs
      → collect P template used i steps c ≡ (gathered c xs (uses_of used i steps), none)
  unfolding collect expand uses_of
  collect_ok template used i [] c xs h = rw (← ok_inj h) (simp append-nil)
  collect_ok template used i (s ∷ steps) c xs h =
      let (ys, e, k) = >>=-eq-ok (expansion template i s s.uses (used i)) _ h in
      let (zs, f, l) = >>=-eq-ok (expand template used (suc i) steps) _ k in
      collect_next template used i s steps c _
        (unfold collect_step in collect_by_ok template i s s.uses (used i) c ys e)
      ∙ collect_ok template used (suc i) steps _ zs f
      ∙ ap (λ d. (d, none))
          (gathered-gathered c ys zs (use_of s.uses (used i)) (uses_of used (suc i) steps))
      ∙ ap (λ l. (gathered c l (uses_of used i (s ∷ steps)), none)) (ok_inj l)

  -- The error of the first step that has no expansion ends the loop.
  pub collect_err :
      (template : Option T.Container) (used : UsedTasks T) (i : ℕ) (steps : List (Step T))
      (c : Collected T) (e : Error)
      → expand template used i steps ≡ err e
      → (collect P template used i steps c).1 ≡ some e
  unfolding collect expand
  collect_err template used i [] c e h = cc
  collect_err template used i (s ∷ steps) c e h =
      elim (>>=-eq-err (expansion template i s s.uses (used i)) _ h) [
        | inl k ↦
            collect_stop template used i s steps c e
              (unfold collect_step in collect_by_err template i s s.uses (used i) c e k)
        | inr (ys, k, l) ↦ elim (>>=-eq-err (expand template used (suc i) steps) _ l) [
          | inl f ↦
              rw
                (collect_next template used i s steps c _
                  (unfold collect_step in collect_by_ok template i s s.uses (used i) c ys k))
                (collect_err template used (suc i) steps _ e f)
          | inr (zs, f, m) ↦ absurd (cc)
        ]
      ]
