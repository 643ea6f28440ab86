-- ===== src/Reconciler/Kind/Protocol/Whole.antt =====
-- The calls of a whole pass.
use tekton_task_group.Base.{
  ◌+◌, ◌≤◌, refl, ap, not, ◌||◌, List, [], ◌∷◌, ◌++◌, length, Result, ok, err, Bool-cases, inl, inr,
  subst,
}
use tekton_task_group.Upstream.{Types}
use tekton_task_group.Upstream.Run.{RunTypes, Run}
use tekton_task_group.Reconciler.Labels.{deep_equal}
use tekton_task_group.Reconciler.Env.{Env}
use tekton_task_group.Reconciler.Pass.{Pass, Call, emit}
use tekton_task_group.Reconciler.Kind.{
  patch, emit_event, no_status, reconcile, patch_if_changed, update_labels_and_annotations, start,
  decoded, encoded, converge, pass_on, is_foreign, reconcile_kind,
}
use tekton_task_group.Reconciler.Kind.Creations.{decoded_asked, encoded_asked}
use tekton_task_group.Reconciler.Kind.Protocol.{
  Started, had_started, starts, Acted, Patched, same_labels, patches, Protocol, returns, works,
  Protocol-length,
}
use tekton_task_group.Reconciler.Kind.Protocol.Acts.{reconcile-Acted}

module _ {T : Types} {R : RunTypes} (E : Env T R) where
  patch_if_changed-Patched :
      (r : Result (Run R)) (p : Pass E) → Patched p.calls (patch_if_changed E r p).1.calls
  unfolding patch_if_changed patch
  patch_if_changed-Patched (err e) p = same_labels refl
  patch_if_changed-Patched (ok new_run) p =
      elim (Bool-cases (
        not (deep_equal p.run.meta.labels new_run.meta.labels)
        || not (deep_equal p.run.meta.annotations new_run.meta.annotations))) [
          | inl h ↦ rw h (patches p.run.meta.labels p.run.meta.annotations refl)
          | inr h ↦ rw h (same_labels refl)
        ]

  start-Started : (p : Pass E) → Started p.calls (start E p).calls
  unfolding start emit_event
  start-Started p = elim (Bool-cases (E.runs.has_started p.run.status)) [
    | inl h ↦ rw h (had_started refl)
    | inr h ↦ rw h (starts _ refl)
  ]

  -- The pass `p` is one that has started already.
  converge-Protocol :
      (xs : List (Call T R)) (p : Pass E) → Started xs p.calls → Protocol xs (converge E p).1.calls
  unfolding converge update_labels_and_annotations emit_event
  converge-Protocol xs p started =
      let q = decoded E (E.runs.decode_extra_fields p.run.status no_status) p in
      let r = (reconcile E q).1 in
      let s = (update_labels_and_annotations E r).1 in
      let stored = E.runs.encode_extra_fields s.status s.run.status in
      let before = E.runs.get_condition p.run.status in
      let after = E.runs.get_condition (encoded E stored s).run.status in
      works p.calls r.calls s.calls before after started
        (subst (λ c. Acted c r.calls)
          (decoded_asked E (E.runs.decode_extra_fields p.run.status no_status) p)
          (reconcile-Acted E q))
        (patch_if_changed-Patched (E.cluster.get_run r.world r.run.meta.namespace r.run.meta.name)
          r)
        (ap (λ c. c ++ emit before after ∷ []) (encoded_asked E stored s))

  pass_on-Protocol :
      (xs : List (Call T R)) (p : Pass E) → Started xs p.calls → Protocol xs (pass_on E p).1.calls
  unfolding pass_on
  pass_on-Protocol xs p h = elim (Bool-cases (E.runs.is_done p.run.status)) [
    | inl done ↦ rw done (returns h)
    | inr active ↦ rw active (converge-Protocol xs p h)
  ]

  -- However the API server answers, one call of `ReconcileKind` makes at most four calls, in this
  -- order: the event that the Run starts, one call for the TaskRun, the patch of the Run's labels
  -- and annotations, and a last event. The call for the TaskRun asks for one or cancels one, never
  -- both; and without the last event nothing is called but the event that the Run starts.
  pub reconcile_kind-Protocol :
      (p : Pass E)
      → Protocol p.calls (reconcile_kind E p).1.calls
        × (length (reconcile_kind E p).1.calls ≤ length p.calls + 4)
  unfolding reconcile_kind
  reconcile_kind-Protocol p = (follows, Protocol-length _ _ follows)
    where
      follows : Protocol p.calls (reconcile_kind E p).1.calls
      follows = elim (Bool-cases (is_foreign E p.run)) [
        | inl h ↦ rw h (returns (had_started refl))
        | inr h ↦ rw h (pass_on-Protocol p.calls (start E p) (start-Started p))
      ]
