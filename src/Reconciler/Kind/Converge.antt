-- ===== src/Reconciler/Kind/Converge.antt =====
-- What `ReconcileKind` does around `reconcile`: the start of a Run, the patch of its labels, the
-- event, and the errors that it hands back.
use tekton_task_group.Base.{
  ℕ, ◌≤◌, ◌≡◌, refl, sym, Bool, not, ◌||◌, [], ◌∷◌, ◌++◌, append-nil, Option, some, Error, Result,
  ok, err, Bool-cases, inl, inr, arith, ◌⊎◌, if◌then◌else◌,
}
use tekton_task_group.Upstream.{Types}
use tekton_task_group.Upstream.Run.{RunTypes, Run, RunStatus, Condition}
use tekton_task_group.Reconciler.Labels.{deep_equal}
use tekton_task_group.Reconciler.Env.{Env}
use tekton_task_group.Reconciler.Pass.{Pass, patch_run, emit}
use tekton_task_group.Reconciler.Kind.{
  adjust_start_time, decoded, encoded, reconcile, update_labels_and_annotations, patch_if_changed,
  patch, converge, emit_event, no_status, append_error,
}

module _ {T : Types} {R : RunTypes} (E : Env T R) where
  -- A start time after the adjustment is not earlier than the creation of the Run, and it is the
  -- creation or what it was before.
  pub adjust_start_time-start_time :
      (created : ℕ) (s : RunStatus R) (t : ℕ)
      → (adjust_start_time E created s).start_time ≡ some t
      → (created ≤ t) × ((t ≡ created) ⊎ (s.start_time ≡ some t))
  unfolding adjust_start_time
  adjust_start_time-start_time created s t h = ground (arith, h)

  -- The Run's labels or annotations differ from those that the lister has.
  abbrev pub is_stale : Run R → Run R → Bool
  is_stale run cached =
      not (deep_equal run.meta.labels cached.meta.labels)
      || not (deep_equal run.meta.annotations cached.meta.annotations)

  -- Where the lister has the Run, it is patched with its labels and annotations exactly if they
  -- differ from those that the lister has.
  pub update_labels_and_annotations-calls :
      (p : Pass E) (cached : Run R)
      → E.cluster.get_run p.world p.run.meta.namespace p.run.meta.name ≡ ok cached
      → (update_labels_and_annotations E p).1.calls
        ≡ p.calls
          ++ (if is_stale p.run cached
              then patch_run p.run.meta.labels p.run.meta.annotations ∷ []
              else [])
  unfolding update_labels_and_annotations patch_if_changed patch
  update_labels_and_annotations-calls p cached h = elim (Bool-cases (is_stale p.run cached)) [
    | inl stale ↦ rw (h, stale)
    | inr same ↦ rw (h, same) (sym (append-nil p.calls))
  ]

  -- The pass as it is when `reconcile` is called, and after `reconcile` and the patch.
  abbrev pub reading : Pass E → Pass E
  reading p = decoded E (E.runs.decode_extra_fields p.run.status no_status) p

  abbrev pub patched : Pass E → Option Error × Pass E
  patched p = update_labels_and_annotations E (reconcile E (reading p)).1

  -- The end of the pass, from the patch on.
  abbrev pub ended : Option Condition → Pass E → Pass E
  ended c p = emit_event E c (encoded E (E.runs.encode_extra_fields p.status p.run.status) p)

  emit_event-calls :
      (c : Option Condition) (r : Result (RunStatus R)) (p : Pass E)
      → (emit_event E c (encoded E r p)).calls
        ≡ p.calls ++ emit c (E.runs.get_condition (emit_event E c (encoded E r p)).run.status) ∷ []
  unfolding emit_event encoded
  emit_event-calls c (ok s) p = refl
  emit_event-calls c (err e) p = refl

  pub converge-ended :
      (p : Pass E)
      → converge E p ≡ (
        append_error E (append_error E [] (reconcile E (reading p)).0) (patched p).0,
        ended (E.runs.get_condition p.run.status) (patched p).1,
      )
  unfolding converge
  converge-ended p = refl

  -- The pass over a Run that is not done hands back the error of `reconcile` and that of the
  -- patch of the labels, in this order, and no other: an error in decoding or encoding the status
  -- is not handed back. Its last call is the event with the Run's conditions before and after.
  pub converge_lem :
      (p : Pass E)
      → ((converge E p).0
          ≡ append_error E (append_error E [] (reconcile E (reading p)).0) (patched p).0)
        × ((converge E p).1.calls
            ≡ (patched p).1.calls
              ++ emit
                  (E.runs.get_condition p.run.status)
                  (E.runs.get_condition (converge E p).1.run.status)
                ∷ [])
  converge_lem p =
      rw (converge-ended p)
        (refl, emit_event-calls (E.runs.get_condition p.run.status) _ (patched p).1)
