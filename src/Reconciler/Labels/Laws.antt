-- ===== src/Reconciler/Labels/Laws.antt =====
-- Which labels and annotations are passed on, and that a created TaskRun is found by its labels.
use tekton_task_group.Base.{
  String, ◌≡◌, refl, sym, ap, ◌∙◌, true, false, ◌==◌, ◌&&◌, [], ◌∷◌, Option, none, some,
  if◌then◌else◌, every, eq_iff, eq_refl, Bool-cases, inl, inr,
}
use tekton_task_group.Base.Named.{or_else, or_else-none}
use tekton_task_group.Base.GoMap.{GoMap, lookup, insert, lookup-insert, lookup-nil, NodupKeys}
use tekton_task_group.Upstream.{ObjectMeta}
use tekton_task_group.Upstream.Run.{RunTypes, Run}
use tekton_task_group.Reconciler.Labels.{
  entries, copy_into, run_label, task_group_label, get_task_run_labels, get_task_run_annotations,
  propagate, has_entry,
}

-- The entries copied win over those that were there.
lookup-copy_into :
    (k : String) (from into : GoMap String)
    → NodupKeys from
    → lookup k (copy_into from into) ≡ or_else (lookup k from) (lookup k into)
unfolding copy_into lookup
lookup-copy_into k [] into h = refl
lookup-copy_into k ((j, v) ∷ from) into h =
    rw (lookup-copy_into k from (insert j v into) h.1, lookup-insert)
      (copied k j v from (lookup k into) h.0)
  where
    copied :
        (k j v : String) (m : GoMap String) (rest : Option String)
        → lookup j m ≡ none
        → or_else (lookup k m) (if j == k then some v else rest)
          ≡ or_else (if j == k then some v else lookup k m) rest
    copied k j v m rest fresh = elim (Bool-cases (j == k)) [
      | inl e ↦ rw e (rw (ap (λ s. lookup s m) (sym ((eq_iff j k).0 e)) ∙ fresh))
      | inr e ↦ rw e
    ]

has_entry_of_lookup :
    (k v : String) (m : GoMap String) → lookup k m ≡ some v → has_entry m (k, v) ≡ true
unfolding has_entry
has_entry_of_lookup k v m h = rw (has_entry, h) (eq_refl v)

module _ {R : RunTypes} (run : Run R) where
  -- The labels of the TaskRun are those of the Run, which hold no key twice, but for the run
  -- label, which is the name of the Run.
  pub lookup-get_task_run_labels :
      (k : String)
      → NodupKeys (entries run.meta.labels)
      → lookup k (get_task_run_labels run true)
        ≡ (if run_label == k then some run.meta.name else lookup k (entries run.meta.labels))
  unfolding get_task_run_labels
  lookup-get_task_run_labels k h =
      lookup-insert k run_label run.meta.name _
      ∙ rw (lookup-copy_into k (entries run.meta.labels) [] h, lookup-nil, or_else-none)

  -- The TaskRun has the annotations of the Run and no others.
  pub lookup-get_task_run_annotations :
      (k : String)
      → NodupKeys (entries run.meta.annotations)
      → lookup k (get_task_run_annotations run) ≡ lookup k (entries run.meta.annotations)
  unfolding get_task_run_annotations
  lookup-get_task_run_annotations k h =
      lookup-copy_into k (entries run.meta.annotations) [] h ∙ rw (lookup-nil, or_else-none)

  -- A label selector matches the labels that hold all of its entries. The selector by which a
  -- Run's TaskRuns are listed matches the labels that they are created with, whatever labels the
  -- Run has.
  pub selector_matches :
      every (has_entry (get_task_run_labels run true)) (get_task_run_labels run false) ≡ true
  unfolding get_task_run_labels insert
  selector_matches =
      ap (λ b. b && true)
        (has_entry_of_lookup run_label run.meta.name (get_task_run_labels run true) (
          lookup-insert run_label run_label run.meta.name (copy_into (entries run.meta.labels) [])))

  -- After the propagation the Run has the task group's labels, its own other ones, and the label
  -- with the name of the task group; its annotations are the task group's and its own other ones.
  -- The task group's labels and annotations hold no key twice.
  pub lookup-propagate :
      (group : ObjectMeta) (k : String)
      → NodupKeys (entries group.labels)
      → NodupKeys (entries group.annotations)
      → (lookup k (entries (propagate run group).meta.labels) ≡ (
          if task_group_label == k
          then some group.name
          else or_else (lookup k (entries group.labels)) (lookup k (entries run.meta.labels))))
        × (lookup k (entries (propagate run group).meta.annotations)
            ≡ or_else
                (lookup k (entries group.annotations))
                (lookup k (entries run.meta.annotations)))
  unfolding propagate
  lookup-propagate group k h a = (
    lookup-insert k task_group_label group.name _
        ∙ rw (lookup-copy_into k (entries group.labels) (entries run.meta.labels) h),
    lookup-copy_into k (entries group.annotations) (entries run.meta.annotations) a,
  )
