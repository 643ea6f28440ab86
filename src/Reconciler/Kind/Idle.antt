-- ===== src/Reconciler/Kind/Idle.antt =====
-- The Runs that `ReconcileKind` leaves alone.
use tekton_task_group.Base.{◌≡◌, ◌||◌, ◌&&◌, arith, true, []}
use tekton_task_group.Upstream.{Types}
use tekton_task_group.Upstream.Run.{RunTypes}
use tekton_task_group.Reconciler.Env.{Env}
use tekton_task_group.Reconciler.Pass.{Pass}
use tekton_task_group.Reconciler.Kind.{start, pass_on, is_foreign, reconcile_kind}

module _ {T : Types} {R : RunTypes} (E : Env T R) (p : Pass E) where
  -- A Run that refers to another API version or kind is left as it is, and so is a Run that has
  -- started and is done: no call is made, and no error is handed back.
  pub reconcile_kind_idle :
      (is_foreign E p.run || (E.runs.has_started p.run.status && E.runs.is_done p.run.status))
        ≡ true
      → reconcile_kind E p ≡ ([], p)
  unfolding reconcile_kind start pass_on
  reconcile_kind_idle h = ground (arith, h)
