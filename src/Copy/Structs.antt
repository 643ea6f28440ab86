-- ===== src/Copy/Structs.antt =====
-- The deep copies of the structs.
use tekton_task_group.Base.{◌≤◌, arith}
use tekton_task_group.Copy.Values.{slice_of, values_of, pointer_to}
use tekton_task_group.Copy.{
  Library, copy_uses, uses, copy_step, steps, copy_spec, specs, copy_task_group, task_groups,
  copy_list, lists, copy_status, statuses,
}
use tekton_task_group.Copy.Laws.{
  Within-append, IsDeep, slice_of-IsDeep, pointer_to-IsDeep, values_of-IsDeep,
}

-- The deep copies of the libraries are deep copies.
pub record IsLawful (L : Library) : Type 0 where
  pub param_spec : IsDeep L.param_spec.copyable
  pub step : IsDeep L.step.copyable
  pub volume : IsDeep L.volume.copyable
  pub container : IsDeep L.container.copyable
  pub sidecar : IsDeep L.sidecar.copyable
  pub task_ref : IsDeep L.task_ref.copyable
  pub object_meta : IsDeep L.object_meta.copyable
  pub list_meta : IsDeep L.list_meta.copyable
  pub task_run_status : IsDeep L.task_run_status.copyable

module _ (L : Library) (law : IsLawful L) where
  pub uses-IsDeep : IsDeep (uses L)
  unfolding copy_uses
  uses-IsDeep s n =
      let a = law.task_ref s.task_ref n in
      let n1 = (L.task_ref.copyable.deep_copy_into s.task_ref n).1 in
      let b = values_of-IsDeep s.param_bindings n1 in
      let n2 = (values_of.deep_copy_into s.param_bindings n1).1 in
      let c = values_of-IsDeep s.workspace_bindings n2 in
      let n3 = (values_of.deep_copy_into s.workspace_bindings n2).1 in
      record {
        same = rw (a.same, b.same, c.same);
        grows = omega (arith, a.grows, b.grows, c.grows);
        fresh =
            Within-append n n1 n3 _ _ a.grows (omega (arith, b.grows, c.grows)) a.fresh
              (Within-append n1 n2 n3 _ _ b.grows c.grows b.fresh c.fresh);
      }

  pub steps-IsDeep : IsDeep (steps L)
  unfolding copy_step
  steps-IsDeep s n =
      let a = law.step s.step n in
      let n1 = (L.step.copyable.deep_copy_into s.step n).1 in
      let b = pointer_to-IsDeep (uses L) uses-IsDeep s.uses n1 in
      let n2 = ((pointer_to (uses L)).deep_copy_into s.uses n1).1 in
      record {
        same = rw (a.same, b.same);
        grows = omega (arith, a.grows, b.grows);
        fresh = Within-append n n1 n2 _ _ a.grows b.grows a.fresh b.fresh;
      }

  pub specs-IsDeep : IsDeep (specs L)
  unfolding copy_spec
  specs-IsDeep s n =
      let a = slice_of-IsDeep L.param_spec.copyable law.param_spec s.params n in
      let n1 = ((slice_of L.param_spec.copyable).deep_copy_into s.params n).1 in
      let b = slice_of-IsDeep (steps L) steps-IsDeep s.steps n1 in
      let n2 = ((slice_of (steps L)).deep_copy_into s.steps n1).1 in
      let c = slice_of-IsDeep L.volume.copyable law.volume s.volumes n2 in
      let n3 = ((slice_of L.volume.copyable).deep_copy_into s.volumes n2).1 in
      let d = pointer_to-IsDeep L.container.copyable law.container s.step_template n3 in
      let n4 = ((pointer_to L.container.copyable).deep_copy_into s.step_template n3).1 in
      let e = slice_of-IsDeep L.sidecar.copyable law.sidecar s.sidecars n4 in
      let n5 = ((slice_of L.sidecar.copyable).deep_copy_into s.sidecars n4).1 in
      let f = values_of-IsDeep s.workspaces n5 in
      let n6 = (values_of.deep_copy_into s.workspaces n5).1 in
      let g = values_of-IsDeep s.results n6 in
      let n7 = (values_of.deep_copy_into s.results n6).1 in
      let g6 : n5 ≤ n7 = omega (arith, f.grows, g.grows) in
      let g5 : n4 ≤ n7 = omega (arith, e.grows, g6) in
      let g4 : n3 ≤ n7 = omega (arith, d.grows, g5) in
      let g3 : n2 ≤ n7 = omega (arith, c.grows, g4) in
      let g2 : n1 ≤ n7 = omega (arith, b.grows, g3) in
      record {
        same = rw (a.same, b.same, c.same, d.same, e.same, f.same, g.same);
        grows = omega (arith, a.grows, g2);
        fresh = Within-append n n1 n7 _ _ a.grows g2 a.fresh (
            Within-append n1 n2 n7 _ _ b.grows g3 b.fresh (
              Within-append n2 n3 n7 _ _ c.grows g4 c.fresh (
                Within-append n3 n4 n7 _ _ d.grows g5 d.fresh (
                  Within-append n4 n5 n7 _ _ e.grows g6 e.fresh
                    (Within-append n5 n6 n7 _ _ f.grows g.grows f.fresh g.fresh)))));
      }

  pub task_groups-IsDeep : IsDeep (task_groups L)
  unfolding copy_task_group
  task_groups-IsDeep s n =
      let a = law.object_meta s.meta n in
      let n1 = (L.object_meta.copyable.deep_copy_into s.meta n).1 in
      let b = specs-IsDeep s.spec n1 in
      let n2 = ((specs L).deep_copy_into s.spec n1).1 in
      record {
        same = rw (a.same, b.same);
        grows = omega (arith, a.grows, b.grows);
        fresh = Within-append n n1 n2 _ _ a.grows b.grows a.fresh b.fresh;
      }

  pub lists-IsDeep : IsDeep (lists L)
  unfolding copy_list
  lists-IsDeep s n =
      let a = law.list_meta s.list_meta n in
      let n1 = (L.list_meta.copyable.deep_copy_into s.list_meta n).1 in
      let b = slice_of-IsDeep (task_groups L) task_groups-IsDeep s.items n1 in
      let n2 = ((slice_of (task_groups L)).deep_copy_into s.items n1).1 in
      record {
        same = rw (a.same, b.same);
        grows = omega (arith, a.grows, b.grows);
        fresh = Within-append n n1 n2 _ _ a.grows b.grows a.fresh b.fresh;
      }

  pub statuses-IsDeep : IsDeep (statuses L)
  unfolding copy_status
  statuses-IsDeep s n =
      let a = pointer_to-IsDeep (specs L) specs-IsDeep s.task_group_spec n in
      let n1 = ((pointer_to (specs L)).deep_copy_into s.task_group_spec n).1 in
      let b = pointer_to-IsDeep L.task_run_status.copyable law.task_run_status s.task_run n1 in
      let n2 = ((pointer_to L.task_run_status.copyable).deep_copy_into s.task_run n1).1 in
      record {
        same = rw (a.same, b.same);
        grows = omega (arith, a.grows, b.grows);
        fresh = Within-append n n1 n2 _ _ a.grows b.grows a.fresh b.fresh;
      }
