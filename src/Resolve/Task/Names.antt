-- ===== src/Resolve/Task/Names.antt =====
-- The names of the steps that use a task.
use text.Mathlib.TextLemmas.{append_cancel_left}
use tekton_task_group.Base.{ℕ, ◌≢◌, decimal, decimal_inj}
use tekton_task_group.Resolve.Task.{step_name}

-- The names that steps which use a task and have no name are given, and with which the names of
-- their tasks' steps begin, differ at different positions.
pub step_name_inj : (i j : ℕ) → i ≢ j → step_name "" i ≢ step_name "" j
unfolding step_name
step_name_inj i j other e =
    other (decimal_inj i j (append_cancel_left "unamed-" (decimal i) (decimal j) e))
