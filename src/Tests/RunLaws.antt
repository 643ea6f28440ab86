-- ===== src/Tests/RunLaws.antt =====
-- The Runs of the small API server behave over several passes as v1alpha1 documents it.
use tekton_task_group.Base.{
  String, ◌≡◌, refl, ap, Bool, true, Option, none, some, Result, ok, arith,
}
use tekton_task_group.Upstream.Run.{RunStatus, Condition}
use tekton_task_group.Reconciler.Kind.{no_status}
use tekton_task_group.Reconciler.History.{IsStable, Encodes}
use tekton_task_group.Reconciler.History.Lifecycle.{IsReadable, phase_of, is_final, begun}
use tekton_task_group.Tests.World.{runs, run_api, is_decided, begun_condition, written, read_status}

done_equal : (c d : Option Condition) → d ≡ c → is_decided d ≡ is_decided c
done_equal c d e = ap is_decided e

started_decided :
    (c : Option Condition) → is_decided c ≡ true → is_decided (some (begun_condition c)) ≡ true
started_decided none h = cc
started_decided (some c) h = h

written_json :
    (task_run : Option (Option Bool)) (tr : Option Bool)
    → task_run ≡ some tr
    → (u : Option Bool) × ((read_status (written task_run) no_status).0.task_run ≡ some u)
written_json none tr h = cc
written_json (some t) tr h = (none, refl)

encoded_conditions :
    (s t : RunStatus runs) (json : String)
    → ◌≡◌ {A = Result (RunStatus runs)} (ok (record s { extra_fields = json })) (ok t)
    → t.conditions ≡ s.conditions
encoded_conditions s t json e = cc

encoded_fields :
    (s t : RunStatus runs) (json : String)
    → ◌≡◌ {A = Result (RunStatus runs)} (ok (record s { extra_fields = json })) (ok t)
    → t.extra_fields ≡ json
encoded_fields s t json e = cc

pub run_api-IsStable : IsStable run_api
run_api-IsStable = record {
  done_conditions = λ s t e. done_equal s.conditions t.conditions e;
  failed_done = λ r m s. refl;
  initialize_done = λ s h. started_decided s.conditions h;
  initialize_fields = λ s. refl;
  decode_fields = λ s t into e. ap (λ json. read_status json into) e;
  encode_conditions = λ status s t e. encoded_conditions s t _ e;
  decode_encoded =
      λ status s t tr e h. rw (encoded_fields s t _ e) (written_json status.task_run tr h);
}

pub run_api-Encodes : Encodes run_api
run_api-Encodes status s = (record s { extra_fields = written status.task_run }, refl)

done_phase : (c : Option Condition) → is_decided c ≡ is_final (phase_of c)
done_phase none = refl
done_phase (some c) = ground arith

begun_phase : (c : Option Condition) → phase_of (some (begun_condition c)) ≡ begun (phase_of c)
begun_phase none = refl
begun_phase (some c) = ground arith

pub run_api-IsReadable : IsReadable run_api
run_api-IsReadable = record {
  condition_conditions = λ s t e. e;
  done_phase = λ s. done_phase s.conditions;
  initialize_phase = λ s. begun_phase s.conditions;
}
