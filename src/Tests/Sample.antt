-- ===== src/Tests/Sample.antt =====
-- A small instance of the libraries: a step has an image and a script in words, a reference
-- `$(k)` is a word, and the step template is the image for steps that have none.
use tekton_task_group.Base.{
  String, ◌<>◌, ◌==◌, List, [], ◌∷◌, map, Option, none, some, if◌then◌else◌, Result, ok, refl,
}
use tekton_task_group.Base.GoMap.{GoMap}
use tekton_task_group.Upstream.{Types, Step, StepApi, IsLawful}

pub record Body : Type 0 where
  pub image : String
  pub script : List String

abbrev pub sample : Types
sample = record {
  Container = String;
  StepBody = Body;
  SidecarBody = String;
  VolumeSource = String;
  ArrayOrString = String;
  ResolverRef = Unit;
}

unfoldable pub replace_word : String → GoMap String → String
replace_word word [] = word
replace_word word ((k, v) ∷ r) = if word == ("$(" <> (k <> ")")) then v else replace_word word r

unfoldable pub apply_replacements : Step sample → GoMap String → GoMap (List String) → Step sample
unfolding replace_word
apply_replacements s r _ = record s {
  body = record s.body { script = map (λ word. replace_word word r) s.body.script };
}

unfoldable pub merge_step : Option String → Step sample → Step sample
merge_step none s = s
merge_step (some image) s =
    if s.body.image == "" then record s { body = record s.body { image = image } } else s

unfoldable pub merge_steps : Option String → List (Step sample) → Result (List (Step sample))
unfolding merge_step
merge_steps none steps = ok steps
merge_steps (some image) steps = ok (map (merge_step (some image)) steps)

abbrev pub sample_api : StepApi sample
sample_api = record {
  apply_step_replacements = apply_replacements;
  merge_steps_with_step_template = merge_steps;
}

pub sample_api-IsLawful : IsLawful sample_api
unfolding merge_steps
sample_api-IsLawful = record { merge_no_template = λ steps. refl }
