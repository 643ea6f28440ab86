-- ===== src/Tests/Dynamics.antt =====
-- The wrapper of a dynamic client over a server that answers with what it is sent.
use tekton_task_group.Base.{
  [], ◌∷◌, String, ◌==◌, ◌≡◌, refl, none, some, if◌then◌else◌, Error, plain, Result, ok, err,
}
use tekton_task_group.Api.{TaskGroup}
use tekton_task_group.Client.Options.{TaskGroupList, Operation, update}
use tekton_task_group.Client.Typed.{request}
use tekton_task_group.Client.Dynamic
use tekton_task_group.Client.Dynamic.{
  GroupVersionKind, KindedTaskGroup, Json, Call, create_object, update_object, update_status_object,
  get_object, patch_object, DynamicClient, task_group, task_group_kind, to_unstructured,
  from_unstructured, from_unstructured_list,
}
use tekton_task_group.Client.Dynamic.Laws.{
  Answers, served_resource, IsSent, recorder, perform-request,
}
use tekton_task_group.Client.Fake.Laws.{asked_by_request}
use tekton_task_group.Tests.Sample.{sample}
use tekton_task_group.Tests.Clients.{units, shop, all_groups}

-- JSON as the values that it stands for. An object without a kind is no unstructured object.
data Text : Type 0 where
  an_object : KindedTaskGroup sample → Text
  a_list : TaskGroupList sample units → Text

abbrev read_object : Text → Result (KindedTaskGroup sample)
read_object (an_object o) = ok o
read_object (a_list l) = err (plain "a list")

abbrev read_unstructured : Text → Result (KindedTaskGroup sample)
read_unstructured (an_object o) =
    if o.type_meta.kind == "" then err (plain "Object 'Kind' is missing") else ok o
read_unstructured (a_list l) = err (plain "a list")

abbrev read_list : Text → Result (TaskGroupList sample units)
read_list (an_object o) = err (plain "an object")
read_list (a_list l) = ok l

abbrev json : Json sample units
json = record {
  Unstructured = KindedTaskGroup sample;
  UnstructuredList = TaskGroupList sample units;
  Bytes = Text;
  marshal_task_group = λ o. ok (an_object o);
  marshal_unstructured = λ o. ok (an_object o);
  marshal_unstructured_list = λ l. ok (a_list l);
  unmarshal_unstructured = read_unstructured;
  unmarshal_task_group = read_object;
  unmarshal_task_group_list = read_list;
}

abbrev kinded : TaskGroup sample → KindedTaskGroup sample
kinded tg = record { type_meta = task_group_kind; task_group = tg }

abbrev gone : Error
gone = plain "not found"

-- A server that answers with the object that it is sent, and has no other one.
abbrev answer : Call json → Result (KindedTaskGroup sample)
answer (create_object uo opts) = ok uo
answer (update_object uo opts) = ok uo
answer (update_status_object uo opts) = ok uo
answer (get_object name opts) = err gone
answer (patch_object name pt content opts subresources) = err gone

abbrev echo : Answers json
echo = record {
  to_call = λ _ _ call. answer call;
  to_list = λ _ _ _. ok all_groups;
  to_delete = λ _ _ _ _. some gone;
  to_delete_collection = λ _ _ _ _. none;
}

abbrev updating : Operation sample units
updating = update shop tt

abbrev no_kind : GroupVersionKind
no_kind = record { group = ""; version = ""; kind = "" }

abbrev name_of : KindedTaskGroup sample → String
name_of o = o.task_group.meta.name

shop-IsSent : IsSent json name_of echo "ns" updating
unfolding to_unstructured
shop-IsSent = (kinded shop, refl, refl)

perform-request_example :
    (Dynamic.perform json (recorder json name_of echo) "ns" no_kind updating []).1
    ≡ (served_resource, asked_by_request (request "ns" updating)) ∷ []
perform-request_example = perform-request json name_of echo "ns" no_kind updating [] shop-IsSent
