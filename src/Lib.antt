-- ===== src/Lib.antt =====
-- The controller of TaskGroups, a custom task of Tekton: a Run that refers to a TaskGroup is carried
-- out as one TaskRun, whose task is put together from the steps of the group and from the steps of
-- the tasks that these use.
--
-- The program's parts and their modules:
--
--   Base        shared helpers: lists on the native numbers, Go's errors, panics, maps and texts
--   Upstream    the types of tektoncd/pipeline, Kubernetes and knative that the program reads or sets,
--               and the library functions that it calls, as parameters (`Types`, `StepApi`,
--               `FieldErrors`, `RunTypes`); each has a record of laws that the library documents
--   Api         pkg/apis/taskgroup/v1alpha1/taskgroup_types.go: TaskGroups, the reasons of a Run's
--               condition, and the status that is kept in the extra fields of a Run
--   Api.Register     register.go and taskgroup_defaults.go beside it
--   Api.Validation   taskgroup_validation.go beside it: `Validate` and what it calls
--   Resolve     pkg/resolve/taskgroup.go: Merge has mergeParams to mergeVolumes, Replace has
--               resolveSteps, replaceParams and replaceWorkspaces, Task has TaskSpec
--   Reconciler  pkg/reconciler/taskgroup/taskgroup.go: Labels has getTaskRunLabels,
--               getTaskRunAnnotations and propagateTaskGroupLabelsAndAnnotations, Create has
--               getTaskGroup, fetchUsesTaskSpec and createTaskRun, Observe has updateTaskRunStatus and
--               processTaskRun, Kind has reconcile, updateLabelsAndAnnotations, storeTaskGroupSpec and
--               ReconcileKind. Controller has controller.go: the event handlers. History
--               has several passes over one Run, one after the other: each begins with the extra
--               fields, and in most theorems the condition, that the last one left, while the world,
--               the labels and the spec may be others. A pass that begins with an older status than
--               that, from a cache that lags, is outside of the theorems on histories
--   Client      pkg/client: Typed has clientset/versioned/typed/taskgroup/v1alpha1/taskgroup.go, Group
--               has taskgroup_client.go beside it, Fake has fake/fake_taskgroup.go beside it,
--               Clientset has clientset/versioned/clientset.go and Fake.Clientset
--               clientset/versioned/fake/clientset_generated.go, Lister has
--               listers/taskgroup/v1alpha1/taskgroup.go, Factory has
--               informers/externalversions/factory.go, Informer has the taskgroup folder and
--               generic.go beside it, and Dynamic has the wrapper of a dynamic client, of
--               injection/client/client.go; Options has what the clients share
--   Client.Injection   pkg/client/injection: contexts with their values, and the factories and
--               informers that are put into them. Factories has informers/factory, Informers and
--               Filtered have informers/taskgroup, Listing the listers over a client there, and Fakes
--               the injection of fake clientsets. Found is about what `Get` finds
--   Copy        pkg/apis/taskgroup/v1alpha1/zz_generated.deepcopy.go: Values has the copies of slices and
--               pointers, Copy itself those of the structs, and Methods the methods `DeepCopy`
--   Tests       a small instance of every parameter, runs on it, and each theorem at an input where
--               its hypotheses hold
--
-- How the parts interact: the controller hands Runs to `ReconcileKind`, which leaves foreign ones alone. It
-- gets the task group by the typed client, validates it by Api.Validation, has it resolved to one
-- task by Resolve, and asks the API server for the TaskRun. The clients, informers and listers read and
-- write the task groups; the injection hands them to the controller by a context.
--
-- How state and effects are written: a pass of the reconciler is a record `Pass` of the Run and its
-- decoded status, which the code changes in place, the world behind the clients and listers, and the
-- list of the calls that were made. An action takes a pass and gives a result and a pass, so that what
-- was changed before an error stays changed. The world is the parameter `Cluster`; a call gives an
-- answer and the world that it leaves. A Go value with an error beside it is `Returned` where the value
-- counts in both cases, and `Result` where it is not used beside an error. A call that may panic is
-- `Panicking`.
--
-- Loops are structural recursion on the list that the code ranges over. A function that a loop makes is
-- given what the loop variable holds at the end, as the rounds of a loop share it (go.mod: go 1.16). The only fuel is that of
-- `decimal`, which prints a number n with fuel n + 1. A number has fewer digits than that; what more fuel
-- writes, and what the digits read as, is in Base.Decimal.Digits.
--
-- What is not modelled:
--   * `ApplyStepReplacements` writes into the slices of a step, which the fetched task shares; each
--     step that uses a task fetches it anew.
--   * The slice that `resolveSteps` returns beside an error is not used by its caller.
--   * A map is an association list, and a range over it takes the order of that list. The theorems on
--     maps are on lookups, which do not depend on the order.
--   * `TaskSpec.Resources` is never set. The result has no step template, as the code leaves it out.
--   * Times are natural numbers, one pass reads the clock once, and logging has no effect.
--   * The verb `%#v` of an error is a parameter, and so are the texts of field errors.
--   * The lock of the informer factory, and the identity of an informer: a new one is a value.
--   * The object tracker and the reactors of a fake clientset are parameters with laws. JSON, dynamic
--     clients and REST clients are parameters. That a type assertion of an object panics at another type
--     is left out where the library gives objects of that type. What client-go does with an event, and
--     what the listers over a client list, is outside of the theorems.
--   * The registrations by `init`, which pass functions to knative, the remaining files of the fake
--     clientset and the fakes of the informers, which repeat the code of what they stand for, and main.
pub mod Base
pub mod Client
pub mod Copy
pub mod Upstream
pub mod Api
pub mod Resolve
pub mod Reconciler
pub mod Tests
