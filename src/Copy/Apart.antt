-- ===== src/Copy/Apart.antt =====
-- A deep copy and its original have no address in common.
use tekton_task_group.Base.{ℕ, ◌≡◌, ◌≢◌, List, Option, All, All-map, arith}
use tekton_task_group.Copy.Values.{Copyable, Pointer, pointer_to}
use tekton_task_group.Copy.{Library, TaskGroupList, lists, TaskGroupRunStatus, statuses}
use tekton_task_group.Copy.Methods.{deep_copy_list, deep_copy_status}
use tekton_task_group.Copy.Laws.{Within, IsDeep, pointer_to-IsDeep}
use tekton_task_group.Copy.Structs.{IsLawful, lists-IsDeep, statuses-IsDeep}

abbrev pub Apart : List ℕ → List ℕ → Type 0
Apart xs ys = All (λ x. All (λ y. x ≢ y) ys) xs

Apart-of_Within : (n hi : ℕ) (xs ys : List ℕ) → Within 0 n ys → Within n hi xs → Apart xs ys
Apart-of_Within n hi xs ys old new =
    All-map (λ x above. All-map (λ y below e. omega (arith, above.0, below.1, e)) ys old) xs new

Apart-of_IsDeep :
    {A V : Type 0} (C : Copyable A V)
    → IsDeep C
    → (a : A) (n : ℕ) → Within 0 n (C.cells a)
    → (C.erase (C.deep_copy_into a n).0 ≡ C.erase a)
      × Apart (C.cells (C.deep_copy_into a n).0) (C.cells a)
Apart-of_IsDeep C deep a n old =
    let d = deep a n in
    (
      d.same,
      Apart-of_Within n (C.deep_copy_into a n).1 (C.cells (C.deep_copy_into a n).0) (C.cells a) old
          d.fresh,
    )

module _ (L : Library) (law : IsLawful L) where
  -- Where the addresses of a list of TaskGroups are below the next free one, its deep copy is
  -- worth the same, down to the steps and their bindings, and none of the copy's addresses is one
  -- of the original's, given that the deep copies of the libraries are such.
  pub deep_copy_list_lem :
      (p : Option (Pointer (TaskGroupList L))) (n : ℕ)
      → Within 0 n ((pointer_to (lists L)).cells p)
      → ((pointer_to (lists L)).erase (deep_copy_list L p n).0 ≡ (pointer_to (lists L)).erase p)
        × Apart
            ((pointer_to (lists L)).cells (deep_copy_list L p n).0)
            ((pointer_to (lists L)).cells p)
  unfolding deep_copy_list
  deep_copy_list_lem p n old =
      Apart-of_IsDeep (pointer_to (lists L)) (pointer_to-IsDeep (lists L) (lists-IsDeep L law)) p n
        old

  -- Where the addresses of the status that is kept in a Run are below the next free one, its deep
  -- copy is worth the same and shares no address with it, given that the deep copies of the
  -- libraries are such.
  pub deep_copy_status_lem :
      (p : Option (Pointer (TaskGroupRunStatus L))) (n : ℕ)
      → Within 0 n ((pointer_to (statuses L)).cells p)
      → ((pointer_to (statuses L)).erase (deep_copy_status L p n).0
          ≡ (pointer_to (statuses L)).erase p)
        × Apart
            ((pointer_to (statuses L)).cells (deep_copy_status L p n).0)
            ((pointer_to (statuses L)).cells p)
  unfolding deep_copy_status
  deep_copy_status_lem p n old =
      Apart-of_IsDeep (pointer_to (statuses L))
        (pointer_to-IsDeep (statuses L) (statuses-IsDeep L law)) p n old
