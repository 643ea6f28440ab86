-- ===== src/Copy/Values.antt =====
-- What can be copied, and the copies of slices and pointers.
use tekton_task_group.Base.{ℕ, suc, List, [], ◌∷◌, ◌++◌, map, Option, none, some}

-- What a value in memory is worth, the addresses that it is made of, and its deep copy: the copy and
-- the next address that is free.
pub record Copyable (A V : Type 0) : Type 0 where
  pub erase : A → V
  pub cells : A → List ℕ
  pub deep_copy_into : A → ℕ → A × ℕ

-- A slice that is not nil, and a pointer that is not nil.
pub record Slice (A : Type 0) : Type 0 where
  pub address : ℕ
  pub elements : List A

pub record Pointer (A : Type 0) : Type 0 where
  pub address : ℕ
  pub target : A

module _ {A V : Type 0} (C : Copyable A V) where
  -- `for i := range *in { (*in)[i].DeepCopyInto(&(*out)[i]) }`
  unfoldable pub copy_each : List A → ℕ → List A × ℕ
  copy_each [] n = ([], n)
  copy_each (x ∷ xs) n =
      let (y, n) = C.deep_copy_into x n in let (ys, n) = copy_each xs n in (y ∷ ys, n)

  -- A slice is made anew, if there is one, and its elements are copied into it.
  unfoldable pub copy_slice : Option (Slice A) → ℕ → Option (Slice A) × ℕ
  unfolding copy_each
  copy_slice none n = (none, n)
  copy_slice (some s) n =
      let (ys, m) = copy_each s.elements (suc n) in
      (some (record { address = n; elements = ys }), m)

  -- A new target, if there is one, which is copied into.
  unfoldable pub copy_pointer : Option (Pointer A) → ℕ → Option (Pointer A) × ℕ
  copy_pointer none n = (none, n)
  copy_pointer (some p) n =
      let (target, m) = C.deep_copy_into p.target (suc n) in
      (some (record { address = n; target = target }), m)

  abbrev pub all_cells : List A → List ℕ
  all_cells [] = []
  all_cells (x ∷ xs) = C.cells x ++ all_cells xs

  abbrev slice_cells : Option (Slice A) → List ℕ
  slice_cells none = []
  slice_cells (some s) = s.address ∷ all_cells s.elements

  abbrev slice_value : Option (Slice A) → Option (List V)
  slice_value none = none
  slice_value (some s) = some (map C.erase s.elements)

  abbrev pointer_cells : Option (Pointer A) → List ℕ
  pointer_cells none = []
  pointer_cells (some p) = p.address ∷ C.cells p.target

  abbrev pointer_value : Option (Pointer A) → Option V
  pointer_value none = none
  pointer_value (some p) = some (C.erase p.target)

  abbrev pub slice_of : Copyable (Option (Slice A)) (Option (List V))
  slice_of = record { erase = slice_value; cells = slice_cells; deep_copy_into = copy_slice }

  abbrev pub pointer_to : Copyable (Option (Pointer A)) (Option V)
  pointer_to = record {
    erase = pointer_value;
    cells = pointer_cells;
    deep_copy_into = copy_pointer;
  }

module _ {A : Type 0} where
  -- `copy(*out, *in)` into a slice that is made anew: the elements hold no address.
  unfoldable pub copy_values : Option (Slice A) → ℕ → Option (Slice A) × ℕ
  copy_values none n = (none, n)
  copy_values (some s) n = (some (record { address = n; elements = s.elements }), suc n)

  abbrev values_cells : Option (Slice A) → List ℕ
  values_cells none = []
  values_cells (some s) = s.address ∷ []

  abbrev values_value : Option (Slice A) → Option (List A)
  values_value none = none
  values_value (some s) = some s.elements

  abbrev pub values_of : Copyable (Option (Slice A)) (Option (List A))
  values_of = record { erase = values_value; cells = values_cells; deep_copy_into = copy_values }
