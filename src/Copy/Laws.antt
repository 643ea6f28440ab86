-- ===== src/Copy/Laws.antt =====
-- A deep copy is worth the same and shares no address with the original.
use tekton_task_group.Base.{
  ℕ, suc, ◌≤◌, ◌<◌, ◌≡◌, refl, ap, List, [], ◌∷◌, ◌++◌, map, none, some, All, All-append, All-map,
  arith,
}
use tekton_task_group.Copy.Values.{
  Copyable, copy_each, copy_slice, copy_values, copy_pointer, all_cells, slice_of, values_of,
  pointer_to,
}

-- All of the addresses are at least `lo` and below `hi`.
abbrev pub Within : ℕ → ℕ → List ℕ → Type 0
Within lo hi cells = All (λ c. (lo ≤ c) × (c < hi)) cells

pub Within-widen :
    (lo hi lo' hi' : ℕ) (cells : List ℕ)
    → lo' ≤ lo
    → hi ≤ hi'
    → Within lo hi cells
    → Within lo' hi' cells
Within-widen lo hi lo' hi' cells a b h =
    All-map (λ c k. (omega (arith, k.0, a), omega (arith, k.1, b))) cells h

-- Addresses of one stretch followed by addresses of the next.
pub Within-append :
    (lo mid hi : ℕ) (xs ys : List ℕ)
    → lo ≤ mid
    → mid ≤ hi
    → Within lo mid xs
    → Within mid hi ys
    → Within lo hi (xs ++ ys)
Within-append lo mid hi xs ys a b h k =
    All-append _ xs ys (Within-widen lo mid lo hi xs (omega arith) b h)
      (Within-widen mid hi lo hi ys a (omega arith) k)

-- What a deep copy must be: worth the same, with new addresses only.
pub record Copied {A V : Type 0} (C : Copyable A V) (a : A) (n : ℕ) : Type 0 where
  pub same : C.erase (C.deep_copy_into a n).0 ≡ C.erase a
  pub grows : n ≤ (C.deep_copy_into a n).1
  pub fresh : Within n (C.deep_copy_into a n).1 (C.cells (C.deep_copy_into a n).0)

abbrev pub IsDeep : {A V : Type 0} → Copyable A V → Type 0
IsDeep {A} C = (a : A) (n : ℕ) → Copied C a n

module _ {A V : Type 0} (C : Copyable A V) (deep : IsDeep C) where
  copy_each-same : (xs : List A) (n : ℕ) → map C.erase (copy_each C xs n).0 ≡ map C.erase xs
  unfolding copy_each
  copy_each-same [] n = refl
  copy_each-same (x ∷ xs) n = rw ((deep x n).same, copy_each-same xs (C.deep_copy_into x n).1)

  copy_each-grows : (xs : List A) (n : ℕ) → n ≤ (copy_each C xs n).1
  unfolding copy_each
  copy_each-grows [] n = omega arith
  copy_each-grows (x ∷ xs) n =
      omega (arith, (deep x n).grows, copy_each-grows xs (C.deep_copy_into x n).1)

  copy_each-fresh :
      (xs : List A) (n : ℕ) → Within n (copy_each C xs n).1 (all_cells C (copy_each C xs n).0)
  unfolding copy_each
  copy_each-fresh [] n = tt
  copy_each-fresh (x ∷ xs) n =
      let m = (C.deep_copy_into x n).1 in
      Within-append n m (copy_each C xs m).1 (C.cells (C.deep_copy_into x n).0)
        (all_cells C (copy_each C xs m).0) (deep x n).grows (copy_each-grows xs m) (deep x n).fresh
        (copy_each-fresh xs m)

  -- A slice of what is copied deeply is copied deeply.
  pub slice_of-IsDeep : IsDeep (slice_of C)
  unfolding copy_slice
  slice_of-IsDeep none n = record { same = refl; grows = omega arith; fresh = tt }
  slice_of-IsDeep (some s) n = record {
    same = ap some (copy_each-same s.elements (suc n));
    grows = omega (arith, copy_each-grows s.elements (suc n));
    fresh = (
      (omega arith, omega (arith, copy_each-grows s.elements (suc n))),
      Within-widen (suc n) _ n _ _ (omega arith) (omega arith) (copy_each-fresh s.elements (suc n)),
    );
  }

  -- So is a pointer to it.
  pub pointer_to-IsDeep : IsDeep (pointer_to C)
  unfolding copy_pointer
  pointer_to-IsDeep none n = record { same = refl; grows = omega arith; fresh = tt }
  pointer_to-IsDeep (some p) n =
      let d = deep p.target (suc n) in
      record {
        same = ap some d.same;
        grows = omega (arith, d.grows);
        fresh = (
          (omega arith, omega (arith, d.grows)),
          Within-widen (suc n) _ n _ _ (omega arith) (omega arith) d.fresh,
        );
      }

-- Values without addresses are copied deeply by copying the slice alone.
pub values_of-IsDeep : {A : Type 0} → IsDeep (values_of {A = A})
unfolding copy_values
values_of-IsDeep none n = record { same = refl; grows = omega arith; fresh = tt }
values_of-IsDeep (some s) n = record {
  same = refl;
  grows = omega arith;
  fresh = ((omega arith, omega arith), tt);
}
