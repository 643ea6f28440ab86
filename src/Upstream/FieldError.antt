-- ===== src/Upstream/FieldError.antt =====
-- knative.dev/pkg/apis: `*FieldError`, the tree of validation errors, behind its operations.
use tekton_task_group.Base.{
  ℕ, String, ◌≡◌, Bool, true, false, ◌&&◌, Bool-cases, inl, inr, sym, refl, ◌∙◌,
}

pub record FieldErrors : Type 1 where
  pub FieldError : Type 0
  pub nil : FieldError
  -- `err == nil`, and the library's own `isEmpty`
  pub is_nil : FieldError → Bool
  pub is_empty : FieldError → Bool
  -- `errs.Also(err)`
  pub also : FieldError → FieldError → FieldError
  -- `err.ViaField(field)`, `err.ViaIndex(index)`
  pub via_field : String → FieldError → FieldError
  pub via_index : ℕ → FieldError → FieldError
  -- `ErrMissingField(field)`
  pub missing_field : String → FieldError

-- What the library's code says of them: an empty error is not collected, another one is, and a
-- path that is put in front keeps an error an error.
pub record IsLawful (F : FieldErrors) : Type 0 where
  pub nil_nil : F.is_nil F.nil ≡ true
  pub nil_empty : F.is_empty F.nil ≡ true
  pub not_nil : (e : F.FieldError) → F.is_empty e ≡ false → F.is_nil e ≡ false
  pub also_empty : (errs e : F.FieldError) → F.is_empty e ≡ true → F.also errs e ≡ errs
  pub also_error :
      (errs e : F.FieldError) → F.is_empty e ≡ false → F.is_empty (F.also errs e) ≡ false
  pub via_field_empty :
      (field : String) (e : F.FieldError) → F.is_empty (F.via_field field e) ≡ F.is_empty e
  pub via_index_empty :
      (index : ℕ) (e : F.FieldError) → F.is_empty (F.via_index index e) ≡ F.is_empty e
  pub missing_field_error : (field : String) → F.is_empty (F.missing_field field) ≡ false

pub and-true : (b : Bool) → b ≡ (b && true)
and-true true = refl
and-true false = refl

and-false : (b : Bool) → false ≡ (b && false)
and-false true = refl
and-false false = refl

module _ (F : FieldErrors) (L : IsLawful F) where
  -- Collecting leaves nothing exactly if there was nothing and nothing came.
  pub is_empty-also :
      (errs e : F.FieldError) → F.is_empty (F.also errs e) ≡ (F.is_empty errs && F.is_empty e)
  is_empty-also errs e = elim (Bool-cases (F.is_empty e)) [
    | inl h ↦ rw (L.also_empty errs e h, h) (and-true _)
    | inr h ↦ rw (L.also_error errs e h, h) (and-false _)
  ]

  -- A collection that was begun with nil is nil if it is empty.
  abbrev pub IsSettled : F.FieldError → Type 0
  IsSettled errs = F.is_nil errs ≡ F.is_empty errs

  pub IsSettled-nil : IsSettled F.nil
  IsSettled-nil = L.nil_nil ∙ sym L.nil_empty

  pub IsSettled-also : (errs e : F.FieldError) → IsSettled errs → IsSettled (F.also errs e)
  IsSettled-also errs e h = elim (Bool-cases (F.is_empty e)) [
    | inl k ↦ rw (L.also_empty errs e k) h
    | inr k ↦ L.not_nil _ (L.also_error errs e k) ∙ sym (L.also_error errs e k)
  ]
