-- ===== src/Resolve/Merge/Loops.antt =====
-- The two loops that the five merging functions share, against a search and a filter.
use tekton_task_group.Base.{
  String, ◌≡◌, refl, true, false, List, [], ◌∷◌, ◌++◌, append-nil, append_assoc, Option, none, some,
  keep, Error, Result, ok, err, arith, Option-cases, All, All-map, keep-All, ◌∙◌, sym, ap,
  false≢true, none≢some, some_inj, inl, inr,
}
use tekton_task_group.Base.Named.{
  or_else, or_else-none, find_last, declares, undeclared, find_last-declares-none,
  find_last-declares-some, declares-find_last,
}
use tekton_task_group.Base.GoMap.{GoMap, lookup, insert, lookup-insert, lookup-nil}
use tekton_task_group.Resolve.Merge.{seen_of, add_unseen, merge}

module _ {A : Type 0} (name : A → String) where
  -- The error of the first used element that clashes with the last declared one of its name.
  unfoldable pub first_clash : (A → A → Option Error) → List A → List A → Option Error
  first_clash clash declared [] = none
  first_clash clash declared (x ∷ xs) = elim (find_last name (name x) declared) [
    | none ↦ first_clash clash declared xs
    | some s ↦ elim (clash s x) [ none ↦ first_clash clash declared xs | some e ↦ some e ]
  ]

  -- The clash, if there is one, or the declared elements and behind them the undeclared name ones.
  abbrev pub merged : Option Error → List A → List A → List A → Result (List A)
  merged (some e) out declared used = err e
  merged none out declared used = ok (out ++ keep (undeclared name declared) used)

  seen_of_out : (xs out : List A) (seen : GoMap A) → (seen_of name xs out seen).0 ≡ out ++ xs
  unfolding seen_of
  seen_of_out [] out seen = rw append-nil
  seen_of_out (x ∷ xs) out seen = seen_of_out xs (out ++ x ∷ []) (_) ∙ append_assoc out (x ∷ []) xs

  lookup-seen_of :
      (k : String) (xs out : List A) (seen : GoMap A)
      → lookup k (seen_of name xs out seen).1 ≡ or_else (find_last name k xs) (lookup k seen)
  unfolding seen_of find_last
  lookup-seen_of k [] out seen = refl
  lookup-seen_of k (x ∷ xs) out seen = ground (
    arith,
    lookup-seen_of k xs (out ++ x ∷ []) (insert (name x) x seen),
    lookup-insert k (name x) x seen,
  )

  merged-skip :
      (o : Option Error) (out declared : List A) (x : A) (xs : List A)
      → declares name declared (name x) ≡ true
      → merged o out declared xs ≡ merged o out declared (x ∷ xs)
  merged-skip none out declared x xs h = rw h
  merged-skip (some e) out declared x xs h = refl

  merged-add :
      (o : Option Error) (out declared : List A) (x : A) (xs : List A)
      → declares name declared (name x) ≡ false
      → merged o (out ++ x ∷ []) declared xs ≡ merged o out declared (x ∷ xs)
  merged-add none out declared x xs h = rw (h, append_assoc)
  merged-add (some e) out declared x xs h = refl

  module _ (clash : A → A → Option Error) (declared : List A) (seen : GoMap A) where
    add_unseen_lem :
        ((k : String) → lookup k seen ≡ find_last name k declared)
        → (used out : List A)
        → add_unseen name clash seen used out
          ≡ merged (first_clash clash declared used) out declared used
    unfolding add_unseen first_clash
    add_unseen_lem h [] out = rw append-nil
    add_unseen_lem h (x ∷ xs) out = elim (Option-cases (find_last name (name x) declared)) [
      | inl e ↦
          rw (add_unseen, first_clash, h (name x), e)
            (add_unseen_lem h xs (out ++ x ∷ [])
              ∙ merged-add _ out declared x xs (find_last-declares-none name (name x) declared e))
      | inr (s, e) ↦ elim (Option-cases (clash s x)) [
        | inl c ↦
            rw (add_unseen, first_clash, h (name x), e, c)
              (add_unseen_lem h xs out
                ∙ merged-skip _ out declared x xs
                    (find_last-declares-some name (name x) declared s e))
        | inr (problem, c) ↦ rw (add_unseen, first_clash, h (name x), e, c)
      ]
    ]

  -- The two loops find the first clash, or keep what is not declared.
  pub merge_lem :
      (clash : A → A → Option Error) (declared used : List A)
      → merge name clash declared used
        ≡ merged (first_clash clash declared used) declared declared used
  unfolding merge
  merge_lem clash declared used = rw seen_of_out (
      add_unseen_lem clash declared (seen_of name declared [] []).1
        (λ k. rw (lookup-seen_of k declared [] [], lookup-nil) (or_else-none _)) used declared)

  -- `x` does not clash with the last declared element of its name.
  abbrev pub Fits : (A → A → Option Error) → List A → A → Type 0
  Fits clash declared x = (s : A) → find_last name (name x) declared ≡ some s → clash s x ≡ none

  module _ (clash : A → A → Option Error) (declared : List A) where
    first_clash-none :
        (used : List A) → All (Fits clash declared) used → first_clash clash declared used ≡ none
    unfolding first_clash
    first_clash-none [] h = refl
    first_clash-none (x ∷ xs) h = elim (Option-cases (find_last name (name x) declared)) [
      | inl e ↦ rw (first_clash, e) (first_clash-none xs h.1)
      | inr (s, e) ↦ rw (first_clash, e, h.0 s e) (first_clash-none xs h.1)
    ]

    first_clash-some :
        (before : List A) (s x : A) (e : Error) (after : List A)
        → All (Fits clash declared) before
        → find_last name (name x) declared ≡ some s
        → clash s x ≡ some e
        → first_clash clash declared (before ++ x ∷ after) ≡ some e
    unfolding first_clash
    first_clash-some [] s x e after h last c = rw (first_clash, last, c)
    first_clash-some (y ∷ ys) s x e after h last c =
        elim (Option-cases (find_last name (name y) declared)) [
          | inl p ↦ rw (first_clash, p) (first_clash-some ys s x e after h.1 last c)
          | inr (t, p) ↦ rw (first_clash, p, h.0 t p) (first_clash-some ys s x e after h.1 last c)
        ]

    -- With no clash the merge keeps the declared elements and adds the undeclared name ones.
    pub merge-Fits :
        (used : List A)
        → All (Fits clash declared) used
        → merge name clash declared used ≡ ok (declared ++ keep (undeclared name declared) used)
    merge-Fits used h = rw (merge_lem clash declared used, first_clash-none used h)

    -- The first clash is the error of the merge.
    pub merge-clash :
        (before : List A) (s x : A) (e : Error) (after : List A)
        → All (Fits clash declared) before
        → find_last name (name x) declared ≡ some s
        → clash s x ≡ some e
        → merge name clash declared (before ++ x ∷ after) ≡ err e
    merge-clash before s x e after h last c = rw (
      merge_lem clash declared (before ++ x ∷ after),
      first_clash-some before s x e after h last c,
    )

    Fits-undeclared : (x : A) → declares name declared (name x) ≡ false → Fits clash declared x
    Fits-undeclared x h s e =
        absurd (false≢true (sym h ∙ find_last-declares-some name (name x) declared s e))

    -- Used elements of new names are all added.
    pub merge_disjoint :
        (used : List A)
        → All (λ x. declares name declared (name x) ≡ false) used
        → merge name clash declared used ≡ ok (declared ++ used)
    merge_disjoint used h =
        merge-Fits used (All-map Fits-undeclared used h)
        ∙ ap (λ xs. ok (declared ++ xs)) (keep-All _ used (All-map (λ x e. rw e) used h))

    -- Where every shared name is an error, the first shared name is the error of the merge.
    pub merge_shared :
        (error : A → Error)
        → ((s x : A) → clash s x ≡ some (error x))
        → (before : List A) (x : A) (after : List A)
        → All (λ y. declares name declared (name y) ≡ false) before
        → declares name declared (name x) ≡ true
        → merge name clash declared (before ++ x ∷ after) ≡ err (error x)
    merge_shared error always before x after h shared =
        let (s, e) = declares-find_last name (name x) declared shared in
        merge-clash before s x (error x) after (All-map Fits-undeclared before h) e (always s x)

    first_clash-Fits :
        (used : List A) → first_clash clash declared used ≡ none → All (Fits clash declared) used
    unfolding first_clash
    first_clash-Fits [] h = tt
    first_clash-Fits (x ∷ xs) h = elim (Option-cases (find_last name (name x) declared)) [
      | inl e ↦ (
        λ s last. absurd (none≢some (sym e ∙ last)),
        first_clash-Fits xs (rw (first_clash, e) at h),
      )
      | inr (s, e) ↦ elim (Option-cases (clash s x)) [
        | inl c ↦ (
          λ t last. rw (← some_inj (sym e ∙ last)) c,
          first_clash-Fits xs (rw (first_clash, e, c) at h),
        )
        | inr (problem, c) ↦ absurd (none≢some (sym (rw (first_clash, e, c) at h)))
      ]
    ]

    merged-ok :
        (o : Option Error) (used out : List A) → merged o declared declared used ≡ ok out → o ≡ none
    merged-ok none used out h = refl
    merged-ok (some e) used out h = cc

    -- A merge that returns met no clash.
    pub Fits-of_merge :
        (used out : List A)
        → merge name clash declared used ≡ ok out
        → All (Fits clash declared) used
    Fits-of_merge used out h = first_clash-Fits used (
        merged-ok (first_clash clash declared used) used out
          (sym (merge_lem clash declared used) ∙ h))
