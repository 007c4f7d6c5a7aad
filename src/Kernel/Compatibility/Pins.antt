-- ===== src/Kernel/Compatibility/Pins.antt =====
-- What the pinned records of compatibility.rs keep from one runtime to the next.
use exocortex.Common.{
  ℕ, ◌≤◌, ◌≡◌, ◌⊎◌, refl, ap, ◌∙◌, take, zero, suc, sym, subst, Bool-cases, inl, inr, String, Bool,
  true, not, Option, none, some, List, [], ◌∷◌, ◌++◌, Result, ok, err, if◌then◌else◌, if-eq_of_true,
  if-eq_of_false, leb, leb_false→lt, any, length, length-append, str_eq, eq_iff, arith, Bytes,
  nat_key, same_list,
}
use mathlib.Core.List.{append_assoc}
use exocortex.Kernel.Compatibility.{
  KindSummary, TripleSummary, ActionVerbSummary, FunctionVerbSummary, OntologySummary, same_kind,
  same_types, same_triple, same_action, same_function, same_rows, same_summary, is_subset_of,
  Runtime, PinnedOntology, CompatibilityError, NodeGraphDecision, satisfied, advance, hex,
  describing, push_accepted, bounded_accepted, max_accepted_fingerprints, admit_record,
}

same_rows_refl {ℓ} :
    {A : Type ℓ} (same : A → A → Bool) (xs : List A)
    → ((x : A) → same x x ≡ true)
    → same_rows same xs xs ≡ true
unfolding same_rows
same_rows_refl same [] f = refl
same_rows_refl same (x ∷ xs) f = ground (arith, f x, same_rows_refl same xs f)

same_list_refl : (xs : List ℕ) → same_list xs xs ≡ true
unfolding same_list
same_list_refl [] = refl
same_list_refl (x ∷ xs) = ground (arith, same_list_refl xs)

same_text : (a : String) → str_eq a a ≡ true
same_text a = (eq_iff a a).1 refl

same_types_refl : (a : Option (List ℕ)) → same_types a a ≡ true
same_types_refl none = refl
same_types_refl (some xs) = same_list_refl xs

same_kind_refl : (a : KindSummary) → same_kind a a ≡ true
same_kind_refl a = ground (arith, same_text a.name)

same_triple_refl : (a : TripleSummary) → same_triple a a ≡ true
same_triple_refl a = ground (arith, same_types_refl a.from_types, same_types_refl a.to_types)

same_action_refl : (a : ActionVerbSummary) → same_action a a ≡ true
same_action_refl a =
    ground
      (arith, same_text a.pack, same_text a.name, same_text a.input_type, same_text a.output_type)

same_function_refl : (a : FunctionVerbSummary) → same_function a a ≡ true
same_function_refl a = ground (
  arith,
  same_text a.pack,
  same_text a.name,
  same_text a.engine,
  same_text a.input_type,
  same_text a.output_type,
)

same_summary_refl : (s : OntologySummary) → same_summary s s ≡ true
same_summary_refl s = ground (
  arith,
  same_rows_refl str_eq s.memory_types same_text,
  same_rows_refl str_eq s.entity_types same_text,
  same_rows_refl same_kind s.kinds same_kind_refl,
  same_rows_refl same_triple s.type_triples same_triple_refl,
  same_rows_refl str_eq s.rule_ids same_text,
  same_rows_refl same_action s.actions same_action_refl,
  same_rows_refl same_function s.functions same_function_refl,
)

push_accepted-length :
    (prior out : List String)
    → length out ≤ max_accepted_fingerprints
    → length (push_accepted prior out) ≤ max_accepted_fingerprints
unfolding push_accepted
push_accepted-length [] out h = h
push_accepted-length (fp ∷ prior) out h =
    elim (Bool-cases (leb max_accepted_fingerprints (length out))) [
      | inl full ↦ rw full h
      | inr room ↦
          let lt = leb_false→lt max_accepted_fingerprints (length out) room in
          rw room (
            push_accepted-length prior (if any (str_eq fp) out then out else out ++ fp ∷ [])
              (ground (arith, h, lt, length-append out (fp ∷ []))))
    ]

any-snoc :
    (p : String → Bool) (xs : List String) (x : String)
    → any p xs ≡ true
    → any p (xs ++ x ∷ []) ≡ true
unfolding any
any-snoc p [] x h = cc
any-snoc p (y ∷ xs) x h = ground (arith, h, any-snoc p xs x)

push_accepted-any :
    (p : String → Bool) (prior out : List String)
    → any p out ≡ true
    → any p (push_accepted prior out) ≡ true
unfolding push_accepted
push_accepted-any p [] out h = h
push_accepted-any p (fp ∷ prior) out h =
    elim (Bool-cases (leb max_accepted_fingerprints (length out))) [
      | inl full ↦ rw full h
      | inr room ↦ rw room (
          push_accepted-any p prior (if any (str_eq fp) out then out else out ++ fp ∷ [])
            (ground (arith, h, any-snoc p out fp h)))
    ]

-- The fingerprints of a list that `seen` does not have, each once and in their order.
unfoldable pub distinct_after : List String → List String → List String
distinct_after seen [] = []
distinct_after seen (fp ∷ fps) =
    if any (str_eq fp) seen
    then distinct_after seen fps
    else fp ∷ distinct_after (seen ++ fp ∷ []) fps

take-exact : (n : ℕ) (xs ys : List String) → length xs ≡ n → take n (xs ++ ys) ≡ xs
unfolding take
take-exact zero [] ys h = refl
take-exact zero (x ∷ xs) ys h = absurd (omega (arith, h))
take-exact (suc n) [] ys h = absurd (omega (arith, h))
take-exact (suc n) (x ∷ xs) ys h = ap (λ zs. x ∷ zs) (take-exact n xs ys (omega (arith, h)))

take-all : (n : ℕ) (xs : List String) → length xs ≤ n → take n (xs ++ []) ≡ xs
unfolding take
take-all zero [] h = refl
take-all zero (x ∷ xs) h = absurd (omega (arith, h))
take-all (suc n) [] h = refl
take-all (suc n) (x ∷ xs) h = ap (λ zs. x ∷ zs) (take-all n xs (omega (arith, h)))

push_accepted-window :
    (prior out : List String)
    → length out ≤ max_accepted_fingerprints
    → push_accepted prior out ≡ take max_accepted_fingerprints (out ++ distinct_after out prior)
unfolding push_accepted distinct_after
push_accepted-window [] out h = sym (take-all max_accepted_fingerprints out h)
push_accepted-window (fp ∷ prior) out h =
    elim (Bool-cases (leb max_accepted_fingerprints (length out))) [
      | inl full ↦
          rw full (sym (take-exact max_accepted_fingerprints out _ (ground (arith, h, full))))
      | inr room ↦
          let lt = leb_false→lt max_accepted_fingerprints (length out) room in
          elim (Bool-cases (any (str_eq fp) out)) [
            | inl known ↦ rw room (rw known (push_accepted-window prior out h))
            | inr new ↦ rw room (
                rw new (
                  push_accepted-window prior (out ++ fp ∷ [])
                    (ground (arith, lt, length-append out (fp ∷ [])))
                  ∙ ap (λ zs. take max_accepted_fingerprints zs)
                      (append_assoc out (fp ∷ []) (distinct_after (out ++ fp ∷ []) prior))))
          ]
    ]

not_advance :
    {e : CompatibilityError} {n : PinnedOntology}
    → ¬ Path (Result CompatibilityError NodeGraphDecision) (err e) (ok (advance n))
not_advance h = cc

satisfied-not_advance :
    {n : PinnedOntology}
    → ¬ Path (Result CompatibilityError NodeGraphDecision) (ok satisfied) (ok (advance n))
satisfied-not_advance h = cc

advance_injective :
    {m n : PinnedOntology}
    → Path (Result CompatibilityError NodeGraphDecision) (ok (advance m)) (ok (advance n))
    → m ≡ n
advance_injective h = cc

module _ (compatibility_fingerprint : OntologySummary → Bytes) where
  -- The record of a runtime satisfies the runtime.
  describing-satisfied :
      (ours : Runtime) (accepted : List String)
      → ours.fingerprint ≡ compatibility_fingerprint ours.summary
      → admit_record compatibility_fingerprint
          (record (describing ours) { accepted = accepted })
          ours
        ≡ ok satisfied
  unfolding admit_record
  describing-satisfied ours accepted h = rw (sym h) (
      rw (same_text (hex ours.fingerprint))
        (rw (same_summary_refl ours.summary) (rw (same_text (hex ours.build_fingerprint)) refl)))

  -- What holds of the record that a pin advances to.
  abbrev Advances : PinnedOntology → Runtime → PinnedOntology → Type 0
  Advances pin ours next =
      (admit_record compatibility_fingerprint next ours ≡ ok satisfied)
      × (length next.accepted ≤ max_accepted_fingerprints)
      × (((same_summary pin.summary ours.summary ≡ true) × (next.accepted ≡ pin.accepted))
          ⊎ ((is_subset_of pin.summary ours.summary ≡ true)
              × (any (str_eq pin.compatibility) next.accepted ≡ true)
              × (next.accepted
                  ≡ take max_accepted_fingerprints
                      (distinct_after [] (pin.compatibility ∷ pin.accepted)))))

  extended-Advances :
      (pin : PinnedOntology) (ours : Runtime)
      → ours.fingerprint ≡ compatibility_fingerprint ours.summary
      → is_subset_of pin.summary ours.summary ≡ true
      → Advances pin ours
          (record (describing ours) { accepted = bounded_accepted pin.accepted pin.compatibility })
  unfolding bounded_accepted any distinct_after
  extended-Advances pin ours own extended = (
    describing-satisfied ours (bounded_accepted pin.accepted pin.compatibility) own,
    push_accepted-length pin.accepted (pin.compatibility ∷ []) (omega arith),
    inr (
      extended,
      push_accepted-any (str_eq pin.compatibility) pin.accepted (pin.compatibility ∷ [])
          (ground (arith, same_text pin.compatibility)),
      push_accepted-window pin.accepted (pin.compatibility ∷ []) (omega arith),
    ),
  )

  -- A pin advances at most once for a runtime, and keeps the rolling window: when a runtime whose fingerprint
  -- is that of its summary advances a pin with at most 8 recognized fingerprints, the new record satisfies
  -- the runtime and recognizes at most 8. Either the summary is the same and the window unchanged, or the
  -- pinned summary is a subset, and then the window holds the replaced fingerprint, and is exactly the
  -- first 8 different ones of the replaced fingerprint followed by the earlier window, in their order.
  pub admit_record-advances :
      (pin next : PinnedOntology) (ours : Runtime)
      → ours.fingerprint ≡ compatibility_fingerprint ours.summary
      → length pin.accepted ≤ max_accepted_fingerprints
      → admit_record compatibility_fingerprint pin ours ≡ ok (advance next)
      → (admit_record compatibility_fingerprint next ours ≡ ok satisfied)
        × (length next.accepted ≤ max_accepted_fingerprints)
        × (((same_summary pin.summary ours.summary ≡ true) × (next.accepted ≡ pin.accepted))
            ⊎ ((is_subset_of pin.summary ours.summary ≡ true)
                × (any (str_eq pin.compatibility) next.accepted ≡ true)
                × (next.accepted
                    ≡ take max_accepted_fingerprints
                        (distinct_after [] (pin.compatibility ∷ pin.accepted)))))
  unfolding admit_record
  admit_record-advances pin next ours own few h =
      let stated = hex (compatibility_fingerprint pin.summary) in
      elim (Bool-cases (not (str_eq stated pin.compatibility))) [
        | inl corrupt ↦ absurd (not_advance (if-eq_of_true _ _ _ corrupt h))
        | inr sound ↦
            let h1 = if-eq_of_false _ _ _ sound h in
            elim (Bool-cases (same_summary pin.summary ours.summary)) [
              | inl same ↦
                  let h2 = if-eq_of_true _ _ _ same h1 in
                  elim (Bool-cases (str_eq pin.build (hex ours.build_fingerprint))) [
                    | inl current ↦ absurd (satisfied-not_advance (if-eq_of_true _ _ _ current h2))
                    | inr rebuilt ↦
                        subst (Advances pin ours)
                          (advance_injective (if-eq_of_false _ _ _ rebuilt h2))
                          (describing-satisfied ours pin.accepted own, few, inl (same, refl))
                  ]
              | inr other ↦
                  let h2 = if-eq_of_false _ _ _ other h1 in
                  elim (Bool-cases (is_subset_of pin.summary ours.summary)) [
                    | inr apart ↦ absurd (not_advance (if-eq_of_false _ _ _ apart h2))
                    | inl extended ↦
                        subst (Advances pin ours)
                          (advance_injective (if-eq_of_true _ _ _ extended h2))
                          (extended-Advances pin ours own extended)
                  ]
            ]
      ]
