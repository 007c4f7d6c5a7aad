-- ===== src/Kernel/Validator/Laws.antt =====
-- What validator.rs accepts, against a declarative reading of the rules.
use Prim.Native.String.{len, count}
use exocortex.Common.{
  ℕ, ◌*◌, ◌≤◌, String, ◌≡◌, ◌≢◌, ◌↔◌, refl, true, Option, none, some, List, [], ◌∷◌, ok, >>=-eq-ok,
  arith, eq_iff, ◌&&◌, any, All, Bool, Option-cases, inl, inr,
}
use exocortex.Kernel.Visibility.{within}
use exocortex.Kernel.Pack.{TypeTriple}
use exocortex.Kernel.Draft.{EdgeHint, MemoryDraft}
use exocortex.Kernel.Ontology.{Ontology, get}
use exocortex.Kernel.Validator.{
  SourceCeiling, side_allows, matches_triple, check_hint, check_hints, summary_in_bounds,
  validate_draft, validate_triple,
}

-- The ontology knows the kind of the hint, with a triple whose from-side allows the draft's type.
abbrev pub HintFits : Ontology → ℕ → EdgeHint → Type 0
HintFits onto memory_type h =
    (ts : List TypeTriple) × (get h.kind onto.triples_by_kind ≡ some ts)
    × (any (λ t. side_allows t.from_types memory_type) ts ≡ true)

abbrev pub SummaryFits : Option String → Type 0
SummaryFits none = Unit
SummaryFits (some s) = count s ≤ 500

-- The rules R-T5, R-T10 and R-T12 as a reader states them.
pub record Admissible (onto : Ontology) (d : MemoryDraft) (c : SourceCeiling) : Type 0 where
  pub titled : d.title ≢ ""
  pub title_short : count d.title ≤ 200
  pub content_filled : d.content ≢ ""
  pub summary_short : SummaryFits d.summary
  pub metadata_small : len d.context.additional_metadata ≤ 8 * 1024
  pub visible : within d.visibility c.ceiling ≡ true
  pub hints : All (HintFits onto d.memory_type) d.edge_hints

-- With no to-type the to-side is left to the peer draft.
any-matches_triple :
    (from : ℕ) (ts : List TypeTriple)
    → any (λ t. matches_triple t from none) ts ≡ any (λ t. side_allows t.from_types from) ts
unfolding any matches_triple
any-matches_triple from [] = refl
any-matches_triple from (t ∷ ts) = ground (arith, any-matches_triple from ts)

check_hint_iff :
    (onto : Ontology) (m : ℕ) (h : EdgeHint) → (check_hint onto m h ≡ ok tt) ↔ HintFits onto m h
unfolding check_hint
check_hint_iff onto m h = elim (Option-cases (get h.kind onto.triples_by_kind)) [
  | inl e ↦ (λ c. ground (arith, e), λ (ts, f, a). ground (arith, e))
  | inr (ts, e) ↦ (
    λ c. (ts, e, ground (arith, e, any-matches_triple m ts)),
    λ (us, f, a). ground (arith, e, f, any-matches_triple m ts),
  )
]

check_hints-cons :
    (onto : Ontology) (m : ℕ) (h : EdgeHint) (hs : List EdgeHint)
    → check_hints onto m (h ∷ hs) ≡ ok tt
    → (check_hint onto m h ≡ ok tt) × (check_hints onto m hs ≡ ok tt)
check_hints-cons onto m h hs c =
    let (u, one, rest) =
      >>=-eq-ok (check_hint onto m h) (λ _. check_hints onto m hs) (unfold check_hints in c) in
    (one, rest)

check_hints-cons_of :
    (onto : Ontology) (m : ℕ) (h : EdgeHint) (hs : List EdgeHint)
    → check_hint onto m h ≡ ok tt
    → check_hints onto m hs ≡ ok tt
    → check_hints onto m (h ∷ hs) ≡ ok tt
check_hints-cons_of onto m h hs one rest = unfold check_hints in rw one rest

check_hints_iff :
    (onto : Ontology) (m : ℕ) (hs : List EdgeHint)
    → (check_hints onto m hs ≡ ok tt) ↔ All (HintFits onto m) hs
check_hints_iff onto m [] = unfold check_hints in (λ _. tt, λ _. refl)
check_hints_iff onto m (h ∷ hs) = (
  λ c.
      let (one, rest) = check_hints-cons onto m h hs c in
      ((check_hint_iff onto m h).0 one, (check_hints_iff onto m hs).0 rest),
  λ f.
      check_hints-cons_of onto m h hs ((check_hint_iff onto m h).1 f.0)
        ((check_hints_iff onto m hs).1 f.1),
)

SummaryFits-iff : (s : Option String) → (summary_in_bounds s ≡ true) ↔ SummaryFits s
unfolding summary_in_bounds
SummaryFits-iff none = (λ _. tt, λ _. refl)
SummaryFits-iff (some s) = (λ h. ground arith, λ h. ground arith)

validate_draft_sound :
    (onto : Ontology) (d : MemoryDraft) (c : SourceCeiling)
    → validate_draft onto d c ≡ ok tt
    → Admissible onto d c
unfolding validate_draft
validate_draft_sound onto d c h = record {
  titled = λ e. ground (arith, eq_iff d.title "");
  title_short = ground arith;
  content_filled = λ e. ground (arith, eq_iff d.content "");
  summary_short = (SummaryFits-iff d.summary).0 (ground arith);
  metadata_small = ground arith;
  visible = ground arith;
  hints = (check_hints_iff onto d.memory_type d.edge_hints).0 (ground arith);
}

validate_draft_complete :
    (onto : Ontology) (d : MemoryDraft) (c : SourceCeiling)
    → Admissible onto d c
    → validate_draft onto d c ≡ ok tt
unfolding validate_draft
validate_draft_complete onto d c a = ground (
  arith,
  eq_iff d.title "",
  eq_iff d.content "",
  (SummaryFits-iff d.summary).1 a.summary_short,
  (check_hints_iff onto d.memory_type d.edge_hints).1 a.hints,
)

-- `validate_draft` accepts a draft exactly when it meets every rule: a title of 1 to 200
-- characters, some content, a summary of at most 500 characters, at most 8 KiB of metadata, a
-- visibility within the source's ceiling, and for each edge hint a kind that the ontology knows with
-- a triple whose from-side allows the draft's type.
pub validate_draft_iff :
    (onto : Ontology) (d : MemoryDraft) (c : SourceCeiling)
    → (validate_draft onto d c ≡ ok tt) ↔ Admissible onto d c
validate_draft_iff onto d c = (validate_draft_sound onto d c, validate_draft_complete onto d c)

any_mono :
    (p q : TypeTriple → Bool) (ts : List TypeTriple)
    → ((t : TypeTriple) → p t ≡ true → q t ≡ true)
    → any p ts ≡ true
    → any q ts ≡ true
unfolding any
any_mono p q [] f h = h
any_mono p q (t ∷ ts) f h = ground (arith, f t, any_mono p q ts f)

-- The check of a hint while drafting is no stricter than the check of the full triple at commit: a
-- kind that `validate_triple` accepts between the draft's type and some to-type passes
-- `check_hint`.
check_hint-validate_triple :
    (onto : Ontology) (hint : EdgeHint) (from to : ℕ)
    → validate_triple onto from hint.kind to ≡ ok tt
    → check_hint onto from hint ≡ ok tt
check_hint-validate_triple onto hint from to h =
    elim (Option-cases (get hint.kind onto.triples_by_kind)) [
      | inl e ↦ absurd (unfold validate_triple in ground (arith, e))
      | inr (ts, e) ↦ (check_hint_iff onto from hint).1 (
        ts,
        e,
        any_mono (λ t. side_allows t.from_types from && side_allows t.to_types to)
            (λ t. side_allows t.from_types from) ts (λ t b. ground arith)
            (unfold validate_triple in ground (arith, e)),
      )
    ]
