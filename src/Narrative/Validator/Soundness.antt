-- ===== src/Narrative/Validator/Soundness.antt =====
-- What a passed validation says of the citations of a text.
use oldman_agent.Prelude.{
  ◌≡◌, ◌≢◌, ◌↔◌, refl, ◌⊎◌, inl, inr, true, false, none, some, List, [], ◌∷◌, arith, All,
  Bool-cases, Option-cases,
}
use oldman_agent.Json.{Json}
use oldman_agent.Narrative.Text.{Text, mem_text, same_text-eq}
use oldman_agent.Narrative.Citation.{short_id_of, extract_citations}
use oldman_agent.Narrative.Validator.{
  Source, Verdict, grounded, ungrounded, judge_error, is_nil, not_among, valid_short_ids,
  lookup_last, validate_citations, verdict_of, judged, ungrounded_of, validate_citations_with_judge,
  is_ungrounded,
}

-- One of the events of the evidence.
abbrev pub Among : Source → List Source → Type 0
Among e [] = ⊥
Among e (x ∷ xs) = (e ≡ x) ⊎ Among e xs

-- A short id that some event of the evidence has.
abbrev pub Exists : List Source → Text → Type 0
Exists events c = mem_text c (valid_short_ids events) ≡ true

not_among-All :
    (events : List Source) (cs : List Text)
    → is_nil (not_among (valid_short_ids events) cs) ≡ true
    → All (Exists events) cs
unfolding not_among
not_among-All events [] h = tt
not_among-All events (c ∷ cs) h = ground (arith, not_among-All events cs)

-- The event that a short id resolves to is one of the evidence, and has that short id.
pub lookup_last-Among :
    (c : Text) (events : List Source) (e : Source)
    → lookup_last c events ≡ some e
    → Among e events × (short_id_of e.event_id ≡ c)
unfolding lookup_last
lookup_last-Among c [] e h = cc
lookup_last-Among c (x ∷ xs) e h = elim (Option-cases (lookup_last c xs)) [
  | inl none_later ↦ ground (arith, same_text-eq (short_id_of x.event_id) c)
  | inr (y, later) ↦ ground (arith, lookup_last-Among c xs y later)
]

-- Every short id of the evidence resolves.
pub lookup_last-Exists :
    (c : Text) (events : List Source) → Exists events c → lookup_last c events ≢ none
unfolding lookup_last mem_text valid_short_ids
lookup_last-Exists c [] h = cc
lookup_last-Exists c (x ∷ xs) h = ground (arith, lookup_last-Exists c xs)

is_nil-eq : {A : Type 0} (xs : List A) → is_nil xs ≡ true → xs ≡ []
is_nil-eq [] h = refl
is_nil-eq (x ∷ xs) h = cc

verdict_of_sound :
    (cs : List Text) (events : List Source)
    → (verdict_of cs events).is_valid ≡ true
    → All (Exists events) (verdict_of cs events).extracted
      × ((verdict_of cs events).extracted ≡ [] → events ≡ [])
verdict_of_sound [] events h = (tt, λ _. is_nil-eq events h)
verdict_of_sound (c ∷ cs) events h = (not_among-All events (c ∷ cs) h, λ e. cc)

-- If a text passes the existence check, each of its citations is the short id of an event of the
-- evidence, and unless there was no evidence it has a citation.
pub validate_citations_sound :
    (text : Text) (events : List Source)
    → (validate_citations text events).is_valid ≡ true
    → All (Exists events) (validate_citations text events).extracted
      × ((validate_citations text events).extracted ≡ [] → events ≡ [])
unfolding validate_citations
validate_citations_sound text events h = verdict_of_sound (extract_citations text) events h

-- With evidence at hand, a text without a marker is invalid, however short it is.
pub validate_citations-unmarked :
    (text : Text) (events : List Source)
    → extract_citations text ≡ []
    → events ≢ []
    → (validate_citations text events).is_valid ≡ false
unfolding validate_citations
validate_citations-unmarked text events none_found some_events =
    rw none_found (elim (Bool-cases (is_nil events)) [
      | inl empty ↦ absurd (some_events (is_nil-eq events empty))
      | inr full ↦ full
    ])

-- The judge called none of these citations ungrounded: it called each grounded, or failed on it.
abbrev pub NoneUngrounded : (Text → Json → Verdict) → Text → List Source → List Text → Type 0
NoneUngrounded judge text events cs = All (λ c. judged judge text events c ≢ ungrounded) cs

is_ungrounded-eq : (v : Verdict) → (is_ungrounded v ≡ false) ↔ (v ≢ ungrounded)
is_ungrounded-eq grounded = (λ h e. cc, λ h. refl)
is_ungrounded-eq ungrounded = (λ h e. cc, λ h. absurd (h refl))
is_ungrounded-eq judge_error = (λ h e. cc, λ h. refl)

module _ (judge : Text → Json → Verdict) where
  ungrounded_of-nil :
      (text : Text) (events : List Source) (cs : List Text)
      → (is_nil (ungrounded_of judge text events cs) ≡ true) ↔ NoneUngrounded judge text events cs
  unfolding ungrounded_of
  ungrounded_of-nil text events [] = (λ h. tt, λ h. refl)
  ungrounded_of-nil text events (c ∷ cs) =
      let same = is_ungrounded-eq (judged judge text events c) in
      let rest = ungrounded_of-nil text events cs in
      (
        λ h. (same.0 (ground (arith, h)), rest.0 (ground (arith, h))),
        λ h. ground (arith, same.1 h.0, rest.1 h.1),
      )

  -- A text passes the strict check exactly when it passes the existence check and the judge calls none
  -- of its citations ungrounded: a judge that fails on a citation does not reject it. The citations
  -- are those of the existence check.
  pub validate_citations_with_judge_sound :
      (text : Text) (events : List Source)
      → ((validate_citations_with_judge judge text events).is_valid ≡ true ↔ (
          ((validate_citations text events).is_valid ≡ true)
          × NoneUngrounded judge text events (validate_citations text events).extracted))
        × ((validate_citations_with_judge judge text events).extracted
            ≡ (validate_citations text events).extracted)
  unfolding validate_citations_with_judge
  validate_citations_with_judge_sound text events =
      let rest = ungrounded_of-nil text events (validate_citations text events).extracted in
      elim (Bool-cases (validate_citations text events).is_valid) [
        | inl valid ↦
            ((λ h. (valid, rest.0 (rw valid at h)), λ h. rw valid (rest.1 h.1)), rw valid refl)
        | inr invalid ↦ (
          (λ h. absurd (ground (arith, invalid, h)), λ h. absurd (ground (arith, invalid, h.0))),
          rw invalid refl,
        )
      ]
