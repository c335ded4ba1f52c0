-- ===== src/Narrative/Validator/Few.antt =====
-- A text that passes the existence check has at most one citation for each event of the evidence.
use oldman_agent.Prelude.{
  suc, ◌≤◌, ◌≡◌, refl, true, false, List, [], ◌∷◌, length, arith, All, Bool-cases, inl, inr,
  if◌then◌else◌,
}
use oldman_agent.Narrative.Text.{Text, mem_text, same_text, same_text-eq}
use oldman_agent.Narrative.Citation.{distinct_from, extract_citations, find_markers}
use oldman_agent.Narrative.Validator.{Source, valid_short_ids, validate_citations, verdict_of}
use oldman_agent.Narrative.Validator.Soundness.{validate_citations_sound}

abbrev IsDistinct : List Text → Type 0
IsDistinct [] = Unit
IsDistinct (c ∷ cs) = All (λ d. same_text c d ≡ false) cs × IsDistinct cs

abbrev without : Text → List Text → List Text
without c [] = []
without c (x ∷ xs) = let rest = without c xs in if same_text x c then xs else x ∷ rest

length-without :
    (c : Text) (ids : List Text) → mem_text c ids ≡ true → suc (length (without c ids)) ≤ length ids
unfolding mem_text
length-without c [] h = absurd cc
length-without c (x ∷ xs) h = ground (arith, length-without c xs)

without-kept :
    (c d : Text) (ids : List Text)
    → same_text c d ≡ false
    → mem_text d ids ≡ true
    → mem_text d (without c ids) ≡ true
unfolding mem_text
without-kept c d [] differ h = h
without-kept c d (x ∷ xs) differ h = elim (Bool-cases (same_text x c)) [
  | inl same ↦
      let x_differs : same_text x d ≡ false = rw (same_text-eq x c same) differ in
      rw same (ground (arith, h, x_differs))
  | inr other ↦ rw other (ground (arith, h, without-kept c d xs differ))
]

All-map : (P Q : Text → Type 0) (cs : List Text) → ((c : Text) → P c → Q c) → All P cs → All Q cs
All-map P Q [] f h = tt
All-map P Q (c ∷ cs) f h = (f c h.0, All-map P Q cs f h.1)

distinct_from-unseen :
    (seen ms : List Text) → All (λ d. mem_text d seen ≡ false) (distinct_from seen ms)
unfolding distinct_from mem_text
distinct_from-unseen seen [] = tt
distinct_from-unseen seen (m ∷ ms) = elim (Bool-cases (mem_text m seen)) [
  | inl known ↦ rw known (distinct_from-unseen seen ms)
  | inr fresh ↦ rw fresh (
    fresh,
    All-map (λ d. mem_text d (m ∷ seen) ≡ false) (λ d. mem_text d seen ≡ false) _
        (λ d h. ground (arith, h)) (distinct_from-unseen (m ∷ seen) ms),
  )
]

distinct_from-IsDistinct : (seen ms : List Text) → IsDistinct (distinct_from seen ms)
unfolding distinct_from mem_text
distinct_from-IsDistinct seen [] = tt
distinct_from-IsDistinct seen (m ∷ ms) = elim (Bool-cases (mem_text m seen)) [
  | inl known ↦ rw known (distinct_from-IsDistinct seen ms)
  | inr fresh ↦ rw fresh (
    All-map (λ d. mem_text d (m ∷ seen) ≡ false) (λ d. same_text m d ≡ false) _
        (λ d h. ground (arith, h)) (distinct_from-unseen (m ∷ seen) ms),
    distinct_from-IsDistinct (m ∷ seen) ms,
  )
]

-- Different members of a list are at most as many as it has elements.
length-IsDistinct :
    (cs ids : List Text)
    → IsDistinct cs
    → All (λ c. mem_text c ids ≡ true) cs
    → length cs ≤ length ids
length-IsDistinct [] ids h k = omega arith
length-IsDistinct (c ∷ cs) ids h k =
    let fewer = length-IsDistinct cs (without c ids) h.1 (both cs h.0 k.1) in
    omega (arith, fewer, length-without c ids k.0)
  where
    both :
        (ds : List Text)
        → All (λ d. same_text c d ≡ false) ds
        → All (λ d. mem_text d ids ≡ true) ds
        → All (λ d. mem_text d (without c ids) ≡ true) ds
    both [] p q = tt
    both (d ∷ ds) p q = (without-kept c d ids p.0 q.0, both ds p.1 q.1)

length-valid_short_ids : (events : List Source) → length (valid_short_ids events) ≡ length events
unfolding valid_short_ids
length-valid_short_ids [] = refl
length-valid_short_ids (e ∷ events) = omega (arith, length-valid_short_ids events)

verdict_of-extracted :
    (cs : List Text) (events : List Source) → (verdict_of cs events).extracted ≡ cs
verdict_of-extracted [] events = refl
verdict_of-extracted (c ∷ cs) events = refl

-- A text that passes the existence check cites at most as many different short ids as the evidence has
-- events.
pub length-extracted :
    (text : Text) (events : List Source)
    → (validate_citations text events).is_valid ≡ true
    → length (validate_citations text events).extracted ≤ length events
unfolding validate_citations extract_citations
length-extracted text events h =
    let exist = (validate_citations_sound text events h).0 in
    let same = verdict_of-extracted (extract_citations text) events in
    let few =
      length-IsDistinct (extract_citations text) (valid_short_ids events)
        (distinct_from-IsDistinct [] (find_markers text)) (rw same at exist) in
    rw same (omega (arith, few, length-valid_short_ids events))
