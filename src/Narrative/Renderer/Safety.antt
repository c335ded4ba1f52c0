-- ===== src/Narrative/Renderer/Safety.antt =====
-- What an answer of the renderer may cite, and how often the model is asked.
use oldman_agent.Prelude.{
  ℕ, zero, suc, ◌+◌, ◌≤◌, ◌≡◌, ◌≢◌, refl, ◌⊎◌, inl, inr, Bool, true, false, some, List, [], ◌∷◌,
  arith, All, Bool-cases, Option-cases, if◌then◌else◌, ap,
}
use oldman_agent.Json.{Json}
use oldman_agent.Narrative.Text.{Text}
use oldman_agent.Narrative.Citation.{short_id_of}
use oldman_agent.Narrative.Validator.{Source, Verdict, is_nil, lookup_last}
use oldman_agent.Narrative.Validator.Soundness.{
  Among, Exists, lookup_last-Among, lookup_last-Exists, validate_citations_sound,
  validate_citations_with_judge_sound,
}
use oldman_agent.Narrative.Renderer.{
  CitationSchema, NarrativeRendererResult, fallback_message, fallback, build_citations, Hint,
  Answer, failed, answered, checked, full_id, attempts, render_narrative, no_hint, is_cold,
  hint_after,
}

-- A citation that names an event of the evidence, by the short id of that event.
abbrev pub Resolves : List Source → CitationSchema → Type 0
Resolves events c =
    (e : Source) × Among e events
    × (c.event_id ≡ some e.event_id)
    × (short_id_of e.event_id ≡ c.short_id)

resolve :
    (events : List Source) (c : Text)
    → Exists events c
    → Resolves events (record { short_id = c; event_id = full_id (lookup_last c events) })
resolve events c h = elim (Option-cases (lookup_last c events)) [
  | inl missing ↦ absurd (lookup_last-Exists c events h missing)
  | inr (e, found) ↦
      let (among, short) = lookup_last-Among c events e found in (e, among, ap full_id found, short)
]

build_citations-All :
    (events : List Source) (cs : List Text)
    → All (Exists events) cs
    → All (Resolves events) (build_citations events cs)
unfolding build_citations
build_citations-All events [] h = tt
build_citations-All events (c ∷ cs) h = (resolve events c h.0, build_citations-All events cs h.1)

build_citations-nil :
    (events : List Source) (cs : List Text) → build_citations events cs ≡ [] → cs ≡ []
unfolding build_citations
build_citations-nil events [] h = refl
build_citations-nil events (c ∷ cs) h = cc

-- Either a fallback, which cites nothing and says the fixed words, or an answer that cites something,
-- each citation naming an event of the evidence; and at most `limit` retries.
pub record IsSafe (events : List Source) (limit : ℕ) (r : NarrativeRendererResult) : Type 0 where
  pub plain_or_cited :
      ((r.used_fallback ≡ true) × (r.citations ≡ []) × (r.answer ≡ fallback_message))
      ⊎ ((r.used_fallback ≡ false) × All (Resolves events) r.citations × (r.citations ≢ []))
  pub few_retries : r.retries_used ≤ limit

fallback-IsSafe :
    (events : List Source) (limit : ℕ) (cold : Bool) (n : ℕ)
    → n ≤ limit
    → IsSafe events limit (fallback cold n)
unfolding fallback
fallback-IsSafe events limit cold n h = record {
  plain_or_cited = inl (refl, refl, refl);
  few_retries = h;
}

Answer-cases : (a : Answer) → (a ≡ failed) ⊎ ((t : Text) × (a ≡ answered t))
Answer-cases failed = inl refl
Answer-cases (answered t) = inr (t, refl)

module _ (judge : Text → Json → Verdict) where
  checked_sound :
      (strict : Bool) (events : List Source) (text : Text)
      → (checked judge strict events text).is_valid ≡ true
      → All (Exists events) (checked judge strict events text).extracted
        × ((checked judge strict events text).extracted ≡ [] → events ≡ [])
  checked_sound false events text h = validate_citations_sound text events h
  checked_sound true events text h =
      let (passes, same) = validate_citations_with_judge_sound judge text events in
      rw same (validate_citations_sound text events (passes.0 h).0)

  module _ (provider : ℕ → Hint → Answer) where
    attempts-IsSafe :
        (strict : Bool) (events : List Source) (limit left retries : ℕ) (hint : Hint)
        → events ≢ []
        → left + retries ≡ limit + 1
        → IsSafe events limit (attempts provider judge strict events left retries hint)
    unfolding attempts
    attempts-IsSafe strict events limit zero retries hint full e =
        fallback-IsSafe events limit false _ (omega arith)
    attempts-IsSafe strict events limit (suc left) retries hint full e =
        elim (Answer-cases (provider retries hint)) [
          | inl broken ↦
              rw (broken, attempts) (fallback-IsSafe events limit false retries (omega arith))
          | inr (text, got) ↦
              rw (got, attempts)
                (elim (Bool-cases (checked judge strict events text).is_valid) [
                  | inl valid ↦
                      let (exist, cites) = checked_sound strict events text valid in
                      rw valid (record {
                        plain_or_cited = inr (
                          refl,
                          build_citations-All events _ exist,
                          λ h. full (cites (build_citations-nil events _ h)),
                        );
                        few_retries = omega arith;
                      })
                  | inr invalid ↦ rw invalid (
                      attempts-IsSafe strict events limit left (retries + 1)
                        (hint_after (checked judge strict events text)) full (omega arith))
                ])
        ]

    -- Whatever the model and the judge answer, what the renderer returns is safe: a fallback cites
    -- nothing and says the fixed words, any other answer cites something, each of its citations names
    -- an event of the evidence by its short id, and the retries stay within the limit.
    pub render_narrative-IsSafe :
        (strict : Bool) (limit event_count reflection_count : ℕ) (prompt_loads : Bool)
        (events : List Source)
        → IsSafe events limit (
            render_narrative provider judge strict limit event_count reflection_count prompt_loads
              events)
    unfolding render_narrative
    render_narrative-IsSafe strict limit n m prompt_loads events = safe
      where
        warm :
            (b : Bool)
            → b ≡ is_nil events
            → IsSafe events limit (
                if b
                then fallback false 0
                else if prompt_loads
                then attempts provider judge strict events (suc limit) 0 no_hint
                else fallback false 0)
        warm true h = fallback-IsSafe events limit false 0 (omega arith)
        warm false h = elim (Bool-cases prompt_loads) [
          | inl loads ↦ rw loads (
              attempts-IsSafe strict events limit (suc limit) 0 no_hint (λ e. cc (ap is_nil e))
                (omega arith))
          | inr broken ↦ rw broken (fallback-IsSafe events limit false 0 (omega arith))
        ]

        safe :
            IsSafe events limit
              (render_narrative provider judge strict limit n m prompt_loads events)
        safe = elim (Bool-cases (is_cold n m)) [
          | inl cold ↦ rw cold (fallback-IsSafe events limit true 0 (omega arith))
          | inr hot ↦ rw hot (warm (is_nil events) refl)
        ]
