-- ===== src/Task/Routine/Awaits.antt =====
-- How many segments the answer to a query takes: three attempts, each of which asks the model once and
-- the judge at most once for each of the thirty events of the evidence.
use oldman_agent.Prelude.{
  ℕ, zero, suc, ◌≤◌, ◌≡◌, refl, String, Bool, true, false, Option, none, some, List, [], ◌∷◌,
  length, arith, Bool-cases, inl, inr, length-take-le,
}
use oldman_agent.Json.{Json}
use oldman_agent.Archive.{Archive, EventRow, newest_first}
use oldman_agent.Table.{select}
use oldman_agent.Narrative.Text.{Text}
use oldman_agent.Narrative.Validator.{Source, Verdict, is_nil, validate_citations}
use oldman_agent.Narrative.Validator.Few.{length-extracted}
use oldman_agent.Narrative.Renderer.{
  NarrativeRendererResult, Hint, no_hint, Answer, failed, answered, fallback, is_cold,
}
use oldman_agent.Narrative.Evidence.{is_about, select_events, select_evidence, sources_of}
use oldman_agent.Narrative.Query.{QueryRequest, Models}
use oldman_agent.Task.Session.{Session}
use oldman_agent.Task.Process.{Process, return}
use oldman_agent.Task.Executor.LifeCycle.{at_work}
use oldman_agent.Task.Routine.Phases.{
  Goes, spare, IsCalm, Goes-if, Goes-bind, Goes-map, Goes-pure_then, Goes-gets_then,
}
use oldman_agent.Task.Rendering.{
  ungrounded_steps, with_judge_steps, checked_steps, answered_steps, attempts_steps, render_steps,
  query_with_steps, execute_query_steps,
}

-- The segments of `n` attempts with at most `l` citations each.
abbrev pub turns : ℕ → ℕ → ℕ
turns zero l = 0
turns (suc n) l = suc (spare l (turns n l))

length-sources_of : (events : List EventRow) → length (sources_of events) ≡ length events
unfolding sources_of
length-sources_of [] = refl
length-sources_of (e ∷ events) = omega (arith, length-sources_of events)

length-evidence :
    (subject : Option String) (s : Archive)
    → length (sources_of (select_evidence subject s).events) ≤ 30
unfolding select_evidence select_events
length-evidence subject s =
    let few = length-take-le 30 (newest_first (λ e. e.ts) (select (is_about subject) s.events)) in
    omega (arith, few, length-sources_of (select_events subject 30 s))

module _ (R : Type 0) where
  abbrev Calm : {A : Type 0} → ℕ → Process (Session R) A → Type 1
  Calm n c = Goes n at_work (IsCalm at_work) c

  return-Calm : {A : Type 0} (n : ℕ) (a : A) → Calm n (return a)
  unfolding return
  return-Calm n a = (refl, tt)

  module _ (judge : Text → Json → Verdict) where
    ungrounded-Calm :
        (text : Text) (events : List Source) (cs : List Text) (n : ℕ)
        → length cs ≤ n
        → Calm n (ungrounded_steps judge text events cs)
    unfolding ungrounded_steps
    ungrounded-Calm text events [] n h = return-Calm n []
    ungrounded-Calm text events (c ∷ cs) zero h = absurd (omega (arith, h))
    ungrounded-Calm text events (c ∷ cs) (suc n) h =
        Goes-pure_then (IsCalm at_work) n at_work _ _ refl
          (Goes-map at_work n at_work _ _ (ungrounded-Calm text events cs n (omega (arith, h))))

    with_judge-Calm :
        (text : Text) (events : List Source) (l : ℕ)
        → length events ≤ l
        → Calm l (with_judge_steps judge text events)
    unfolding with_judge_steps
    with_judge-Calm text events l h = elim (Bool-cases (validate_citations text events).is_valid) [
      | inl valid ↦
          let few = length-extracted text events valid in
          rw valid (
            Goes-map at_work l at_work _ _
              (ungrounded-Calm text events _ l (omega (arith, h, few))))
      | inr invalid ↦ rw invalid (return-Calm l _)
    ]

    module _ (provider : ℕ → Hint → Answer) (strict : Bool) (events : List Source) (l : ℕ)
        (few : length events ≤ l) where
      checked-Calm : (text : Text) → Calm l (checked_steps judge strict events text)
      checked-Calm text =
          Goes-if (IsCalm at_work) l at_work strict _ _ (with_judge-Calm text events l few)
            (return-Calm l _)

      answered-Calm :
          (left retries : ℕ) (again : Hint → Process (Session R) NarrativeRendererResult)
          (answer : Answer)
          → ((hint : Hint) → Calm (turns left l) (again hint))
          → Calm (spare l (turns left l)) (answered_steps judge strict events retries again answer)
      answered-Calm left retries again failed h = return-Calm _ _
      answered-Calm left retries again (answered text) h =
          Goes-bind at_work (IsCalm at_work) l (turns left l) at_work _ _ (checked-Calm text) λ v.
            Goes-if (IsCalm at_work) (turns left l) at_work v.is_valid _ _ (return-Calm _ _) (h _)

      attempts-Calm :
          (left retries : ℕ) (hint : Hint)
          → Calm (turns left l) (attempts_steps judge provider strict events left retries hint)
      unfolding attempts_steps
      attempts-Calm zero retries hint = return-Calm 0 _
      attempts-Calm (suc left) retries hint =
          Goes-pure_then (IsCalm at_work) _ at_work _ _ refl
            (answered-Calm left retries _ (provider retries hint) (attempts-Calm left _))

      render-Calm :
          (event_count reflection_count : ℕ) (prompt_loads : Bool)
          → Calm (turns 3 l) (
              render_steps judge provider strict 2 event_count reflection_count prompt_loads events)
      unfolding render_steps
      render-Calm event_count reflection_count prompt_loads =
          elim (Bool-cases (is_cold event_count reflection_count)) [
            | inl cold ↦ rw cold (return-Calm _ (fallback true 0))
            | inr warm ↦ rw warm (elim (Bool-cases (is_nil events)) [
              | inl empty ↦ rw empty (return-Calm _ (fallback false 0))
              | inr full ↦ rw full (elim (Bool-cases prompt_loads) [
                | inl loads ↦ rw loads (attempts-Calm 3 0 no_hint)
                | inr fails ↦ rw fails (return-Calm _ (fallback false 0))
              ])
            ])
          ]

  query-Calm :
      (models : Models) (req : QueryRequest) (ask : Option _) (s : Archive)
      → Calm (turns 3 30) (query_with_steps ask models req s)
  query-Calm models req none s = return-Calm _ _
  query-Calm models req (some ask) s = Goes-map at_work (turns 3 30) at_work _ _ (
      render-Calm _ _ _ (sources_of (select_evidence req.subject_agent s).events) 30
        (length-evidence req.subject_agent s) _ _ _)

  pub execute_query-Calm :
      (models : Models) (req : QueryRequest)
      → Goes (suc (turns 3 30)) at_work (IsCalm at_work) (execute_query_steps {R = R} models req)
  unfolding execute_query_steps
  execute_query-Calm models req =
      Goes-gets_then (IsCalm at_work) (turns 3 30) at_work _ _ refl
        (query-Calm models req models.narrative)
