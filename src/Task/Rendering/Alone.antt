-- ===== src/Task/Rendering/Alone.antt =====
-- The coroutine of an answer gives the answer of `execute_query`, and changes nothing.
use mathlib.Core.Path.{fun_ext}
use oldman_agent.Prelude.{
  ℕ, zero, suc, ◌+◌, ◌≡◌, refl, ◌∙◌, Bool, true, false, Option, none, some, List, [], ◌∷◌,
  Bool-cases, inl, inr, if◌then◌else◌,
}
use oldman_agent.Exec.{ok, pure, gets, ◌>>=◌}
use oldman_agent.Json.{Json}
use oldman_agent.Archive.{Archive}
use oldman_agent.Narrative.Text.{Text}
use oldman_agent.Narrative.Validator.{
  Source, Verdict, is_nil, judged, ungrounded_of, validate_citations, validate_citations_with_judge,
}
use oldman_agent.Narrative.Renderer.{
  fallback, is_cold, build_citations, Hint, no_hint, Answer, failed, answered, hint_after, checked,
  attempts, render_narrative,
}
use oldman_agent.Narrative.Query.{QueryRequest, Models, query_with, execute_query}
use oldman_agent.Task.Session.{Session}
use oldman_agent.Task.Process
use oldman_agent.Task.Process.{Process, finished, await, return, run}
use oldman_agent.Task.Process.Alone.{run_at-bind}
use oldman_agent.Task.Rendering.{
  ungrounded_steps, with_judge_steps, checked_steps, answered_steps, attempts_steps, render_steps,
  query_with_steps, execute_query_steps,
}

module _ {R : Type 0} where
  -- The coroutine gives that value, and leaves the state as it is.
  abbrev Gives : {A : Type 0} → A → Process (Session R) A → Type 0
  Gives a c = (s : Session R) → run c s ≡ (ok a, s)

  return-Gives : {A : Type 0} (a : A) → Gives a (return a)
  unfolding return run
  return-Gives a s = refl

  await-Gives : {A : Type 0} (a : A) → Gives a (await (pure a))
  unfolding await run pure
  await-Gives a s = refl

  bind-Gives :
      {A B : Type 0} (a : A) (b : B) (c : Process (Session R) A) (f : A → Process (Session R) B)
      → Gives a c
      → Gives b (f a)
      → Gives b (Process.◌>>=◌ c f)
  unfolding ◌>>=◌
  bind-Gives a b c f h k s = run_at-bind c f s ∙ rw (h s) (k s)

  module _ (judge : Text → Json → Verdict) where
    ungrounded-Gives :
        (text : Text) (events : List Source) (cs : List Text)
        → Gives (ungrounded_of judge text events cs) (ungrounded_steps judge text events cs)
    unfolding ungrounded_steps ungrounded_of
    ungrounded-Gives text events [] = return-Gives []
    ungrounded-Gives text events (c ∷ cs) =
        bind-Gives (judged judge text events c) _ _ _ (await-Gives _) (
          bind-Gives (ungrounded_of judge text events cs) _ _ _ (ungrounded-Gives text events cs)
            (return-Gives _))

    checked-Gives :
        (strict : Bool) (events : List Source) (text : Text)
        → Gives (checked judge strict events text) (checked_steps judge strict events text)
    unfolding with_judge_steps validate_citations_with_judge
    checked-Gives false events text = return-Gives _
    checked-Gives true events text = elim (Bool-cases (validate_citations text events).is_valid) [
      | inl valid ↦ rw valid (
          bind-Gives (ungrounded_of judge text events (validate_citations text events).extracted) _
            _ _ (ungrounded-Gives text events _) (return-Gives _))
      | inr invalid ↦ rw invalid (return-Gives _)
    ]

    attempts-Gives :
        (provider : ℕ → Hint → Answer) (strict : Bool) (events : List Source) (left retries : ℕ)
        (hint : Hint)
        → Gives
            (attempts provider judge strict events left retries hint)
            (attempts_steps judge provider strict events left retries hint)
    unfolding attempts attempts_steps
    attempts-Gives provider strict events zero retries hint = return-Gives _
    attempts-Gives provider strict events (suc left) retries hint =
        bind-Gives (provider retries hint) _ _ _ (await-Gives _) (
          answer (λ h. attempts-Gives provider strict events left (retries + 1) h)
            (provider retries hint))
      where
        answer :
            (again : (h : Hint)
              → Gives
                  (attempts provider judge strict events left (retries + 1) h)
                  (attempts_steps judge provider strict events left (retries + 1) h))
            (a : Answer)
            → Gives
                (elim a [
                  | failed ↦ fallback false retries
                  | answered text ↦
                      let v = checked judge strict events text in
                      let rest =
                        attempts provider judge strict events left (retries + 1) (hint_after v) in
                      if v.is_valid
                      then record {
                        answer = text;
                        citations = build_citations events v.extracted;
                        retries_used = retries;
                        is_cold_start = false;
                        used_fallback = false;
                      }
                      else rest
                ])
                (answered_steps judge strict events retries
                  (attempts_steps judge provider strict events left (retries + 1))
                  a)
        answer again failed = return-Gives _
        answer again (answered text) =
            bind-Gives (checked judge strict events text) _ _ _ (checked-Gives strict events text)
              (elim (Bool-cases (checked judge strict events text).is_valid) [
                | inl valid ↦ rw valid (return-Gives _)
                | inr invalid ↦ rw invalid (again _)
              ])

    render-Gives :
        (provider : ℕ → Hint → Answer) (strict : Bool) (event_count reflection_count : ℕ)
        (prompt_loads : Bool) (events : List Source)
        → Gives
            (render_narrative provider judge strict 2 event_count reflection_count prompt_loads
              events)
            (render_steps judge provider strict 2 event_count reflection_count prompt_loads events)
    unfolding render_narrative render_steps
    render-Gives provider strict event_count reflection_count prompt_loads events =
        elim (Bool-cases (is_cold event_count reflection_count)) [
          | inl cold ↦ rw cold (return-Gives (fallback true 0))
          | inr warm ↦ rw warm (elim (Bool-cases (is_nil events)) [
            | inl empty ↦ rw empty (return-Gives (fallback false 0))
            | inr full ↦ rw full (elim (Bool-cases prompt_loads) [
              | inl loads ↦ rw loads (attempts-Gives provider strict events 3 0 no_hint)
              | inr fails ↦ rw fails (return-Gives (fallback false 0))
            ])
          ])
        ]

  query-Gives :
      (models : Models) (req : QueryRequest) (ask : Option _) (s : Archive)
      → Gives (query_with ask models req s) (query_with_steps ask models req s)
  query-Gives models req none s = return-Gives _
  query-Gives models req (some ask) s =
      bind-Gives _ _ _ _ (render-Gives _ _ _ _ _ _ _) (return-Gives _)

  pub run-execute_query :
      (models : Models) (req : QueryRequest)
      → run (execute_query_steps models req)
        ≡ gets (λ (s : Session R). execute_query models req s.db.archive)
  unfolding execute_query_steps execute_query await run gets Process.◌>>=◌
  run-execute_query models req =
      fun_ext (λ s. query-Gives models req models.narrative s.db.archive s)
