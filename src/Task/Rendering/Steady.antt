-- ===== src/Task/Rendering/Steady.antt =====
-- The answer to a query keeps whatever holds of the database: it only reads.
use oldman_agent.Prelude.{
  ℕ, zero, suc, Bool, true, false, Option, none, some, List, [], ◌∷◌, Bool-cases, inl, inr,
}
use oldman_agent.Exec.Stable.{Stable-gets, Stable-pure}
use oldman_agent.Json.{Json}
use oldman_agent.Archive.{Archive}
use oldman_agent.Narrative.Text.{Text}
use oldman_agent.Narrative.Validator.{Source, Verdict, is_nil, validate_citations}
use oldman_agent.Narrative.Renderer.{
  NarrativeRendererResult, Hint, no_hint, Answer, failed, answered, fallback, is_cold,
}
use oldman_agent.Narrative.Query.{QueryRequest, Models}
use oldman_agent.Task.Session.{Session}
use oldman_agent.Task.Process.{Process, return}
use oldman_agent.Task.Process.Steady.{Steady, Steady-await, Steady-if, Steady-bind}
use oldman_agent.Task.Rendering.{
  ungrounded_steps, with_judge_steps, checked_steps, answered_steps, attempts_steps, render_steps,
  query_with_steps, execute_query_steps,
}

module _ {R : Type 0} (P : Session R → Type 0) where
  return-Steady : {A : Type 0} (a : A) → Steady P (return a)
  unfolding return
  return-Steady a = tt

  module _ (judge : Text → Json → Verdict) where
    ungrounded-Steady :
        (text : Text) (events : List Source) (cs : List Text)
        → Steady P (ungrounded_steps judge text events cs)
    unfolding ungrounded_steps
    ungrounded-Steady text events [] = return-Steady []
    ungrounded-Steady text events (c ∷ cs) =
        Steady-bind P _ _ (Steady-await P _ (Stable-pure P _))
          λ verdict. Steady-bind P _ _ (ungrounded-Steady text events cs) λ rest. return-Steady _

    checked-Steady :
        (strict : Bool) (events : List Source) (text : Text)
        → Steady P (checked_steps judge strict events text)
    unfolding with_judge_steps
    checked-Steady strict events text =
        Steady-if P strict _ _
          (Steady-if P (validate_citations text events).is_valid _ _
            (Steady-bind P _ _ (ungrounded-Steady text events _) λ bad. return-Steady _)
            (return-Steady _))
          (return-Steady _)

    answered-Steady :
        (strict : Bool) (events : List Source) (retries : ℕ)
        (again : Hint → Process (Session R) NarrativeRendererResult) (answer : Answer)
        → ((hint : Hint) → Steady P (again hint))
        → Steady P (answered_steps judge strict events retries again answer)
    answered-Steady strict events retries again failed h = return-Steady _
    answered-Steady strict events retries again (answered text) h =
        Steady-bind P _ _ (checked-Steady strict events text)
          λ v. Steady-if P v.is_valid _ _ (return-Steady _) (h _)

    attempts-Steady :
        (provider : ℕ → Hint → Answer) (strict : Bool) (events : List Source) (left retries : ℕ)
        (hint : Hint)
        → Steady P (attempts_steps judge provider strict events left retries hint)
    unfolding attempts_steps
    attempts-Steady provider strict events zero retries hint = return-Steady _
    attempts-Steady provider strict events (suc left) retries hint =
        Steady-bind P _ _ (Steady-await P _ (Stable-pure P _)) λ answer.
          answered-Steady strict events retries _ answer
            (attempts-Steady provider strict events left _)

    render-Steady :
        (provider : ℕ → Hint → Answer) (strict : Bool) (event_count reflection_count : ℕ)
        (prompt_loads : Bool) (events : List Source)
        → Steady P
            (render_steps judge provider strict 2 event_count reflection_count prompt_loads events)
    unfolding render_steps
    render-Steady provider strict event_count reflection_count prompt_loads events =
        elim (Bool-cases (is_cold event_count reflection_count)) [
          | inl cold ↦ rw cold (return-Steady (fallback true 0))
          | inr warm ↦ rw warm (elim (Bool-cases (is_nil events)) [
            | inl empty ↦ rw empty (return-Steady (fallback false 0))
            | inr full ↦ rw full (elim (Bool-cases prompt_loads) [
              | inl loads ↦ rw loads (attempts-Steady provider strict events 3 0 no_hint)
              | inr fails ↦ rw fails (return-Steady (fallback false 0))
            ])
          ])
        ]

  query-Steady :
      (models : Models) (req : QueryRequest) (ask : Option _) (s : Archive)
      → Steady P (query_with_steps ask models req s)
  query-Steady models req none s = return-Steady _
  query-Steady models req (some ask) s =
      Steady-bind P _ _ (render-Steady _ _ _ _ _ _ _) (λ result. return-Steady _)

  pub execute_query-Steady :
      (models : Models) (req : QueryRequest) → Steady P (execute_query_steps models req)
  unfolding execute_query_steps
  execute_query-Steady models req =
      Steady-bind P _ _ (Steady-await P _ (Stable-gets P _))
        (query-Steady models req models.narrative)
