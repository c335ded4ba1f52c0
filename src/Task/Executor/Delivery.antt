-- ===== src/Task/Executor/Delivery.antt =====
-- A publish tells its outcome, and an answer is delivered, whatever fails on the way.
use oldman_agent.Prelude.{String, refl, Option, none, some, List}
use oldman_agent.Exec.{Error, Result, ok, err}
use oldman_agent.Exec.Ends.{
  Ends, Ends-pure, Ends-raise, Ends-gets, Ends-if, Ends-bind, Ends-then, Ends-try,
}
use oldman_agent.Floats.{Floats}
use oldman_agent.Json.{Json}
use oldman_agent.Publish.{PublishRequest}
use oldman_agent.Narrative.Renderer.{NarrativeRendererResult}
use oldman_agent.Narrative.Query.{QueryRequest}
use oldman_agent.Task.Session.{Royalties, TaskEvent, completed, failed, Session}
use oldman_agent.Task.Payload.{publish_request}
use oldman_agent.Task.Executor.{
  Executor, publish_error, refuse_publish, publish_and_tell, publish_payload, publish_data,
  release_royalties, tell_answer, answer_query,
}
use oldman_agent.Task.Executor.LifeCycle.{
  open_task, at_work, delivered, Led, Closes, Stays, Ends-emit, Ends-emit_last, Ends-deliver,
  Ends-on_db,
}

module _ (F : Floats) (x : Executor F) (before : List TaskEvent) where
  open F use {R}

  -- Delivered, or raised before anything was.
  abbrev Told : Result (Unit {0}) → Session R → Type 0
  Told (ok _) s = Led before s.queue delivered
  Told (err e) s = Led before s.queue open_task

  refuse_publish-Told :
      (reason : Option (String × String)) (e : Error) (s : Session R)
      → Led before s.queue open_task
      → Ends (refuse_publish F x reason e) s Told
  refuse_publish-Told none e s h = Ends-raise e s _ h
  refuse_publish-Told (some (status, reason)) e s h =
      Ends-emit before _ s Told open_task delivered h refl (λ s' h'. h')

  publish_and_tell-Told :
      (req : PublishRequest) (s : Session R)
      → Led before s.queue open_task
      → Ends (publish_and_tell F x req) s Told
  unfolding publish_and_tell
  publish_and_tell-Told req s h =
      Ends-try _ _ s Told _
        (Ends-then _ _ s (Stays before open_task) _ (Ends-on_db before _ s open_task h)
          (λ event_id s1 h1. Ends-emit before _ s1 Told open_task delivered h1 refl (λ s' h'. h'))
          (λ e s1 h1. h1))
        (λ _ s1 h1. h1) (λ e s1 h1. refuse_publish-Told (publish_error e) e s1 h1)

  pub publish_data-Closes :
      (v : Option Json) (s : Session R)
      → Led before s.queue open_task
      → Ends (publish_data F x v) s (Closes before)
  publish_data-Closes none s h = Ends-emit_last before failed s open_task h refl
  publish_data-Closes (some v) s h = payload (publish_request x.parse_ts v)
    where
      payload : (req : Option PublishRequest) → Ends (publish_payload F x req) s (Closes before)
      payload none = Ends-deliver before _ s open_task h refl
      payload (some req) =
          Ends-then _ _ s Told _ (publish_and_tell-Told req s h)
            (λ _ s1 h1. Ends-emit_last before completed s1 delivered h1 refl)
            (λ e s1 h1. (open_task, h1, refl))

  -- A release never raises and sends nothing.
  abbrev pub Quiet : Result Royalties → Session R → Type 0
  Quiet (ok _) s = Led before s.queue at_work
  Quiet (err e) s = ⊥

  pub release_royalties-Quiet :
      (settled : Option String) (response : NarrativeRendererResult) (s : Session R)
      → Led before s.queue at_work
      → Ends (release_royalties F x settled response) s Quiet
  release_royalties-Quiet none response s h = Ends-pure _ s Quiet h
  release_royalties-Quiet (some invoice_id) response s h =
      Ends-if x.settings.royalty_enabled _ _ s _
        (λ _.
          Ends-try _ _ s (Stays before at_work) Quiet
            (Ends-bind _ _ s _ (
              Ends-gets _ s _ (
                Ends-bind _ _ s _ (
                  Ends-gets _ s _ (
                    Ends-then _ _ s (Stays before at_work) _ (Ends-on_db before _ s at_work h)
                      (λ releases s1 h1. Ends-pure _ s1 _ h1) (λ e s1 h1. h1))))))
            (λ royalties s1 h1. h1) (λ e s1 h1. Ends-pure _ s1 Quiet h1))
        (λ _. Ends-pure _ s Quiet h)

  tell_answer-Closes :
      (settled : Option String) (response : Option NarrativeRendererResult) (s : Session R)
      → Led before s.queue at_work
      → Ends (tell_answer F x settled response) s (Closes before)
  tell_answer-Closes settled none s h = Ends-emit_last before failed s at_work h refl
  tell_answer-Closes settled (some response) s h =
      Ends-then _ _ s Quiet _ (release_royalties-Quiet settled response s h)
        (λ royalties s1 h1. Ends-deliver before _ s1 at_work h1 refl) (λ e s1 never. absurd never)

  pub answer_query-Closes :
      (req : QueryRequest) (settled : Option String) (s : Session R)
      → Led before s.queue at_work
      → Ends (answer_query F x req settled) s (Closes before)
  unfolding answer_query
  answer_query-Closes req settled s h =
      Ends-bind _ _ s _ (Ends-gets _ s _ (tell_answer-Closes settled _ s h))
