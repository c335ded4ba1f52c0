-- ===== src/Task/Routine/Steady.antt =====
-- Every segment of a request keeps the credits books balanced.
use oldman_agent.Prelude.{String, Option, none, some, ◌==◌}
use oldman_agent.Exec.{Error}
use oldman_agent.Exec.Stable.{Stable-gets}
use oldman_agent.Floats.{Floats}
use oldman_agent.Json.{Json}
use oldman_agent.Charge.{Charge, missing_querier_agent, querier_insufficient_funds, charged}
use oldman_agent.Charge.Balanced.{charge_querier-IsBalanced}
use oldman_agent.Publish.{PublishRequest}
use oldman_agent.Publish.Balanced.{execute_publish-IsBalanced}
use oldman_agent.Narrative.Renderer.{NarrativeRendererResult}
use oldman_agent.Narrative.Query.{QueryRequest}
use oldman_agent.Task.Message.{Message, intent_publish, intent_query, intent_reputation, intent_of}
use oldman_agent.Task.Session.{TaskEvent, completed, Session}
use oldman_agent.Task.Session.Kept.{KeepsBooks, emit-Stable, on_db-Stable, on_db_books-Stable}
use oldman_agent.Task.Process.{Process, ◌>>=◌}
use oldman_agent.Task.Rendering.Steady.{execute_query-Steady}
use oldman_agent.Task.Process.Steady.{Steady, Steady-await, Steady-if, Steady-handle, Steady-bind}
use oldman_agent.Task.Payload.{publish_request}
use oldman_agent.Task.Executor.{Executor, publish_error, is_paid}
use oldman_agent.Task.Executor.Kept.{refuse_publish-Stable, release_royalties-Stable, get-Stable}
use oldman_agent.Task.Routine.{
  emitting, unpaid_steps, refuse_publish_steps, publish_and_tell_steps, publish_payload_steps,
  publish_data_steps, dispatch_publish_steps, tell_answer_steps, answer_query_steps,
  after_charge_steps, charge_first_steps, query_filtered_steps, query_unless_smalltalk_steps,
  ask_steps, dispatch_query_steps, tell_report_steps, report_on_steps, dispatch_reputation_steps,
  dispatch_steps, execute_steps,
}

module _ (F : Floats) (x : Executor F) where
  open F use {R}

  -- A coroutine all of whose segments keep the books balanced.
  abbrev pub SteadyBooks : Process (Session R) (Unit {0}) → Type 1
  SteadyBooks p = Steady KeepsBooks p

  emitting-Steady : (e : TaskEvent) → SteadyBooks (emitting F x e)
  emitting-Steady e = Steady-await KeepsBooks _ (emit-Stable e)

  told-Steady : (e : TaskEvent) → SteadyBooks (emitting F x e >>= λ _. emitting F x completed)
  told-Steady e = Steady-bind KeepsBooks _ _ (emitting-Steady e) (λ _. emitting-Steady completed)

  refuse_publish-Steady :
      (reason : Option (String × String)) (e : Error)
      → SteadyBooks (refuse_publish_steps F x reason e)
  refuse_publish-Steady none e = Steady-await KeepsBooks _ (refuse_publish-Stable F x none e)
  refuse_publish-Steady (some (status, reason)) e = emitting-Steady _

  publish_and_tell-Steady : (req : PublishRequest) → SteadyBooks (publish_and_tell_steps F x req)
  unfolding publish_and_tell_steps
  publish_and_tell-Steady req =
      Steady-handle KeepsBooks _ _
        (Steady-bind KeepsBooks _ _
          (Steady-await KeepsBooks _ (
            on_db-Stable _
              (execute_publish-IsBalanced F x.verify x.texts x.threshold x.settings req)))
          (λ event_id. emitting-Steady _))
        (λ e. refuse_publish-Steady (publish_error e) e)

  publish_data-Steady : (v : Option Json) → SteadyBooks (publish_data_steps F x v)
  publish_data-Steady none = emitting-Steady _
  publish_data-Steady (some v) = payload (publish_request x.parse_ts v)
    where
      payload : (req : Option PublishRequest) → SteadyBooks (publish_payload_steps F x req)
      payload none = told-Steady _
      payload (some req) =
          Steady-bind KeepsBooks _ _ (publish_and_tell-Steady req) (λ _. emitting-Steady _)

  tell_answer-Steady :
      (settled : Option String) (response : Option NarrativeRendererResult)
      → SteadyBooks (tell_answer_steps F x settled response)
  tell_answer-Steady settled none = emitting-Steady _
  tell_answer-Steady settled (some response) =
      Steady-bind KeepsBooks _ _
        (Steady-await KeepsBooks _ (release_royalties-Stable F x settled response))
        (λ royalties. told-Steady _)

  answer_query-Steady :
      (req : QueryRequest) (settled : Option String)
      → SteadyBooks (answer_query_steps F x req settled)
  unfolding answer_query_steps
  answer_query-Steady req settled =
      Steady-bind KeepsBooks _ _ (execute_query-Steady KeepsBooks x.models req)
        (tell_answer-Steady settled)

  after_charge-Steady :
      (go : Option String → Process (Session R) (Unit {0})) (outcome : Charge)
      → ((settled : Option String) → SteadyBooks (go settled))
      → SteadyBooks (after_charge_steps F x go outcome)
  unfolding unpaid_steps
  after_charge-Steady go missing_querier_agent k = told-Steady _
  after_charge-Steady go querier_insufficient_funds k = told-Steady _
  after_charge-Steady go (charged invoice_id) k = k (some invoice_id)

  charge_first-Steady :
      (question : String) (subject : Option String) (filters : Json)
      (go : Option String → Process (Session R) (Unit {0}))
      → ((settled : Option String) → SteadyBooks (go settled))
      → SteadyBooks (charge_first_steps F x question subject filters go)
  unfolding charge_first_steps
  charge_first-Steady question subject filters go k =
      Steady-if KeepsBooks (is_paid F x) _ _
        (Steady-bind KeepsBooks _ _
          (Steady-await KeepsBooks _ (get-Stable F x "querier_agent" filters))
          λ querier.
            Steady-bind KeepsBooks _ _
              (Steady-await KeepsBooks _
                (on_db_books-Stable _ (charge_querier-IsBalanced x.settings question subject _)))
              λ outcome. after_charge-Steady go outcome k)
        (k none)

  query_filtered-Steady :
      (filters : Json) (req : Option QueryRequest)
      → SteadyBooks (query_filtered_steps F x filters req)
  query_filtered-Steady filters none = emitting-Steady _
  query_filtered-Steady filters (some req) =
      charge_first-Steady req.question req.subject_agent filters _ (answer_query-Steady req)

  ask-Steady :
      (message : Message) (question : String) → SteadyBooks (ask_steps F x message question)
  ask-Steady message question =
      Steady-if KeepsBooks (question == "") _ _ (emitting-Steady _) (unless_smalltalk _)
    where
      unless_smalltalk :
          (canned : Option String)
          → SteadyBooks (query_unless_smalltalk_steps F x message question canned)
      unless_smalltalk none = query_filtered-Steady _ _
      unless_smalltalk (some canned) = told-Steady _

  tell_report-Steady :
      (subject : String) (settled : Option String)
      → SteadyBooks (tell_report_steps F x subject settled)
  unfolding tell_report_steps
  tell_report-Steady subject settled =
      Steady-bind KeepsBooks _ _ (Steady-await KeepsBooks _ (Stable-gets KeepsBooks _))
        (λ report. told-Steady _)

  report_on-Steady :
      (filters : Json) (subject : Option String) → SteadyBooks (report_on_steps F x filters subject)
  report_on-Steady filters none = emitting-Steady _
  report_on-Steady filters (some subject) =
      Steady-bind KeepsBooks _ _ (emitting-Steady _)
        λ _. charge_first-Steady _ (some subject) filters _ (tell_report-Steady subject)

  dispatch-Steady :
      (intent : Option String) (message : Message) → SteadyBooks (dispatch_steps F x intent message)
  unfolding dispatch_publish_steps dispatch_query_steps dispatch_reputation_steps
  dispatch-Steady none message = emitting-Steady _
  dispatch-Steady (some intent) message =
      Steady-if KeepsBooks (intent == intent_publish) _ _
        (Steady-bind KeepsBooks _ _ (emitting-Steady _) λ _. publish_data-Steady _)
        (Steady-if KeepsBooks (intent == intent_query) _ _
          (Steady-bind KeepsBooks _ _ (emitting-Steady _)
            λ _. Steady-bind KeepsBooks _ _ (emitting-Steady _) λ _. ask-Steady message _)
          (Steady-if KeepsBooks (intent == intent_reputation) _ _
            (Steady-bind KeepsBooks _ _ (emitting-Steady _) λ _.
              Steady-bind KeepsBooks _ _
                (Steady-await KeepsBooks _ (get-Stable F x "subject_agent" _))
                λ v. report_on-Steady _ _)
            (emitting-Steady _)))

  pub execute_steps-Steady : (request : Option Message) → SteadyBooks (execute_steps F x request)
  unfolding execute_steps
  execute_steps-Steady none = emitting-Steady _
  execute_steps-Steady (some message) = dispatch-Steady (intent_of x.strs.strip message) message
