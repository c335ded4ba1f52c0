-- ===== src/Task/Routine/Alone.antt =====
-- The coroutine of a request, run alone, is the executor of Task.Executor.
use Prim.Native.String.{String}
use oldman_agent.Prelude.{◌≡◌, Bool, true, false, Option, none, some, if◌then◌else◌, ◌==◌}
use oldman_agent.Exec.{Error, Exec, raise}
use oldman_agent.Floats.{Floats}
use oldman_agent.Json.{Json}
use oldman_agent.Charge.{Charge, missing_querier_agent, querier_insufficient_funds, charged}
use oldman_agent.Publish.{PublishRequest}
use oldman_agent.Narrative.Renderer.{NarrativeRendererResult}
use oldman_agent.Narrative.Query.{QueryRequest}
use oldman_agent.Task.Message.{Message, intent_publish, intent_query, intent_reputation, intent_of}
use oldman_agent.Task.Session.{TaskEvent, Session, emit}
use oldman_agent.Task.Process.{Process, run}
use oldman_agent.Task.Rendering.Alone.{run-execute_query}
use oldman_agent.Task.Process.Alone.{run-await, run-handle_parts, run-bind_parts}
use oldman_agent.Task.Payload.{publish_request}
use oldman_agent.Task.Executor.{
  Executor, publish_error, refuse_publish, publish_and_tell, publish_payload, publish_data,
  dispatch_publish, tell_answer, answer_query, is_paid, after_charge, charge_first, query_filtered,
  emit_insufficient_funds_fallback, query_unless_smalltalk, ask, dispatch_query, tell_report,
  report_on, dispatch_reputation, dispatch, execute,
}
use oldman_agent.Task.Routine.{
  emitting, unpaid_steps, refuse_publish_steps, publish_and_tell_steps, publish_payload_steps,
  publish_data_steps, dispatch_publish_steps, tell_answer_steps, answer_query_steps,
  after_charge_steps, charge_first_steps, query_filtered_steps, query_unless_smalltalk_steps,
  ask_steps, dispatch_query_steps, tell_report_steps, report_on_steps, dispatch_reputation_steps,
  dispatch_steps, execute_steps,
}

module _ {S A : Type 0} where
  run-if :
      (b : Bool) (p q : Process S A) (m n : Exec S A)
      → run p ≡ m
      → run q ≡ n
      → run (if b then p else q) ≡ (if b then m else n)
  run-if true p q m n h k = h
  run-if false p q m n h k = k

module _ (F : Floats) (x : Executor F) where
  open F use {R}

  run-emitting : (e : TaskEvent) → run (emitting F x e) ≡ emit e
  run-emitting e = run-await (emit e)

  run-unpaid :
      (reason : String)
      → run (unpaid_steps F x reason) ≡ emit_insufficient_funds_fallback F x reason
  unfolding unpaid_steps emit_insufficient_funds_fallback
  run-unpaid reason = run-bind_parts _ _ _ _ (run-emitting _) (λ _. run-emitting _)

  run-refuse_publish :
      (reason : Option (String × String)) (e : Error)
      → run (refuse_publish_steps F x reason e) ≡ refuse_publish F x reason e
  run-refuse_publish none e = run-await (raise e)
  run-refuse_publish (some (status, reason)) e = run-emitting _

  run-publish_and_tell :
      (req : PublishRequest) → run (publish_and_tell_steps F x req) ≡ publish_and_tell F x req
  unfolding publish_and_tell_steps publish_and_tell
  run-publish_and_tell req =
      run-handle_parts _ _ _ _ (run-bind_parts _ _ _ _ (run-await _) (λ event_id. run-emitting _))
        (λ e. run-refuse_publish (publish_error e) e)

  run-publish_payload :
      (req : Option PublishRequest) → run (publish_payload_steps F x req) ≡ publish_payload F x req
  run-publish_payload none = run-bind_parts _ _ _ _ (run-emitting _) (λ _. run-emitting _)
  run-publish_payload (some req) =
      run-bind_parts _ _ _ _ (run-publish_and_tell req) (λ _. run-emitting _)

  run-publish_data : (v : Option Json) → run (publish_data_steps F x v) ≡ publish_data F x v
  run-publish_data none = run-emitting _
  run-publish_data (some v) = run-publish_payload (publish_request x.parse_ts v)

  run-tell_answer :
      (settled : Option String) (response : Option NarrativeRendererResult)
      → run (tell_answer_steps F x settled response) ≡ tell_answer F x settled response
  run-tell_answer settled none = run-emitting _
  run-tell_answer settled (some response) =
      run-bind_parts _ _ _ _ (run-await _)
        (λ royalties. run-bind_parts _ _ _ _ (run-emitting _) (λ _. run-emitting _))

  run-answer_query :
      (req : QueryRequest) (settled : Option String)
      → run (answer_query_steps F x req settled) ≡ answer_query F x req settled
  unfolding answer_query_steps answer_query
  run-answer_query req settled =
      run-bind_parts _ _ _ _ (run-execute_query x.models req) (run-tell_answer settled)

  run-after_charge :
      (steps : Option String → Process (Session R) (Unit {0}))
      (go : Option String → Exec (Session R) (Unit {0})) (outcome : Charge)
      → ((settled : Option String) → run (steps settled) ≡ go settled)
      → run (after_charge_steps F x steps outcome) ≡ after_charge F x go outcome
  run-after_charge steps go missing_querier_agent h = run-unpaid _
  run-after_charge steps go querier_insufficient_funds h = run-unpaid _
  run-after_charge steps go (charged invoice_id) h = h (some invoice_id)

  run-charge_first :
      (question : String) (subject : Option String) (filters : Json)
      (steps : Option String → Process (Session R) (Unit {0}))
      (go : Option String → Exec (Session R) (Unit {0}))
      → ((settled : Option String) → run (steps settled) ≡ go settled)
      → run (charge_first_steps F x question subject filters steps)
        ≡ charge_first F x question subject filters go
  unfolding charge_first_steps charge_first
  run-charge_first question subject filters steps go h =
      run-if (is_paid F x) _ _ _ _
        (run-bind_parts _ _ _ _ (run-await _) λ querier.
          run-bind_parts _ _ _ _ (run-await _) λ outcome. run-after_charge steps go outcome h)
        (h none)

  run-query_filtered :
      (filters : Json) (req : Option QueryRequest)
      → run (query_filtered_steps F x filters req) ≡ query_filtered F x filters req
  run-query_filtered filters none = run-emitting _
  run-query_filtered filters (some req) =
      run-charge_first req.question req.subject_agent filters _ _ (run-answer_query req)

  run-query_unless_smalltalk :
      (message : Message) (question : String) (canned : Option String)
      → run (query_unless_smalltalk_steps F x message question canned)
        ≡ query_unless_smalltalk F x message question canned
  run-query_unless_smalltalk message question none = run-query_filtered _ _
  run-query_unless_smalltalk message question (some canned) =
      run-bind_parts _ _ _ _ (run-emitting _) (λ _. run-emitting _)

  run-ask :
      (message : Message) (question : String)
      → run (ask_steps F x message question) ≡ ask F x message question
  run-ask message question =
      run-if (question == "") _ _ _ _ (run-emitting _)
        (run-query_unless_smalltalk message question _)

  run-tell_report :
      (subject : String) (settled : Option String)
      → run (tell_report_steps F x subject settled) ≡ tell_report F x subject settled
  unfolding tell_report_steps tell_report
  run-tell_report subject settled =
      run-bind_parts _ _ _ _ (run-await _)
        (λ report. run-bind_parts _ _ _ _ (run-emitting _) (λ _. run-emitting _))

  run-report_on :
      (filters : Json) (subject : Option String)
      → run (report_on_steps F x filters subject) ≡ report_on F x filters subject
  run-report_on filters none = run-emitting _
  run-report_on filters (some subject) =
      run-bind_parts _ _ _ _ (run-emitting _)
        λ _. run-charge_first _ (some subject) filters _ _ (run-tell_report subject)

  run-dispatched :
      (message : Message)
      → (run (dispatch_publish_steps F x message) ≡ dispatch_publish F x message)
        × (run (dispatch_query_steps F x message) ≡ dispatch_query F x message)
        × (run (dispatch_reputation_steps F x message) ≡ dispatch_reputation F x message)
  unfolding dispatch_publish_steps dispatch_query_steps dispatch_reputation_steps dispatch_publish
      dispatch_query dispatch_reputation
  run-dispatched message = (
    run-bind_parts _ _ _ _ (run-emitting _) (λ _. run-publish_data _),
    run-bind_parts _ _ _ _ (run-emitting _)
        (λ _. run-bind_parts _ _ _ _ (run-emitting _) (λ _. run-ask message _)),
    run-bind_parts _ _ _ _ (run-emitting _)
        (λ _. run-bind_parts _ _ _ _ (run-await _) (λ v. run-report_on _ _)),
  )

  run-dispatch :
      (intent : Option String) (message : Message)
      → run (dispatch_steps F x intent message) ≡ dispatch F x intent message
  run-dispatch none message = run-emitting _
  run-dispatch (some intent) message =
      let (published, queried, reported) = run-dispatched message in
      run-if (intent == intent_publish) _ _ _ _ published (
        run-if (intent == intent_query) _ _ _ _ queried
          (run-if (intent == intent_reputation) _ _ _ _ reported (run-emitting _)))

  -- A request that no other interrupts does, piece by piece, what the executor does at once.
  pub run-execute_steps :
      (request : Option Message) → run (execute_steps F x request) ≡ execute F x request
  unfolding execute_steps execute
  run-execute_steps none = run-emitting _
  run-execute_steps (some message) = run-dispatch (intent_of x.strs.strip message) message
