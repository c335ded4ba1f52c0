-- ===== src/Task/Routine/Ending.antt =====
-- Every request ends within 101 segments, through the phases of a task, whatever else runs.
use oldman_agent.Prelude.{ℕ, suc, String, ◌≡◌, refl, false, Option, none, some, [], ◌==◌}
use oldman_agent.Exec.{Error, Result, ok, err, modify}
use oldman_agent.Exec.Ends.{Ends-pure, Ends-raise, Ends-gets, Ends-weaken}
use oldman_agent.Floats.{Floats}
use oldman_agent.Json.{Json, obj, null, bool, num, text, arr}
use oldman_agent.Charge.{Charge, missing_querier_agent, querier_insufficient_funds, charged}
use oldman_agent.Publish.{PublishRequest}
use oldman_agent.Narrative.Text.{codes}
use oldman_agent.Narrative.Renderer.{NarrativeRendererResult}
use oldman_agent.Narrative.Query.{QueryRequest}
use oldman_agent.Task.Message.{Message, intent_publish, intent_query, intent_reputation, intent_of}
use oldman_agent.Task.Session.{
  TaskEvent, submitted, working, artifact, stored_data, completed, failed, Session, emit,
}
use oldman_agent.Task.Process.{Process, finished, await, handle, ◌>>=◌}
use oldman_agent.Task.Filters.{get}
use oldman_agent.Task.Payload.{publish_request}
use oldman_agent.Task.Executor.{Executor, publish_error, is_paid, release_royalties}
use oldman_agent.Task.Executor.LifeCycle.{
  Phase, unsent, open_task, at_work, delivered, closed, step, is_closed, Led, Ends-on_db,
}
use oldman_agent.Task.Executor.Delivery.{Quiet, release_royalties-Quiet}
use oldman_agent.Task.Routine.{
  unpaid_steps, refuse_publish_steps, publish_and_tell_steps, publish_payload_steps,
  publish_data_steps, dispatch_publish_steps, tell_answer_steps, answer_query_steps,
  after_charge_steps, charge_first_steps, query_filtered_steps, query_unless_smalltalk_steps,
  ask_steps, dispatch_query_steps, tell_report_steps, report_on_steps, dispatch_reputation_steps,
  dispatch_steps, execute_steps, emitting,
}
use oldman_agent.Task.Routine.Awaits.{execute_query-Calm}
use oldman_agent.Task.Routine.Phases.{
  Goes-bind, Goes, SendsNothing, spare, Goes-spare, Goes-if, Goes-await_then, Goes-raise_then,
  Goes-emit_then, Goes-emit, Goes-deliver,
}

-- What finishes has closed its task, and what raises has not.
abbrev pub Finishes : Result (Unit {0}) → Phase → Type 0
Finishes (ok _) p = p ≡ closed
Finishes (err e) p = is_closed p ≡ false

module _ (F : Floats) (x : Executor F) where
  open F use {R}

  abbrev pub Closing : ℕ → Phase → Process (Session R) (Unit {0}) → Type 1
  Closing n p c = Goes n p Finishes c

  -- An artifact and the end, and a failure, with segments to spare.
  artifact-Closing :
      (d : ℕ) (p : Phase) (e : TaskEvent)
      → is_closed p ≡ false
      → step p e ≡ some delivered
      → Closing (spare d 2) p (emitting F x e >>= λ _. emitting F x completed)
  artifact-Closing d p e h k = Goes-spare Finishes d 2 p _ (Goes-deliver R Finishes p e h k refl)

  failed-Closing :
      (d : ℕ) (p : Phase)
      → is_closed p ≡ false
      → step p failed ≡ some closed
      → Closing (spare d 1) p (emitting F x failed)
  failed-Closing d p h k =
      Goes-spare Finishes d 1 p _ (Goes-emit R Finishes p closed failed h k refl)

  refused-Closing :
      (reason : Option (String × String)) (e : Error)
      → Closing 2 open_task (refuse_publish_steps F x reason e >>= λ _. emitting F x completed)
  refused-Closing none e = Goes-raise_then Finishes 1 open_task e _ refl refl
  refused-Closing (some (status, reason)) e = Goes-deliver R Finishes open_task _ refl refl refl

  publish_payload-Closing :
      (req : Option PublishRequest) → Closing 3 open_task (publish_payload_steps F x req)
  unfolding publish_and_tell_steps await handle ◌>>=◌ emit modify
  publish_payload-Closing none = artifact-Closing 1 open_task _ refl refl
  publish_payload-Closing (some req) =
      (refl, λ s led. (open_task, (Ends-on_db [] _ s open_task led).at, told _))
    where
      told :
          (r : Result String)
          → Closing 2 open_task (
              handle
                (finished r >>= λ id. emitting F x (artifact (codes "stored") (stored_data id)))
                (λ e. refuse_publish_steps F x (publish_error e) e)
              >>= λ _. emitting F x completed)
      told (ok event_id) = Goes-deliver R Finishes open_task _ refl refl refl
      told (err e) = refused-Closing (publish_error e) e

  publish_data-Closing : (v : Option Json) → Closing 3 open_task (publish_data_steps F x v)
  publish_data-Closing none = failed-Closing 2 open_task refl refl
  publish_data-Closing (some v) = publish_payload-Closing (publish_request x.parse_ts v)

  release_royalties-SendsNothing :
      (settled : Option String) (response : NarrativeRendererResult)
      → SendsNothing at_work (release_royalties F x settled response)
  release_royalties-SendsNothing settled response s led =
      Ends-weaken _ s _ (release_royalties-Quiet F x [] settled response s led) quiet
    where
      quiet : (r : Result _) (s' : Session R) → Quiet F x [] r s' → Led [] s'.queue at_work
      quiet (ok royalties) s' h = h
      quiet (err e) s' never = absurd never

  tell_answer-Closing :
      (settled : Option String) (response : Option NarrativeRendererResult)
      → Closing 3 at_work (tell_answer_steps F x settled response)
  tell_answer-Closing settled none = failed-Closing 2 at_work refl refl
  tell_answer-Closing settled (some response) =
      Goes-await_then Finishes 2 at_work _ _ refl (release_royalties-SendsNothing settled response)
        (λ royalties. Goes-deliver R Finishes at_work _ refl refl refl) (λ e. refl)

  answer_query-Closing :
      (req : QueryRequest) (settled : Option String)
      → Closing 97 at_work (answer_query_steps F x req settled)
  unfolding answer_query_steps
  answer_query-Closing req settled =
      Goes-bind at_work Finishes 94 3 at_work _ _ (execute_query-Calm R x.models req)
        (tell_answer-Closing settled)

  unpaid-Closing : (d : ℕ) (reason : String) → Closing (spare d 2) at_work (unpaid_steps F x reason)
  unfolding unpaid_steps
  unpaid-Closing d reason = artifact-Closing d at_work _ refl refl

  after_charge-Closing :
      (d : ℕ) (go : Option String → Process (Session R) (Unit {0})) (outcome : Charge)
      → ((settled : Option String) → Closing (spare d 2) at_work (go settled))
      → Closing (spare d 2) at_work (after_charge_steps F x go outcome)
  after_charge-Closing d go missing_querier_agent k = unpaid-Closing d _
  after_charge-Closing d go querier_insufficient_funds k = unpaid-Closing d _
  after_charge-Closing d go (charged invoice_id) k = k (some invoice_id)

  get-SendsNothing :
      (p : Phase) (name : String) (filters : Json)
      → SendsNothing p (get {S = Session R} name filters)
  get-SendsNothing p name (obj fs) s led = Ends-pure _ s _ led
  get-SendsNothing p name null s led = Ends-raise _ s _ led
  get-SendsNothing p name (bool b) s led = Ends-raise _ s _ led
  get-SendsNothing p name (num n) s led = Ends-raise _ s _ led
  get-SendsNothing p name (text t) s led = Ends-raise _ s _ led
  get-SendsNothing p name (arr items) s led = Ends-raise _ s _ led

  charge_first-Closing :
      (d : ℕ) (question : String) (subject : Option String) (filters : Json)
      (go : Option String → Process (Session R) (Unit {0}))
      → ((settled : Option String) → Closing (spare d 2) at_work (go settled))
      → Closing (suc (suc (spare d 2))) at_work (charge_first_steps F x question subject filters go)
  unfolding charge_first_steps
  charge_first-Closing d question subject filters go k =
      Goes-if Finishes _ at_work (is_paid F x) _ _
        (Goes-await_then Finishes _ at_work _ _ refl
          (get-SendsNothing at_work "querier_agent" filters)
          (λ querier.
            Goes-await_then Finishes _ at_work _ _ refl (λ s led. Ends-on_db [] _ s at_work led)
              (λ outcome. after_charge-Closing d go outcome k) (λ e. refl))
          (λ e. refl))
        (Goes-spare Finishes 2 (spare d 2) at_work _ (k none))

  query_filtered-Closing :
      (filters : Json) (req : Option QueryRequest)
      → Closing 99 at_work (query_filtered_steps F x filters req)
  query_filtered-Closing filters none = failed-Closing 98 at_work refl refl
  query_filtered-Closing filters (some req) =
      charge_first-Closing 95 req.question req.subject_agent filters _ (answer_query-Closing req)

  query_unless_smalltalk-Closing :
      (message : Message) (question : String) (canned : Option String)
      → Closing 99 at_work (query_unless_smalltalk_steps F x message question canned)
  query_unless_smalltalk-Closing message question none = query_filtered-Closing _ _
  query_unless_smalltalk-Closing message question (some canned) =
      artifact-Closing 97 at_work _ refl refl

  ask-Closing :
      (message : Message) (question : String) → Closing 99 at_work (ask_steps F x message question)
  ask-Closing message question =
      Goes-if Finishes 99 at_work (question == "") _ _ (failed-Closing 98 at_work refl refl)
        (query_unless_smalltalk-Closing message question _)

  tell_report-Closing :
      (subject : String) (settled : Option String)
      → Closing 3 at_work (tell_report_steps F x subject settled)
  unfolding tell_report_steps
  tell_report-Closing subject settled =
      Goes-await_then Finishes 2 at_work _ _ refl (λ s led. Ends-gets _ s _ led)
        (λ report. artifact-Closing 0 at_work _ refl refl) (λ e. refl)

  report_on-Closing :
      (filters : Json) (subject : Option String)
      → Closing 6 open_task (report_on_steps F x filters subject)
  report_on-Closing filters none = failed-Closing 5 open_task refl refl
  report_on-Closing filters (some subject) =
      Goes-emit_then Finishes 5 open_task at_work working _ refl refl
        (charge_first-Closing 1 _ (some subject) filters _ (tell_report-Closing subject))

  dispatch-Closing :
      (intent : Option String) (message : Message)
      → Closing 101 unsent (dispatch_steps F x intent message)
  unfolding dispatch_publish_steps dispatch_query_steps dispatch_reputation_steps
  dispatch-Closing none message = failed-Closing 100 unsent refl refl
  dispatch-Closing (some intent) message =
      Goes-if Finishes 101 unsent (intent == intent_publish) _ _
        (Goes-spare Finishes 97 4 unsent _ (
          Goes-emit_then Finishes 3 unsent open_task submitted _ refl refl
            (publish_data-Closing _)))
        (Goes-if Finishes 101 unsent (intent == intent_query) _ _
          (Goes-emit_then Finishes 100 unsent open_task submitted _ refl refl (
            Goes-emit_then Finishes 99 open_task at_work working _ refl refl
              (ask-Closing message _)))
          (Goes-if Finishes 101 unsent (intent == intent_reputation) _ _
            (Goes-spare Finishes 93 8 unsent _ (
              Goes-emit_then Finishes 7 unsent open_task submitted _ refl refl (
                Goes-await_then Finishes 6 open_task _ _ refl
                  (get-SendsNothing open_task "subject_agent" _) (λ v. report_on-Closing _ _)
                  (λ e. refl))))
            (failed-Closing 100 unsent refl refl)))

  pub execute_steps-Closing :
      (request : Option Message) → Closing 101 unsent (execute_steps F x request)
  unfolding execute_steps
  execute_steps-Closing none = failed-Closing 100 unsent refl refl
  execute_steps-Closing (some message) = dispatch-Closing (intent_of x.strs.strip message) message
