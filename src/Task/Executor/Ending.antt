-- ===== src/Task/Executor/Ending.antt =====
-- Every run of the executor ends its task.
use oldman_agent.Prelude.{String, ◌≡◌, refl, false, Option, none, some, List, ◌==◌}
use oldman_agent.Exec.{Exec, ◌>>=◌}
use oldman_agent.Exec.Ends.{Ends, Ends-pure, Ends-raise, Ends-gets, Ends-if, Ends-bind}
use oldman_agent.Floats.{Floats}
use oldman_agent.Json.{Json, obj, null, bool, num, text, arr}
use oldman_agent.Charge.{Charge, missing_querier_agent, querier_insufficient_funds, charged}
use oldman_agent.Narrative.Query.{QueryRequest}
use oldman_agent.Task.Message.{Message, intent_publish, intent_query, intent_reputation, intent_of}
use oldman_agent.Task.Session.{TaskEvent, submitted, working, failed, Session}
use oldman_agent.Task.Filters.{get}
use oldman_agent.Task.Executor.{
  Executor, dispatch_publish, is_paid, after_charge, charge_first, query_filtered,
  emit_insufficient_funds_fallback, query_unless_smalltalk, ask, dispatch_query, tell_report,
  report_on, dispatch_reputation, dispatch, execute,
}
use oldman_agent.Task.Executor.LifeCycle.{
  Phase, unsent, open_task, at_work, is_closed, Led, Closes, Ends-emit_last, Ends-emit_then,
  Ends-deliver, Ends-on_db_then, Led-start,
}
use oldman_agent.Task.Executor.Delivery.{publish_data-Closes, answer_query-Closes}

module _ (F : Floats) (x : Executor F) (before : List TaskEvent) where
  open F use {R}

  unpaid-Closes :
      (reason : String) (s : Session R)
      → Led before s.queue at_work
      → Ends (emit_insufficient_funds_fallback F x reason) s (Closes before)
  unfolding emit_insufficient_funds_fallback
  unpaid-Closes reason s h = Ends-deliver before _ s at_work h refl

  get-Closes :
      (name : String) (filters : Json) (f : Option Json → Exec (Session R) (Unit {0}))
      (s : Session R) (p : Phase)
      → Led before s.queue p
      → is_closed p ≡ false
      → ((v : Option Json) → Ends (f v) s (Closes before))
      → Ends (get name filters >>= f) s (Closes before)
  get-Closes name (obj fs) f s p h ongoing k = Ends-bind _ _ s _ (Ends-pure _ s _ (k _))
  get-Closes name null f s p h ongoing k = Ends-bind _ _ s _ (Ends-raise _ s _ (p, h, ongoing))
  get-Closes name (bool b) f s p h ongoing k = Ends-bind _ _ s _ (Ends-raise _ s _ (p, h, ongoing))
  get-Closes name (num n) f s p h ongoing k = Ends-bind _ _ s _ (Ends-raise _ s _ (p, h, ongoing))
  get-Closes name (text t) f s p h ongoing k = Ends-bind _ _ s _ (Ends-raise _ s _ (p, h, ongoing))
  get-Closes name (arr items) f s p h ongoing k =
      Ends-bind _ _ s _ (Ends-raise _ s _ (p, h, ongoing))

  after_charge-Closes :
      (go : Option String → Exec (Session R) (Unit {0})) (outcome : Charge) (s : Session R)
      → Led before s.queue at_work
      → ((settled : Option String) → Ends (go settled) s (Closes before))
      → Ends (after_charge F x go outcome) s (Closes before)
  after_charge-Closes go missing_querier_agent s h k = unpaid-Closes _ s h
  after_charge-Closes go querier_insufficient_funds s h k = unpaid-Closes _ s h
  after_charge-Closes go (charged invoice_id) s h k = k (some invoice_id)

  charge_first-Closes :
      (question : String) (subject : Option String) (filters : Json)
      (go : Option String → Exec (Session R) (Unit {0})) (s : Session R)
      → Led before s.queue at_work
      → ((settled : Option String) (s' : Session R)
          → Led before s'.queue at_work
          → Ends (go settled) s' (Closes before))
      → Ends (charge_first F x question subject filters go) s (Closes before)
  unfolding charge_first
  charge_first-Closes question subject filters go s h k =
      Ends-if (is_paid F x) _ _ s _
        (λ _. get-Closes "querier_agent" filters _ s at_work h refl λ querier.
          Ends-on_db_then before _ _ s at_work h refl
            λ outcome s1 h1. after_charge-Closes go outcome s1 h1 (λ settled. k settled s1 h1))
        (λ _. k none s h)

  query_filtered-Closes :
      (filters : Json) (req : Option QueryRequest) (s : Session R)
      → Led before s.queue at_work
      → Ends (query_filtered F x filters req) s (Closes before)
  query_filtered-Closes filters none s h = Ends-emit_last before failed s at_work h refl
  query_filtered-Closes filters (some req) s h =
      charge_first-Closes req.question req.subject_agent filters _ s h
        (answer_query-Closes F x before req)

  query_unless_smalltalk-Closes :
      (message : Message) (question : String) (canned : Option String) (s : Session R)
      → Led before s.queue at_work
      → Ends (query_unless_smalltalk F x message question canned) s (Closes before)
  query_unless_smalltalk-Closes message question none s h = query_filtered-Closes _ _ s h
  query_unless_smalltalk-Closes message question (some canned) s h =
      Ends-deliver before _ s at_work h refl

  ask-Closes :
      (message : Message) (question : String) (s : Session R)
      → Led before s.queue at_work
      → Ends (ask F x message question) s (Closes before)
  ask-Closes message question s h =
      Ends-if (question == "") _ _ s _ (λ _. Ends-emit_last before failed s at_work h refl)
        (λ _. query_unless_smalltalk-Closes message question _ s h)

  tell_report-Closes :
      (subject : String) (settled : Option String) (s : Session R)
      → Led before s.queue at_work
      → Ends (tell_report F x subject settled) s (Closes before)
  unfolding tell_report
  tell_report-Closes subject settled s h =
      Ends-bind _ _ s _ (Ends-gets _ s _ (Ends-deliver before _ s at_work h refl))

  report_on-Closes :
      (filters : Json) (subject : Option String) (s : Session R)
      → Led before s.queue open_task
      → Ends (report_on F x filters subject) s (Closes before)
  report_on-Closes filters none s h = Ends-emit_last before failed s open_task h refl
  report_on-Closes filters (some subject) s h =
      Ends-emit_then before working _ s open_task at_work h refl
        λ s1 h1. charge_first-Closes _ (some subject) filters _ s1 h1 (tell_report-Closes subject)

  dispatched-Closes :
      (message : Message) (s : Session R)
      → Led before s.queue unsent
      → Ends (dispatch_publish F x message) s (Closes before)
        × Ends (dispatch_query F x message) s (Closes before)
        × Ends (dispatch_reputation F x message) s (Closes before)
  unfolding dispatch_publish dispatch_query dispatch_reputation
  dispatched-Closes message s h = (
    Ends-emit_then before submitted _ s unsent open_task h refl (publish_data-Closes F x before _),
    Ends-emit_then before submitted _ s unsent open_task h refl λ s1 h1.
        Ends-emit_then before working _ s1 open_task at_work h1 refl (ask-Closes message _),
    Ends-emit_then before submitted _ s unsent open_task h refl λ s1 h1.
        get-Closes "subject_agent" _ _ s1 open_task h1 refl λ v. report_on-Closes _ _ s1 h1,
  )

  dispatch-Closes :
      (intent : Option String) (message : Message) (s : Session R)
      → Led before s.queue unsent
      → Ends (dispatch F x intent message) s (Closes before)
  dispatch-Closes none message s h = Ends-emit_last before failed s unsent h refl
  dispatch-Closes (some intent) message s h =
      let (published, queried, reported) = dispatched-Closes message s h in
      Ends-if (intent == intent_publish) _ _ s _ (λ _. published)
        λ _.
          Ends-if (intent == intent_query) _ _ s _ (λ _. queried)
            λ _.
              Ends-if (intent == intent_reputation) _ _ s _ (λ _. reported)
                λ _. Ends-emit_last before failed s unsent h refl

module _ (F : Floats) (x : Executor F) where
  -- Whatever the request, the database and the services, a run of `execute` that ends has queued
  -- events that go through the phases of a task in order and up to a closing one, which is the last;
  -- a run that raises has queued events that go through the phases in order and do not close the task.
  pub execute-Closes :
      (request : Option Message) (s : Session F.R) → Ends (execute F x request) s (Closes s.queue)
  unfolding execute
  execute-Closes none s = Ends-emit_last s.queue failed s unsent (Led-start s.queue) refl
  execute-Closes (some message) s =
      dispatch-Closes F x s.queue (intent_of x.strs.strip message) message s (Led-start s.queue)
