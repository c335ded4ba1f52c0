-- ===== src/Task/Routine.antt =====
-- `OldmanAgentExecutor` of app/a2a/executor.py as a coroutine: the calls of Task.Executor, cut where
-- the source awaits. Between the pieces other requests run, and a query may be cancelled.

pub mod Alone
pub mod Ending
pub mod Phases
pub mod Awaits
pub mod Steady
use Prim.Native.String.{String, ◌++◌}
use oldman_agent.Prelude.{Bool, Option, none, some, List, if◌then◌else◌, ◌==◌}
use oldman_agent.Exec.{Error, Exec, pure, raise, gets}
use oldman_agent.Floats.{Floats}
use oldman_agent.Json.{Json}
use oldman_agent.Db.{on_books}
use oldman_agent.Charge.{
  Charge, missing_querier_agent, querier_insufficient_funds, charged, charge_querier_or_fallback,
}
use oldman_agent.Publish.{PublishRequest, execute_publish}
use oldman_agent.Narrative.Text.{codes}
use oldman_agent.Narrative.Renderer.{NarrativeRendererResult}
use oldman_agent.Narrative.Query.{QueryRequest, execute_query}
use oldman_agent.Narrative.Smalltalk.{resolve_persona, match_smalltalk}
use oldman_agent.Reputation.Report.{build_reputation_report}
use oldman_agent.Reputation.Render.{render_reputation_narrative}
use oldman_agent.Task.Message.{
  Message, intent_publish, intent_query, intent_reputation, get_data_part, get_text, intent_of,
}
use oldman_agent.Task.Session.{
  stored_data, refused_data, smalltalk_data, unpaid_data, answer_data, report_data, TaskEvent,
  submitted, working, artifact, completed, failed, Session, emit, on_db,
}
use oldman_agent.Task.Process.{Process, await, handle, ◌>>=◌, ◌>>◌}
use oldman_agent.Task.Filters.{filters_of, get, text_or_none, named_subject, query_request}
use oldman_agent.Task.Rendering.{execute_query_steps}
use oldman_agent.Task.Payload.{publish_request}
use oldman_agent.Task.Executor.{publish_error, unpaid_text, Executor, release_royalties, is_paid}

module _ (F : Floats) (x : Executor F) where
  open F use {R}

  -- `await emit_…`
  abbrev pub emitting : TaskEvent → Process (Session R) (Unit {0})
  emitting e = await (emit e)

  unfoldable pub unpaid_steps : String → Process (Session R) (Unit {0})
  unpaid_steps reason = do emitting (artifact unpaid_text (unpaid_data reason)); emitting completed

  abbrev pub refuse_publish_steps :
      Option (String × String) → Error → Process (Session R) (Unit {0})
  refuse_publish_steps none e = await (raise e)
  refuse_publish_steps (some (status, reason)) e =
      emitting (artifact (codes status) (refused_data status reason))

  unfoldable pub publish_and_tell_steps : PublishRequest → Process (Session R) (Unit {0})
  publish_and_tell_steps req =
      handle
        (do
          event_id ← await (on_db (execute_publish F x.verify x.texts x.threshold x.settings req))
          emitting (artifact (codes "stored") (stored_data event_id)))
        (λ e. refuse_publish_steps (publish_error e) e)

  abbrev pub publish_payload_steps : Option PublishRequest → Process (Session R) (Unit {0})
  publish_payload_steps none = do
    emitting (artifact (codes "blocked") (refused_data "blocked" "invalid_payload"))
    emitting completed
  publish_payload_steps (some req) = do publish_and_tell_steps req; emitting completed

  abbrev pub publish_data_steps : Option Json → Process (Session R) (Unit {0})
  publish_data_steps none = emitting failed
  publish_data_steps (some v) = publish_payload_steps (publish_request x.parse_ts v)

  unfoldable pub dispatch_publish_steps : Message → Process (Session R) (Unit {0})
  dispatch_publish_steps message = do emitting submitted; publish_data_steps (get_data_part message)

  abbrev pub tell_answer_steps :
      Option String → Option NarrativeRendererResult → Process (Session R) (Unit {0})
  tell_answer_steps settled none = emitting failed
  tell_answer_steps settled (some response) = do
    royalties ← await (release_royalties F x settled response)
    emitting (artifact response.answer (answer_data response royalties))
    emitting completed

  unfoldable pub answer_query_steps : QueryRequest → Option String → Process (Session R) (Unit {0})
  answer_query_steps req settled = do
    response ← execute_query_steps x.models req
    tell_answer_steps settled response

  abbrev pub after_charge_steps :
      (Option String → Process (Session R) (Unit {0})) → Charge → Process (Session R) (Unit {0})
  after_charge_steps go missing_querier_agent = unpaid_steps "missing_querier_agent"
  after_charge_steps go querier_insufficient_funds = unpaid_steps "querier_insufficient_funds"
  after_charge_steps go (charged invoice_id) = go (some invoice_id)

  unfoldable pub charge_first_steps :
      String
      → Option String
      → Json
      → (Option String → Process (Session R) (Unit {0}))
      → Process (Session R) (Unit {0})
  charge_first_steps question subject filters go =
      if is_paid F x
      then (do
        querier ← await (get "querier_agent" filters)
        outcome ← await (
            on_db (
              on_books
                (charge_querier_or_fallback x.settings question subject (text_or_none querier))))
        after_charge_steps go outcome)
      else go none

  abbrev pub query_filtered_steps : Json → Option QueryRequest → Process (Session R) (Unit {0})
  query_filtered_steps filters none = emitting failed
  query_filtered_steps filters (some req) =
      charge_first_steps req.question req.subject_agent filters (answer_query_steps req)

  abbrev pub query_unless_smalltalk_steps :
      Message → String → Option String → Process (Session R) (Unit {0})
  query_unless_smalltalk_steps message question none =
      let filters = filters_of (get_data_part message) in
      query_filtered_steps filters (query_request x.parse_int question filters)
  query_unless_smalltalk_steps message question (some canned) = do
    emitting (artifact (codes canned) smalltalk_data)
    emitting completed

  abbrev pub ask_steps : Message → String → Process (Session R) (Unit {0})
  ask_steps message question =
      if question == ""
      then emitting failed
      else query_unless_smalltalk_steps message question
          (match_smalltalk x.strs (resolve_persona x.strs x.persona) question)

  unfoldable pub dispatch_query_steps : Message → Process (Session R) (Unit {0})
  dispatch_query_steps message = do
    emitting submitted
    emitting working
    ask_steps message (x.strs.strip (get_text message))

  unfoldable pub tell_report_steps : String → Option String → Process (Session R) (Unit {0})
  tell_report_steps subject settled = do
    report ← await (
        gets λ s.
          build_reputation_report F x.show x.out_of_ten subject 5 s.db.books.clock s.db.village)
    let (text, used_llm) = render_reputation_narrative x.strip_text x.reputation_model report
    emitting (artifact text (report_data report used_llm))
    emitting completed

  abbrev pub report_on_steps : Json → Option String → Process (Session R) (Unit {0})
  report_on_steps filters none = emitting failed
  report_on_steps filters (some subject) = do
    emitting working
    charge_first_steps ("reputation:" ++ subject) (some subject) filters (tell_report_steps subject)

  unfoldable pub dispatch_reputation_steps : Message → Process (Session R) (Unit {0})
  dispatch_reputation_steps message = do
    emitting submitted
    let filters = filters_of (get_data_part message)
    subject ← await (get "subject_agent" filters)
    report_on_steps filters (named_subject subject (x.strs.strip (get_text message)))

  abbrev pub dispatch_steps : Option String → Message → Process (Session R) (Unit {0})
  dispatch_steps none message = emitting failed
  dispatch_steps (some intent) message =
      if intent == intent_publish
      then dispatch_publish_steps message
      else if intent == intent_query
      then dispatch_query_steps message
      else if intent == intent_reputation
      then dispatch_reputation_steps message
      else emitting failed

  unfoldable pub execute_steps : Option Message → Process (Session R) (Unit {0})
  execute_steps none = emitting failed
  execute_steps (some message) = dispatch_steps (intent_of x.strs.strip message) message
