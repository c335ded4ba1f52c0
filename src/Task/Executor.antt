-- ===== src/Task/Executor.antt =====
-- `OldmanAgentExecutor` of app/a2a/executor.py, without the cancellation of a running query.
pub mod LifeCycle
pub mod Delivery
pub mod Ending
pub mod Kept
pub mod Balanced
use Prim.Native.String.{String, ◌++◌}
use oldman_agent.Prelude.{
  ℕ, Bool, true, false, not, ◌&&◌, ◌||◌, Option, none, some, List, [], ◌∷◌, map, if◌then◌else◌,
  ◌==◌,
}
use oldman_agent.Exec.{
  Error, blocked_kind, jaccard_duplicate, exact_hash_duplicate, invalid_signature,
  missing_signature, did_mismatch, oldman_insufficient_funds, Exec, pure, raise, gets, catch, ◌>>=◌,
  ◌>>◌,
}
use oldman_agent.Floats.{Floats}
use oldman_agent.Json.{Json, TextServices}
use oldman_agent.Config.{Settings}
use oldman_agent.Archive.{EventRow}
use oldman_agent.Village.{BetaScore}
use oldman_agent.Db.{Db, on_books}
use oldman_agent.Payout.{release_royalties_for_citations}
use oldman_agent.Charge.{
  Charge, missing_querier_agent, querier_insufficient_funds, charged, charge_querier_or_fallback,
}
use oldman_agent.Publish.{PublishRequest, execute_publish}
use oldman_agent.Narrative.Text.{Text, codes, same_text}
use oldman_agent.Narrative.Renderer.{CitationSchema, NarrativeRendererResult}
use oldman_agent.Narrative.Query.{QueryRequest, Models, execute_query}
use oldman_agent.Narrative.Smalltalk.{StrServices, resolve_persona, match_smalltalk}
use oldman_agent.Reputation.Report.{ReputationReport, build_reputation_report}
use oldman_agent.Reputation.Render.{render_reputation_narrative}
use oldman_agent.Task.Message.{
  Message, intent_publish, intent_query, intent_reputation, get_data_part, get_text, intent_of,
}
use oldman_agent.Task.Session.{
  Royalties, not_released, release_failed, released, ArtifactData, stored_data, refused_data,
  smalltalk_data, unpaid_data, answer_data, report_data, TaskEvent, submitted, working, artifact,
  completed, failed, canceled, Session, emit, on_db,
}
use oldman_agent.Task.Filters.{filters_of, get, text_or_none, named_subject, query_request}
use oldman_agent.Task.Payload.{publish_request}

-- `status_text` and `reason` of a `PublishError`; other exceptions are none.
abbrev pub publish_error : Error → Option (String × String)
publish_error blocked_kind = some ("blocked", "blocklisted_kind")
publish_error jaccard_duplicate = some ("deduplicated", "jaccard_near_duplicate")
publish_error exact_hash_duplicate = some ("deduplicated", "exact_hash")
publish_error invalid_signature = some ("blocked", "invalid_signature")
publish_error missing_signature = some ("blocked", "missing_signature")
publish_error did_mismatch = some ("blocked", "did_mismatch")
publish_error oldman_insufficient_funds = some ("blocked", "oldman_insufficient_funds")
publish_error _ = none

-- The text of the canned answer to a querier who cannot pay.
abbrev pub unpaid_text : Text
unpaid_text = codes "토큰이 부족하시구먼, 다음에 또 들르시게."

abbrev named_among : Text → List EventRow → Option String
named_among id [] = none
named_among id (e ∷ es) =
    let later = named_among id es in
    if same_text (codes e.event_id) id then some e.event_id else later

abbrev consed : Option String → List String → List String
consed none ids = ids
consed (some a) ids = if a == "" then ids else a ∷ ids

abbrev id_of : List EventRow → Option Text → Option String
id_of events none = none
id_of events (some id) = named_among id events

-- `[c.event_id for c in response.citations if c.event_id]`
unfoldable pub cited_ids : List EventRow → List CitationSchema → List String
cited_ids events [] = []
cited_ids events (c ∷ cs) = consed (id_of events c.event_id) (cited_ids events cs)

-- What the executor holds, and the services it takes from outside: the signature check, the models
-- and the library functions that `Task.Message`, `Filters`, `Payload` and `Reputation` name.
pub record Executor (F : Floats) : Type 0 where
  pub settings : Settings
  pub verify : String → Json → String → String → Bool
  pub texts : TextServices
  pub threshold : F.R
  pub models : Models
  pub reputation_model : Option (ReputationReport → Option Text)
  pub strs : StrServices
  pub strip_text : Text → Text
  pub persona : String
  pub parse_ts : String → Option ℕ
  pub parse_int : String → Option ℕ
  pub show : ℕ → Text
  pub out_of_ten : BetaScore F.R → Text

module _ (F : Floats) (x : Executor F) where
  open F use {R}

  -- `_emit_insufficient_funds_fallback`
  unfoldable pub emit_insufficient_funds_fallback : String → Exec (Session R) (Unit {0})
  emit_insufficient_funds_fallback reason = do
    emit (artifact unpaid_text (unpaid_data reason))
    emit completed

  abbrev pub refuse_publish : Option (String × String) → Error → Exec (Session R) (Unit {0})
  refuse_publish none e = raise e
  refuse_publish (some (status, reason)) e =
      emit (artifact (codes status) (refused_data status reason))

  unfoldable pub publish_and_tell : PublishRequest → Exec (Session R) (Unit {0})
  publish_and_tell req =
      catch
        (do
          event_id ← on_db (execute_publish F x.verify x.texts x.threshold x.settings req)
          emit (artifact (codes "stored") (stored_data event_id)))
        (λ e. refuse_publish (publish_error e) e)

  -- The detail of the validation error, which ends the reason, is left out.
  abbrev pub publish_payload : Option PublishRequest → Exec (Session R) (Unit {0})
  publish_payload none = do
    emit (artifact (codes "blocked") (refused_data "blocked" "invalid_payload"))
    emit completed
  publish_payload (some req) = do publish_and_tell req; emit completed

  abbrev pub publish_data : Option Json → Exec (Session R) (Unit {0})
  publish_data none = emit failed
  publish_data (some v) = publish_payload (publish_request x.parse_ts v)

  unfoldable pub dispatch_publish : Message → Exec (Session R) (Unit {0})
  dispatch_publish message = do emit submitted; publish_data (get_data_part message)

  -- Only a settled query releases royalties, and a failure to do so is told in the artifact.
  abbrev pub release_royalties :
      Option String → NarrativeRendererResult → Exec (Session R) Royalties
  release_royalties none response = pure not_released
  release_royalties (some invoice_id) response =
      if x.settings.royalty_enabled
      then catch
          (do
            ids ← gets (λ s. cited_ids s.db.archive.events response.citations)
            now ← gets (λ s. s.db.books.clock)
            releases ←
                on_db
                  (on_books (release_royalties_for_citations x.settings ids (some invoice_id) now))
            pure (released releases))
          (λ _. pure release_failed)
      else pure not_released

  abbrev pub tell_answer :
      Option String → Option NarrativeRendererResult → Exec (Session R) (Unit {0})
  tell_answer settled none = emit failed
  tell_answer settled (some response) = do
    royalties ← release_royalties settled response
    emit (artifact response.answer (answer_data response royalties))
    emit completed

  unfoldable pub answer_query : QueryRequest → Option String → Exec (Session R) (Unit {0})
  answer_query req settled = do
    response ← gets (λ s. execute_query x.models req s.db.archive)
    tell_answer settled response

  abbrev pub is_paid : Bool
  is_paid = x.settings.payment_enabled && not x.settings.payment_kill_switch

  -- What follows the charge: `handled` has told the querier already.
  abbrev pub after_charge :
      (Option String → Exec (Session R) (Unit {0})) → Charge → Exec (Session R) (Unit {0})
  after_charge go missing_querier_agent = emit_insufficient_funds_fallback "missing_querier_agent"
  after_charge go querier_insufficient_funds =
      emit_insufficient_funds_fallback "querier_insufficient_funds"
  after_charge go (charged invoice_id) = go (some invoice_id)

  unfoldable pub charge_first :
      String
      → Option String
      → Json
      → (Option String → Exec (Session R) (Unit {0}))
      → Exec (Session R) (Unit {0})
  charge_first question subject filters go =
      if is_paid
      then (do
        querier ← get "querier_agent" filters
        outcome ← on_db (
            on_books
              (charge_querier_or_fallback x.settings question subject (text_or_none querier)))
        after_charge go outcome)
      else go none

  abbrev pub query_filtered : Json → Option QueryRequest → Exec (Session R) (Unit {0})
  query_filtered filters none = emit failed
  query_filtered filters (some req) =
      charge_first req.question req.subject_agent filters (answer_query req)

  abbrev pub query_unless_smalltalk : Message → String → Option String → Exec (Session R) (Unit {0})
  query_unless_smalltalk message question none =
      let filters = filters_of (get_data_part message) in
      query_filtered filters (query_request x.parse_int question filters)
  query_unless_smalltalk message question (some canned) = do
    emit (artifact (codes canned) smalltalk_data)
    emit completed

  abbrev pub ask : Message → String → Exec (Session R) (Unit {0})
  ask message question =
      if question == ""
      then emit failed
      else query_unless_smalltalk message question
          (match_smalltalk x.strs (resolve_persona x.strs x.persona) question)

  unfoldable pub dispatch_query : Message → Exec (Session R) (Unit {0})
  dispatch_query message = do
    emit submitted
    emit working
    ask message (x.strs.strip (get_text message))

  unfoldable pub tell_report : String → Option String → Exec (Session R) (Unit {0})
  tell_report subject settled = do
    report ←
        gets
          λ s. build_reputation_report F x.show x.out_of_ten subject 5 s.db.books.clock s.db.village
    let (text, used_llm) = render_reputation_narrative x.strip_text x.reputation_model report
    emit (artifact text (report_data report used_llm))
    emit completed

  abbrev pub report_on : Json → Option String → Exec (Session R) (Unit {0})
  report_on filters none = emit failed
  report_on filters (some subject) = do
    emit working
    charge_first ("reputation:" ++ subject) (some subject) filters (tell_report subject)

  unfoldable pub dispatch_reputation : Message → Exec (Session R) (Unit {0})
  dispatch_reputation message = do
    emit submitted
    let filters = filters_of (get_data_part message)
    subject ← get "subject_agent" filters
    report_on filters (named_subject subject (x.strs.strip (get_text message)))

  abbrev pub dispatch : Option String → Message → Exec (Session R) (Unit {0})
  dispatch none message = emit failed
  dispatch (some intent) message =
      if intent == intent_publish
      then dispatch_publish message
      else if intent == intent_query
      then dispatch_query message
      else if intent == intent_reputation
      then dispatch_reputation message
      else emit failed

  -- `execute`, of a request with or without a message
  unfoldable pub execute : Option Message → Exec (Session R) (Unit {0})
  execute none = emit failed
  execute (some message) = dispatch (intent_of x.strs.strip message) message

  -- `cancel`, of a task that is named or not: the event alone
  abbrev is_named : Option String → Bool
  is_named none = false
  is_named (some task_id) = not (task_id == "")

  unfoldable pub cancel : Option String → Exec (Session R) (Unit {0})
  cancel task_id = if is_named task_id then emit canceled else pure tt
