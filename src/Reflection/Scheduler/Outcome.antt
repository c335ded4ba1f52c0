-- ===== src/Reflection/Scheduler/Outcome.antt =====
-- What a reflection leaves in the database, whatever becomes of it.
use oldman_agent.Prelude.{
  ℕ, String, ◌≡◌, refl, Bool, true, false, Option, none, some, List, [], ◌∷◌, ◌++◌,
}
use oldman_agent.Exec.{Result, ok, err}
use oldman_agent.Exec.Ends.{
  Ends, Ends-pure, Ends-gets, Ends-modify, Ends-bind, Ends-then, Ends-transact, Ends-catch,
}
use oldman_agent.Archive.{
  Archive, Scope, agent_scope, pair_scope, society_scope, ReflectionRow, Traits,
}
use oldman_agent.Reflection.Pair.{split_pair}
use oldman_agent.Reflection.Traits.{apply_traits}
use oldman_agent.Reflection.Scheduler.{
  ContextEvent, update_traits, update_subjects, reflection_row, persist_reflection, store_parsed,
  reflect_on, run_if, Thresholds, maybe_run_reflection,
}
use oldman_agent.Reflection.Scheduler.Reads.{
  Ends-parts, Ends-read, get_trigger_state-ReadsOnly, fetch_recent_events-ReadsOnly,
}

-- The tables but that of the entities are as they were.
pub record SameTables (before after : Archive) : Type 0 where
  pub same_events : after.events ≡ before.events
  pub same_episodic : after.episodic ≡ before.episodic
  pub same_reflections : after.reflections ≡ before.reflections
  pub same_identities : after.identities ≡ before.identities

update_traits-SameTables :
    (parsed : Traits) (now : ℕ) (a : String) (before s : Archive)
    → SameTables before s
    → Ends (update_traits parsed now a) s (λ _ s'. SameTables before s')
unfolding update_traits apply_traits
update_traits-SameTables parsed now a before s h = Ends-bind _ _ s _ (
    Ends-gets _ s _ (
      Ends-modify _ s _ (record {
        same_events = h.same_events;
        same_episodic = h.same_episodic;
        same_reflections = h.same_reflections;
        same_identities = h.same_identities;
      })))

itself-SameTables : (s : Archive) → SameTables s s
itself-SameTables s = record {
  same_events = refl;
  same_episodic = refl;
  same_reflections = refl;
  same_identities = refl;
}

update_subjects-SameTables :
    (parsed : Traits) (now : ℕ) (scope : Scope) (subject : String) (s : Archive)
    → Ends (update_subjects parsed now scope subject) s (λ _ s'. SameTables s s')
update_subjects-SameTables parsed now agent_scope subject s =
    update_traits-SameTables parsed now subject s s (itself-SameTables s)
update_subjects-SameTables parsed now pair_scope subject s =
    Ends-parts _ subject _ s _ (λ _. itself-SameTables s)
      λ parts.
        Ends-then _ _ s (λ _ s'. SameTables s s') _
          (update_traits-SameTables parsed now parts.0 s s (itself-SameTables s))
          (λ _ s' h. update_traits-SameTables parsed now parts.1 s s' h) (λ _ s' h. h)
update_subjects-SameTables parsed now society_scope subject s =
    Ends-pure _ s _ (itself-SameTables s)

-- One more reflection on the subject, dated now; entities aside, nothing else is written.
pub record Reflected (scope : Scope) (subject : String) (now : ℕ) (parsed : Traits)
    (before after : Archive) : Type 0 where
  pub row : ReflectionRow
  pub dated : row.ts ≡ now
  pub scoped : row.scope ≡ scope
  pub about : row.subject ≡ subject
  pub summarised : row.text ≡ parsed.summary
  pub appended : after.reflections ≡ before.reflections ++ row ∷ []
  pub kept_events : after.events ≡ before.events
  pub kept_episodic : after.episodic ≡ before.episodic
  pub kept_identities : after.identities ≡ before.identities

-- A result comes with its stored reflection; without one, nothing is written; and an error is that
-- of a pair subject without a colon.
abbrev pub Outcome : Scope → String → ℕ → Archive → Result (Option Traits) → Archive → Type 0
Outcome scope subject now before (ok none) after = after ≡ before
Outcome scope subject now before (ok (some parsed)) after =
    Reflected scope subject now parsed before after
Outcome scope subject now before (err e) after = (after ≡ before) × (split_pair subject ≡ none)

-- What a persisted reflection leaves, and what a failed one does.
abbrev Persisted : Scope → String → ℕ → Traits → Archive → Result (Unit {0}) → Archive → Type 0
Persisted scope subject now parsed before (ok _) after =
    Reflected scope subject now parsed before after
Persisted scope subject now parsed before (err e) after = after ≡ before

persist_reflection-Persisted :
    (scope : Scope) (subject : String) (now : ℕ) (new_id : String) (parsed : Traits)
    (events : List ContextEvent) (s : Archive)
    → Ends
        (persist_reflection scope subject now new_id parsed events)
        s
        (Persisted scope subject now parsed s)
unfolding persist_reflection
persist_reflection-Persisted scope subject now new_id parsed events s =
    let row = reflection_row scope subject now new_id parsed events in
    let written = record s { reflections = s.reflections ++ row ∷ [] } in
    Ends-transact _ s (Persisted scope subject now parsed s) (λ _ s'. SameTables written s')
      (Ends-bind _ _ s _
        (Ends-modify _ s _ (update_subjects-SameTables parsed now scope subject written)))
      (λ _ s' h. record {
        row = row;
        dated = refl;
        scoped = refl;
        about = refl;
        summarised = refl;
        appended = h.same_reflections;
        kept_events = h.same_events;
        kept_episodic = h.same_episodic;
        kept_identities = h.same_identities;
      })
      (λ e. refl)

module _ (prompt_loads : Scope → Bool) (complete : Scope → List ContextEvent → Option String)
    (parse : String → Option Traits) where
  store_parsed-Outcome :
      (scope : Scope) (subject : String) (now : ℕ) (new_id : String) (events : List ContextEvent)
      (reply : Option Traits) (s : Archive)
      → Ends
          (store_parsed prompt_loads complete parse scope subject now new_id events reply)
          s
          (Outcome scope subject now s)
  store_parsed-Outcome scope subject now new_id events none s = Ends-pure _ s _ refl
  store_parsed-Outcome scope subject now new_id events (some parsed) s =
      Ends-catch _ _ s (Outcome scope subject now s) (
        Ends-then _ _ s (Persisted scope subject now parsed s) _
          (persist_reflection-Persisted scope subject now new_id parsed events s)
          (λ _ s' h. Ends-pure _ s' _ h) (λ e s' h. Ends-pure _ s' _ h))

  reflect_on-Outcome :
      (scope : Scope) (subject : String) (now : ℕ) (new_id : String) (events : List ContextEvent)
      (s : Archive)
      → Ends
          (reflect_on prompt_loads complete parse scope subject now new_id events)
          s
          (Outcome scope subject now s)
  reflect_on-Outcome scope subject now new_id [] s = Ends-pure _ s _ refl
  reflect_on-Outcome scope subject now new_id (e ∷ es) s =
      store_parsed-Outcome scope subject now new_id (e ∷ es) _ s

  run_if-Outcome :
      (triggered : Bool) (t : Thresholds) (scope : Scope) (subject : String) (now : ℕ)
      (new_id : String) (s : Archive)
      → Ends
          (run_if prompt_loads complete parse triggered t scope subject now new_id)
          s
          (Outcome scope subject now s)
  run_if-Outcome false t scope subject now new_id s = Ends-pure _ s _ refl
  run_if-Outcome true t scope subject now new_id s =
      Ends-read subject _ _ s _ (fetch_recent_events-ReadsOnly scope subject _ s)
        (λ events. reflect_on-Outcome scope subject now new_id events s) (λ e h. (refl, h))

  -- When a reflection run ends with a result, its summary is stored as one more reflection on the
  -- subject, dated now, and events, episodes and identities are as before; when it ends without one,
  -- for whatever reason, the database is as before; and it raises only for a subject without a
  -- colon, which leaves the database as before too.
  pub maybe_run_reflection-Outcome :
      (t : Thresholds) (scope : Scope) (subject : String) (now : ℕ) (new_id : String) (s : Archive)
      → Ends
          (maybe_run_reflection prompt_loads complete parse t scope subject now new_id)
          s
          (Outcome scope subject now s)
  unfolding maybe_run_reflection
  maybe_run_reflection-Outcome t scope subject now new_id s =
      Ends-read subject _ _ s _ (get_trigger_state-ReadsOnly scope subject s)
        (λ state. run_if-Outcome _ t scope subject now new_id s) (λ e h. (refl, h))
