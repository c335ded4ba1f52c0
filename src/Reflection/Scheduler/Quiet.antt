-- ===== src/Reflection/Scheduler/Quiet.antt =====
-- A reflection answers the events it was run for.
use mathlib.Core.Path.{subst}
use oldman_agent.Prelude.{
  ℕ, ◌≤◌, String, ◌≡◌, refl, sym, ap, ◌∙◌, Bool, true, false, Option, none, some, List, [], ◌∷◌,
  ◌++◌, length, arith, eq_iff, All,
}
use oldman_agent.Exec.{Result, ok, err, index_error}
use oldman_agent.Exec.Ends.{Ends, Ends-pure, Ends-raise, Ends-gets, Ends-bind, Ends-then}
use oldman_agent.Table.{select}
use oldman_agent.Archive.{
  Archive, Scope, agent_scope, pair_scope, society_scope, ReflectionRow, Traits,
}
use oldman_agent.Reflection.Pair.{split_pair}
use oldman_agent.Reflection.State.{
  max_ts, later_of, same_scope, reflects_on, is_since, count_events_since, get_trigger_state,
  ReflectionTriggerState,
}
use oldman_agent.Reflection.Scheduler.{
  ContextEvent, Thresholds, should_trigger, maybe_run_reflection,
}
use oldman_agent.Reflection.Scheduler.Reads.{Ends-parts}
use oldman_agent.Reflection.Scheduler.Outcome.{Reflected, Outcome, maybe_run_reflection-Outcome}

-- There is a time, and it is not before the given one.
abbrev IsAtLeast : ℕ → Option ℕ → Type 0
IsAtLeast now none = ⊥
IsAtLeast now (some m) = now ≤ m

module _ {R : Type 0} where
  select-none : (p : R → Bool) (rows : List R) → All (λ r. p r ≡ false) rows → select p rows ≡ []
  unfolding select
  select-none p [] h = refl
  select-none p (r ∷ rows) h = rw h.0 (select-none p rows h.1)

  All-weaken : {P Q : R → Type 0} (rows : List R) → All P rows → ((r : R) → P r → Q r) → All Q rows
  All-weaken [] h k = tt
  All-weaken (r ∷ rows) h k = (k r h.0, All-weaken rows h.1 k)

later_of-IsAtLeast : (now ts : ℕ) (o : Option ℕ) → IsAtLeast now o → IsAtLeast now (later_of ts o)
later_of-IsAtLeast now ts none h = elim h [ ]
later_of-IsAtLeast now ts (some m) h = omega arith

max_ts-IsAtLeast :
    (p : ReflectionRow → Bool) (row : ReflectionRow) (rows : List ReflectionRow)
    → p row ≡ true
    → IsAtLeast row.ts (max_ts (select p (rows ++ row ∷ [])))
unfolding max_ts select
max_ts-IsAtLeast p row [] h = rw h (omega arith)
max_ts-IsAtLeast p row (r ∷ rows) h = ground (
  arith,
  max_ts-IsAtLeast p row rows h,
  later_of-IsAtLeast row.ts r.ts (max_ts (select p (rows ++ row ∷ []))),
)

is_since-false : (now ts : ℕ) (o : Option ℕ) → IsAtLeast now o → ts ≤ now → is_since o ts ≡ false
is_since-false now ts none h k = elim h [ ]
is_since-false now ts (some m) h k = ground arith

same_scope_self : (scope : Scope) → same_scope scope scope ≡ true
same_scope_self agent_scope = refl
same_scope_self pair_scope = refl
same_scope_self society_scope = refl

-- No event or episode is later.
abbrev pub IsUpTo : ℕ → Archive → Type 0
IsUpTo now s = All (λ e. e.ts ≤ now) s.events × All (λ r. r.ts ≤ now) s.episodic

-- There is nothing to reflect on; or the subject of a pair has no colon.
abbrev Counted : Scope → String → Archive → Result ℕ → Archive → Type 0
Counted scope subject s (ok n) s' = (n ≡ 0) × (s' ≡ s)
Counted scope subject s (err e) s' = (scope ≡ pair_scope) × (split_pair subject ≡ none)

count_events_since-Counted :
    (now : ℕ) (scope : Scope) (subject : String) (since : Option ℕ) (s : Archive)
    → IsUpTo now s
    → IsAtLeast now since
    → Ends (count_events_since scope subject since) s (Counted scope subject s)
unfolding count_events_since
count_events_since-Counted now agent_scope subject since s (events, episodic) h = Ends-gets _ s _ (
  ap length (
      select-none _ s.events
        (All-weaken s.events events λ e k. ground (arith, is_since-false now e.ts since h k))),
  refl,
)
count_events_since-Counted now pair_scope subject since s (events, episodic) h =
    Ends-parts _ subject _ s _ (λ missing. (refl, missing))
      λ parts. Ends-gets _ s _ (
        ap length (
            select-none _ s.episodic (
              All-weaken s.episodic episodic
                λ r k. ground (arith, is_since-false now r.ts since h k))),
        refl,
      )
count_events_since-Counted now society_scope subject since s (events, episodic) h =
    Ends-gets _ s _ (
      ap length (
          select-none _ s.events
            (All-weaken s.events events λ e k. is_since-false now e.ts since h k)),
      refl,
    )

-- Nothing to reflect on, as the trigger sees it.
abbrev Calm : Scope → String → Archive → Result ReflectionTriggerState → Archive → Type 0
Calm scope subject s (ok state) s' = (state.events_since_last_reflection ≡ 0) × (s' ≡ s)
Calm scope subject s (err e) s' = (scope ≡ pair_scope) × (split_pair subject ≡ none)

get_trigger_state-Calm :
    (now : ℕ) (scope : Scope) (subject : String) (s : Archive)
    → IsUpTo now s
    → IsAtLeast now (max_ts (select (reflects_on scope subject) s.reflections))
    → Ends (get_trigger_state scope subject) s (Calm scope subject s)
unfolding get_trigger_state
get_trigger_state-Calm now scope subject s until h = Ends-bind _ _ s _ (
    Ends-gets _ s _ (
      Ends-then _ _ s (Counted scope subject s) _
        (count_events_since-Counted now scope subject _ s until h)
        (λ n s1 counted. Ends-pure _ s1 _ counted) (λ e s1 missing. missing)))

should_trigger-false :
    (t : Thresholds) (state : ReflectionTriggerState) (now : ℕ)
    → 1 ≤ t.count_threshold
    → state.events_since_last_reflection ≡ 0
    → should_trigger state now t ≡ false
unfolding should_trigger
should_trigger-false t state now h k = ground arith

module _ (prompt_loads : Scope → Bool) (complete : Scope → List ContextEvent → Option String)
    (parse : String → Option Traits) where
  -- No result and nothing written; or the subject of a pair has no colon.
  abbrev Unmoved : Scope → String → Archive → Result (Option Traits) → Archive → Type 0
  Unmoved scope subject s (ok r) s' = (r ≡ none) × (s' ≡ s)
  Unmoved scope subject s (err e) s' = (scope ≡ pair_scope) × (split_pair subject ≡ none)

  calm_run-Unmoved :
      (t : Thresholds) (scope : Scope) (subject : String) (now later : ℕ) (new_id : String)
      (s : Archive)
      → 1 ≤ t.count_threshold
      → IsUpTo now s
      → IsAtLeast now (max_ts (select (reflects_on scope subject) s.reflections))
      → Ends
          (maybe_run_reflection prompt_loads complete parse t scope subject later new_id)
          s
          (Unmoved scope subject s)
  unfolding maybe_run_reflection
  calm_run-Unmoved t scope subject now later new_id s positive until h =
      Ends-then _ _ s (Calm scope subject s) _ (get_trigger_state-Calm now scope subject s until h)
        (λ state s1 calm.
          rw (should_trigger-false t state later positive calm.0) (Ends-pure _ s1 _ (refl, calm.1)))
        (λ e s1 missing. missing)

  no_colon_raises :
      (t : Thresholds) (subject : String) (now : ℕ) (new_id : String) (s : Archive)
      → split_pair subject ≡ none
      → Ends
          (maybe_run_reflection prompt_loads complete parse t pair_scope subject now new_id)
          s
          (λ r _. r ≡ err index_error)
  unfolding maybe_run_reflection get_trigger_state count_events_since
  no_colon_raises t subject now new_id s missing = rw missing (
      Ends-bind _ _ s _ (
        Ends-bind _ _ s _
          (Ends-gets _ s _ (Ends-bind _ _ s _ (Ends-bind _ _ s _ (Ends-raise _ s _ refl))))))

  ended-Unmoved :
      (scope : Scope) (subject : String) (s : Archive) (r : Result (Option Traits) × Archive)
      → Unmoved scope subject s r.0 r.1
      → ((scope ≡ pair_scope) × (split_pair subject ≡ none) → ⊥)
      → r ≡ (ok none, s)
  ended-Unmoved scope subject s (ok a, s') h k = rw h.0 (rw h.1 refl)
  ended-Unmoved scope subject s (err e, s') h k = absurd (k h)

  ran_on_pair :
      (t : Thresholds) (scope : Scope) (subject : String) (now : ℕ) (new_id : String)
      (parsed : Traits) (s s' : Archive)
      → maybe_run_reflection prompt_loads complete parse t scope subject now new_id s
        ≡ (ok (some parsed), s')
      → (scope ≡ pair_scope) × (split_pair subject ≡ none)
      → ⊥
  ran_on_pair t scope subject now new_id parsed s s' e (pair, missing) =
      let raised = (no_colon_raises t subject now new_id s missing).at in
      let finished =
        subst
          (λ sc.
            maybe_run_reflection prompt_loads complete parse t sc subject now new_id s
            ≡ (ok (some parsed), s'))
          pair e in
      ok_is_no_error (sym (ap (λ r. r.0) finished) ∙ raised)
    where
      ok_is_no_error :
          (let ended : Result (Option Traits) = ok (some parsed) in ended ≡ err index_error) → ⊥
      ok_is_no_error h = cc

-- After a reflection run at `now` with a result, while no event or episode is later than `now`, every
-- further run on the same subject ends without a result and writes nothing, at whatever time and with
-- whatever prompts, model and parser, if the count threshold is at least 1.
pub maybe_run_reflection_quiet :
    (prompt_loads other_loads : Scope → Bool)
    (complete other_complete : Scope → List ContextEvent → Option String)
    (parse other_parse : String → Option Traits) (t : Thresholds) (scope : Scope) (subject : String)
    (now later : ℕ) (new_id other_id : String) (parsed : Traits) (s s' : Archive)
    → 1 ≤ t.count_threshold
    → IsUpTo now s
    → maybe_run_reflection prompt_loads complete parse t scope subject now new_id s
      ≡ (ok (some parsed), s')
    → maybe_run_reflection other_loads other_complete other_parse t scope subject later other_id s'
      ≡ (ok none, s')
maybe_run_reflection_quiet prompt_loads other_loads complete other_complete parse other_parse t
      scope subject now later new_id other_id parsed s s' positive until e =
    ended-Unmoved other_loads other_complete other_parse scope subject s' _
      (calm_run-Unmoved other_loads other_complete other_parse t scope subject now later other_id s'
        positive
        (
          subst (λ l. All (λ x. x.ts ≤ now) l) (sym done.kept_events) until.0,
          subst (λ l. All (λ x. x.ts ≤ now) l) (sym done.kept_episodic) until.1,
        )
        reflected).at
      (ran_on_pair prompt_loads complete parse t scope subject now new_id parsed s s' e)
  where
    done : Reflected scope subject now parsed s s'
    done =
        subst (λ r. Outcome scope subject now s r.0 r.1) e
          (maybe_run_reflection-Outcome prompt_loads complete parse t scope subject now new_id s).at

    on_subject : reflects_on scope subject done.row ≡ true
    on_subject =
        rw done.scoped
          (rw done.about (rw (same_scope_self scope) (ground (arith, eq_iff subject subject))))

    reflected : IsAtLeast now (max_ts (select (reflects_on scope subject) s'.reflections))
    reflected =
        subst (λ l. IsAtLeast now (max_ts (select (reflects_on scope subject) l)))
          (sym done.appended)
          (subst
            (λ n.
              IsAtLeast n
                (max_ts (select (reflects_on scope subject) (s.reflections ++ done.row ∷ []))))
            done.dated
            (max_ts-IsAtLeast (reflects_on scope subject) done.row s.reflections on_subject))
