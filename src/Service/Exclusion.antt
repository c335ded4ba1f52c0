-- ===== src/Service/Exclusion.antt =====
-- Exclusion from the village is final: sequences of evidence, of any agents, in any order.
use oldman_agent.Prelude.{
  ℕ, String, ◌≡◌, refl, ap, ◌∙◌, inl, inr, Bool, Option, none, some, List, [], ◌∷◌, arith, eq_iff,
  Option-cases, Bool-cases, ltb,
}
use oldman_agent.Exec.{raise_some, transaction, ◌>>=◌}
use oldman_agent.Books.{max_integer}
use oldman_agent.Table.{find, find-append_some}
use oldman_agent.Table.Updates.{find_holds, find-update_kept, find-update_hit}
use oldman_agent.Floats.{Floats}
use oldman_agent.Village.{
  Criterion, excluded, MembershipRow, Cause, Village, row_of, get_membership, upserted_membership,
  upsert_trust_score, append_trust_event, upsert_membership,
}
use oldman_agent.Trust.{LedgerPolicy, MembershipPolicy}
use oldman_agent.Trust.Transitions.{evaluate_transition-excluded}
use oldman_agent.Service.{computing_fault, violations_then, record_trust_event, prior_membership}

-- One call of `record_trust_event`.
pub record Evidence (R : Type 0) : Type 0 where
  pub agent_id : String
  pub criterion : Criterion
  pub positive : Bool
  pub weight : R
  pub cause : Cause
  pub cause_ref : Option String
  pub ts : ℕ

-- The registry shows the agent as excluded.
abbrev pub IsExcluded : {R : Type 0} → String → Village R → Type 0
IsExcluded a v = (m : MembershipRow) × (find (row_of a) v.registry ≡ some m) × (m.state ≡ excluded)

excluded_upserted :
    (a : String) (m n : MembershipRow) (rows : List MembershipRow)
    → find (row_of a) rows ≡ some m
    → m.state ≡ excluded
    → (n.agent_id ≡ a → n.state ≡ excluded)
    → (k : MembershipRow) × (find (row_of a) (upserted_membership n rows) ≡ some k)
      × (k.state ≡ excluded)
excluded_upserted a m n rows e ex stays = elim (Option-cases (find (row_of n.agent_id) rows)) [
  | inl f ↦ rw f (m, find-append_some (row_of a) m rows _ e, ex)
  | inr (r, f) ↦ rw f (elim (Bool-cases (row_of n.agent_id m)) [
    | inl hit ↦ (
      _,
      find-update_hit (row_of n.agent_id) (row_of a)
          (λ r. record r {
            state = n.state;
            violation_count = n.violation_count;
            state_changed_at = n.state_changed_at;
          })
          (λ r. refl) m rows e hit,
      stays (
          ground (
            arith,
            hit,
            find_holds (row_of a) m rows e,
            eq_iff m.agent_id n.agent_id,
            eq_iff m.agent_id a,
          )),
    )
    | inr miss ↦
        (m, find-update_kept (row_of n.agent_id) (row_of a) _ (λ r. refl) m rows e miss, ex)
  ])
]

module _ (F : Floats) where
  open F use {R}

  module _ (lp : LedgerPolicy R) (mp : MembershipPolicy R) where
    unfoldable pub record_each : List (Evidence R) → Village R → Village R
    record_each [] v = v
    record_each (e ∷ es) v =
        record_each es
          (record_trust_event F lp mp e.agent_id e.criterion e.positive e.weight e.cause e.cause_ref
            e.ts v).1

    prior_state :
        (a : String) (ts : ℕ) (v : Village R) (found : Option MembershipRow) (m : MembershipRow)
        → found ≡ some m
        → (prior_membership a ts found).state ≡ m.state
    prior_state a ts v none m h = absurd (ground arith)
    prior_state a ts v (some x) m h = ground (arith, h)

    record-IsExcluded :
        (a : String) (e : Evidence R) (v : Village R)
        → IsExcluded a v
        → IsExcluded a
            (record_trust_event F lp mp e.agent_id e.criterion e.positive e.weight e.cause
              e.cause_ref e.ts v).1
    unfolding record_trust_event raise_some transaction ◌>>=◌ get_membership upsert_trust_score
        append_trust_event upsert_membership
    record-IsExcluded a e v (m, f, ex) =
        elim (Option-cases
          (computing_fault F lp e.agent_id e.criterion e.positive e.weight e.ts v)) [
            | inr (x, raises) ↦ rw raises (m, f, ex)
            | inl none_raises ↦
                rw none_raises
                  (elim (Bool-cases
                    (ltb max_integer (violations_then e.agent_id e.positive e.ts v.registry))) [
                      | inl above ↦ rw above (m, f, ex)
                      | inr fits ↦ rw fits (
                          excluded_upserted a m _ v.registry f ex λ same.
                            (evaluate_transition-excluded F mp _ _ _ _ _).1 (
                              inl (
                                prior_state e.agent_id e.ts v _ m
                                  (ap (λ x. find (row_of x) v.registry) same ∙ f)
                                ∙ ex)))
                    ])
          ]

    -- Once the registry shows an agent as excluded, it does so after every sequence of evidence, of
    -- this agent and of others.
    pub record_each-IsExcluded :
        (a : String) (es : List (Evidence R)) (v : Village R)
        → IsExcluded a v
        → IsExcluded a (record_each es v)
    unfolding record_each
    record_each-IsExcluded a [] v h = h
    record_each-IsExcluded a (e ∷ es) v h =
        record_each-IsExcluded a es _ (record-IsExcluded a e v h)
