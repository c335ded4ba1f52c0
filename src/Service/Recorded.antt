-- ===== src/Service/Recorded.antt =====
-- What `record_trust_event` of app/trust/service.py leaves in the tables.
use oldman_agent.Prelude.{
  ℕ, String, ◌≡◌, refl, Bool, true, Option, none, some, List, arith, eq_iff, Option-cases,
  Bool-cases, ltb, inl, inr,
}
use oldman_agent.Exec.{Result, ok, err, raise_some, transaction, ◌>>=◌}
use oldman_agent.Books.{max_integer}
use oldman_agent.Table.{find}
use oldman_agent.Table.Updates.{find_holds, find-append_new, find-update_hit}
use oldman_agent.Floats.{Floats}
use oldman_agent.Village.{
  BetaScore, Criterion, reliability, honesty, MembershipState, ScoreRow, MembershipRow, Cause,
  Village, row_of, score_of, same_criterion, get_trust_score, get_membership, upserted_score,
  upserted_membership, upsert_trust_score, append_trust_event, upsert_membership,
}
use oldman_agent.Trust.{LedgerPolicy, MembershipPolicy}
use oldman_agent.Service.{TrustUpdateResult, violations_then, computing_fault, record_trust_event}

-- The membership of an agent, as the registry shows it.
abbrev pub Shows : Option MembershipRow → MembershipState → ℕ → Type 0
Shows none state violations = ⊥
Shows (some m) state violations = (m.state ≡ state) × (m.violation_count ≡ violations)

upserted-Shows :
    (m : MembershipRow) (rows : List MembershipRow)
    → Shows (find (row_of m.agent_id) (upserted_membership m rows)) m.state m.violation_count
upserted-Shows m rows = elim (Option-cases (find (row_of m.agent_id) rows)) [
  | inl e ↦ rw e (
      rw
        (find-append_new (row_of m.agent_id) m rows e
          (ground (arith, eq_iff m.agent_id m.agent_id)))
        (refl, refl))
  | inr (r, e) ↦ rw e (
      rw
        (find-update_hit (row_of m.agent_id) (row_of m.agent_id)
          (λ r. record r {
            state = m.state;
            violation_count = m.violation_count;
            state_changed_at = m.state_changed_at;
          })
          (λ r. refl) r rows e (find_holds _ r rows e))
        (refl, refl))
]

-- The score of an agent on one axis, as the table shows it.
abbrev pub ShowsScore : {R : Type 0} → Option (ScoreRow R) → BetaScore R → ℕ → Type 0
ShowsScore none score ts = ⊥
ShowsScore (some r) score ts = (r.score ≡ score) × (r.last_update_ts ≡ ts)

same_criterion_refl : (c : Criterion) → same_criterion c c ≡ true
same_criterion_refl reliability = refl
same_criterion_refl honesty = refl

upserted-ShowsScore :
    {R : Type 0} (a : String) (c : Criterion) (score : BetaScore R) (ts : ℕ)
    (rows : List (ScoreRow R))
    → ShowsScore (find (score_of a c) (upserted_score a c score ts rows)) score ts
upserted-ShowsScore a c score ts rows = elim (Option-cases (find (score_of a c) rows)) [
  | inl e ↦ rw e (
      rw
        (find-append_new (score_of a c)
          (record { agent_id = a; criterion = c; score = score; last_update_ts = ts }) rows e
          (ground (arith, eq_iff a a, same_criterion_refl c)))
        (refl, refl))
  | inr (r, e) ↦ rw e (
      rw
        (find-update_hit (score_of a c) (score_of a c)
          (λ r. record r { score = score; last_update_ts = ts }) (λ r. refl) r rows e
          (find_holds _ r rows e))
        (refl, refl))
]

module _ (F : Floats) where
  open F use {R}

  -- After a success the tables show the result that was returned; after an error they are as before.
  abbrev pub Recorded :
      String → Criterion → ℕ → Village R → Result (TrustUpdateResult R) → Village R → Type 0
  Recorded a c ts before (ok r) v =
      ShowsScore (get_trust_score a c v) r.score ts
      × Shows (get_membership a v) r.state r.violation_count
  Recorded a c ts before (err e) v = v ≡ before

  -- Recording evidence either succeeds, and then the tables show the returned score, under the time of
  -- the evidence, and the returned state and violation count, or it raises and changes no table.
  pub record_trust_event-Recorded :
      (lp : LedgerPolicy R) (mp : MembershipPolicy R) (a : String) (c : Criterion) (positive : Bool)
      (weight : R) (cause : Cause) (cause_ref : Option String) (ts : ℕ) (v : Village R)
      → Recorded a c ts v
          (record_trust_event F lp mp a c positive weight cause cause_ref ts v).0
          (record_trust_event F lp mp a c positive weight cause cause_ref ts v).1
  unfolding record_trust_event raise_some transaction ◌>>=◌ get_trust_score get_membership
      upsert_trust_score append_trust_event upsert_membership
  record_trust_event-Recorded lp mp a c positive weight cause cause_ref ts v =
      elim (Option-cases (computing_fault F lp a c positive weight ts v)) [
        | inr (e, raises) ↦ rw raises refl
        | inl none_raises ↦
            rw none_raises
              (elim (Bool-cases (ltb max_integer (violations_then a positive ts v.registry))) [
                | inl above ↦ rw above refl
                | inr fits ↦
                    rw fits (upserted-ShowsScore a c _ ts v.scores, upserted-Shows _ v.registry)
              ])
      ]
