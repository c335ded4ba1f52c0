-- ===== src/Sanctions/Carried.antt =====
-- What carrying out a sanction leaves.
use oldman_agent.Prelude.{
  ℕ, String, ◌≡◌, refl, ap, ◌∙◌, ◌&&◌, Bool, true, false, Option, none, some, List, [], ◌∷◌, ◌++◌,
  is_some, leb, arith,
}
use oldman_agent.Exec.{Result, ok, err}
use oldman_agent.Exec.Ends.{Ends, Ends-pure, Ends-raise_if, Ends-modify, Ends-bind, Ends-then}
use oldman_agent.Floats.{Floats}
use oldman_agent.Village.{
  MembershipState, provisional, member, warned, penalized, excluded, Village, get_membership,
}
use oldman_agent.Narrative.Text.{Text}
use oldman_agent.Erc8004.{Erc8004Feedback, give_feedback}
use oldman_agent.Sanctions.{
  state_to_feedback_score, state_name, scold_template, scold_line, SanctionDirective,
  state_or_provisional, scold_if, mirror, apply_sanction_effects,
}

-- The states that are scolded.
abbrev pub is_sanctioned : MembershipState → Bool
is_sanctioned provisional = false
is_sanctioned member = false
is_sanctioned warned = true
is_sanctioned penalized = true
is_sanctioned excluded = true

-- The feedbacks that mirror a state: one, under the agent's id, or none.
abbrev pub mirrored_by : Bool → Option ℕ → MembershipState → List Erc8004Feedback
mirrored_by true (some id) state =
    record { agent_id = id; score = state_to_feedback_score state; tag = state_name state } ∷ []
mirrored_by _ _ state = []

score_bounds : (state : MembershipState) → leb (state_to_feedback_score state) 100 ≡ true
unfolding state_to_feedback_score
score_bounds provisional = refl
score_bounds member = refl
score_bounds warned = refl
score_bounds penalized = refl
score_bounds excluded = refl

-- The feedbacks that were there, and the mirror of the state.
abbrev Mirrored :
    Bool
    → Option ℕ
    → MembershipState
    → List Erc8004Feedback
    → Result Bool
    → List Erc8004Feedback
    → Type 0
Mirrored has_registry id state s (ok done) s' =
    (s' ≡ s ++ mirrored_by has_registry id state) × (done ≡ (has_registry && is_some id))
Mirrored has_registry id state s (err e) s' = ⊥

append-nil : (s : List Erc8004Feedback) → s ≡ s ++ []
append-nil [] = refl
append-nil (f ∷ s) = ap (λ l. f ∷ l) (append-nil s)

module _ (F : Floats) where
  open F use {R}

  mirror-Mirrored :
      (has_registry : Bool) (id : Option ℕ) (state : MembershipState) (s : List Erc8004Feedback)
      → Ends (mirror F has_registry id state) s (Mirrored has_registry id state s)
  unfolding give_feedback
  mirror-Mirrored true (some id) state s = Ends-bind _ _ s _ (
      Ends-bind _ _ s _ (
        Ends-raise_if _ _ s _ (λ over. absurd (ground (arith, score_bounds state)))
          (λ _.
            Ends-bind _ _ s _
              (Ends-modify _ s _ (Ends-pure _ _ _ (Ends-pure _ _ _ (refl, refl)))))))
  mirror-Mirrored true none state s = Ends-pure _ s _ (append-nil s, refl)
  mirror-Mirrored false none state s = Ends-pure _ s _ (append-nil s, refl)
  mirror-Mirrored false (some id) state s = Ends-pure _ s _ (append-nil s, refl)

  -- The scolding, where there is one, and nothing written.
  abbrev Scolded :
      MembershipState → List Erc8004Feedback → Result (Option Text) → List Erc8004Feedback → Type 0
  Scolded state s (ok line) s' = (is_some line ≡ is_sanctioned state) × (s' ≡ s)
  Scolded state s (err e) s' = ⊥

  scold_if-Scolded :
      (a : String) (state : MembershipState) (cause_ref : Option Text) (s : List Erc8004Feedback)
      → Ends (scold_if F (scold_template state) a state cause_ref) s (Scolded state s)
  unfolding scold_line
  scold_if-Scolded a provisional cause_ref s = Ends-pure _ s _ (refl, refl)
  scold_if-Scolded a member cause_ref s = Ends-pure _ s _ (refl, refl)
  scold_if-Scolded a warned cause_ref s =
      Ends-bind _ _ s _ (Ends-pure _ s _ (Ends-pure _ s _ (refl, refl)))
  scold_if-Scolded a penalized cause_ref s =
      Ends-bind _ _ s _ (Ends-pure _ s _ (Ends-pure _ s _ (refl, refl)))
  scold_if-Scolded a excluded cause_ref s =
      Ends-bind _ _ s _ (Ends-pure _ s _ (Ends-pure _ s _ (refl, refl)))

  -- The directive shows the state of the registry, a stranger's being provisional.
  pub record IsCarried (a : String) (has_registry : Bool) (id : Option ℕ) (v : Village R)
      (s : List Erc8004Feedback) (d : SanctionDirective R) (s' : List Erc8004Feedback)
      : Type 0 where
    pub stated : d.state ≡ state_or_provisional (get_membership a v)
    pub scolded_if : is_some d.scold ≡ is_sanctioned d.state
    pub mirrored_if : d.mirrored ≡ (has_registry && is_some id)
    pub feedbacks : s' ≡ s ++ mirrored_by has_registry id d.state

  abbrev pub Carried :
      String
      → Bool
      → Option ℕ
      → Village R
      → List Erc8004Feedback
      → Result (SanctionDirective R)
      → List Erc8004Feedback
      → Type 0
  Carried a has_registry id v s (ok d) s' = IsCarried a has_registry id v s d s'
  Carried a has_registry id v s (err e) s' = ⊥

  -- Carrying out a sanction never raises. The directive shows the state of the registry, that of a
  -- stranger being provisional; it scolds exactly the warned, the penalized and the excluded; and
  -- where there is a registry and an id, one feedback of that state is added, else none.
  pub apply_sanction-Carried :
      (a : String) (has_registry : Bool) (id : Option ℕ) (v : Village R) (s : List Erc8004Feedback)
      → Ends (apply_sanction_effects F a has_registry id v) s (Carried a has_registry id v s)
  unfolding apply_sanction_effects
  apply_sanction-Carried a has_registry id v s =
      let state = state_or_provisional (get_membership a v) in
      Ends-then _ _ s (Scolded state s) _ (scold_if-Scolded a state _ s)
        (λ line s1 h.
          Ends-then _ _ s1 (Mirrored has_registry id state s1) _
            (mirror-Mirrored has_registry id state s1)
            (λ done s2 k. Ends-pure _ s2 _ (record {
              stated = refl;
              scolded_if = h.0;
              mirrored_if = k.1;
              feedbacks = k.0 ∙ ap (λ l. l ++ mirrored_by has_registry id state) h.1;
            }))
            (λ e s2 k. k))
        (λ e s1 h. h)
