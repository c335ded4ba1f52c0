-- ===== src/Publish/Stored.antt =====
-- The calls of a publish on the archive: what they add to the stored events.
use oldman_agent.Prelude.{
  ℕ, String, ◌≡◌, refl, ap, ◌∙◌, Bool, ◌||◌, Option, none, some, List, [], ◌∷◌, ◌++◌, is_some,
  arith, ◌==◌, Option-cases, Bool-cases, inl, inr,
}
use oldman_agent.Exec.{
  Result, ok, err, ◌>>=◌, ◌>>◌, gets, raise_if, invalid_signature, missing_signature,
}
use oldman_agent.Exec.Ends.{
  Ends, Ends-pure, Ends-gets, Ends-if, Ends-weaken, Ends-modify, Ends-raise_if, Ends-bind,
  Ends-then,
}
use oldman_agent.Json.{Json}
use oldman_agent.Table.{find}
use oldman_agent.Config.{Settings}
use oldman_agent.Archive.{
  Archive, EventRow, AgentIdentityRow, insert_event, append_episodic, touch_semantic,
  get_agent_identity, upsert_agent_identity,
}
use oldman_agent.Publish.{
  PublishRequest, is_given, badly_signed, did_or_empty, bind_identity, touch_observed, store_event,
  check_signature,
}

-- The events of the archive, whatever the result.
abbrev pub SameEvents : {A : Type 0} → Archive → Result A → Archive → Type 0
SameEvents s r s' = s'.events ≡ s.events

upsert_agent_identity-SameEvents :
    (row : AgentIdentityRow) (s : Archive) → Ends (upsert_agent_identity row) s (SameEvents s)
unfolding upsert_agent_identity
upsert_agent_identity-SameEvents row s = Ends-bind _ _ s _ (
    Ends-gets _ s _
      (Ends-bind _ _ s _ (Ends-raise_if _ _ s _ (λ _. refl) λ _. Ends-modify _ s _ refl)))

bind_identity-SameEvents :
    (a did : String) (found : Option AgentIdentityRow) (s : Archive)
    → Ends (bind_identity a did found) s (SameEvents s)
bind_identity-SameEvents a did none s = upsert_agent_identity-SameEvents _ s
bind_identity-SameEvents a did (some r) s = Ends-raise_if _ _ s _ (λ _. refl) λ _. refl

pub check_signature-SameEvents :
    (verify : String → Json → String → String → Bool) (c : Settings) (req : PublishRequest)
    (s : Archive)
    → Ends (check_signature verify c req) s (SameEvents s)
unfolding check_signature
check_signature-SameEvents verify c req s =
    Ends-if (is_given req.seller_did || is_given req.payload_signature)
      (raise_if (badly_signed verify req req.seller_did req.payload_signature) invalid_signature
        >> (gets (get_agent_identity req.source_agent)
            >>= bind_identity req.source_agent (did_or_empty verify req.seller_did)))
      (raise_if c.require_signed_publish missing_signature) s _
      (λ _. Ends-bind _ _ s _ (
        Ends-raise_if _ _ s _ (λ _. refl)
          λ _.
            Ends-bind _ _ s _ (Ends-gets _ s _ (bind_identity-SameEvents req.source_agent _ _ s))))
      (λ _. Ends-raise_if _ _ s _ (λ _. refl) λ _. refl)

touch_observed-SameEvents :
    (a : Option String) (req : PublishRequest) (ts : ℕ) (s : Archive)
    → Ends
        (touch_observed a req.declared_source_type ts)
        s
        (λ r s'. (r ≡ ok tt) × (s'.events ≡ s.events))
unfolding touch_semantic
touch_observed-SameEvents none req ts s = Ends-pure _ s _ (refl, refl)
touch_observed-SameEvents (some a) req ts s = elim (Bool-cases (a == "")) [
  | inl e ↦ rw e (Ends-pure _ s _ (refl, refl))
  | inr e ↦ rw e (Ends-modify _ s _ (refl, refl))
]

-- The stored row of a publish, and that no row had its hash before.
pub record StoredRow (p_hash event_id : String) (tx : Option String) (before after : List EventRow)
    : Type 0 where
  pub row : EventRow
  pub appended : after ≡ before ++ row ∷ []
  pub hash : row.payload_hash ≡ p_hash
  pub id : row.event_id ≡ event_id
  pub paid : row.credits_tx_id ≡ tx
  pub unseen : find (λ x. x.payload_hash == p_hash) before ≡ none

-- A finished call stored the event; of a failed one nothing is said.
abbrev pub Stores : String → String → Option String → Archive → Result (Unit {0}) → Archive → Type 0
Stores p_hash event_id tx s (ok a) s' = StoredRow p_hash event_id tx s.events s'.events
Stores p_hash event_id tx s (err e) s' = Unit

abbrev event_row : PublishRequest → String → ℕ → String → Option String → EventRow
event_row req event_id ts p_hash tx = record {
  event_id = event_id;
  ts = ts;
  kind = req.event_kind;
  source_agent = req.source_agent;
  source_type = req.declared_source_type;
  payload = req.payload;
  payload_hash = p_hash;
  credits_tx_id = tx;
  seller_did = req.seller_did;
}

insert_event-Stores :
    (e : EventRow) (s : Archive)
    → Ends (insert_event e) s (Stores e.payload_hash e.event_id e.credits_tx_id s)
unfolding insert_event
insert_event-Stores e s =
    elim (Option-cases (find (λ x. x.payload_hash == e.payload_hash) s.events)) [
      | inl unseen ↦ Ends-bind _ _ s _ (
          Ends-gets _ s _ (
            Ends-bind _ _ s _ (
              Ends-raise_if _ _ s _ (λ _. tt)
                λ _. Ends-modify _ s _ (record {
                  row = e;
                  appended = refl;
                  hash = refl;
                  id = refl;
                  paid = refl;
                  unseen = unseen;
                }))))
      | inr (x, f) ↦ Ends-bind _ _ s _ (
          Ends-gets _ s _ (
            Ends-bind _ _ s _ (
              Ends-raise_if _ _ s _ (λ _. tt)
                λ fresh. absurd (ground (arith, ap is_some f, fresh)))))
    ]

-- The rows that follow the event.
noted :
    (req : PublishRequest) (event_id : String) (ts : ℕ) (s : Archive)
    → Ends
        (append_episodic (record {
          event_id = event_id;
          observer_agent = req.source_agent;
          observed_agent = req.observed_agent;
          kind = req.event_kind;
          ts = ts;
          source_type = req.declared_source_type;
        })
          >> (touch_semantic req.source_agent req.declared_source_type ts
              >> touch_observed req.observed_agent req.declared_source_type ts))
        s
        (λ r s'. (r ≡ ok tt) × (s'.events ≡ s.events))
unfolding append_episodic touch_semantic
noted req event_id ts s = Ends-bind _ _ s _ (
    Ends-modify _ s _ (
      Ends-bind _ _ _ _
        (Ends-modify _ _ _ (touch_observed-SameEvents req.observed_agent req ts _))))

Stores-same :
    {p_hash event_id : String} {tx : Option String} (s s1 s2 : Archive) (r : Result (Unit {0}))
    → r ≡ ok tt
    → s2.events ≡ s1.events
    → StoredRow p_hash event_id tx s.events s1.events
    → Stores p_hash event_id tx s r s2
Stores-same s s1 s2 (ok a) done same h = record {
  row = h.row;
  appended = same ∙ h.appended;
  hash = h.hash;
  id = h.id;
  paid = h.paid;
  unseen = h.unseen;
}
Stores-same s s1 s2 (err e) done same h = tt

pub store_event-Stores :
    (req : PublishRequest) (event_id : String) (ts : ℕ) (p_hash : String) (tx : Option String)
    (s : Archive)
    → Ends (store_event req event_id ts p_hash tx) s (Stores p_hash event_id tx s)
unfolding store_event
store_event-Stores req event_id ts p_hash tx s =
    Ends-then _ _ s _ _ (insert_event-Stores (event_row req event_id ts p_hash tx) s)
      (λ a s1 h.
        Ends-weaken _ s1 _ (noted req event_id ts s1)
          λ r s2 (done, same). Stores-same s s1 s2 r done same h)
      (λ e s1 h. tt)
