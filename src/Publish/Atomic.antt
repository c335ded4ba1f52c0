-- ===== src/Publish/Atomic.antt =====
-- What a publish leaves: its event, or on an error nothing stored and nothing paid.
use oldman_agent.Prelude.{ℕ, String, ◌≡◌, refl, ap, sym, Bool, Option, none, some, arith}
use mathlib.Core.Path.{subst}
use oldman_agent.Exec.{
  pure, commit_or_rollback, duplicate_payload_hash, Error, Result, ok, err, transaction, catch,
  ◌>>=◌, ◌>>◌,
}
use oldman_agent.Exec.Ends.{
  Ends, Ends-pure, Ends-raise, Ends-gets, Ends-weaken, Ends-raise_if, Ends-bind, Ends-then,
  Ends-try,
}
use oldman_agent.Floats.{Floats}
use oldman_agent.Json.{Json, TextServices}
use oldman_agent.Dedup.{payload_sha256}
use oldman_agent.Books.{uuid4}
use oldman_agent.Config.{Settings}
use oldman_agent.Db.{Db}
use oldman_agent.Db.Calls.{Ends-on_books, Ends-on_archive, Ends-on_village, Ends-any}
use oldman_agent.Publish.Stored.{StoredRow, Stores, check_signature-SameEvents, store_event-Stores}
use oldman_agent.Publish.{
  PublishRequest, map_constraint_error, persist, credit_reliability, admit, execute_publish,
}

module _ {R : Type 0} where
  -- Nothing is paid and nothing is stored.
  pub record Untouched (s s' : Db R) : Type 0 where
    pub balances : s'.books.balances ≡ s.books.balances
    pub transactions : s'.books.transactions ≡ s.books.transactions
    pub escrows : s'.books.escrows ≡ s.books.escrows
    pub events : s'.archive.events ≡ s.archive.events

  -- What a publish leaves: on an error nothing paid and nothing stored, and else its event.
  abbrev pub PublishEnds : String → Db R → Result String → Db R → Type 0
  PublishEnds p_hash s (ok event_id) s' =
      (tx : Option String) × StoredRow p_hash event_id tx s.archive.events s'.archive.events
  PublishEnds p_hash s (err e) s' = Untouched s s'

module _ (F : Floats) where
  open F use {R}

  admit-Untouched :
      (verify : String → Json → String → String → Bool) (u : TextServices) (threshold : R)
      (c : Settings) (req : PublishRequest) (s : Db R)
      → Ends (admit F verify u threshold c req) s (λ r s'. Untouched s s')
  unfolding admit
  admit-Untouched verify u threshold c req s = Ends-bind _ _ s _ (
      Ends-raise_if _ _ s _ (λ _. nothing)
        λ _.
          Ends-then _ _ s _ _
            (Ends-on_archive _ s (λ r s'. Untouched s s')
              (Ends-weaken _ _ _ (check_signature-SameEvents verify c req s.archive) λ r a same.
                record { balances = refl; transactions = refl; escrows = refl; events = same }))
            (λ a s1 h.
              Ends-bind _ _ s1 _ (Ends-gets _ s1 _ (Ends-raise_if _ _ s1 _ (λ _. h) λ _. h)))
            (λ e s1 h. h))
    where
      nothing : Untouched s s
      nothing = record { balances = refl; transactions = refl; escrows = refl; events = refl }

  -- What the transaction of a publish leaves, before an error rolls it back.
  abbrev Persists : String → String → Db R → Result (Option String) → Db R → Type 0
  Persists p_hash event_id s (ok tx) s' =
      StoredRow p_hash event_id tx s.archive.events s'.archive.events
  Persists p_hash event_id s (err e) s' = Unit

  persist-Persists :
      (c : Settings) (req : PublishRequest) (event_id : String) (ts : ℕ) (p_hash : String)
      (s : Db R)
      → Ends (persist F c req event_id ts p_hash) s (Persists p_hash event_id s)
  unfolding persist
  persist-Persists c req event_id ts p_hash s =
      Ends-then _ _ s (λ r s'. s'.archive ≡ s.archive) _
        (Ends-on_books _ s _ (Ends-any _ _ _ λ r b. refl))
        (λ tx s1 same.
          Ends-then _ _ s1 (λ r s'. Stores p_hash event_id tx s1.archive r s'.archive) _
            (Ends-on_archive _ s1 _ (store_event-Stores req event_id ts p_hash tx s1.archive))
            (λ a s2 h. Ends-pure _ s2 _ (rw (ap (λ x. x.events) same) at h)) (λ e s2 h. tt))
        (λ e s1 h. tt)

  credit_reliability-SameEvents :
      (seller event_id : String) (ts : ℕ) (tx : Option String) (s : Db R)
      → Ends
          (credit_reliability F seller event_id ts tx)
          s
          (λ r s'. (r ≡ ok tt) × (s'.archive ≡ s.archive))
  credit_reliability-SameEvents seller event_id ts none s = Ends-pure _ s _ (refl, refl)
  credit_reliability-SameEvents seller event_id ts (some tx) s =
      Ends-try _ _ s (λ r s'. s'.archive ≡ s.archive) _
        (Ends-then _ _ s (λ r s'. s'.archive ≡ s.archive) _
          (Ends-on_village _ s _ (Ends-any _ _ _ λ r v. refl)) (λ a s1 h. Ends-pure _ s1 _ h)
          (λ e s1 h. h))
        (λ a s1 h. (refl, h)) (λ e s1 h. Ends-pure _ s1 _ (refl, h))

module _ {S A : Type 0} where
  map_constraint_error-Ends :
      (e : Error) (s : S) (Q : Result A → S → Type 0)
      → ((e' : Error) → Q (err e') s)
      → Ends (map_constraint_error e) s Q
  map_constraint_error-Ends duplicate_payload_hash s Q h = Ends-raise _ s Q (h _)
  map_constraint_error-Ends e s Q h = Ends-raise _ s Q (h _)

-- What the transaction of a publish leaves: its event, or the state before.
abbrev Committed : {R : Type 0} → String → String → Db R → Result (Option String) → Db R → Type 0
Committed p_hash event_id s (ok tx) s' =
    StoredRow p_hash event_id tx s.archive.events s'.archive.events
Committed p_hash event_id s (err e) s' = s' ≡ s

module _ (F : Floats) where
  open F use {R}

  transaction-Committed :
      (c : Settings) (req : PublishRequest) (event_id : String) (ts : ℕ) (p_hash : String)
      (s : Db R)
      → Ends (transaction (persist F c req event_id ts p_hash)) s (Committed p_hash event_id s)
  unfolding transaction
  transaction-Committed c req event_id ts p_hash s = record {
    at =
        rolled (persist F c req event_id ts p_hash s)
          (persist-Persists F c req event_id ts p_hash s).at;
  }
    where
      rolled :
          (r : Result (Option String) × Db R)
          → Persists F p_hash event_id s r.0 r.1
          → Committed p_hash event_id s (commit_or_rollback s r).0 (commit_or_rollback s r).1
      rolled (ok tx, s') h = h
      rolled (err e, s') h = refl

  stored_row :
      {p_hash event_id : String} {tx : Option String} (s s1 s2 s3 : Db R)
      → Untouched s s1
      → StoredRow p_hash event_id tx s1.archive.events s2.archive.events
      → s3.archive ≡ s2.archive
      → StoredRow p_hash event_id tx s.archive.events s3.archive.events
  stored_row s s1 s2 s3 h k same = rw (same, sym h.events) k

  committed-PublishEnds :
      (c : Settings) (req : PublishRequest) (event_id p_hash : String) (ts : ℕ) (s s1 : Db R)
      → Untouched s s1
      → Ends
          (catch (transaction (persist F c req event_id ts p_hash)) map_constraint_error >>= λ tx.
            credit_reliability F req.source_agent event_id ts tx >> pure event_id)
          s1
          (PublishEnds p_hash s)
  committed-PublishEnds c req event_id p_hash ts s s1 h =
      Ends-then _ _ s1 (PersistEnds s1) _
        (Ends-try _ _ s1 _ (PersistEnds s1) (transaction-Committed c req event_id ts p_hash s1)
          (λ tx s2 k. k) (λ e s2 k. map_constraint_error-Ends e s2 (PersistEnds s1) λ e'. k))
        (λ tx s2 k.
          Ends-then _ _ s2 _ _ (credit_reliability-SameEvents F req.source_agent event_id ts tx s2)
            (λ a s3 (done, same). Ends-pure _ s3 _ (tx, stored_row s s1 s2 s3 h k same))
            (λ e s3 (done, same). absurd (ground arith)))
        (λ e s2 k. subst (Untouched s) (sym k) h)
    where
      PersistEnds : Db R → Result (Option String) → Db R → Type 0
      PersistEnds s1 r s' = Committed p_hash event_id s1 r s'

  -- A publish that finishes has stored exactly one event, under the returned identifier and with the
  -- hash of its payload, which no event had before. One that raises, at any step, has stored no event,
  -- moved no balance, logged no transaction and opened no escrow.
  pub execute_publish-atomic :
      (verify : String → Json → String → String → Bool) (u : TextServices) (threshold : R)
      (c : Settings) (req : PublishRequest) (s : Db R)
      → Ends
          (execute_publish F verify u threshold c req)
          s
          (PublishEnds (payload_sha256 u req.payload) s)
  unfolding execute_publish uuid4
  execute_publish-atomic verify u threshold c req s =
      Ends-then _ _ s _ _ (admit-Untouched F verify u threshold c req s)
        (λ a s1 h. Ends-bind _ _ s1 _ (
          Ends-on_books _ s1 _ (record {
            at = Ends-bind _ _ _ _ (
                Ends-gets _ _ _ (
                  committed-PublishEnds c req _ _ _ s _ (record {
                    balances = h.balances;
                    transactions = h.transactions;
                    escrows = h.escrows;
                    events = h.events;
                  })));
          })))
        (λ e s1 h. h)
