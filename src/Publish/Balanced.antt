-- ===== src/Publish/Balanced.antt =====
-- A publish keeps the books balanced, on every outcome.
use oldman_agent.Prelude.{ℕ, String, ◌≡◌, refl, sym, Bool, not, ◌&&◌, Option, none, some}
use mathlib.Core.Path.{subst}
use oldman_agent.Exec.{
  Exec, Error, Result, ok, err, insufficient_funds, duplicate_payload_hash, transaction,
}
use oldman_agent.Exec.Rules.{Post, Wp, Wp-pure, Wp-raise, Wp-if, Wp-bind, Wp-weaken, Wp-catch}
use oldman_agent.Exec.Stable.{
  Stable, Stable-pure, Stable-raise, Stable-gets, Stable-raise_if, Stable-transaction, Stable-catch,
  Stable-bind,
}
use oldman_agent.Floats.{Floats}
use oldman_agent.Json.{Json, TextServices}
use oldman_agent.Books.{Books, uuid4}
use oldman_agent.Audit.{total_balance, total_minted}
use oldman_agent.Config.{Settings}
use oldman_agent.Credits.Balanced.{IsBalanced}
use oldman_agent.Credits.Conservation.{Wp-transfer}
use oldman_agent.Archive.{Archive}
use oldman_agent.Village.{Village}
use oldman_agent.Db.{Db, on_books, on_archive, on_village}
use oldman_agent.Payout.Split.{split_publish_payment-exact}
use oldman_agent.Publish.{
  PublishRequest, map_payment_error, map_constraint_error, reward_order, pay_seller, persist,
  credit_reliability, admit, execute_publish,
}

map_payment_error-Wp :
    {S A : Type 0} (e : Error) (s : S) (Q : A → S → Type 0) → Wp (map_payment_error e) s Q
map_payment_error-Wp (insufficient_funds a n m) s Q = Wp-raise _ s Q
map_payment_error-Wp e s Q = Wp-raise _ s Q

pay_seller-IsBalanced :
    (c : Settings) (event_id seller : String) (ts : ℕ) (s : Books)
    → IsBalanced s
    → Wp (pay_seller c event_id seller ts) s (λ _ s'. IsBalanced s')
unfolding pay_seller
pay_seller-IsBalanced c event_id seller ts s h =
    Wp-if (c.payment_enabled && not c.payment_kill_switch) _ _ s _
      (λ on.
        Wp-catch _ _ s _
          (Wp-if c.royalty_enabled _ _ s _
            (λ split. Wp-bind _ _ s _ (
              Wp-weaken _ s _ (split_publish_payment-exact c event_id seller ts s h)
                λ p s' exact. Wp-pure _ s' _ exact.2))
            (λ whole. Wp-bind _ _ s _ (
              Wp-weaken _ s _ (Wp-transfer (reward_order c event_id seller) _ seller s refl h)
                λ tx s' h'. Wp-pure _ s' _ h')))
          λ e s' _. map_payment_error-Wp e s' _)
      (λ off. Wp-pure _ s _ h)

-- The books of a database are balanced.
abbrev pub HasBalancedBooks : {R : Type 0} → Db R → Type 0
HasBalancedBooks s = IsBalanced s.books

module _ {R A : Type 0} where
  map_constraint_error-Stable :
      (e : Error)
      → (let handled : Exec (Db R) A = map_constraint_error e in Stable HasBalancedBooks handled)
  map_constraint_error-Stable duplicate_payload_hash = Stable-raise HasBalancedBooks _
  map_constraint_error-Stable e = Stable-raise HasBalancedBooks _

  on_books_result :
      (P : Books → Type 0) (s : Db R) (r : Result A × Books)
      → Post (λ _ b. P b) r
      → Post (λ _ s'. P s'.books) (r.0, record s { books = r.1 })
  on_books_result P s (ok a, b) h = h
  on_books_result P s (err e, b) h = tt

  Wp-on_books :
      (m : Exec Books A) (s : Db R) (P : Books → Type 0)
      → Wp m s.books (λ _ b. P b)
      → Wp (on_books m) s (λ _ s'. P s'.books)
  unfolding on_books
  Wp-on_books m s P h = record { at = on_books_result P s (m s.books) h.at }

  on_archive_result :
      (s : Db R) (r : Result A × Archive)
      → Post (λ _ s'. s'.books ≡ s.books) (r.0, record s { archive = r.1 })
  on_archive_result s (ok a, b) = refl
  on_archive_result s (err e, b) = tt

  Wp-on_archive : (m : Exec Archive A) (s : Db R) → Wp (on_archive m) s (λ _ s'. s'.books ≡ s.books)
  unfolding on_archive
  Wp-on_archive m s = record { at = on_archive_result s (m s.archive) }

  on_archive-Stable : (m : Exec Archive A) → Stable (HasBalancedBooks {R = R}) (on_archive m)
  unfolding on_archive
  on_archive-Stable m = record { at = λ s h. h }

  on_village-Stable : (m : Exec (Village R) A) → Stable (HasBalancedBooks {R = R}) (on_village m)
  unfolding on_village
  on_village-Stable m = record { at = λ s h. h }

module _ {R : Type 0} where
  uuid4-HasBalancedBooks :
      (let draw : Exec (Db R) String = on_books uuid4 in Stable HasBalancedBooks draw)
  unfolding on_books uuid4 total_balance total_minted
  uuid4-HasBalancedBooks = record {
    at = λ s h. record { keyed = h.keyed; conserved = h.conserved };
  }

module _ (F : Floats) where
  open F use {R}

  admit-Stable :
      (verify : String → Json → String → String → Bool) (u : TextServices) (threshold : R)
      (c : Settings) (req : PublishRequest)
      → Stable HasBalancedBooks (admit F verify u threshold c req)
  unfolding admit
  admit-Stable verify u threshold c req =
      Stable-bind HasBalancedBooks _ _ (Stable-raise_if HasBalancedBooks _ _) λ _.
        Stable-bind HasBalancedBooks _ _ (on_archive-Stable _) λ _.
          Stable-bind HasBalancedBooks _ _ (Stable-gets HasBalancedBooks _)
            λ _. Stable-raise_if HasBalancedBooks _ _

  persist-HasBalancedBooks :
      (c : Settings) (req : PublishRequest) (event_id : String) (ts : ℕ) (p_hash : String)
      → Stable HasBalancedBooks (transaction (persist F c req event_id ts p_hash))
  unfolding persist
  persist-HasBalancedBooks c req event_id ts p_hash = Stable-transaction HasBalancedBooks _ λ s h.
      Wp-bind _ _ s _ (
        Wp-weaken _ s _
          (Wp-on_books _ s IsBalanced
            (pay_seller-IsBalanced c event_id req.source_agent ts s.books h))
          λ tx s1 h1. Wp-bind _ _ s1 _ (
            Wp-weaken _ s1 _ (Wp-on_archive _ s1)
              λ _ s2 same. Wp-pure _ s2 _ (subst IsBalanced (sym same) h1)))

  credit_reliability-Stable :
      (seller event_id : String) (ts : ℕ) (tx : Option String)
      → Stable HasBalancedBooks (credit_reliability F seller event_id ts tx)
  credit_reliability-Stable seller event_id ts none = Stable-pure HasBalancedBooks _
  credit_reliability-Stable seller event_id ts (some tx) =
      Stable-catch HasBalancedBooks _ _
        (Stable-bind HasBalancedBooks _ _ (on_village-Stable _) λ _. Stable-pure HasBalancedBooks _)
        λ _. Stable-pure HasBalancedBooks _

  -- From balanced books, a publish leaves balanced books on every outcome: stored and paid, stored
  -- unpaid, or refused at any step.
  pub execute_publish-IsBalanced :
      (verify : String → Json → String → String → Bool) (u : TextServices) (threshold : R)
      (c : Settings) (req : PublishRequest) (s : Db R)
      → IsBalanced s.books
      → IsBalanced (execute_publish F verify u threshold c req s).1.books
  unfolding execute_publish
  execute_publish-IsBalanced verify u threshold c req s h = kept.at s h
    where
      kept : Stable HasBalancedBooks (execute_publish F verify u threshold c req)
      kept = Stable-bind HasBalancedBooks _ _ (admit-Stable verify u threshold c req) λ _.
          Stable-bind HasBalancedBooks _ _ uuid4-HasBalancedBooks λ event_id.
            Stable-bind HasBalancedBooks _ _ (Stable-gets HasBalancedBooks _) λ now.
              Stable-bind HasBalancedBooks _ _
                (Stable-catch HasBalancedBooks _ _ (persist-HasBalancedBooks c req event_id _ _)
                  map_constraint_error-Stable)
                λ tx.
                  Stable-bind HasBalancedBooks _ _
                    (credit_reliability-Stable req.source_agent event_id _ tx)
                    λ _. Stable-pure HasBalancedBooks event_id
