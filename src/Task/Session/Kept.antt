-- ===== src/Task/Session/Kept.antt =====
-- Calls on a session that keep its credits books balanced.
use Prim.Native.String.{String}
use oldman_agent.Prelude.{ℕ, Option, List, [], ◌∷◌, arith, eq_iff}
use oldman_agent.Prelude.Dedup.{contains}
use oldman_agent.Exec.{Exec, ◌>>=◌}
use oldman_agent.Exec.Stable.{Stable, Stable-pure, Stable-bind, Stable-modify}
use oldman_agent.Config.{Settings}
use oldman_agent.Books.{Books}
use oldman_agent.Credits.Balanced.{IsBalanced}
use oldman_agent.Db.{Db, on_books}
use oldman_agent.Payout.{release_royalties_for_citations}
use oldman_agent.Payout.Release.{release_royalties-closes}
use oldman_agent.Publish.Balanced.{HasBalancedBooks}
use oldman_agent.Task.Session.{TaskEvent, completed, Session, emit, on_db}

-- The books of a session are balanced.
abbrev pub KeepsBooks : {R : Type 0} → Session R → Type 0
KeepsBooks s = HasBalancedBooks s.db

module _ {R : Type 0} where
  pub emit-Stable :
      (e : TaskEvent)
      → (let sending : Exec (Session R) (Unit {0}) = emit e in Stable KeepsBooks sending)
  unfolding emit
  emit-Stable e = Stable-modify KeepsBooks _ (λ s h. h)

  pub deliver-Stable :
      (e : TaskEvent)
      → (let sending : Exec (Session R) (Unit {0}) = emit e >>= λ _. emit completed in
          Stable KeepsBooks sending)
  deliver-Stable e = Stable-bind KeepsBooks _ _ (emit-Stable e) λ _. emit-Stable completed

module _ {R A : Type 0} where
  pub on_db-Stable :
      (m : Exec (Db R) A)
      → ((s : Db R) → IsBalanced s.books → IsBalanced (m s).1.books)
      → Stable KeepsBooks (on_db m)
  unfolding on_db
  on_db-Stable m h = record { at = λ s k. h s.db k }

  pub on_db_books-Stable :
      (m : Exec Books A)
      → ((s : Books) → IsBalanced s → IsBalanced (m s).1)
      → (let calling : Exec (Session R) A = on_db (on_books m) in Stable KeepsBooks calling)
  unfolding on_books
  on_db_books-Stable m h = on_db-Stable (on_books m) (λ s k. h s.books k)

pub release_royalties-IsBalanced :
    (c : Settings) (cited : List String) (invoice_id : Option String) (now : ℕ) (s : Books)
    → IsBalanced s
    → IsBalanced (release_royalties_for_citations c cited invoice_id now s).1
unfolding release_royalties_for_citations contains
release_royalties-IsBalanced c [] invoice_id now s h = (Stable-pure IsBalanced _).at s h
release_royalties-IsBalanced c (one ∷ more) invoice_id now s h =
    (release_royalties-closes c (one ∷ more) invoice_id now s one h
      (ground (arith, eq_iff one one))).0
