-- ===== src/Db/Calls.antt =====
-- Calls on one part of the database, as rules for how they end.
use oldman_agent.Exec.{Exec, Result}
use oldman_agent.Exec.Ends.{Ends}
use oldman_agent.Books.{Books}
use oldman_agent.Archive.{Archive}
use oldman_agent.Village.{Village}
use oldman_agent.Db.{Db, on_books, on_archive, on_village}

module _ {R A : Type 0} where
  pub Ends-on_books :
      (m : Exec Books A) (s : Db R) (Q : Result A → Db R → Type 0)
      → Ends m s.books (λ r books. Q r (record s { books = books }))
      → Ends (on_books m) s Q
  unfolding on_books
  Ends-on_books m s Q h = record { at = h.at }

  pub Ends-on_archive :
      (m : Exec Archive A) (s : Db R) (Q : Result A → Db R → Type 0)
      → Ends m s.archive (λ r archive. Q r (record s { archive = archive }))
      → Ends (on_archive m) s Q
  unfolding on_archive
  Ends-on_archive m s Q h = record { at = h.at }

  pub Ends-on_village :
      (m : Exec (Village R) A) (s : Db R) (Q : Result A → Db R → Type 0)
      → Ends m s.village (λ r village. Q r (record s { village = village }))
      → Ends (on_village m) s Q
  unfolding on_village
  Ends-on_village m s Q h = record { at = h.at }

module _ {S A : Type 0} where
  -- What holds of every result and state.
  pub Ends-any :
      (m : Exec S A) (s : S) (Q : Result A → S → Type 0)
      → ((r : Result A) (s' : S) → Q r s')
      → Ends m s Q
  Ends-any m s Q h = record { at = h (m s).0 (m s).1 }
