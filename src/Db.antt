-- ===== src/Db.antt =====
-- The whole database, and calls on one of its parts.
pub mod Calls
use oldman_agent.Prelude.{ℕ, String, Bool, Option, List}
use oldman_agent.Exec.{Exec, Result}
use oldman_agent.Json.{Json}
use oldman_agent.Books.{Books}
use oldman_agent.Archive.{Archive}
use oldman_agent.Village.{Village}

-- app/storage/migrations/007_canary_pool.sql
pub record CanaryRow : Type 0 where
  pub canary_id : String
  pub planted_ts : ℕ
  pub topic : String
  pub answer_key : Json
  pub used : Bool
  pub used_ts : Option ℕ
  pub target_agent : Option String

pub record Db (R : Type 0) : Type 0 where
  pub books : Books
  pub archive : Archive
  pub village : Village R
  pub canaries : List CanaryRow

module _ {R A : Type 0} where
  unfoldable pub on_books : Exec Books A → Exec (Db R) A
  on_books m s = let (r, books) = m s.books in (r, record s { books = books })

  unfoldable pub on_archive : Exec Archive A → Exec (Db R) A
  on_archive m s = let (r, archive) = m s.archive in (r, record s { archive = archive })

  unfoldable pub on_village : Exec (Village R) A → Exec (Db R) A
  on_village m s = let (r, village) = m s.village in (r, record s { village = village })
