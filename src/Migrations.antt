-- ===== src/Migrations.antt =====
-- The migration runner of app/storage/db.py. What an SQL script does to the tables is a parameter.
pub mod Again
use oldman_agent.Prelude.{
  ℕ, zero, suc, ◌+◌, ◌-◌, ◌*◌, String, Bool, true, false, ◌&&◌, ◌||◌, Option, none, some, List, [],
  ◌∷◌, ◌++◌, leb, ltb, eqb, if◌then◌else◌,
}
use oldman_agent.Exec.{
  Exec, Result, duplicate_key, pure, gets, modify, raise_if, transaction, ◌>>=◌, ◌>>◌,
}
use oldman_agent.Narrative.Text.{Text, codes, same_text}

-- A file of the migrations directory.
pub record SqlFile : Type 0 where
  pub name : Text
  pub sql : String

pub record Migration : Type 0 where
  pub version : ℕ
  pub script : String

-- `\d`, of the ASCII digits
abbrev pub is_digit : ℕ → Bool
is_digit c = leb b'0' c && leb c b'9'

-- `text.endswith(".sql")`
unfoldable pub ends_in_sql : Text → Bool
ends_in_sql [] = false
ends_in_sql (c ∷ s) = same_text (c ∷ s) (codes ".sql") || ends_in_sql s

abbrev after_digits : Bool → ℕ → Text → Option ℕ
after_digits seen n s = if seen && ends_in_sql s then some n else none

-- `^(\d+)_.*\.sql$`, with the digits read so far and whether there were any
unfoldable pub version_from : Bool → ℕ → Text → Option ℕ
version_from seen n [] = none
version_from seen n (c ∷ s) =
    let more = version_from true (n * 10 + (c - b'0')) s in
    if is_digit c then more else if eqb c b'_' then after_digits seen n s else none

-- `sorted(found, key=lambda x: x[0])`
unfoldable pub insert_version_order : Migration → List Migration → List Migration
insert_version_order m [] = m ∷ []
insert_version_order m (x ∷ xs) =
    let later = x ∷ insert_version_order m xs in
    if leb m.version x.version then m ∷ x ∷ xs else later

abbrev with_version : SqlFile → Option ℕ → List Migration → List Migration
with_version f none found = found
with_version f (some v) found = insert_version_order (record { version = v; script = f.sql }) found

-- `_discover_migrations`, from the files in the order of their names
unfoldable pub discover_migrations : List SqlFile → List Migration
discover_migrations [] = []
discover_migrations (f ∷ fs) = with_version f (version_from false 0 f.name) (discover_migrations fs)

unfoldable pub has_version : ℕ → List ℕ → Bool
has_version v [] = false
has_version v (x ∷ xs) = eqb x v || has_version v xs

-- The tables, and the rows of `_schema_version`.
pub record Schema (T : Type 0) : Type 0 where
  pub tables : T
  pub versions : List ℕ

module _ {T : Type 0} (run_sql : String → Exec T (Unit {0})) where
  abbrev pub on_tables : String → Exec (Schema T) (Unit {0})
  on_tables sql s = let (r, tables) = run_sql sql s.tables in (r, record s { tables = tables })

  -- `INSERT INTO _schema_version(version)`, its primary key
  unfoldable pub record_version : ℕ → Exec (Schema T) (Unit {0})
  record_version v = do
    taken ← gets (λ s. has_version v s.versions)
    raise_if taken duplicate_key
    modify λ s. record s { versions = s.versions ++ v ∷ [] }

  -- One script with its version, in one transaction.
  unfoldable pub migrate : Migration → Exec (Schema T) (Unit {0})
  migrate m = transaction (on_tables m.script >> record_version m.version)

  -- The loop, with the versions that were applied when it began.
  unfoldable pub apply_each : List ℕ → List Migration → Exec (Schema T) (Unit {0})
  apply_each applied [] = pure tt
  apply_each applied (m ∷ ms) =
      (if has_version m.version applied then pure tt else migrate m) >> apply_each applied ms

  unfoldable pub apply_migrations : List SqlFile → Exec (Schema T) (Unit {0})
  apply_migrations files = do
    applied ← gets (λ s. s.versions)
    apply_each applied (discover_migrations files)
