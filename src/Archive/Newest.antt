-- ===== src/Archive/Newest.antt =====
-- The order of `fetch_recent_payloads_by_agent` of app/storage/events.py.
use oldman_agent.Prelude.{ℕ, ◌+◌, ◌≤◌, ◌≡◌, List, [], ◌∷◌, arith}
use oldman_agent.Table.{sum}
use oldman_agent.Archive.{insert_newest, newest_first}

module _ {A : Type 0} (dated : A → ℕ) where
  -- No row is newer than the one before it.
  abbrev pub IsNewestFirst : List A → Type 0
  IsNewestFirst [] = Unit
  IsNewestFirst (x ∷ []) = Unit
  IsNewestFirst (x ∷ y ∷ xs) = (dated y ≤ dated x) × IsNewestFirst (y ∷ xs)

  insert_newest-IsNewestFirst :
      (e : A) (xs : List A) → IsNewestFirst xs → IsNewestFirst (insert_newest dated e xs)
  unfolding insert_newest
  insert_newest-IsNewestFirst e [] h = tt
  insert_newest-IsNewestFirst e (x ∷ []) h = ground arith
  insert_newest-IsNewestFirst e (x ∷ y ∷ xs) h =
      ground (arith, insert_newest-IsNewestFirst e (y ∷ xs) h.1)

  sum-insert_newest :
      (f : A → ℕ) (e : A) (xs : List A) → sum f (insert_newest dated e xs) ≡ f e + sum f xs
  unfolding insert_newest sum
  sum-insert_newest f e [] = omega arith
  sum-insert_newest f e (x ∷ xs) = ground (arith, sum-insert_newest f e xs)

  -- Sorting by date puts no row before a newer one, and keeps every row as often as it was there: all
  -- sums over the rows stay the same.
  pub newest_first_lem :
      (xs : List A)
      → IsNewestFirst (newest_first dated xs)
        × ((f : A → ℕ) → sum f (newest_first dated xs) ≡ sum f xs)
  unfolding newest_first sum
  newest_first_lem [] = (tt, λ f. omega arith)
  newest_first_lem (x ∷ xs) = (
    insert_newest-IsNewestFirst x (newest_first dated xs) (newest_first_lem xs).0,
    λ f. omega (arith, sum-insert_newest f x (newest_first dated xs), (newest_first_lem xs).1 f),
  )
