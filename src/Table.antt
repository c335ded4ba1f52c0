-- ===== src/Table.antt =====
-- Tables of a database as lists of rows in insertion order: what the SQL of the source uses of them.
pub mod Updates
use oldman_agent.Prelude.{
  ℕ, ◌+◌, String, ◌≡◌, ◌≢◌, refl, Bool, Option, none, some, List, [], ◌∷◌, ◌++◌, arith,
  if◌then◌else◌, ◌==◌, eq_iff, is_some,
}

module _ {R : Type 0} where
  -- `SELECT … WHERE p`, first row
  unfoldable pub find : (R → Bool) → List R → Option R
  find p [] = none
  find p (r ∷ rs) = if p r then some r else find p rs

  -- `UPDATE … SET f WHERE p`, every row
  unfoldable pub update : (R → Bool) → (R → R) → List R → List R
  update p f [] = []
  update p f (r ∷ rs) = (if p r then f r else r) ∷ update p f rs

  -- `SELECT … WHERE p`, all rows
  unfoldable pub select : (R → Bool) → List R → List R
  select p [] = []
  select p (r ∷ rs) = let rest = select p rs in if p r then r ∷ rest else rest

  -- `SELECT SUM(f)`
  unfoldable pub sum : (R → ℕ) → List R → ℕ
  sum f [] = 0
  sum f (r ∷ rs) = f r + sum f rs

  pub sum-append : (f : R → ℕ) (xs ys : List R) → sum f (xs ++ ys) ≡ sum f xs + sum f ys
  unfolding sum
  sum-append f [] ys = omega arith
  sum-append f (r ∷ rs) ys = omega (arith, sum-append f rs ys)

  -- A row that is found stays the first one.
  pub find-append_some :
      (p : R → Bool) (r : R) (xs ys : List R) → find p xs ≡ some r → find p (xs ++ ys) ≡ some r
  unfolding find
  find-append_some p r [] ys h = ground arith
  find-append_some p r (x ∷ xs) ys h = ground (arith, find-append_some p r xs ys)

  -- An update of no row changes nothing.
  pub update-none : (p : R → Bool) (f : R → R) (rs : List R) → find p rs ≡ none → update p f rs ≡ rs
  unfolding find update
  update-none p f [] h = refl
  update-none p f (r ∷ rs) h = ground (arith, update-none p f rs)

-- Tables with a `PRIMARY KEY`.
module _ {R : Type 0} (key : R → String) where
  abbrev pub by_key : String → R → Bool
  by_key a r = key r == a

  -- No two rows have one key.
  abbrev pub IsKeyed : List R → Type 0
  IsKeyed [] = Unit
  IsKeyed (r ∷ rs) = (find (by_key (key r)) rs ≡ none) × IsKeyed rs

  find-append_one :
      (a : String) (r : R) (rs : List R)
      → find (by_key a) rs ≡ none
      → key r ≢ a
      → find (by_key a) (rs ++ r ∷ []) ≡ none
  unfolding find
  find-append_one a r [] h d = ground (arith, eq_iff (key r) a)
  find-append_one a r (x ∷ rs) h d = ground (arith, find-append_one a r rs, eq_iff (key r) a)

  pub IsKeyed-append :
      (r : R) (rs : List R) → IsKeyed rs → find (by_key (key r)) rs ≡ none → IsKeyed (rs ++ r ∷ [])
  unfolding find
  IsKeyed-append r [] k h = (refl, tt)
  IsKeyed-append r (x ∷ rs) k h = ground (
    arith,
    IsKeyed-append r rs k.1,
    find-append_one (key x) r rs k.0,
    eq_iff (key r) (key x),
    eq_iff (key x) (key r),
  )

  module _ (a : String) (f : R → R) (same : (r : R) → key (f r) ≡ key r) where
    pub find-update_ne :
        (b : String) (rs : List R)
        → a ≢ b
        → find (by_key b) (update (by_key a) f rs) ≡ find (by_key b) rs
    unfolding find update
    find-update_ne b [] d = refl
    find-update_ne b (r ∷ rs) d = ground (
      arith,
      find-update_ne b rs d,
      same r,
      eq_iff (key r) a,
      eq_iff (key r) b,
      eq_iff (key (f r)) b,
    )

    pub find-update_self :
        (r : R) (rs : List R)
        → find (by_key a) rs ≡ some r
        → find (by_key a) (update (by_key a) f rs) ≡ some (f r)
    unfolding find update
    find-update_self r [] h = ground arith
    find-update_self r (x ∷ rs) h =
        ground (arith, find-update_self r rs, same x, eq_iff (key x) a, eq_iff (key (f x)) a)

    find-update-none :
        (b : String) (rs : List R)
        → find (by_key b) rs ≡ none
        → find (by_key b) (update (by_key a) f rs) ≡ none
    unfolding find update
    find-update-none b [] h = refl
    find-update-none b (r ∷ rs) h =
        ground (arith, find-update-none b rs, same r, eq_iff (key r) b, eq_iff (key (f r)) b)

    pub is_some-find-update :
        (b : String) (rs : List R)
        → is_some (find (by_key b) (update (by_key a) f rs)) ≡ is_some (find (by_key b) rs)
    unfolding find update
    is_some-find-update b [] = refl
    is_some-find-update b (r ∷ rs) =
        ground (arith, is_some-find-update b rs, same r, eq_iff (key r) b, eq_iff (key (f r)) b)

    pub IsKeyed-update : (rs : List R) → IsKeyed rs → IsKeyed (update (by_key a) f rs)
    unfolding update
    IsKeyed-update [] k = tt
    IsKeyed-update (r ∷ rs) k =
        ground (arith, IsKeyed-update rs k.1, same r, find-update-none (key r) rs k.0)

  -- Only the row of the key changes a sum.
  pub sum-update :
      (a : String) (f : R → R) (g : R → ℕ) (r : R) (rs : List R)
      → IsKeyed rs
      → find (by_key a) rs ≡ some r
      → sum g (update (by_key a) f rs) + g r ≡ sum g rs + g (f r)
  unfolding find update sum
  sum-update a f g r [] k h = ground arith
  sum-update a f g r (x ∷ rs) k h =
      ground (arith, sum-update a f g r rs k.1, update-none (by_key a) f rs, eq_iff (key x) a)
