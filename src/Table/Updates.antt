-- ===== src/Table/Updates.antt =====
-- A search after an update whose condition is not the searched key.
use oldman_agent.Prelude.{◌≡◌, refl, Bool, true, false, none, some, List, [], ◌∷◌, ◌++◌, arith}
use oldman_agent.Table.{find, update}

module _ {R : Type 0} where
  -- A found row satisfies the condition.
  pub find_holds : (p : R → Bool) (r : R) (rs : List R) → find p rs ≡ some r → p r ≡ true
  unfolding find
  find_holds p r [] h = absurd (ground arith)
  find_holds p r (x ∷ rs) h = ground (arith, find_holds p r rs)

  -- The first row that satisfies it is appended.
  pub find-append_new :
      (p : R → Bool) (r : R) (rs : List R)
      → find p rs ≡ none
      → p r ≡ true
      → find p (rs ++ r ∷ []) ≡ some r
  unfolding find
  find-append_new p r [] h k = ground arith
  find-append_new p r (x ∷ rs) h k = ground (arith, find-append_new p r rs)

module _ {R : Type 0} (p q : R → Bool) (f : R → R) (same : (r : R) → q (f r) ≡ q r) where
  -- The found row is one that the update does not touch.
  pub find-update_kept :
      (r : R) (rs : List R) → find q rs ≡ some r → p r ≡ false → find q (update p f rs) ≡ some r
  unfolding find update
  find-update_kept r [] h k = ground arith
  find-update_kept r (x ∷ rs) h k = ground (arith, find-update_kept r rs, same x)

  -- The found row is one that the update touches.
  pub find-update_hit :
      (r : R) (rs : List R) → find q rs ≡ some r → p r ≡ true → find q (update p f rs) ≡ some (f r)
  unfolding find update
  find-update_hit r [] h k = ground arith
  find-update_hit r (x ∷ rs) h k = ground (arith, find-update_hit r rs, same x)

module _ {R : Type 0} (p q : R → Bool) (f : R → R) where
  -- An update makes no row that satisfies `q`, if none that it writes does.
  pub find-update_never :
      (rs : List R)
      → ((r : R) → q (f r) ≡ true → q r ≡ true)
      → find q rs ≡ none
      → find q (update p f rs) ≡ none
  unfolding find update
  find-update_never [] h k = refl
  find-update_never (x ∷ rs) h k = ground (arith, find-update_never rs h, h x)

  -- Every row that satisfies `q` is written, and no written row does.
  pub find-update_cleared :
      (rs : List R)
      → ((r : R) → q r ≡ true → p r ≡ true)
      → ((r : R) → q (f r) ≡ false)
      → find q (update p f rs) ≡ none
  unfolding find update
  find-update_cleared [] h k = refl
  find-update_cleared (x ∷ rs) h k = ground (arith, find-update_cleared rs h k, h x, k x)
