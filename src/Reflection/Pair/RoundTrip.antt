-- ===== src/Reflection/Pair/RoundTrip.antt =====
-- Joining and splitting the subject of a pair.
use Prim.Native.Char.{code}
use Prim.Native.String.{String, [], ◌∷◌, ◌++◌}
use Prim.Native.String.append
use oldman_agent.Prelude.{◌≡◌, refl, Bool, false, ◌||◌, some, eqb, arith}
use oldman_agent.Reflection.Pair.{colon, join_pair, split_pair}

-- `":" in text`
unfoldable pub has_colon : String → Bool
has_colon [] = false
has_colon (c ∷ rest) = eqb (code c) colon || has_colon rest

-- A pair of ids is split as it was joined, if the observer's id has no colon. The observed agent's
-- id may have one.
pub split_pair-join_pair :
    (observer observed : String)
    → has_colon observer ≡ false
    → split_pair (join_pair observer observed) ≡ some (observer, observed)
unfolding has_colon split_pair join_pair
split_pair-join_pair [] observed h =
    rw (append.nil (":" ++ observed))
      (rw (append.cons _ [] observed) (rw (append.nil observed) refl))
split_pair-join_pair (c ∷ rest) observed h =
    rw (append.cons c rest (":" ++ observed)) (ground (arith, split_pair-join_pair rest observed))
