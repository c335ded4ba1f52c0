-- ===== src/Reflection/Pair.antt =====
-- The subject of a pair reflection, "observer:observed", as app/api/publish.py joins it and the
-- reflection engine splits it.
pub mod RoundTrip
use Prim.Native.Char.{Char, code}
use Prim.Native.String.{String, [], ◌∷◌, ◌++◌}
use oldman_agent.Prelude.{ℕ, Option, none, some, eqb, if◌then◌else◌}
use oldman_agent.Exec.{Exec, Error, pure, raise}

-- The code point of ":"
abbrev pub colon : ℕ
colon = 58

-- `f"{source_agent}:{observed_agent}"`
unfoldable pub join_pair : String → String → String
join_pair observer observed = observer ++ (":" ++ observed)

abbrev pub prepend_to_first : Char → Option (String × String) → Option (String × String)
prepend_to_first c none = none
prepend_to_first c (some (observer, observed)) = some (c ∷ observer, observed)

-- `subject.split(":", 1)`, where there are two parts
unfoldable pub split_pair : String → Option (String × String)
split_pair [] = none
split_pair (c ∷ rest) =
    let later = prepend_to_first c (split_pair rest) in
    if eqb (code c) colon then some ([], rest) else later

-- The two parts of `subject.split(":", 1)`; without the second, unpacking them raises `ValueError`,
-- and reading `parts[1]` raises `IndexError`.
abbrev pub unpack_pair : {S : Type 0} → Error → Option (String × String) → Exec S (String × String)
unpack_pair fault none = raise fault
unpack_pair fault (some parts) = pure parts
