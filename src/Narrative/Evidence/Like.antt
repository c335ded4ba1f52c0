-- ===== src/Narrative/Evidence/Like.antt =====
-- What the LIKE patterns of `_select_reflections` match.
use Prim.Native.Char.{Char, code}
use Prim.Native.String.{String, ◌++◌}
use Prim.Native.String.append
use text.Mathlib.TextLemmas.{append_assoc}
use oldman_agent.Prelude.{
  ℕ, take, ◌≡◌, refl, sym, ap, ◌∙◌, Bool, true, false, not, ◌&&◌, ◌||◌, eqb, arith, some, ◌==◌,
}
use oldman_agent.Archive.{Archive, ReflectionRow, agent_scope, pair_scope, newest_first}
use oldman_agent.Table.{select}
use mathlib.Core.Path.{fun_ext}
use oldman_agent.Reflection.State.{same_scope}
use oldman_agent.Narrative.Evidence.{is_empty, any_suffix, like, reflects, select_reflections}

-- No `%` and no `_`.
unfoldable pub is_literal : String → Bool
is_literal String.[] = true
is_literal (String.◌∷◌ c s) = not (eqb (code c) b'%' || eqb (code c) b'_') && is_literal s

-- `s.startswith(p)`
unfoldable pub begins : String → String → Bool
begins String.[] s = true
begins (String.◌∷◌ c p) String.[] = false
begins (String.◌∷◌ c p) (String.◌∷◌ d s) = eqb (code c) (code d) && begins p s

-- The texts have the same characters.
unfoldable pub same_chars : String → String → Bool
same_chars String.[] s = is_empty s
same_chars (String.◌∷◌ c p) String.[] = false
same_chars (String.◌∷◌ c p) (String.◌∷◌ d s) = eqb (code c) (code d) && same_chars p s

-- `s.endswith(p)`
unfoldable pub ends : String → String → Bool
ends p String.[] = same_chars p ""
ends p (String.◌∷◌ c s) = same_chars p (String.◌∷◌ c s) || ends p s

any_suffix-empty : (s : String) → any_suffix is_empty s ≡ true
any_suffix-empty String.[] = refl
any_suffix-empty (String.◌∷◌ c s) = any_suffix-empty s

like-any : (s : String) → like "%" s ≡ true
unfolding like
like-any String.[] = refl
like-any (String.◌∷◌ c s) = like-any s

like-begins : (p s : String) → is_literal p ≡ true → like (p ++ "%") s ≡ begins p s
unfolding is_literal begins like
like-begins String.[] s h = like-any s
like-begins (String.◌∷◌ c p) String.[] h = rw (append.cons c p "%") (ground arith)
like-begins (String.◌∷◌ c p) (String.◌∷◌ d s) h =
    rw (append.cons c p "%") (ground (arith, like-begins p s))

like-same : (p s : String) → is_literal p ≡ true → like p s ≡ same_chars p s
unfolding is_literal same_chars like
like-same String.[] s h = refl
like-same (String.◌∷◌ c p) String.[] h = ground arith
like-same (String.◌∷◌ c p) (String.◌∷◌ d s) h = ground (arith, like-same p s)

any_suffix-ends : (p s : String) → is_literal p ≡ true → any_suffix (like p) s ≡ ends p s
unfolding ends
any_suffix-ends p String.[] h = like-same p "" h
any_suffix-ends p (String.◌∷◌ c s) h =
    rw (like-same p (String.◌∷◌ c s) h) (rw (any_suffix-ends p s h) refl)

like-ends : (p s : String) → is_literal p ≡ true → like (String.◌∷◌ "%" p) s ≡ ends p s
unfolding like
like-ends p s h = any_suffix-ends p s h

is_literal-colon : (a : String) → is_literal a ≡ true → is_literal (a ++ ":") ≡ true
unfolding is_literal
is_literal-colon String.[] h = refl
is_literal-colon (String.◌∷◌ c a) h = rw (append.cons c a ":") (ground (arith, is_literal-colon a))

one-append : (c : Char) (a : String) → String.◌∷◌ c "" ++ a ≡ String.◌∷◌ c a
one-append c a = append.cons c "" a ∙ ap (String.◌∷◌ c) (append.nil a)

like-observer : (a s : String) → is_literal a ≡ true → like (a ++ ":%") s ≡ begins (a ++ ":") s
like-observer a s h =
    ap (λ p. like p s) (sym (append_assoc a ":" "%"))
    ∙ like-begins (a ++ ":") s (is_literal-colon a h)

like-observed : (a s : String) → is_literal a ≡ true → like ("%:" ++ a) s ≡ ends (":" ++ a) s
unfolding is_literal
like-observed a s h =
    ap (λ p. like p s) (append.cons "%" ":" a)
    ∙ like-ends (":" ++ a) s (rw (one-append ":" a) (ground arith))

-- The reflections on an agent, and on the pairs in which it is the first or the last.
abbrev pub concerns : String → ReflectionRow → Bool
concerns a r =
    (same_scope r.scope agent_scope && (r.subject == a))
    || (same_scope r.scope pair_scope && (begins (a ++ ":") r.subject || ends (":" ++ a) r.subject))

reflects-literal :
    (a : String) (r : ReflectionRow) → is_literal a ≡ true → reflects (some a) r ≡ concerns a r
reflects-literal a r h = rw (like-observer a r.subject h) (rw (like-observed a r.subject h) refl)

like-prefix : (p u v : String) → like u v ≡ true → like (p ++ u) (p ++ v) ≡ true
unfolding like
like-prefix String.[] u v h = rw (append.nil u) (rw (append.nil v) h)
like-prefix (String.◌∷◌ c p) u v h =
    rw (append.cons c p u)
      (rw (append.cons c p v) (ground (arith, like-prefix p u v h, any p u (p ++ v))))
  where
    any : (p u s : String) → like (p ++ u) s ≡ true → any_suffix (like (p ++ u)) s ≡ true
    any p u String.[] k = k
    any p u (String.◌∷◌ d s) k = rw k refl

like-wildcard :
    (p q rest : String) (c : Char)
    → like ((p ++ ("_" ++ q)) ++ ":%") (p ++ String.◌∷◌ c (q ++ (":" ++ rest))) ≡ true
unfolding like
like-wildcard p q rest c = rw (append_assoc p ("_" ++ q) ":%") (like-prefix p _ _ one)
  where
    one : like (("_" ++ q) ++ ":%") (String.◌∷◌ c (q ++ (":" ++ rest))) ≡ true
    one = rw (append_assoc "_" q ":%") (
        rw (one-append "_" (q ++ ":%"))
          (like-prefix q ":%" (":" ++ rest) (rw (one-append ":" rest) (like-any rest))))

-- For an agent whose id has no `%` and no `_`, the reflections are the newest ones on the agent itself
-- and on the pairs whose subject begins with the id and a colon or ends with a colon and the id.
pub select_reflections-literal :
    (a : String) (limit : ℕ) (s : Archive)
    → is_literal a ≡ true
    → select_reflections (some a) limit s
      ≡ take limit (newest_first (λ r. r.ts) (select (concerns a) s.reflections))
unfolding select_reflections
select_reflections-literal a limit s h =
    ap (λ p. take limit (newest_first (λ r. r.ts) (select p s.reflections)))
      (fun_ext (λ r. reflects-literal a r h))

-- For an agent whose id has a `_`, a reflection on a pair is selected also if its observer has any
-- other character in that place.
pub reflects-wildcard :
    (p q rest : String) (c : Char) (r : ReflectionRow)
    → r.scope ≡ pair_scope
    → r.subject ≡ p ++ String.◌∷◌ c (q ++ (":" ++ rest))
    → reflects (some (p ++ ("_" ++ q))) r ≡ true
reflects-wildcard p q rest c r h k = rw h (rw k (rw (like-wildcard p q rest c) refl))
