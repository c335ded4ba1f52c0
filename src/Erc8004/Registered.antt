-- ===== src/Erc8004/Registered.antt =====
-- What registering an agent leaves in the registry of identities.
use mathlib.Core.Path.{subst}
use Prim.Native.String.{String}
use oldman_agent.Prelude.{
  ℕ, suc, ◌+◌, ◌≤◌, ◌≡◌, refl, Bool, true, false, Bool-cases, eq_iff, sym, inl, inr, Option, none,
  some, List, [], ◌∷◌, ◌++◌, length, All, arith,
}
use oldman_agent.Exec.{Result, ok, err, ◌>>=◌}
use oldman_agent.Exec.Ends.{Ends, Ends-bind, Ends-gets}
use oldman_agent.Table.{find, find-append_some}
use oldman_agent.Table.Updates.{find-append_new}
use oldman_agent.Erc8004.{
  Erc8004Registration, IdentityRegistry, of_domain, of_id, registration, enter, register_unless,
  register, registered,
}

-- The ids are `n` and those that follow it.
abbrev pub Numbered : ℕ → List Erc8004Registration → Type 0
Numbered n [] = Unit
Numbered n (r ∷ rs) = (r.agent_id ≡ n) × Numbered (suc n) rs

-- The ids are 1, 2 and so on, and a registration under a domain stands under its id too.
pub record IsNumbered (s : IdentityRegistry) : Type 0 where
  pub numbered : Numbered 1 s.by_id
  pub known : All (λ r. registered r.agent_id s ≡ some r) s.by_domain

find-Numbered :
    (n m : ℕ) (rs : List Erc8004Registration)
    → Numbered n rs
    → n + length rs ≤ m
    → find (of_id m) rs ≡ none
unfolding find
find-Numbered n m [] h k = refl
find-Numbered n m (r ∷ rs) h k = ground (arith, find-Numbered (suc n) m rs h.1, h.0)

append-Numbered :
    (n : ℕ) (r : Erc8004Registration) (rs : List Erc8004Registration)
    → Numbered n rs
    → r.agent_id ≡ length rs + n
    → Numbered n (rs ++ r ∷ [])
append-Numbered n r [] h k = (ground arith, tt)
append-Numbered n r (x ∷ rs) h k = (h.0, append-Numbered (suc n) r rs h.1 (ground arith))

find-All :
    (P : Erc8004Registration → Type 0) (p : Erc8004Registration → Bool) (r : Erc8004Registration)
    (rs : List Erc8004Registration)
    → find p rs ≡ some r
    → All P rs
    → P r
unfolding find
find-All P p r [] h k = absurd (ground arith)
find-All P p r (x ∷ rs) h k = elim (Bool-cases (p x)) [
  | inl hit ↦ subst P (first hit) k.0
  | inr miss ↦ find-All P p r rs (later miss) k.1
]
  where
    first : p x ≡ true → x ≡ r
    first hit = ground arith

    later : p x ≡ false → find p rs ≡ some r
    later miss = ground arith

All-append :
    (P : Erc8004Registration → Type 0) (r : Erc8004Registration) (rs : List Erc8004Registration)
    → All P rs
    → P r
    → All P (rs ++ r ∷ [])
All-append P r [] h k = (k, tt)
All-append P r (x ∷ rs) h k = (h.0, All-append P r rs h.1 k)

All-map :
    (P Q : Erc8004Registration → Type 0) (rs : List Erc8004Registration)
    → ((r : Erc8004Registration) → P r → Q r)
    → All P rs
    → All Q rs
All-map P Q [] f h = tt
All-map P Q (r ∷ rs) f h = (f r h.0, All-map P Q rs f h.1)

-- The registration `r` of the domain, and what was there before.
pub record IsRegistered (domain : String) (s : IdentityRegistry) (r : Erc8004Registration)
    (s' : IdentityRegistry) : Type 0 where
  pub still_numbered : IsNumbered s'
  pub under_domain : find (of_domain domain) s'.by_domain ≡ some r
  pub under_id : registered r.agent_id s' ≡ some r
  pub kept :
      (id : ℕ) (x : Erc8004Registration) → registered id s ≡ some x → registered id s' ≡ some x
  pub again : (did endpoint : String) → register domain did endpoint s' ≡ (ok r, s')

abbrev pub Registered :
    String → IdentityRegistry → Result Erc8004Registration → IdentityRegistry → Type 0
Registered domain s (ok r) s' = IsRegistered domain s r s'
Registered domain s (err e) s' = ⊥

register_found :
    (domain did endpoint : String) (r : Erc8004Registration) (s : IdentityRegistry)
    → find (of_domain domain) s.by_domain ≡ some r
    → register domain did endpoint s ≡ (ok r, s)
unfolding register ◌>>=◌
register_found domain did endpoint r s h = rw h refl

module _ (domain did endpoint : String) (s : IdentityRegistry) (h : IsNumbered s) where
  abbrev fresh : Erc8004Registration
  fresh = registration s domain did endpoint

  unused : find (of_id (length s.by_id + 1)) s.by_id ≡ none
  unused = find-Numbered 1 (length s.by_id + 1) s.by_id h.numbered (ground arith)

  entered :
      find (of_domain domain) s.by_domain ≡ none
      → enter fresh s
        ≡ record s { by_domain = s.by_domain ++ fresh ∷ []; by_id = s.by_id ++ fresh ∷ [] }
  entered missing = rw missing (rw unused refl)

  register-IsRegistered :
      find (of_domain domain) s.by_domain ≡ none
      → IsRegistered domain s fresh
          (record s { by_domain = s.by_domain ++ fresh ∷ []; by_id = s.by_id ++ fresh ∷ [] })
  unfolding registered
  register-IsRegistered missing =
      let under =
        find-append_new (of_domain domain) fresh s.by_domain missing
          (ground (arith, eq_iff domain domain)) in
      let there = find-append_new (of_id fresh.agent_id) fresh s.by_id unused (ground arith) in
      record {
        still_numbered = record {
          numbered = append-Numbered 1 fresh s.by_id h.numbered refl;
          known =
              All-append _ fresh s.by_domain
                (All-map _ _ s.by_domain (λ r k. find-append_some _ r s.by_id _ k) h.known) there;
        };
        under_domain = under;
        under_id = there;
        kept = λ id x k. find-append_some _ x s.by_id _ k;
        again = λ did' endpoint'. register_found domain did' endpoint' fresh _ under;
      }

  register-unless_Registered :
      (existing : Option Erc8004Registration)
      → find (of_domain domain) s.by_domain ≡ existing
      → Ends (register_unless existing domain did endpoint) s (Registered domain s)
  unfolding ◌>>=◌
  register-unless_Registered (some r) found = record {
    at = record {
      still_numbered = h;
      under_domain = found;
      under_id = find-All _ (of_domain domain) r s.by_domain found h.known;
      kept = λ id x k. k;
      again = λ did' endpoint'. register_found domain did' endpoint' r s found;
    };
  }
  register-unless_Registered none missing = record {
    at =
        subst (IsRegistered domain s fresh) (sym (entered missing)) (register-IsRegistered missing);
  }

  -- In a registry that is numbered and keeps what it has under a domain under its id too, registering
  -- never raises and keeps both. The registration that it returns is found under the domain and under
  -- its id, every registration that was there is still under its id, and registering the domain again,
  -- whatever the DID and the endpoint, returns the same one and changes nothing.
  pub register-Registered : Ends (register domain did endpoint) s (Registered domain s)
  unfolding register
  register-Registered =
      Ends-bind _ _ s _
        (Ends-gets _ s _ (register-unless_Registered (find (of_domain domain) s.by_domain) refl))
