-- ===== src/Erc8004.antt =====
-- app/trust/erc8004.py: the mock registries. A dictionary is the list of its values in the order of
-- insertion, each under the key that it holds.

pub mod Registered
use Prim.Native.String.{String, ◌++◌}
use oldman_agent.Prelude.{
  ℕ, ◌+◌, Bool, true, false, not, Option, none, some, List, [], ◌∷◌, ◌++◌ as ◌+++◌, length, leb,
  eqb, is_some, if◌then◌else◌, ◌==◌,
}
use oldman_agent.Exec.{Exec, Result, value_error, pure, gets, modify, raise_if, ◌>>=◌, ◌>>◌}
use oldman_agent.Table.{find, update, select}

-- What the registration file says that is not fixed.
pub record RegistrationFile : Type 0 where
  pub name : String
  pub did : String
  pub endpoint : String

pub record Erc8004Registration : Type 0 where
  pub agent_id : ℕ
  pub agent_domain : String
  pub did : String
  pub chain : String
  pub registration_file : RegistrationFile

-- `MockERC8004IdentityRegistry`
pub record IdentityRegistry : Type 0 where
  pub chain : String
  pub by_domain : List Erc8004Registration
  pub by_id : List Erc8004Registration

abbrev pub of_domain : String → Erc8004Registration → Bool
of_domain domain r = r.agent_domain == domain

abbrev pub of_id : ℕ → Erc8004Registration → Bool
of_id id r = eqb r.agent_id id

-- `d[key] = value`, where `p` holds of the values under that key
abbrev pub with_value :
    (Erc8004Registration → Bool)
    → Erc8004Registration
    → List Erc8004Registration
    → List Erc8004Registration
with_value p r rs = if is_some (find p rs) then update p (λ _. r) rs else rs +++ r ∷ []

abbrev pub registration : IdentityRegistry → String → String → String → Erc8004Registration
registration s domain did endpoint = record {
  agent_id = length s.by_id + 1;
  agent_domain = domain;
  did = did;
  chain = s.chain;
  registration_file = record {
    name = domain;
    did = did;
    endpoint = endpoint ++ "/.well-known/agent-card.json";
  };
}

abbrev pub enter : Erc8004Registration → IdentityRegistry → IdentityRegistry
enter r s = record s {
  by_domain = with_value (of_domain r.agent_domain) r s.by_domain;
  by_id = with_value (of_id r.agent_id) r s.by_id;
}

abbrev pub register_unless :
    Option Erc8004Registration
    → String
    → String
    → String
    → Exec IdentityRegistry Erc8004Registration
register_unless (some existing) domain did endpoint = pure existing
register_unless none domain did endpoint = do
  r ← gets (λ s. registration s domain did endpoint)
  modify (enter r)
  pure r

-- `register`
unfoldable pub register : String → String → String → Exec IdentityRegistry Erc8004Registration
register domain did endpoint = do
  existing ← gets (λ s. find (of_domain domain) s.by_domain)
  register_unless existing domain did endpoint

-- `get`
unfoldable pub registered : ℕ → IdentityRegistry → Option Erc8004Registration
registered id s = find (of_id id) s.by_id

pub record Erc8004Feedback : Type 0 where
  pub agent_id : ℕ
  pub score : ℕ
  pub tag : String

-- `give_feedback` of `MockERC8004ReputationRegistry`, whose state is its feedbacks
unfoldable pub give_feedback : ℕ → ℕ → String → Exec (List Erc8004Feedback) Erc8004Feedback
give_feedback id score tag = do
  raise_if (not (leb score 100)) value_error
  let feedback : Erc8004Feedback = record { agent_id = id; score = score; tag = tag }
  modify λ s. s +++ feedback ∷ []
  pure feedback

unfoldable pub feedbacks_for : ℕ → List Erc8004Feedback → List Erc8004Feedback
feedbacks_for id s = select (λ f. eqb f.agent_id id) s
