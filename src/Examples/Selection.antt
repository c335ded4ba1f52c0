-- ===== src/Examples/Selection.antt =====
-- The theorems on the selection of reflections and on sanctions, on concrete rows.
use oldman_agent.Prelude.{◌≡◌, refl, true, some, [], ◌∷◌, take}
use oldman_agent.Exec.Ends.{Ends}
use oldman_agent.Table.{find, select}
use oldman_agent.Archive.{Archive, ReflectionRow, agent_scope, pair_scope, newest_first}
use oldman_agent.Narrative.Evidence.{reflects, select_reflections}
use oldman_agent.Narrative.Evidence.Like.{
  is_literal, concerns, select_reflections-literal, reflects-wildcard,
}
use oldman_agent.Erc8004.{Erc8004Registration, IdentityRegistry, register, registered}
use oldman_agent.Erc8004.Registered.{IsNumbered, Registered, register-Registered}
use oldman_agent.Sanctions.{apply_sanction_effects}
use oldman_agent.Sanctions.Carried.{Carried, apply_sanction-Carried}
use oldman_agent.Examples.{whole}
use oldman_agent.Examples.Village.{village}

abbrev on_alice : ReflectionRow
on_alice = record {
  reflection_id = "r1";
  ts = 10;
  scope = agent_scope;
  subject = "alice";
  text = "honest";
  event_range_start = 1;
  event_range_end = 9;
  source_event_ids = "e1" ∷ [];
}

abbrev on_pair : ReflectionRow
on_pair = record on_alice { reflection_id = "r2"; scope = pair_scope; subject = "botx1:bob" }

abbrev archive : Archive
archive = record {
  events = [];
  episodic = [];
  semantic = [];
  identities = [];
  reflections = on_alice ∷ on_pair ∷ [];
}

select_reflections-literal_example :
    select_reflections (some "alice") 5 archive
    ≡ take 5 (newest_first (λ r. r.ts) (select (concerns "alice") archive.reflections))
unfolding is_literal
select_reflections-literal_example = select_reflections-literal "alice" 5 archive refl

-- The reflection on `botx1` and `bob` is evidence on `bot_1`.
reflects-wildcard_example : reflects (some "bot_1") on_pair ≡ true
reflects-wildcard_example = reflects-wildcard "bot" "1" "bob" "x" on_pair refl refl

apply_sanction-Carried_example :
    Ends
      (apply_sanction_effects whole "mallory" true (some 3) village)
      []
      (Carried whole "mallory" true (some 3) village [])
apply_sanction-Carried_example = apply_sanction-Carried whole "mallory" true (some 3) village []

abbrev shop : Erc8004Registration
shop = record {
  agent_id = 1;
  agent_domain = "shop.example";
  did = "did:key:z1";
  chain = "mock:local";
  registration_file = record {
    name = "shop.example";
    did = "did:key:z1";
    endpoint = "http://shop.example/.well-known/agent-card.json";
  };
}

abbrev registry : IdentityRegistry
registry = record { chain = "mock:local"; by_domain = shop ∷ []; by_id = shop ∷ [] }

registry-IsNumbered : IsNumbered registry
unfolding registered find
registry-IsNumbered = record { numbered = (refl, tt); known = (refl, tt) }

register-Registered_example :
    Ends
      (register "farm.example" "did:key:z2" "http://farm.example")
      registry
      (Registered "farm.example" registry)
register-Registered_example =
    register-Registered "farm.example" "did:key:z2" "http://farm.example" registry
      registry-IsNumbered
