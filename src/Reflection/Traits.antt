-- ===== src/Reflection/Traits.antt =====
-- app/reflection/traits_compile.py: the traits of an agent, merged over its reflections.
pub mod Merge
use oldman_agent.Prelude.{
  ℕ, String, Option, none, some, List, [], ◌∷◌, ◌++◌, take, is_some, if◌then◌else◌,
}
use oldman_agent.Prelude.Dedup.{dedup}
use oldman_agent.Exec.{Exec, modify}
use oldman_agent.Table.{find, update}
use oldman_agent.Archive.{Archive, SemanticRow, Traits, semantic_of, third_party}

-- `_EVIDENCE_CAP`
abbrev pub evidence_cap : ℕ
evidence_cap = 50

-- `existing.get("descriptors", [])`
abbrev pub descriptors_of : Option Traits → List String
descriptors_of none = []
descriptors_of (some t) = t.descriptors

abbrev pub evidence_of : Option Traits → List String
evidence_of none = []
evidence_of (some t) = t.evidence_event_ids

unfoldable pub merge_traits : Option Traits → Traits → Traits
merge_traits existing new = record {
  summary = new.summary;
  descriptors = dedup (descriptors_of existing ++ new.descriptors);
  evidence_event_ids = take evidence_cap (dedup (new.evidence_event_ids ++ evidence_of existing));
}

abbrev pub applied_traits : String → Traits → ℕ → List SemanticRow → List SemanticRow
applied_traits a t now rows =
    if is_some (find (semantic_of a) rows)
    then update (semantic_of a) (λ r. record r { traits = some t; last_updated = now }) rows
    else rows
      ++ record {
        agent_id = a;
        traits = some t;
        source_type = third_party;
        corroboration_count = 1;
        first_seen_ts = now;
        last_updated = now;
      }
        ∷ []

unfoldable pub apply_traits : String → Traits → ℕ → Exec Archive (Unit {0})
apply_traits a t now = modify λ s. record s { semantic = applied_traits a t now s.semantic }
