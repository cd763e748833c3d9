-- ===== src/Research/References.antt =====
-- What `referencesResolve` of data-service/backend/internal/biz/research/biz.go makes sure of.
use tidewise_ai.Prelude.{◌≡◌, String, true, List, [], ◌∷◌, ◌⊎◌}
use tidewise_ai.Prelude.Text.{str_mem}
use tidewise_ai.Entity.{GraphEntityRelation, GraphMembership, GraphIndustryEdge, GraphSubgraph}
use tidewise_ai.Research.{entity_ids, defined_types, chain_ids, member_key}

-- One item at least has a property.
abbrev pub Any : {A : Type 0} → (A → Type 0) → List A → Type 0
Any P [] = ⊥
Any P (x ∷ xs) = P x ⊎ Any P xs

-- A membership of a chain and a node that are both in the graph, under a key.
abbrev pub Joins : GraphSubgraph → String → GraphMembership → Type 0
Joins g key m =
    (member_key m.industry_chain_id m.chain_node_id ≡ key)
    × (str_mem m.industry_chain_id (chain_ids g.industry_chains) ≡ true)
    × (str_mem m.industry_chain_id (entity_ids g.entities) ≡ true)
    × (str_mem m.chain_node_id (entity_ids g.entities) ≡ true)

abbrev pub ResolvedEdge : GraphSubgraph → GraphIndustryEdge → Type 0
ResolvedEdge g e =
    (str_mem e.relation_type (defined_types g.relation_definitions) ≡ true)
    × Any (Joins g (member_key e.industry_chain_id e.from_chain_node_id))
        g.industry_chain_memberships
    × Any (Joins g (member_key e.industry_chain_id e.to_chain_node_id)) g.industry_chain_memberships

abbrev pub ResolvedRelation : GraphSubgraph → GraphEntityRelation → Type 0
ResolvedRelation g r =
    (str_mem r.from_entity_id (entity_ids g.entities) ≡ true)
    × (str_mem r.to_entity_id (entity_ids g.entities) ≡ true)
    × (str_mem r.relation_type (defined_types g.relation_definitions) ≡ true)
