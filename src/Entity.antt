-- ===== src/Entity.antt =====
-- data-service/backend/internal/biz/entity/biz.go: identities of entities, the facts of the research
-- graph, and the tests of the facts of an industry chain.
pub mod Types
use tidewise_ai.Prelude.{
  String, Bool, false, not, ◌||◌, List, [], ◌∷◌, Result, ok, ◌>>◌, reject_if, str_eq, if◌then◌else◌,
}
use tidewise_ai.Prelude.Int.{ℤ, pos, ltb_ℤ}
use tidewise_ai.Prelude.Text.{trim_space, is_blank, str_mem}
use tidewise_ai.Identity.{UuidPackage, is}

module _ (uuid : UuidPackage) where
  abbrev pub is_entity_relation_id : String → Bool
  is_entity_relation_id value = is uuid value "ERL"

  abbrev pub is_country_id : String → Bool
  is_country_id value = is uuid value "COU"

  abbrev pub is_region_id : String → Bool
  is_region_id value = is uuid value "REG"

  abbrev pub is_organization_id : String → Bool
  is_organization_id value = is uuid value "ORG"

  abbrev pub is_industry_id : String → Bool
  is_industry_id value = is uuid value "IND"

  abbrev pub is_concept_id : String → Bool
  is_concept_id value = is uuid value "CON"

  abbrev pub is_chain_node_id : String → Bool
  is_chain_node_id value = is uuid value "CND"

  abbrev pub is_industry_chain_id : String → Bool
  is_industry_chain_id value = is uuid value "ICH"

  -- `IsObjectID`
  unfoldable pub is_object_id : String → Bool
  is_object_id value =
      is_country_id value
      || is_region_id value
      || is_organization_id value
      || is_industry_id value
      || is_concept_id value
      || is_chain_node_id value
      || is_industry_chain_id value

  -- `ObjectTypeMatchesID`
  unfoldable pub object_type_matches_id : String → String → Bool
  object_type_matches_id object_type value =
      if str_eq object_type "country"
      then is_country_id value
      else if str_eq object_type "region"
      then is_region_id value
      else if str_eq object_type "organization"
      then is_organization_id value
      else if str_eq object_type "industry"
      then is_industry_id value
      else if str_eq object_type "concept"
      then is_concept_id value
      else if str_eq object_type "chain_node"
      then is_chain_node_id value
      else if str_eq object_type "industry_chain"
      then is_industry_chain_id value
      else false

-- The facts of a research graph.
pub record GraphEntity : Type 0 where
  pub entity_id : String
  pub entity_type : String
  pub name : String
  pub canonical_name : String
  pub aliases : List String
  pub status : String

pub record GraphRelation : Type 0 where
  pub relation_type : String
  pub direction : String

pub record GraphEntityRelation : Type 0 where
  pub entity_relation_id : String
  pub from_entity_id : String
  pub to_entity_id : String
  pub relation_type : String
  pub status : String

pub record GraphIndustryChain : Type 0 where
  pub industry_chain_id : String
  pub scope : String
  pub target_output : String
  pub end_use : String
  pub geography : String
  pub primary_country_id : String
  pub as_of_date : String
  pub review_status : String

pub record GraphMembership : Type 0 where
  pub industry_chain_id : String
  pub chain_node_id : String
  pub position : ℤ
  pub contextual_stage : String

pub record GraphIndustryEdge : Type 0 where
  pub industry_chain_graph_edge_id : String
  pub industry_chain_id : String
  pub from_chain_node_id : String
  pub to_chain_node_id : String
  pub relation_type : String

pub record GraphSubgraph : Type 0 where
  pub actual_depth : ℤ
  pub entities : List GraphEntity
  pub relation_definitions : List GraphRelation
  pub entity_relations : List GraphEntityRelation
  pub industry_chains : List GraphIndustryChain
  pub industry_chain_memberships : List GraphMembership
  pub industry_chain_graph_edges : List GraphIndustryEdge

pub record RelationFilter : Type 0 where
  pub relation_type : String
  pub direction : String

-- An industry chain's memberships and edges, as the catalogue writes them.
pub data FactError : Type 0 where
  identities_required position_not_positive unsupported_stage : FactError
  self_edge unsupported_relation blank_value : FactError
  duplicate_value : String → FactError

-- `IndustryChainNodeMembership` has the fields of a membership of the graph.
unfoldable pub validate_membership : GraphMembership → Result FactError (Unit {0})
validate_membership m =
    reject_if (is_blank m.industry_chain_id || is_blank m.chain_node_id) identities_required
    >> (reject_if (not (ltb_ℤ (pos 0) m.position)) position_not_positive
        >> reject_if
            (not (str_mem m.contextual_stage ("upstream" ∷ "midstream" ∷ "downstream" ∷ [])))
            unsupported_stage)

abbrev pub relation_types : List String
relation_types = "input_to" ∷ "is_component_of" ∷ "depends_on" ∷ []

-- `IndustryChainGraphEdge` has the fields of an edge of the graph.
unfoldable pub validate_edge : GraphIndustryEdge → Result FactError (Unit {0})
validate_edge e =
    reject_if
      (is_blank e.industry_chain_graph_edge_id
        || is_blank e.industry_chain_id
        || is_blank e.from_chain_node_id
        || is_blank e.to_chain_node_id)
      identities_required
    >> (reject_if (str_eq e.from_chain_node_id e.to_chain_node_id) self_edge
        >> reject_if (not (str_mem e.relation_type relation_types)) unsupported_relation)

-- `validateStringSet`, behind the values that were seen.
unfoldable pub validate_string_set : List String → List String → Result FactError (Unit {0})
validate_string_set seen [] = ok tt
validate_string_set seen (value ∷ values) =
    reject_if (is_blank value) blank_value
    >> (reject_if (str_mem (trim_space value) seen) (duplicate_value (trim_space value))
        >> validate_string_set (trim_space value ∷ seen) values)
