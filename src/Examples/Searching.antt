-- ===== src/Examples/Searching.antt =====
-- Two orders of the seeds of one search, and a graph of one industry chain.
use tidewise_ai.Prelude.{
  ◌≡◌, refl, String, Bool, true, false, ◌||◌, Option, none, List, [], ◌∷◌, Result, ok, arith,
  str_eq,
}
use tidewise_ai.Prelude.Int.{pos}
use tidewise_ai.Prelude.Text.{str_mem}
use tidewise_ai.Entity.{
  GraphEntity, GraphMembership, GraphIndustryEdge, GraphSubgraph, is_object_id,
  object_type_matches_id, validate_membership, validate_edge, self_edge,
}
use tidewise_ai.Research.{Request, valid_filters, valid_seeds, validate_request, references_resolve}
use tidewise_ai.Entity.Types.{object_type_matches_id_unique}
use tidewise_ai.Research.Seeds.{SeedsOf, validate_request-order}
use tidewise_ai.Examples.Uuid.{uuid, uuid_laws}
use tidewise_ai.Examples.Identities.{identity_code}

abbrev china : String
china = "COU610000000000000000000000000000000000"

abbrev chain : String
chain = "ICH610000000000000000000000000000000000"

abbrev request : List String → Request
request seeds = record {
  seed_entity_ids = seeds;
  relation_filters = record { relation_type = " input_to "; direction = "both" } ∷ [];
  max_depth = pos 2;
  industry_chain_id = none;
  node_budget = pos 100;
  edge_budget = pos 100;
}

normal : Request
normal = record {
  seed_entity_ids = china ∷ chain ∷ [];
  relation_filters = record { relation_type = "input_to"; direction = "both" } ∷ [];
  max_depth = pos 2;
  industry_chain_id = none;
  node_budget = pos 100;
  edge_budget = pos 100;
}

unfoldable research_code : Unit {0}
unfolding identity_code is_object_id valid_filters valid_seeds validate_request references_resolve
    object_type_matches_id validate_membership validate_edge
    tidewise_ai.Prelude.Sorting.insert_sorted tidewise_ai.Prelude.Sorting.sort_slice
research_code = tt

in_order : validate_request uuid (request (china ∷ chain ∷ [])) ≡ ok normal
unfolding research_code normal
in_order = refl

turned : validate_request uuid (request (chain ∷ china ∷ [])) ≡ ok normal
unfolding research_code normal
turned = refl

same_seeds : (k : String) → str_mem k (china ∷ chain ∷ []) ≡ str_mem k (chain ∷ china ∷ [])
unfolding str_mem
same_seeds k = either (str_eq china k) (str_eq chain k)
  where
    either : (a b : Bool) → (a || (b || false)) ≡ (b || (a || false))
    either a b = ground arith

validate_request-order_example :
    (normal.seed_entity_ids ≡ normal.seed_entity_ids)
    × SeedsOf uuid (china ∷ chain ∷ []) normal.seed_entity_ids
validate_request-order_example =
    validate_request-order uuid (request (china ∷ chain ∷ [])) (request (chain ∷ china ∷ [])) normal
      normal in_order turned same_seeds

abbrev entity : String → String → GraphEntity
entity id kind = record {
  entity_id = id;
  entity_type = kind;
  name = id;
  canonical_name = id;
  aliases = [];
  status = "active";
}

abbrev member : String → GraphMembership
member node = record {
  industry_chain_id = chain;
  chain_node_id = node;
  position = pos 1;
  contextual_stage = "upstream";
}

abbrev edge : String → String → GraphIndustryEdge
edge from to = record {
  industry_chain_graph_edge_id = "e";
  industry_chain_id = chain;
  from_chain_node_id = from;
  to_chain_node_id = to;
  relation_type = "input_to";
}

abbrev graph : GraphSubgraph
graph = record {
  actual_depth = pos 1;
  entities =
      entity chain "industry_chain" ∷ entity "ore" "chain_node" ∷ entity "steel" "chain_node" ∷ [];
  relation_definitions = record { relation_type = "input_to"; direction = "directed" } ∷ [];
  entity_relations = [];
  industry_chains =
      record {
        industry_chain_id = chain;
        scope = "";
        target_output = "steel";
        end_use = "";
        geography = "";
        primary_country_id = "";
        as_of_date = "";
        review_status = "approved";
      }
      ∷ [];
  industry_chain_memberships = member "ore" ∷ member "steel" ∷ [];
  industry_chain_graph_edges = edge "ore" "steel" ∷ [];
}

edge_test : validate_edge (edge "ore" "steel") ≡ ok tt
unfolding research_code
edge_test = refl

self_edge_test : validate_edge (edge "ore" "ore") ≡ Result.err self_edge
unfolding research_code
self_edge_test = refl

member_test : validate_membership (member "ore") ≡ ok tt
unfolding research_code
member_test = refl

abbrev country : String
country = "country"

china-country : object_type_matches_id uuid country china ≡ true
unfolding research_code
china-country = refl

object_type_matches_id_unique_example : country ≡ country
object_type_matches_id_unique_example =
    object_type_matches_id_unique uuid uuid_laws country country china china-country china-country
