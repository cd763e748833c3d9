-- ===== src/Research.antt =====
-- data-service/backend/internal/biz/research/biz.go: the request of a search in the research graph, as
-- far as its seeds, its filters and its limits, and the test that the graph found is closed.
pub mod References
pub mod Order
pub mod Seeds
use Prim.Native.String
use tidewise_ai.Prelude.{
  ℕ, String, Bool, true, false, not, ◌&&◌, ◌||◌, Option, none, some, List, [], ◌∷◌, Result, ok, err,
  ◌>>=◌, ◌>>◌, reject_if, ltb, str_eq, if◌then◌else◌, length,
}
use tidewise_ai.Prelude.Int.{ℤ, pos, ltb_ℤ}
use tidewise_ai.Prelude.Text.{trim_space, str_mem, str_lt}
use tidewise_ai.Prelude.Sorting.{sort_slice}
use tidewise_ai.Identity.{UuidPackage}
use tidewise_ai.Entity.{
  GraphEntity, GraphRelation, GraphEntityRelation, GraphIndustryChain, GraphMembership,
  GraphIndustryEdge, GraphSubgraph, RelationFilter, is_object_id, is_industry_chain_id,
}

-- The reasons of a validation error.
pub data GraphError : Type 0 where
  seed_count seed_invalid seed_repeated : GraphError
  filter_count filter_invalid filter_repeated : GraphError
  depth_out_of_range budget_out_of_range chain_invalid : GraphError

-- A `GraphSearchRequest` behind its time stamp.
pub record Request : Type 0 where
  pub seed_entity_ids : List String
  pub relation_filters : List RelationFilter
  pub max_depth : ℤ
  pub industry_chain_id : Option String
  pub node_budget : ℤ
  pub edge_budget : ℤ

abbrev pub outside : ℤ → ℕ → Bool
outside n max = ltb_ℤ n (pos 1) || ltb_ℤ (pos max) n

abbrev pub bad_count : ℕ → Bool
bad_count n = ltb n 1 || ltb 20 n

abbrev pub is_direction : String → Bool
is_direction d = str_eq d "outgoing" || str_eq d "incoming" || str_eq d "both"

abbrev pub trimmed : RelationFilter → RelationFilter
trimmed f = record { relation_type = trim_space f.relation_type; direction = f.direction }

abbrev pub bad_filter : RelationFilter → Bool
bad_filter f = str_eq f.relation_type "" || not (is_direction f.direction)

-- The loop over the filters, behind the types that were seen.
unfoldable pub valid_filters :
    List String → List RelationFilter → Result GraphError (List RelationFilter)
valid_filters seen [] = ok []
valid_filters seen (f ∷ filters) =
    reject_if (bad_filter (trimmed f)) filter_invalid
    >> (reject_if (str_mem (trimmed f).relation_type seen) filter_repeated
        >> (valid_filters ((trimmed f).relation_type ∷ seen) filters >>= λ rest.
            ok (trimmed f ∷ rest)))

abbrev pub filter_less : RelationFilter → RelationFilter → Bool
filter_less f g = str_lt f.relation_type g.relation_type

abbrev pub sorted_filters : List RelationFilter → Result GraphError (List RelationFilter)
sorted_filters filters =
    reject_if (bad_count (length filters)) filter_count
    >> (valid_filters [] filters >>= λ fs. ok (sort_slice filter_less fs))

module _ (uuid : UuidPackage) where
  unfoldable pub valid_seeds : List String → List String → Result GraphError (Unit {0})
  valid_seeds seen [] = ok tt
  valid_seeds seen (id ∷ ids) =
      reject_if (not (is_object_id uuid id)) seed_invalid
      >> (reject_if (str_mem id seen) seed_repeated >> valid_seeds (id ∷ seen) ids)

  abbrev pub bad_chain : Option String → Bool
  bad_chain none = false
  bad_chain (some id) = not (is_industry_chain_id uuid id)

  -- The last tests of `validateGraphSearchRequest`.
  abbrev pub valid_limits : Request → Result GraphError (Unit {0})
  valid_limits r =
      reject_if (outside r.max_depth 5) depth_out_of_range
      >> (reject_if (outside r.node_budget 500 || outside r.edge_budget 1_000) budget_out_of_range
          >> reject_if (bad_chain r.industry_chain_id) chain_invalid)

  abbrev pub sorted_seeds : List String → Result GraphError (List String)
  sorted_seeds ids =
      reject_if (bad_count (length ids)) seed_count
      >> (valid_seeds [] ids >> ok (sort_slice str_lt ids))

  -- `validateGraphSearchRequest` behind its time stamp: the request with its seeds and filters in order.
  unfoldable pub validate_request : Request → Result GraphError Request
  validate_request r = sorted_seeds r.seed_entity_ids >>= λ seeds.
      sorted_filters r.relation_filters >>= λ filters.
      valid_limits r >> ok (record r { seed_entity_ids = seeds; relation_filters = filters })

-- `referencesResolve`, with the sets as the lists of their keys.
abbrev pub entity_ids : List GraphEntity → List String
entity_ids [] = []
entity_ids (e ∷ es) = e.entity_id ∷ entity_ids es

abbrev pub defined_types : List GraphRelation → List String
defined_types [] = []
defined_types (d ∷ ds) = d.relation_type ∷ defined_types ds

abbrev pub chain_ids : List GraphIndustryChain → List String
chain_ids [] = []
chain_ids (c ∷ cs) = c.industry_chain_id ∷ chain_ids cs

abbrev pub member_key : String → String → String
member_key chain node = String.◌++◌ chain (String.◌++◌ "\0" node)

abbrev pub member_keys : List GraphMembership → List String
member_keys [] = []
member_keys (m ∷ ms) = member_key m.industry_chain_id m.chain_node_id ∷ member_keys ms

abbrev pub resolves_chain : List String → GraphIndustryChain → Bool
resolves_chain entities c = str_mem c.industry_chain_id entities

abbrev pub resolves_member : List String → List String → GraphMembership → Bool
resolves_member entities chains m =
    str_mem m.industry_chain_id chains && str_mem m.chain_node_id entities

abbrev pub resolves_relation : List String → List String → GraphEntityRelation → Bool
resolves_relation entities types r =
    str_mem r.from_entity_id entities
    && str_mem r.to_entity_id entities
    && str_mem r.relation_type types

abbrev pub resolves_edge : List String → List String → GraphIndustryEdge → Bool
resolves_edge types members e =
    str_mem e.relation_type types
    && str_mem (member_key e.industry_chain_id e.from_chain_node_id) members
    && str_mem (member_key e.industry_chain_id e.to_chain_node_id) members

-- A loop that returns false at the first item that fails.
abbrev pub all_items : {A : Type 0} → (A → Bool) → List A → Bool
all_items p [] = true
all_items p (x ∷ xs) = p x && all_items p xs

unfoldable pub references_resolve : GraphSubgraph → Bool
references_resolve g =
    all_items (resolves_chain (entity_ids g.entities)) g.industry_chains
    && all_items (resolves_member (entity_ids g.entities) (chain_ids g.industry_chains))
        g.industry_chain_memberships
    && all_items (resolves_relation (entity_ids g.entities) (defined_types g.relation_definitions))
        g.entity_relations
    && all_items
        (resolves_edge (defined_types g.relation_definitions)
          (member_keys g.industry_chain_memberships))
        g.industry_chain_graph_edges
