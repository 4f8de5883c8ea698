-- ===== src/Session/Graphs.antt =====
-- graph/graph.rs and graph/mod.rs: the declaration of a graph, and `Graphs`, their catalog. The
-- nodes run user code, which is not modelled.
use marie.Base.{String, string_eq, List, [], ◌∷◌, Option, none, some, Result, ok, err}
use marie.Base.HashMap
use marie.Base.HashMap.{HashMap}
use marie.Session.Model.{CatalogItemRef, GraphId, GraphRef, GraphNodeId}
use marie.Session.Spec.{CommonSpec}
use marie.Catalog.Store.{Bytes, Items}
use marie.Catalog.Facade as Catalog
use marie.Catalog.Facade.{Catalogable, Item, CatalogError}

-- graph/node.rs
pub record NodeSpec (Value : Type 0) : Type 0 where
  pub kind : String
  pub common : CommonSpec Value

pub record GraphSpec (Value : Type 0) : Type 0 where
  pub id : GraphId
  pub nodes : HashMap GraphNodeId (NodeSpec Value)
  pub edges : HashMap GraphNodeId GraphNodeId
  pub entry : GraphNodeId
  pub common : CommonSpec Value

-- `serde_json::to_vec` and `from_slice` on declarations of graphs
pub record GraphCodec (Value : Type 0) : Type 0 where
  pub to_vec : GraphSpec Value → Option Bytes
  pub from_slice : Bytes → Option (GraphSpec Value)

module _ {Value : Type 0} where
  unfoldable pub new : GraphId → GraphNodeId → CommonSpec Value → GraphSpec Value
  new id entry common = record {
    id = id;
    nodes = HashMap.empty;
    edges = HashMap.empty;
    entry = entry;
    common = common;
  }

  unfoldable pub add_node : GraphSpec Value → GraphNodeId → NodeSpec Value → GraphSpec Value
  add_node graph id params = record graph { nodes = HashMap.insert graph.nodes id params }

  unfoldable pub add_edge : GraphSpec Value → GraphNodeId → GraphNodeId → GraphSpec Value
  add_edge graph src dest = record graph { edges = HashMap.insert graph.edges src dest }

  abbrev pub graphs_of : GraphCodec Value → Catalogable (GraphSpec Value)
  graphs_of codec = record {
    kind = "/marie/catalog/graphs";
    id_of = λ g. g.id;
    to_vec = codec.to_vec;
    from_slice = codec.from_slice;
  }

module _ {Value : Type 0} (codec : GraphCodec Value) where
  unfoldable pub insert : Items → GraphSpec Value → Result GraphRef CatalogError × Items
  insert items graph = Catalog.publish (graphs_of codec) items graph

  unfoldable pub replace : Items → GraphSpec Value → Result GraphRef CatalogError × Items
  replace items graph = elim (Catalog.latest_ref (graphs_of codec) items graph.id) [
    | ok r ↦ Catalog.publish (graphs_of codec) items graph
    | err e ↦ (err e, items)
  ]

  unfoldable pub delete : Items → GraphId → Result {0, 0} Unit CatalogError × Items
  delete items id = elim (Catalog.latest_ref (graphs_of codec) items id) [
    | ok r ↦ (ok tt, Catalog.delete items r)
    | err e ↦ (err e, items)
  ]

  unfoldable pub latest : Items → GraphId → Result (Option GraphRef) CatalogError
  latest items id = elim (Catalog.latest_ref (graphs_of codec) items id) [
    | ok r ↦ ok (some r)
    | err e ↦ elim e [
      | CatalogError.not_found kind i ↦ ok none
      | CatalogError.deserialize ↦ err CatalogError.deserialize
    ]
  ]

  unfoldable pub get : Items → GraphRef → Result (GraphSpec Value) CatalogError
  get items r = elim (Catalog.deref (graphs_of codec) items r) [
    | ok item ↦ ok item.item
    | err e ↦ err e
  ]

  -- The loop of `list` over the references.
  unfoldable pub get_all :
      Items → List CatalogItemRef → Result (List (GraphSpec Value)) CatalogError
  get_all items [] = ok []
  get_all items (r ∷ refs) = elim (get items r) [
    | err e ↦ err e
    | ok graph ↦ elim (get_all items refs) [ err e ↦ err e | ok graphs ↦ ok (graph ∷ graphs) ]
  ]

  unfoldable pub list : Items → Result (List (GraphSpec Value)) CatalogError
  list items = get_all items (Catalog.refs (graphs_of codec) items)
