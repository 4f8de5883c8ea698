-- ===== src/Catalog/Store.antt =====
-- catalog/in_memory.rs: `InMemoryCatalog`, the versions of each item in the order of publication.
use marie.Base.{
  ℕ, suc, String, Bool, true, false, not, ◌&&◌, ◌==◌, string_eq, pair_eq, if◌then◌else◌, List, [],
  ◌∷◌, ◌++◌, length, get_elem?, map, Option, none, some,
}
use marie.Base.HashMap
use marie.Base.HashMap.{HashMap}
use marie.Session.Model.{CatalogItemRef}

abbrev pub Bytes : Type 0
Bytes = List ℕ

pub record StoredItem : Type 0 where
  pub bytes : Bytes
  pub deprecated : Bool
  pub deleted : Bool

abbrev pub Items : Type 0
Items = HashMap (String × String) (List StoredItem)

pub record InsertCatalogItem : Type 0 where
  pub kind : String
  pub id : String
  pub bytes : Bytes

-- `entry(..).or_default()`
unfoldable pub versions_of : Items → String → String → List StoredItem
versions_of items kind id = elim (HashMap.get items (kind, id)) [ some vs ↦ vs | none ↦ [] ]

-- The number of versions fits in a `u64`, so the casts between it and `usize` do not wrap.
unfoldable pub insert_catalog_item : Items → InsertCatalogItem → CatalogItemRef × Items
insert_catalog_item items args =
    let versions = versions_of items args.kind args.id in
    let item : StoredItem = record { bytes = args.bytes; deprecated = false; deleted = false } in
    (
      record { kind = args.kind; id = args.id; version = length versions },
      HashMap.insert items (args.kind, args.id) (versions ++ item ∷ []),
    )

unfoldable pub readable : Option StoredItem → Option Bytes
readable none = none
readable (some item) = if not item.deleted then some item.bytes else none

unfoldable pub get_catalog_item : Items → String → String → ℕ → Option Bytes
get_catalog_item items kind id version = elim (HashMap.get items (kind, id)) [
  | none ↦ none
  | some versions ↦ readable (get_elem? versions version)
]

-- `iter().enumerate().rev().find(..)`, counting from `i`
unfoldable pub last_active : ℕ → List StoredItem → Option ℕ
last_active i [] = none
last_active i (item ∷ items) = elim (last_active (suc i) items) [
  | some v ↦ some v
  | none ↦ if not item.deprecated && not item.deleted then some i else none
]

unfoldable pub ref_to : String → String → List StoredItem → Option CatalogItemRef
ref_to kind id versions = elim (last_active 0 versions) [
  | some v ↦ some (record { kind = kind; id = id; version = v })
  | none ↦ none
]

unfoldable pub last_catalog_ref : Items → String → String → Option CatalogItemRef
last_catalog_ref items kind id = elim (HashMap.get items (kind, id)) [
  | none ↦ none
  | some versions ↦ ref_to kind id versions
]

unfoldable pub list_catalog_refs : Items → String → List CatalogItemRef
list_catalog_refs [] kind = []
list_catalog_refs ((key, versions) ∷ items) kind =
    let rest = list_catalog_refs items kind in
    if key.0 == kind
    then elim (ref_to kind key.1 versions) [ some r ↦ r ∷ rest | none ↦ rest ]
    else rest

-- `if let Some(versions) = items.get_mut(..) { versions.iter_mut().for_each(..) }`
unfoldable pub mark : (StoredItem → StoredItem) → Items → String → String → Items
mark change items kind id = elim (HashMap.get items (kind, id)) [
  | some versions ↦ HashMap.insert items (kind, id) (map change versions)
  | none ↦ items
]

unfoldable pub deprecate_catalog_item : Items → String → String → Items
deprecate_catalog_item items kind id =
    mark (λ item. record item { deprecated = true }) items kind id

unfoldable pub delete_catalog_item : Items → String → String → Items
delete_catalog_item items kind id = mark (λ item. record item { deleted = true }) items kind id
