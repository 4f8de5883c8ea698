-- ===== src/Catalog/Facade.antt =====
-- catalog/mod.rs: `Catalog` for one type of items, over the store in memory, which never fails. The
-- kind and the identifier of an item, and its JSON codec, are parameters.
use marie.Base.{ℕ, String, List, Option, none, some, Result, ok, err}
use marie.Session.Model.{CatalogItemRef}
use marie.Catalog.Store.{
  Bytes, Items, InsertCatalogItem, insert_catalog_item, get_catalog_item, last_catalog_ref,
  list_catalog_refs, deprecate_catalog_item, delete_catalog_item,
}

-- `Catalogable`, with `serde_json::to_vec` and `from_slice`
pub record Catalogable (C : Type 0) : Type 0 where
  pub kind : String
  pub id_of : C → String
  pub to_vec : C → Option Bytes
  pub from_slice : Bytes → Option C

pub record Item (C : Type 0) : Type 0 where
  pub version : ℕ
  pub item : C

pub data CatalogError : Type 0 where
  not_found : String → String → CatalogError
  deserialize : CatalogError

module _ {C : Type 0} (catalogable : Catalogable C) where
  unfoldable pub publish : Items → C → Result CatalogItemRef CatalogError × Items
  publish items item = elim (catalogable.to_vec item) [
    | none ↦ (err CatalogError.deserialize, items)
    | some bytes ↦
        let args : InsertCatalogItem = record {
          kind = catalogable.kind;
          id = catalogable.id_of item;
          bytes = bytes;
        } in
        let (item_ref, items') = insert_catalog_item items args in (ok item_ref, items')
  ]

  unfoldable pub deref : Items → CatalogItemRef → Result (Item C) CatalogError
  deref items r = elim (get_catalog_item items r.kind r.id r.version) [
    | none ↦ err (CatalogError.not_found r.kind r.id)
    | some bytes ↦ elim (catalogable.from_slice bytes) [
      | some item ↦ ok (record { version = r.version; item = item })
      | none ↦ err CatalogError.deserialize
    ]
  ]

  unfoldable pub latest_ref : Items → String → Result CatalogItemRef CatalogError
  latest_ref items id = elim (last_catalog_ref items catalogable.kind id) [
    | some r ↦ ok r
    | none ↦ err (CatalogError.not_found catalogable.kind id)
  ]

  unfoldable pub latest : Items → String → Result (Item C) CatalogError
  latest items id = elim (latest_ref items id) [ ok r ↦ deref items r | err e ↦ err e ]

  unfoldable pub refs : Items → List CatalogItemRef
  refs items = list_catalog_refs items catalogable.kind

unfoldable pub deprecate : Items → CatalogItemRef → Items
deprecate items r = deprecate_catalog_item items r.kind r.id

unfoldable pub delete : Items → CatalogItemRef → Items
delete items r = delete_catalog_item items r.kind r.id
