-- ===== src/Catalog/History.antt =====
-- A published version over the later edits of the catalog (catalog/in_memory.rs).
use marie.Base.{
  ℕ, suc, zero, ◌≡◌, ◌≢◌, refl, arith, inl, inr, String, true, false, string_eq, pair_eq, List, [],
  ◌∷◌, ◌++◌, get_elem?, map, some, Option-cases,
}
use marie.Base.HashMap
use marie.Catalog.Store.{
  Bytes, StoredItem, Items, InsertCatalogItem, versions_of, insert_catalog_item, readable,
  get_catalog_item, mark, deprecate_catalog_item, delete_catalog_item,
}

pub data Edit : Type 0 where
  insert : InsertCatalogItem → Edit
  deprecate : String → String → Edit
  delete : String → String → Edit

abbrev pub edit : Items → Edit → Items
edit items (insert args) = (insert_catalog_item items args).1
edit items (deprecate kind id) = deprecate_catalog_item items kind id
edit items (delete kind id) = delete_catalog_item items kind id

abbrev pub edits : Items → List Edit → Items
edits items [] = items
edits items (e ∷ es) = edits (edit items e) es

-- The edit does not delete the item.
abbrev pub Keeps : String × String → Edit → Type 0
Keeps key (insert args) = Unit
Keeps key (deprecate kind id) = Unit
Keeps key (delete kind id) = key.0 ≡ kind → key.1 ≢ id

abbrev pub KeepsAll : String × String → List Edit → Type 0
KeepsAll key [] = Unit
KeepsAll key (e ∷ es) = Keeps key e × KeepsAll key es

readable-append :
    (vs : List StoredItem) (v : StoredItem) (n : ℕ) (b : Bytes)
    → readable (get_elem? vs n) ≡ some b
    → readable (get_elem? (vs ++ v ∷ []) n) ≡ some b
unfolding readable
readable-append [] v n b h = cc
readable-append (w ∷ vs) v zero b h = h
readable-append (w ∷ vs) v (suc n) b h = readable-append vs v n b h

abbrev deprecated_item : StoredItem → StoredItem
deprecated_item item = record item { deprecated = true }

readable-deprecated :
    (vs : List StoredItem) (n : ℕ)
    → readable (get_elem? (map deprecated_item vs) n) ≡ readable (get_elem? vs n)
unfolding readable
readable-deprecated [] n = refl
readable-deprecated (v ∷ vs) zero = refl
readable-deprecated (v ∷ vs) (suc n) = readable-deprecated vs n

insert_keeps :
    (items : Items) (args : InsertCatalogItem) (key : String × String) (n : ℕ) (b : Bytes)
    → get_catalog_item items key.0 key.1 n ≡ some b
    → get_catalog_item (insert_catalog_item items args).1 key.0 key.1 n ≡ some b
unfolding get_catalog_item insert_catalog_item versions_of
insert_keeps items args key n b h =
    let item : StoredItem = record { bytes = args.bytes; deprecated = false; deleted = false } in
    elim (Option-cases (HashMap.get items key)) [
      | inl e ↦ absurd (ground (arith, e, h))
      | inr (vs, s) ↦ ground (
        arith,
        s,
        h,
        readable-append vs item n b,
        string_eq.eq_iff args.kind key.0,
        string_eq.eq_iff args.id key.1,
        HashMap.get-insert items (args.kind, args.id) key
            (versions_of items args.kind args.id ++ item ∷ []),
      )
    ]

mark_keeps :
    (change : StoredItem → StoredItem) (items : Items) (kind id : String) (key : String × String)
    (n : ℕ) (b : Bytes)
    → ((vs : List StoredItem)
        → key.0 ≡ kind
        → key.1 ≡ id
        → readable (get_elem? (map change vs) n) ≡ readable (get_elem? vs n))
    → get_catalog_item items key.0 key.1 n ≡ some b
    → get_catalog_item (mark change items kind id) key.0 key.1 n ≡ some b
unfolding get_catalog_item mark
mark_keeps change items kind id key n b keep h =
    elim (Option-cases (HashMap.get items (kind, id))) [
      | inl e ↦ ground (arith, e, h)
      | inr (vs, s) ↦ ground (
        arith,
        s,
        h,
        keep vs,
        HashMap.get-insert items (kind, id) key (map change vs),
        string_eq.eq_iff kind key.0,
        string_eq.eq_iff id key.1,
      )
    ]

edit_preserves :
    (items : Items) (e : Edit) (key : String × String) (n : ℕ) (b : Bytes)
    → Keeps key e
    → get_catalog_item items key.0 key.1 n ≡ some b
    → get_catalog_item (edit items e) key.0 key.1 n ≡ some b
unfolding deprecate_catalog_item delete_catalog_item
edit_preserves items (insert args) key n b k h = insert_keeps items args key n b h
edit_preserves items (deprecate kind id) key n b k h =
    mark_keeps deprecated_item items kind id key n b (λ vs x y. readable-deprecated vs n) h
edit_preserves items (delete kind id) key n b k h =
    mark_keeps _ items kind id key n b (λ vs x y. absurd (k x y)) h

-- A version that can be read gives the same content after any publications, deprecations and
-- deletions of other items: only the deletion of its own item ends it.
pub published_stays :
    (items : Items) (es : List Edit) (key : String × String) (n : ℕ) (b : Bytes)
    → get_catalog_item items key.0 key.1 n ≡ some b
    → KeepsAll key es
    → get_catalog_item (edits items es) key.0 key.1 n ≡ some b
published_stays items [] key n b h k = h
published_stays items (e ∷ es) key n b h k =
    published_stays (edit items e) es key n b (edit_preserves items e key n b k.0 h) k.1
