-- ===== src/Catalog/Versions.antt =====
-- What a publication and a withdrawal do to the versions of an item (catalog/mod.rs).
use marie.Base.{
  ℕ, suc, zero, ◌+◌, ◌≡◌, ◌≢◌, refl, arith, inl, inr, String, true, false, not, ◌&&◌, string_eq,
  pair_eq, List, [], ◌∷◌, ◌++◌, length, get_elem?, map, none, some, Option-cases, ok, err,
}
use marie.Base.HashMap
use marie.Session.Model.{CatalogItemRef}
use marie.Catalog.Store.{
  Bytes, StoredItem, Items, versions_of, insert_catalog_item, readable, get_catalog_item,
  last_active, ref_to, last_catalog_ref, mark, deprecate_catalog_item, delete_catalog_item,
}
use marie.Catalog.Facade.{
  Catalogable, CatalogError, publish, deref, latest_ref, latest, deprecate, delete,
}

abbrev published : Bytes → StoredItem
published bytes = record { bytes = bytes; deprecated = false; deleted = false }

last_active-published :
    (i : ℕ) (vs : List StoredItem) (b : Bytes)
    → last_active i (vs ++ published b ∷ []) ≡ some (i + length vs)
unfolding last_active
last_active-published i [] b = ground arith
last_active-published i (v ∷ vs) b = ground (arith, last_active-published (suc i) vs b)

get_elem?-published :
    (vs : List StoredItem) (b : Bytes)
    → get_elem? (vs ++ published b ∷ []) (length vs) ≡ some (published b)
get_elem?-published [] b = refl
get_elem?-published (v ∷ vs) b = get_elem?-published vs b

last_active-mark :
    (i : ℕ) (vs : List StoredItem) (change : StoredItem → StoredItem)
    → ((v : StoredItem)
        → (not (StoredItem.deprecated (change v)) && not (StoredItem.deleted (change v))) ≡ false)
    → last_active i (map change vs) ≡ none
unfolding last_active
last_active-mark i [] change h = refl
last_active-mark i (v ∷ vs) change h = ground (arith, last_active-mark (suc i) vs change h, h v)

abbrev deleted_item : StoredItem → StoredItem
deleted_item item = record item { deleted = true }

get_elem?-deleted :
    (vs : List StoredItem) (n : ℕ) → readable (get_elem? (map deleted_item vs) n) ≡ none
unfolding readable
get_elem?-deleted [] n = refl
get_elem?-deleted (v ∷ vs) zero = refl
get_elem?-deleted (v ∷ vs) (suc n) = get_elem?-deleted vs n

-- The references and contents of the other items.
abbrev pub OthersKept : Items → Items → String × String → Type 0
OthersKept items items' key =
    (k : String × String)
    → key ≢ k
    → (last_catalog_ref items' k.0 k.1 ≡ last_catalog_ref items k.0 k.1)
      × ((n : ℕ) → get_catalog_item items' k.0 k.1 n ≡ get_catalog_item items k.0 k.1 n)

insert-OthersKept :
    (items : Items) (key : String × String) (vs : List StoredItem)
    → OthersKept items (HashMap.insert items key vs) key
unfolding last_catalog_ref get_catalog_item
insert-OthersKept items key vs k ne =
    let kept = HashMap.get-insert_ne items key k vs ne in
    (ground (arith, kept), λ n. ground (arith, kept))

mark-OthersKept :
    (change : StoredItem → StoredItem) (items : Items) (kind id : String)
    → OthersKept items (mark change items kind id) (kind, id)
unfolding mark last_catalog_ref get_catalog_item
mark-OthersKept change items kind id k ne = elim (Option-cases (HashMap.get items (kind, id))) [
  | inl n ↦ rw (n, mark) (refl, λ i. refl)
  | inr (vs, s) ↦ rw (s, mark) (insert-OthersKept items (kind, id) (map change vs) k ne)
]

-- A change that makes every version inactive leaves no latest one.
mark-last :
    (change : StoredItem → StoredItem) (items : Items) (kind id : String)
    → ((v : StoredItem)
        → (not (StoredItem.deprecated (change v)) && not (StoredItem.deleted (change v))) ≡ false)
    → last_catalog_ref (mark change items kind id) kind id ≡ none
unfolding last_catalog_ref mark ref_to
mark-last change items kind id h = elim (Option-cases (HashMap.get items (kind, id))) [
  | inl n ↦ ground (arith, n)
  | inr (vs, s) ↦ ground (
    arith,
    s,
    HashMap.get-insert_self items (kind, id) (map change vs),
    last_active-mark 0 vs change h,
  )
]

delete-unreadable :
    (items : Items) (kind id : String) (n : ℕ)
    → get_catalog_item (delete_catalog_item items kind id) kind id n ≡ none
unfolding get_catalog_item delete_catalog_item mark
delete-unreadable items kind id n = elim (Option-cases (HashMap.get items (kind, id))) [
  | inl e ↦ ground (arith, e)
  | inr (vs, s) ↦ ground (
    arith,
    s,
    HashMap.get-insert_self items (kind, id) (map deleted_item vs),
    get_elem?-deleted vs n,
  )
]

module _ {C : Type 0} (catalogable : Catalogable C) where
  -- A published item is the latest of its identifier, under a version that counts those before it,
  -- and reads back as it was published, if its codec does; all other items stay as they were.
  pub publish_shown :
      (items : Items) (item : C) (bytes : Bytes)
      → catalogable.to_vec item ≡ some bytes
      → catalogable.from_slice bytes ≡ some item
      → let (r, items') = publish catalogable items item in
        let id = catalogable.id_of item in
        let version = length (versions_of items catalogable.kind id) in
        (r ≡ ok (record { kind = catalogable.kind; id = id; version = version }))
        × (latest_ref catalogable items' id ≡ r)
        × (latest catalogable items' id ≡ ok (record { version = version; item = item }))
        × OthersKept items items' (catalogable.kind, id)
  unfolding publish latest latest_ref deref insert_catalog_item last_catalog_ref get_catalog_item
      ref_to readable
  publish_shown items item bytes e d =
      let id = catalogable.id_of item in
      let vs = versions_of items catalogable.kind id in
      let k : String × String = (catalogable.kind, id) in
      let here = HashMap.get-insert_self items k (vs ++ published bytes ∷ []) in
      let last = last_active-published 0 vs bytes in
      let read = get_elem?-published vs bytes in
      (
        ground (arith, e),
        ground (arith, e, here, last),
        ground (arith, e, d, here, last, read),
        ground (arith, e, insert-OthersKept items k (vs ++ published bytes ∷ [])),
      )

  -- A deprecated item has no latest version; a deleted one has none and no version of it can be
  -- read. All other items stay as they were.
  pub withdrawn_hidden :
      (items : Items) (r : CatalogItemRef)
      → r.kind ≡ catalogable.kind
      → (latest_ref catalogable (deprecate items r) r.id
          ≡ err (CatalogError.not_found catalogable.kind r.id))
        × OthersKept items (deprecate items r) (r.kind, r.id)
        × (latest_ref catalogable (delete items r) r.id
            ≡ err (CatalogError.not_found catalogable.kind r.id))
        × ((n : ℕ) → get_catalog_item (delete items r) r.kind r.id n ≡ none)
        × OthersKept items (delete items r) (r.kind, r.id)
  unfolding latest_ref deprecate delete deprecate_catalog_item delete_catalog_item
  withdrawn_hidden items r e = (
    ground
        (arith, e, mark-last (λ v. record v { deprecated = true }) items r.kind r.id (λ v. refl)),
    mark-OthersKept _ items r.kind r.id,
    ground (arith, e, mark-last deleted_item items r.kind r.id (λ v. ground arith)),
    delete-unreadable items r.kind r.id,
    mark-OthersKept _ items r.kind r.id,
  )
