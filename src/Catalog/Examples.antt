-- ===== src/Catalog/Examples.antt =====
-- A catalog of texts, published twice; the theorems at it.
use marie.Base.{◌≡◌, refl, some, List, [], ◌∷◌, length, ok, string_eq}
use marie.Base.HashMap
use marie.Session.Model.{CatalogItemRef}
use marie.Catalog.Store.{Bytes, Items, insert_catalog_item, versions_of, get_catalog_item, readable}
use marie.Catalog.Facade.{Catalogable, publish, latest_ref, latest}
use marie.Catalog.Versions.{OthersKept, publish_shown}
use marie.Catalog.History.{Edit, insert, edits, published_stays}
use marie.Catalog.History as History

-- An item is its bytes, all under one identifier.
abbrev notes : Catalogable Bytes
notes = record { kind = "note"; id_of = λ b. "n"; to_vec = λ b. some b; from_slice = λ b. some b }

abbrev once : Items
once = (publish notes [] (1 ∷ [])).1

publish_shown_example :
    let (r, items') = publish notes once (2 ∷ []) in
    let version = length (versions_of once "note" "n") in
    (r ≡ ok (record { kind = "note"; id = "n"; version = version }))
    × (latest_ref notes items' "n" ≡ r)
    × (latest notes items' "n" ≡ ok (record { version = version; item = 2 ∷ [] }))
    × OthersKept once items' ("note", "n")
publish_shown_example = publish_shown notes once (2 ∷ []) (2 ∷ []) refl refl

abbrev first_note : CatalogItemRef
first_note = record { kind = "note"; id = "n"; version = 0 }

abbrev later : List Edit
later =
    History.deprecate "note" "n" ∷ insert (record { kind = "note"; id = "n"; bytes = 3 ∷ [] }) ∷ []

published_stays_example : get_catalog_item (edits once later) "note" "n" 0 ≡ some (1 ∷ [])
unfolding publish insert_catalog_item versions_of get_catalog_item HashMap.get HashMap.insert
    readable
published_stays_example = published_stays once later ("note", "n") 0 (1 ∷ []) refl (tt, (tt, tt))
