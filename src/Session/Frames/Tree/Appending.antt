-- ===== src/Session/Frames/Tree/Appending.antt =====
-- Where an appended node stands (frames/tree.rs).
use marie.Base.{
  ◌≡◌, ◌≢◌, refl, sym, ◌∙◌, ap, arith, none, some, option_eq, option_beq_iff, ◌++◌, last?, List, [],
  ◌∷◌, length, get_elem?, min,
}
use marie.Id.{FrameId, id_eq, id_beq_iff}
use marie.Session.Frames.Node.{FrameNode, NewFrameNodeArgs}
use marie.Session.Frames.Tree.{
  FrameTree, node_of, iter_children_of, parent_of, prev_sibling_of, next_sibling_of,
}
use marie.Session.Frames.Tree.Links.{insert_at, elem_before, append}
use marie.Session.Frames.Tree.Insertion.{insert_relinks}

insert_at-length {ℓ} :
    {A : Type ℓ} (xs : List A) (x : A) → insert_at xs (length xs) x ≡ xs ++ x ∷ []
unfolding insert_at
insert_at-length [] x = refl
insert_at-length (y ∷ ys) x = ap (λ zs. y ∷ zs) (insert_at-length ys x)

get_elem?-length {ℓ} : {A : Type ℓ} (xs : List A) → get_elem? xs (length xs) ≡ none
get_elem?-length [] = refl
get_elem?-length (x ∷ xs) = get_elem?-length xs

elem_before-length {ℓ} : {A : Type ℓ} (xs : List A) → elem_before xs (length xs) ≡ last? xs
unfolding elem_before
elem_before-length [] = refl
elem_before-length (x ∷ []) = refl
elem_before-length (x ∷ y ∷ ys) = elem_before-length (y ∷ ys)

module _ {Value : Type 0} where
  -- A node appended under a fresh identifier is the last child of its parent, after the children
  -- that were there; the last
  -- of these is its previous sibling, and it has no next one.
  pub append_last :
      (tree : FrameTree Value) (parent id : FrameId) (args : NewFrameNodeArgs Value)
      (p : FrameNode Value)
      → node_of tree.arena id ≡ none
      → node_of tree.arena parent ≡ some p
      → last? p.children ≢ some id
      → let tree' = (append tree parent id args).1 in
        (iter_children_of tree' parent ≡ p.children ++ id ∷ [])
        × (parent_of tree' id ≡ some parent)
        × (prev_sibling_of tree' id ≡ last? p.children)
        × (next_sibling_of tree' id ≡ none)
  unfolding append iter_children_of parent_of prev_sibling_of next_sibling_of
  append_last tree parent id args p fresh hp h =
      let n = length p.children in
      let m : min n n ≡ n = omega arith in
      let before : elem_before p.children (min n n) ≡ last? p.children =
        ap (elem_before p.children) m ∙ elem_before-length p.children in
      let after : get_elem? p.children (min n n) ≡ none =
        ap (get_elem? p.children) m ∙ get_elem?-length p.children in
      let placed = ap (λ k. insert_at p.children k id) m ∙ insert_at-length p.children id in
      let a : elem_before p.children (min n n) ≢ some id = λ e. h (sym before ∙ e) in
      let b : get_elem? p.children (min n n) ≢ some id = λ e. ground (arith, after, e) in
      ground (
        arith,
        hp,
        fresh,
        before,
        after,
        placed,
        id_beq_iff id id,
        id_beq_iff id parent,
        id_beq_iff parent parent,
        option_beq_iff (elem_before p.children (min n n)) (some parent),
        insert_relinks tree parent id parent args n p fresh hp a b,
        insert_relinks tree parent id id args n p fresh hp a b,
      )
