-- ===== src/Session/Frames/Tree/Links.antt =====
-- frames/tree.rs: the links between the nodes, which `insert_child` and `detach` maintain.
use marie.Base.{
  ℕ, zero, suc, true, not, Option, none, some, ◌==◌, List, [], ◌∷◌, filter, length, get_elem?, min,
}
use marie.Base.HashMap
use marie.Id.{FrameId, id_eq}
use marie.Session.Frames.Node.{FrameNode, NewFrameNodeArgs}
use marie.Session.Frames.Node as Node
use marie.Session.Frames.Container as Container
use marie.Session.Frames.Tree.{Arena, FrameTree, node_of, modify}

-- `children.retain(|child| child != id)`
unfoldable pub without : List FrameId → FrameId → List FrameId
without children id = filter (λ child. not (child == id)) children

-- `Vec::insert`
unfoldable pub insert_at {ℓ} : {A : Type ℓ} → List A → ℕ → A → List A
insert_at xs zero x = x ∷ xs
insert_at [] (suc i) x = x ∷ []
insert_at (y ∷ ys) (suc i) x = y ∷ insert_at ys i x

-- `index.checked_sub(1).and_then(|i| children.get(i))`
unfoldable pub elem_before {ℓ} : {A : Type ℓ} → List A → ℕ → Option A
elem_before xs zero = none
elem_before xs (suc i) = get_elem? xs i

module _ {Value : Type 0} where
  unfoldable pub link_siblings : Arena Value → FrameId → FrameId → Arena Value
  link_siblings arena prev next =
      let arena' = modify arena prev (λ node. record node { next_sibling = some next }) in
      modify arena' next (λ node. record node { prev_sibling = some prev })

  unfoldable pub detach_from_siblings : Arena Value → FrameId → Arena Value
  detach_from_siblings arena id = elim (node_of arena id) [
    | none ↦ arena
    | some node ↦
        let prev = node.prev_sibling in
        let next = node.next_sibling in
        let after_prev : Arena Value = elim prev [
          | some p ↦ modify arena p (λ n. record n { next_sibling = next })
          | none ↦ arena
        ] in
        let after_next : Arena Value = elim next [
          | some q ↦ modify after_prev q (λ n. record n { prev_sibling = prev })
          | none ↦ after_prev
        ] in
        modify after_next id (λ n. record n { prev_sibling = none; next_sibling = none })
  ]

  unfoldable pub detach_from_parent : Arena Value → FrameId → Arena Value
  detach_from_parent arena id = elim (node_of arena id) [
    | none ↦ arena
    | some node ↦ elim node.parent [
      | none ↦ arena
      | some parent_id ↦
          modify (modify arena parent_id (λ n. record n { children = without n.children id })) id
            (λ n. record n { parent = none })
    ]
  ]

  unfoldable pub detach : Arena Value → FrameId → Arena Value
  detach arena id = detach_from_parent (detach_from_siblings arena id) id

  unfoldable pub insert_child : Arena Value → FrameId → FrameId → ℕ → Arena Value
  insert_child arena parent child position =
      let detached = detach arena child in
      elim (node_of detached parent) [
        | none ↦ detached
        | some parent_node ↦
            let index = min position (length parent_node.children) in
            let after_prev : Arena Value = elim (elem_before parent_node.children index) [
              | some prev ↦ link_siblings detached prev child
              | none ↦ modify detached child (λ n. record n { prev_sibling = none })
            ] in
            let after_next : Arena Value = elim (get_elem? parent_node.children index) [
              | some next ↦ link_siblings after_prev child next
              | none ↦ modify after_prev child (λ n. record n { next_sibling = none })
            ] in
            modify
              (modify after_next parent
                (λ n. record n { children = insert_at n.children index child }))
              child (λ n. record n { parent = some parent })
      ]

  unfoldable pub create_node : FrameTree Value → FrameId → NewFrameNodeArgs Value → FrameTree Value
  create_node tree id args = record tree {
    arena = HashMap.insert tree.arena id (Container.from_new_node (Node.new id args));
  }

  unfoldable pub set_root :
      FrameTree Value → FrameId → NewFrameNodeArgs Value → FrameId × FrameTree Value
  set_root tree id args =
      let created = create_node tree id args in
      (
        id,
        record created { arena = modify created.arena id (λ node. record node { is_root = true }) },
      )

  unfoldable pub insert :
      FrameTree Value → FrameId → FrameId → NewFrameNodeArgs Value → ℕ → FrameId × FrameTree Value
  insert tree parent id args position =
      let created = create_node tree id args in
      (id, record created { arena = insert_child created.arena parent id position })

  unfoldable pub append :
      FrameTree Value → FrameId → FrameId → NewFrameNodeArgs Value → FrameId × FrameTree Value
  append tree parent id args =
      let position : ℕ = elim (node_of tree.arena parent) [
        | some node ↦ length node.children
        | none ↦ 0
      ] in
      insert tree parent id args position
