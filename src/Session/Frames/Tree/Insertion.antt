-- ===== src/Session/Frames/Tree/Insertion.antt =====
-- What an insertion does to every node of the tree (frames/tree.rs).
use marie.Base.{
  ℕ, ◌≡◌, ◌≢◌, refl, ◌∙◌, ap, arith, Option, none, some, ◌==◌, option_eq, option_beq_iff,
  if◌then◌else◌, List, length, get_elem?, min,
}
use marie.Base.HashMap
use marie.Id.{FrameId, id_eq, id_beq_iff}
use marie.Session.Frames.Node.{FrameNode, NewFrameNodeArgs}
use marie.Session.Frames.Node as Node
use marie.Session.Frames.Container as Container
use marie.Session.Frames.Container.{FrameNodeContainer}
use marie.Session.Frames.Tree.{Arena, FrameTree, node_of, modify}
use marie.Session.Frames.Tree.Links.{
  link_siblings, detach, insert_at, elem_before, insert_child, create_node, insert,
}
use marie.Session.Frames.Tree.Linking.{
  mapped, node_of-modify, node_of-insert, detach_loose, link_prev, link_next,
}

module _ {Value : Type 0} where
  -- A node after `id` was inserted below `parent` between `prev` and `next`, at `index`.
  abbrev pub relinked :
      FrameId
      → FrameId
      → ℕ
      → Option FrameId
      → Option FrameId
      → FrameId
      → FrameNode Value
      → FrameNode Value
  relinked parent id index prev next j n = record n {
    prev_sibling = if id == j then prev else if next == some j then some id else n.prev_sibling;
    next_sibling = if id == j then next else if prev == some j then some id else n.next_sibling;
    children = if parent == j then insert_at n.children index id else n.children;
    parent = if id == j then some parent else n.parent;
  }

  -- `insert_child` once the child is detached and the parent's children are known.
  abbrev linked : Arena Value → FrameId → FrameId → ℕ → List FrameId → Arena Value
  linked d parent id index children =
      let after_prev : Arena Value = elim (elem_before children index) [
        | some prev ↦ link_siblings d prev id
        | none ↦ modify d id (λ n. record n { prev_sibling = none })
      ] in
      let after_next : Arena Value = elim (get_elem? children index) [
        | some next ↦ link_siblings after_prev id next
        | none ↦ modify after_prev id (λ n. record n { next_sibling = none })
      ] in
      modify (modify after_next parent (λ n. record n { children = insert_at n.children index id }))
        id (λ n. record n { parent = some parent })

  insert_child-linked :
      (arena : Arena Value) (parent id : FrameId) (position : ℕ) (p : FrameNode Value)
      → node_of (detach arena id) parent ≡ some p
      → insert_child arena parent id position
        ≡ linked (detach arena id) parent id (min position (length p.children)) p.children
  unfolding insert_child
  insert_child-linked arena parent id position p h = rw (h, insert_child) refl

  linked_relinks :
      (d : Arena Value) (parent id j : FrameId) (index : ℕ) (children : List FrameId)
      → elem_before children index ≢ some id
      → get_elem? children index ≢ some id
      → node_of (linked d parent id index children) j
        ≡ mapped
            (relinked parent id index (elem_before children index) (get_elem? children index) j)
            (node_of d j)
  linked_relinks d parent id j index children a b =
      let after_prev : Arena Value = elim (elem_before children index) [
        | some prev ↦ link_siblings d prev id
        | none ↦ modify d id (λ n. record n { prev_sibling = none })
      ] in
      let after_next : Arena Value = elim (get_elem? children index) [
        | some next ↦ link_siblings after_prev id next
        | none ↦ modify after_prev id (λ n. record n { next_sibling = none })
      ] in
      let with_child : FrameNode Value → FrameNode Value =
        λ n. record n { children = insert_at n.children index id } in
      all_steps (node_of d j) (node_of after_prev j) (node_of after_next j)
        (node_of (modify after_next parent with_child) j)
        (link_prev d (elem_before children index) id j a)
        (link_next after_prev (get_elem? children index) id j b)
        (node_of-modify after_next parent j with_child)
        (node_of-modify (modify after_next parent with_child) id j
          (λ n. record n { parent = some parent }))
    where
      all_steps :
          (m0 m1 m2 m3 : Option (FrameNode Value))
          → {m4 : Option (FrameNode Value)}
          → m1
            ≡ mapped
                (λ n. record n {
                  prev_sibling = if id == j then elem_before children index else n.prev_sibling;
                  next_sibling =
                      if elem_before children index == some j then some id else n.next_sibling;
                })
                m0
          → m2
            ≡ mapped
                (λ n. record n {
                  next_sibling = if id == j then get_elem? children index else n.next_sibling;
                  prev_sibling =
                      if get_elem? children index == some j then some id else n.prev_sibling;
                })
                m1
          → m3 ≡ (
              if parent == j
              then mapped (λ n. record n { children = insert_at n.children index id }) m2
              else m2)
          → m4 ≡ (if id == j then mapped (λ n. record n { parent = some parent }) m3 else m3)
          → m4
            ≡ mapped
                (relinked parent id index (elem_before children index) (get_elem? children index) j)
                m0
      all_steps none m1 m2 m3 e1 e2 e3 e4 = ground (
        arith,
        e1,
        e2,
        e3,
        e4,
        id_beq_iff id j,
        id_beq_iff parent j,
        a,
        b,
        option_beq_iff (elem_before children index) (some j),
        option_beq_iff (get_elem? children index) (some j),
      )
      all_steps (some n) m1 m2 m3 e1 e2 e3 e4 = ground (
        arith,
        e1,
        e2,
        e3,
        e4,
        id_beq_iff id j,
        id_beq_iff parent j,
        a,
        b,
        option_beq_iff (elem_before children index) (some j),
        option_beq_iff (get_elem? children index) (some j),
      )

  -- The insertion of a node under a fresh identifier: the new node stands below the parent, between
  -- the children at the given position (at the end, if there are fewer), which become its siblings;
  -- the parent has it at that position among its children; nothing else changes in any node.
  pub insert_relinks :
      (tree : FrameTree Value) (parent id j : FrameId) (args : NewFrameNodeArgs Value)
      (position : ℕ) (p : FrameNode Value)
      → node_of tree.arena id ≡ none
      → node_of tree.arena parent ≡ some p
      → let index = min position (length p.children) in
        let prev = elem_before p.children index in
        let next = get_elem? p.children index in
        prev ≢ some id
        → next ≢ some id
        → node_of (insert tree parent id args position).1.arena j
          ≡ mapped
              (relinked parent id index prev next j)
              (if id == j then some (Node.new id args) else node_of tree.arena j)
  unfolding insert create_node Container.from_new_node Node.new
  insert_relinks tree parent id j args position p fresh hp a b =
      let node = Node.new id args in
      let arena = HashMap.insert tree.arena id (Container.from_new_node node) in
      let index = min position (length p.children) in
      let at : (k : FrameId) → _ =
        λ k. node_of-insert tree.arena id k (Container.from_new_node node) in
      let here : node_of arena id ≡ some node = ground (arith, at id, id_beq_iff id id) in
      let there : node_of arena parent ≡ some p =
        ground (arith, at parent, id_beq_iff id parent, fresh, hp) in
      let loose = detach_loose arena id j node here (refl, refl, refl) in
      let loose_parent = detach_loose arena id parent node here (refl, refl, refl) in
      ap (λ m. node_of m j) (insert_child-linked arena parent id position p (loose_parent ∙ there))
      ∙ linked_relinks (detach arena id) parent id j index p.children a b
      ∙ ap
          (mapped (
            relinked parent id index (elem_before p.children index) (get_elem? p.children index) j))
          (loose ∙ at j)
