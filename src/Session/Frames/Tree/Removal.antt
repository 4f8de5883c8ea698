-- ===== src/Session/Frames/Tree/Removal.antt =====
-- frames/tree.rs: `remove`, which takes a subtree out of the cache and of the store. The loop over
-- its stack has fuel, one unit for each node that it takes from the stack.
use marie.Base.{
  pair_eq, pair_beq, if◌then◌else◌, ℕ, zero, suc, List, [], ◌∷◌, Option, none, some, true, false,
  Result, ok, err, ◌≡◌, arith,
}
use marie.Base.HashMap
use marie.Id.{SessionId, FrameId, id_eq}
use marie.Session.Frames.Node.{FrameNode, NewFrameNodeArgs}
use marie.Session.Frames.Node as Node
use marie.Session.Frames.Store.{StoreError, delete_frame}
use marie.Session.Frames.Container as Container
use marie.Session.Frames.Container.{FrameNodeContainer}
use marie.Session.Frames.Tree.{FrameTree, node_of, modify}
use marie.Session.Frames.Tree.Links.{
  detach, detach_from_siblings, detach_from_parent, create_node, set_root,
}

-- `stack.extend(children)`, with the top of the stack in front
unfoldable pub extend_stack : List FrameId → List FrameId → List FrameId
extend_stack stack [] = stack
extend_stack stack (c ∷ cs) = extend_stack (c ∷ stack) cs

module _ {Value : Type 0} where
  -- The body of the loop: the error of a deletion, or the stack that is left.
  unfoldable pub remove_step :
      FrameTree Value → FrameId → List FrameId → Result (List FrameId) StoreError × FrameTree Value
  remove_step tree current stack =
      let arena = detach tree.arena current in
      elim (HashMap.get arena current) [
        | none ↦ (ok stack, record tree { arena = HashMap.remove arena current })
        | some container ↦
            let (r, store) = Container.delete container tree.store in
            elim r [
              | err e ↦ (err e, record tree { arena = arena; store = store })
              | ok deleted ↦ (
                ok (extend_stack stack container.node.children),
                record tree { arena = HashMap.remove arena current; store = store },
              )
            ]
      ]

  -- `none` where the fuel does not suffice.
  unfoldable pub remove_all :
      ℕ → FrameTree Value → List FrameId → Option (Option StoreError × FrameTree Value)
  remove_all zero tree [] = some (none, tree)
  remove_all zero tree (current ∷ stack) = none
  remove_all (suc fuel) tree [] = some (none, tree)
  remove_all (suc fuel) tree (current ∷ stack) =
      let (r, tree') = remove_step tree current stack in
      elim r [ err e ↦ some (some e, tree') | ok stack' ↦ remove_all fuel tree' stack' ]

  unfoldable pub remove :
      ℕ → FrameTree Value → FrameId → Option (Option StoreError × FrameTree Value)
  remove fuel tree id = remove_all fuel tree (id ∷ [])

  -- A root that was created and not flushed since cannot be removed: the store does not know it,
  -- its deletion fails, and the node stays in the cache.
  pub remove_unflushed :
      (fuel : ℕ) (tree : FrameTree Value) (id : FrameId) (args : NewFrameNodeArgs Value)
      → HashMap.get tree.store (args.session_id, id) ≡ none
      → let created = (set_root tree id args).1 in
        (after : FrameTree Value) × (remove (suc fuel) created id
          ≡ some (some (StoreError.frame_not_found args.session_id id), after))
        × (node_of after.arena id ≡ some (record (Node.new id args) { is_root = true }))
  unfolding remove remove_all remove_step set_root create_node detach detach_from_siblings
      detach_from_parent modify node_of Container.delete Container.deref_mut Container.from_new_node
      delete_frame Node.new
  remove_unflushed fuel tree id args h =
      let root : FrameNode Value = record (Node.new id args) { is_root = true } in
      let c0 = Container.from_new_node (Node.new id args) in
      let c1 : FrameNodeContainer Value = record { node = root; dirty = true; deleted = false } in
      let a0 = HashMap.insert tree.arena id c0 in
      let a1 = HashMap.insert a0 id c1 in
      let a2 = HashMap.insert a1 id c1 in
      let e0 = HashMap.get-insert_self tree.arena id c0 in
      let e1 = HashMap.get-insert_self a0 id c1 in
      let e2 = HashMap.get-insert_self a1 id c1 in
      (record tree { arena = a2 }, ground (arith, h, e0, e1, e2), ground (arith, e2))

  -- A root that was created over a stored frame is removed from the cache and from the store; the
  -- other frames of the store stay as they were.
  pub remove_stored :
      (fuel : ℕ) (tree : FrameTree Value) (id : FrameId) (args : NewFrameNodeArgs Value)
      (stored : FrameNode Value) (other : SessionId × FrameId)
      → HashMap.get tree.store (args.session_id, id) ≡ some stored
      → let created = (set_root tree id args).1 in
        (after : FrameTree Value) × (remove (suc (suc fuel)) created id ≡ some (none, after))
        × (node_of after.arena id ≡ none)
        × (HashMap.get after.store other
            ≡ (if pair_beq (args.session_id, id) other then none else HashMap.get tree.store other))
  unfolding remove remove_all remove_step set_root create_node detach detach_from_siblings
      detach_from_parent modify node_of Container.delete Container.deref_mut Container.from_new_node
      delete_frame Node.new extend_stack
  remove_stored fuel tree id args stored other h =
      let root : FrameNode Value = record (Node.new id args) { is_root = true } in
      let c0 = Container.from_new_node (Node.new id args) in
      let c1 : FrameNodeContainer Value = record { node = root; dirty = true; deleted = false } in
      let a0 = HashMap.insert tree.arena id c0 in
      let a1 = HashMap.insert a0 id c1 in
      let a2 = HashMap.insert a1 id c1 in
      let e0 = HashMap.get-insert_self tree.arena id c0 in
      let e1 = HashMap.get-insert_self a0 id c1 in
      let e2 = HashMap.get-insert_self a1 id c1 in
      (
        record tree {
          arena = HashMap.remove a2 id;
          store = HashMap.remove tree.store (args.session_id, id);
        },
        ground (arith, h, e0, e1, e2),
        ground (arith, HashMap.get-remove_self a2 id),
        HashMap.get-remove tree.store (args.session_id, id) other,
      )
