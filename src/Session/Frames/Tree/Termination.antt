-- ===== src/Session/Frames/Tree/Termination.antt =====
-- The loop of `remove` ends (frames/tree.rs): it takes a node from the stack for each of its rounds,
-- and the children that it puts there leave the cache with their parent.
use marie.Base.{
  ℕ, zero, suc, ◌+◌, ◌≤◌, ◌<◌, ◌≡◌, refl, arith, inl, inr, Bool-cases, Option, none, some,
  Option-cases, List, [], ◌∷◌, length, ◌==◌, ok, Result-cases,
}
use native.Mathlib.Nat.{le_trans}
use marie.Base.HashMap
use marie.Id.{FrameId, id_eq}
use marie.Session.Frames.Node.{FrameNode}
use marie.Session.Frames.Store.{StoreError}
use marie.Session.Frames.Container as Container
use marie.Session.Frames.Container.{FrameNodeContainer}
use marie.Session.Frames.Tree.{Arena, FrameTree, node_of, modify}
use marie.Session.Frames.Tree.Links.{without, detach, detach_from_siblings, detach_from_parent}
use marie.Session.Frames.Tree.Removal.{extend_stack, remove_step, remove_all, remove}

length-without : (cs : List FrameId) (id : FrameId) → length (without cs id) ≤ length cs
unfolding without
length-without [] id = omega arith
length-without (c ∷ cs) id = ground (arith, length-without cs id)

length-extend_stack :
    (stack cs : List FrameId) → length (extend_stack stack cs) ≡ length stack + length cs
unfolding extend_stack
length-extend_stack stack [] = omega arith
length-extend_stack stack (c ∷ cs) = omega (arith, length-extend_stack (c ∷ stack) cs)

module _ {Value : Type 0} where
  abbrev pub width : FrameNode Value → ℕ
  width n = length n.children

  -- The children of all cached nodes.
  abbrev pub total : Arena Value → ℕ
  total [] = 0
  total ((i, c) ∷ arena) = width c.node + total arena

  total-insert :
      (arena : Arena Value) (id : FrameId) (c d : FrameNodeContainer Value)
      → HashMap.get arena id ≡ some c
      → total (HashMap.insert arena id d) + width c.node ≡ total arena + width d.node
  unfolding HashMap.get HashMap.insert
  total-insert [] id c d h = cc
  total-insert ((i, b) ∷ arena) id c d h = elim (Bool-cases (i == id)) [
    | inl y ↦ ground (arith, h, y)
    | inr n ↦ ground (arith, h, n, total-insert arena id c d)
  ]

  total-remove :
      (arena : Arena Value) (id : FrameId) → total (HashMap.remove arena id) ≤ total arena
  unfolding HashMap.remove
  total-remove [] id = omega arith
  total-remove ((i, b) ∷ arena) id = ground (arith, total-remove arena id)

  total-remove_cached :
      (arena : Arena Value) (id : FrameId) (c : FrameNodeContainer Value)
      → HashMap.get arena id ≡ some c
      → total (HashMap.remove arena id) + width c.node ≤ total arena
  unfolding HashMap.get HashMap.remove
  total-remove_cached [] id c h = cc
  total-remove_cached ((i, b) ∷ arena) id c h = elim (Bool-cases (i == id)) [
    | inl y ↦ ground (arith, h, y, total-remove arena id)
    | inr n ↦ ground (arith, h, n, total-remove_cached arena id c)
  ]

  total-modify :
      (arena : Arena Value) (id : FrameId) (change : FrameNode Value → FrameNode Value)
      → ((n : FrameNode Value) → width (change n) ≤ width n)
      → total (modify arena id change) ≤ total arena
  unfolding modify Container.deref_mut
  total-modify arena id change h = elim (Option-cases (HashMap.get arena id)) [
    | inl n ↦ ground (arith, n)
    | inr (c, s) ↦
        ground (arith, s, h c.node, total-insert arena id c (Container.deref_mut change c) s)
  ]

  total-detach_from_siblings :
      (arena : Arena Value) (id : FrameId) → total (detach_from_siblings arena id) ≤ total arena
  unfolding detach_from_siblings
  total-detach_from_siblings arena id = elim (Option-cases (node_of arena id)) [
    | inl n ↦ ground (arith, n)
    | inr (node, s) ↦
        let prev = node.prev_sibling in
        let next = node.next_sibling in
        let to_next : FrameNode Value → FrameNode Value = λ n. record n { next_sibling = next } in
        let to_prev : FrameNode Value → FrameNode Value = λ n. record n { prev_sibling = prev } in
        let clear : FrameNode Value → FrameNode Value =
          λ n. record n { prev_sibling = none; next_sibling = none } in
        let last : (a : Arena Value) → total (modify a id clear) ≤ total a =
          λ a. total-modify a id clear (λ n. omega arith) in
        let linked : (a : Arena Value) (q : FrameId) → total (modify a q to_prev) ≤ total a =
          λ a q. total-modify a q to_prev (λ n. omega arith) in
        let relinked : (p : FrameId) → total (modify arena p to_next) ≤ total arena =
          λ p. total-modify arena p to_next (λ n. omega arith) in
        elim (Option-cases prev) [
          | inl p ↦ elim (Option-cases next) [
            | inl q ↦ ground (arith, s, p, q, last arena)
            | inr (b, q) ↦ ground (arith, s, p, q, linked arena b, last (modify arena b to_prev))
          ]
          | inr (a, p) ↦ elim (Option-cases next) [
            | inl q ↦ ground (arith, s, p, q, relinked a, last (modify arena a to_next))
            | inr (b, q) ↦ ground (
              arith,
              s,
              p,
              q,
              relinked a,
              linked (modify arena a to_next) b,
              last (modify (modify arena a to_next) b to_prev),
            )
          ]
        ]
  ]

  total-detach_from_parent :
      (arena : Arena Value) (id : FrameId) → total (detach_from_parent arena id) ≤ total arena
  unfolding detach_from_parent
  total-detach_from_parent arena id = elim (Option-cases (node_of arena id)) [
    | inl n ↦ ground (arith, n)
    | inr (node, s) ↦ elim (Option-cases node.parent) [
      | inl n ↦ ground (arith, s, n)
      | inr (p, t) ↦
          let shrink : FrameNode Value → FrameNode Value =
            λ n. record n { children = without n.children id } in
          let cut : FrameNode Value → FrameNode Value = λ n. record n { parent = none } in
          ground (
            arith,
            s,
            t,
            total-modify arena p shrink (λ n. length-without n.children id),
            total-modify (modify arena p shrink) id cut (λ n. omega arith),
          )
    ]
  ]

  total-detach : (arena : Arena Value) (id : FrameId) → total (detach arena id) ≤ total arena
  unfolding detach
  total-detach arena id =
      le_trans (total-detach_from_parent (detach_from_siblings arena id) id)
        (total-detach_from_siblings arena id)

  -- A round leaves less to do: fewer nodes on the stack and children in the cache.
  remove_step-decreases :
      (tree : FrameTree Value) (current : FrameId) (stack stack' : List FrameId)
      → (remove_step tree current stack).0 ≡ ok stack'
      → length stack' + total (FrameTree.arena (remove_step tree current stack).1)
        ≤ length stack + total tree.arena
  unfolding remove_step
  remove_step-decreases tree current stack stack' h =
      let d = total-detach tree.arena current in
      let a = detach tree.arena current in
      elim (Option-cases (HashMap.get a current)) [
        | inl n ↦ ground (arith, n, h, d, total-remove a current)
        | inr (c, s) ↦ elim (Result-cases (Container.delete c tree.store).0) [
          | inr (e, f) ↦ absurd (ground (arith, s, f, h))
          | inl (x, f) ↦ ground (
            arith,
            s,
            f,
            h,
            d,
            total-remove_cached a current c s,
            length-extend_stack stack c.node.children,
          )
        ]
      ]

  remove_all-returns :
      (fuel : ℕ) (tree : FrameTree Value) (stack : List FrameId)
      → length stack + total tree.arena ≤ fuel
      → (r : Option StoreError × FrameTree Value) × (remove_all fuel tree stack ≡ some r)
  unfolding remove_all
  remove_all-returns zero tree [] h = (_, refl)
  remove_all-returns zero tree (s ∷ ss) h = absurd (omega arith)
  remove_all-returns (suc fuel) tree [] h = (_, refl)
  remove_all-returns (suc fuel) tree (s ∷ ss) h = elim (Result-cases (remove_step tree s ss).0) [
    | inr (e, x) ↦ ((some e, (remove_step tree s ss).1), ground (arith, x))
    | inl (ss', x) ↦
        let (r, g) =
          remove_all-returns fuel (remove_step tree s ss).1 ss'
            (omega (arith, remove_step-decreases tree s ss ss' x)) in
        (r, ground (arith, x, g))
  ]

  -- The removal of a subtree returns, with a result or an error of the store, on fuel that exceeds
  -- the number of children of the cached nodes, whatever the links between them are.
  pub remove_returns :
      (fuel : ℕ) (tree : FrameTree Value) (id : FrameId)
      → total tree.arena < fuel
      → (r : Option StoreError × FrameTree Value) × (remove fuel tree id ≡ some r)
  unfolding remove
  remove_returns fuel tree id h = remove_all-returns fuel tree (id ∷ []) (omega arith)
