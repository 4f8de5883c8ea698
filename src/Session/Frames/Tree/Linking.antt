-- ===== src/Session/Frames/Tree/Linking.antt =====
-- What the steps of an insertion do to one node of the cache (frames/tree.rs).
use marie.Base.{
  ◌≡◌, ◌≢◌, arith, inl, inr, Option, none, some, Option-cases, ◌==◌, option_eq, if◌then◌else◌,
}
use marie.Base.HashMap
use marie.Id.{FrameId, id_eq, id_beq_iff}
use marie.Session.Frames.Node.{FrameNode}
use marie.Session.Frames.Container as Container
use marie.Session.Frames.Container.{FrameNodeContainer}
use marie.Session.Frames.Tree.{Arena, node_of, modify}
use marie.Session.Frames.Tree.Links.{
  link_siblings, detach_from_siblings, detach_from_parent, detach,
}

module _ {Value : Type 0} where
  abbrev pub mapped :
      (FrameNode Value → FrameNode Value) → Option (FrameNode Value) → Option (FrameNode Value)
  mapped f none = none
  mapped f (some n) = some (f n)

  pub node_of-modify :
      (arena : Arena Value) (i j : FrameId) (f : FrameNode Value → FrameNode Value)
      → node_of (modify arena i f) j
        ≡ (if i == j then mapped f (node_of arena j) else node_of arena j)
  unfolding node_of modify Container.deref_mut
  node_of-modify arena i j f = elim (Option-cases (HashMap.get arena i)) [
    | inl n ↦ ground (arith, n, id_beq_iff i j)
    | inr (c, s) ↦
        ground (arith, s, id_beq_iff i j, HashMap.get-insert arena i j (Container.deref_mut f c))
  ]

  pub node_of-insert :
      (arena : Arena Value) (i j : FrameId) (c : FrameNodeContainer Value)
      → node_of (HashMap.insert arena i c) j ≡ (if i == j then some c.node else node_of arena j)
  unfolding node_of
  node_of-insert arena i j c = ground (arith, HashMap.get-insert arena i j c)

  -- A node without links is detached already.
  abbrev pub IsLoose : FrameNode Value → Type 0
  IsLoose n = (n.parent ≡ none) × (n.prev_sibling ≡ none) × (n.next_sibling ≡ none)

  pub detach_loose :
      (arena : Arena Value) (id j : FrameId) (n : FrameNode Value)
      → node_of arena id ≡ some n
      → IsLoose n
      → node_of (detach arena id) j ≡ node_of arena j
  unfolding detach detach_from_siblings detach_from_parent
  detach_loose arena id j n h loose = ground (
    arith,
    h,
    loose,
    id_beq_iff id j,
    id_beq_iff id id,
    Option-cases (node_of arena j),
    node_of-modify arena id j (λ n. record n { prev_sibling = none; next_sibling = none }),
    node_of-modify arena id id (λ n. record n { prev_sibling = none; next_sibling = none }),
  )

  -- The step of `insert_child` for the previous sibling, and the one for the next.
  pub link_prev :
      (arena : Arena Value) (prev : Option FrameId) (child j : FrameId)
      → prev ≢ some child
      → node_of
          (elim prev [
            | some p ↦ link_siblings arena p child
            | none ↦ modify arena child (λ n. record n { prev_sibling = none })
          ])
          j
        ≡ mapped
            (λ n. record n {
              prev_sibling = if child == j then prev else n.prev_sibling;
              next_sibling = if prev == some j then some child else n.next_sibling;
            })
            (node_of arena j)
  unfolding link_siblings
  link_prev arena none child j h = ground (
    arith,
    id_beq_iff child j,
    Option-cases (node_of arena j),
    node_of-modify arena child j (λ n. record n { prev_sibling = none }),
  )
  link_prev arena (some p) child j h =
      let arena' = modify arena p (λ n. record n { next_sibling = some child }) in
      ground (
        arith,
        h,
        id_beq_iff child j,
        id_beq_iff p j,
        Option-cases (node_of arena j),
        node_of-modify arena p j (λ n. record n { next_sibling = some child }),
        node_of-modify arena' child j (λ n. record n { prev_sibling = some p }),
      )

  pub link_next :
      (arena : Arena Value) (next : Option FrameId) (child j : FrameId)
      → next ≢ some child
      → node_of
          (elim next [
            | some q ↦ link_siblings arena child q
            | none ↦ modify arena child (λ n. record n { next_sibling = none })
          ])
          j
        ≡ mapped
            (λ n. record n {
              next_sibling = if child == j then next else n.next_sibling;
              prev_sibling = if next == some j then some child else n.prev_sibling;
            })
            (node_of arena j)
  unfolding link_siblings
  link_next arena none child j h = ground (
    arith,
    id_beq_iff child j,
    Option-cases (node_of arena j),
    node_of-modify arena child j (λ n. record n { next_sibling = none }),
  )
  link_next arena (some q) child j h =
      let arena' = modify arena child (λ n. record n { next_sibling = some q }) in
      ground (
        arith,
        h,
        id_beq_iff child j,
        id_beq_iff q j,
        Option-cases (node_of arena j),
        node_of-modify arena child j (λ n. record n { next_sibling = some q }),
        node_of-modify arena' q j (λ n. record n { prev_sibling = some child }),
      )
