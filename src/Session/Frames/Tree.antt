-- ===== src/Session/Frames/Tree.antt =====
-- frames/tree.rs: `FrameTree`, the tree of a session's frames over a cache of containers. The cache
-- has no bound, so nothing is evicted; `FrameId::new` is an argument of the methods that create.
pub mod Access
pub mod Links
pub mod Removal
pub mod Linking
pub mod Insertion
pub mod Appending
pub mod Statuses
pub mod Termination
use marie.Base.{ℕ, Bool, true, Option, none, some, List, [], length, map, Result, ok, err}
use marie.Base.HashMap
use marie.Base.HashMap.{HashMap}
use marie.Id.{SessionId, FrameId, id_eq}
use marie.Session.Frames.Node.{FrameNode}
use marie.Session.Frames.Store.{FrameStore, StoreError}
use marie.Session.Frames.Container as Container
use marie.Session.Frames.Container.{FrameNodeContainer}

abbrev pub Arena : Type 0 → Type 0
Arena Value = HashMap FrameId (FrameNodeContainer Value)

pub record FrameTree (Value : Type 0) : Type 0 where
  pub store : FrameStore Value
  pub session_id : SessionId
  pub arena : Arena Value

module _ {Value : Type 0} where
  -- The node of a cached container.
  unfoldable pub node_of : Arena Value → FrameId → Option (FrameNode Value)
  node_of arena id = elim (HashMap.get arena id) [
    | some container ↦ some container.node
    | none ↦ none
  ]

  -- `if let Some(container) = arena.get(id) { container.lock().. = .. }`
  unfoldable pub modify : Arena Value → FrameId → (FrameNode Value → FrameNode Value) → Arena Value
  modify arena id change = elim (HashMap.get arena id) [
    | some container ↦ HashMap.insert arena id (Container.deref_mut change container)
    | none ↦ arena
  ]

  unfoldable pub try_get :
      FrameTree Value → FrameId → Result (FrameNodeContainer Value) StoreError × FrameTree Value
  try_get tree id = elim (HashMap.get tree.arena id) [
    | some container ↦ (ok container, tree)
    | none ↦ elim (Container.new tree.store tree.session_id id) [
      | ok container ↦
          (ok container, record tree { arena = HashMap.insert tree.arena id container })
      | err e ↦ (err e, tree)
    ]
  ]

  unfoldable pub parent_of : FrameTree Value → FrameId → Option FrameId
  parent_of tree id = elim (node_of tree.arena id) [ some node ↦ node.parent | none ↦ none ]

  unfoldable pub next_sibling_of : FrameTree Value → FrameId → Option FrameId
  next_sibling_of tree id = elim (node_of tree.arena id) [
    | some node ↦ node.next_sibling
    | none ↦ none
  ]

  unfoldable pub prev_sibling_of : FrameTree Value → FrameId → Option FrameId
  prev_sibling_of tree id = elim (node_of tree.arena id) [
    | some node ↦ node.prev_sibling
    | none ↦ none
  ]

  unfoldable pub iter_children_of : FrameTree Value → FrameId → List FrameId
  iter_children_of tree parent = elim (node_of tree.arena parent) [
    | some node ↦ node.children
    | none ↦ []
  ]
