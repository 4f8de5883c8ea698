-- ===== src/Session/Frames/Examples.antt =====
-- A root with one child, which gets a second; the theorems at them.
use marie.Base.{
  ℕ, ◌≡◌, refl, true, false, ◌⊎◌, none, some, if◌then◌else◌, ◌==◌, [], length, get_elem?, min, ok,
  err, option_eq, pair_eq,
}
use marie.Base.HashMap
use marie.Id.{SessionId, FrameId, id_beq, id_eq}
use marie.Session.Frames.Policy.{
  FrameKind, FrameSpecRef, ReducePolicy, OnResumePolicy, ChildFailurePolicy, ResumePolicy,
  OnStartPolicy,
}
use marie.Session.Frames.Node.{FrameNode, NewFrameNodeArgs}
use marie.Session.Frames.Node as Node
use marie.Session.Frames.Container as Container
use marie.Session.Frames.Store.{
  FrameStore, StoreError, get_root_frame_id, set_root_frame_id, upsert_frame,
}
use marie.Session.Frames.Store.Root.{IsKeyed, upsert_frame-IsKeyed, set_root_unique}
use marie.Session.Frames.Tree.{FrameTree, node_of, modify}
use marie.Session.Frames.Tree.Links.{elem_before, create_node, set_root, insert}
use marie.Session.Frames.Tree.Linking.{mapped}
use marie.Session.Frames.Tree.Insertion.{relinked, insert_relinks}
use marie.Session.Frames.Policy.{FrameStatus}
use marie.Session.Frames.Container.{FrameNodeContainer}
use marie.Session.Frames.Tree.Removal.{remove, remove_unflushed}
use marie.Base.{Option, arith}
use marie.Session.Frames.Tree.Termination.{remove_returns}

abbrev session : SessionId
session = record { prefix = 1; local = 1 }

abbrev root : FrameId
root = record { prefix = 1; local = 2 }

abbrev child : FrameId
child = record { prefix = 1; local = 3 }

abbrev args : NewFrameNodeArgs ℕ
args = record {
  session_id = session;
  spec_ref = FrameSpecRef.expert;
  data_kind = FrameKind.void;
  inherited_channels = [];
  forked_from = none;
  frame_policy = record {
    on_child_failed = ChildFailurePolicy.dont_fail;
    resume_policy = ResumePolicy.sequential;
    reduce_policy = ReducePolicy.dont_reduce;
    on_resume_policy = OnResumePolicy.run_frame;
    on_start_policy = OnStartPolicy.run_frame;
  };
  barrier = false;
  superstep = 0;
}

abbrev root_node : FrameNode ℕ
root_node = record (Node.new root args) { is_root = true }

abbrev tree : FrameTree ℕ
tree = (set_root (record { store = []; session_id = session; arena = [] }) root args).1

tree_has_root : node_of tree.arena root ≡ some root_node
unfolding set_root create_node modify node_of Container.deref_mut Container.from_new_node
    HashMap.get HashMap.insert id_beq
tree_has_root = refl

tree_has_no_child : node_of tree.arena child ≡ none
unfolding set_root create_node modify node_of Container.deref_mut Container.from_new_node
    HashMap.get HashMap.insert id_beq
tree_has_no_child = refl

insert_relinks_example :
    let index = min 0 (length root_node.children) in
    let prev = elem_before root_node.children index in
    let next = get_elem? root_node.children index in
    node_of (insert tree root child args 0).1.arena root
    ≡ mapped
        (relinked root child index prev next root)
        (if child == root then some (Node.new child args) else node_of tree.arena root)
unfolding elem_before Node.new
insert_relinks_example =
    insert_relinks tree root child root args 0 root_node tree_has_no_child tree_has_root (λ e. cc)
      (λ e. cc)

abbrev child_node : FrameNode ℕ
child_node = record (Node.new child args) { is_root = true }

abbrev frames : FrameStore ℕ
frames = upsert_frame (upsert_frame [] root_node) child_node

frames-IsKeyed : IsKeyed frames
unfolding HashMap.get
frames-IsKeyed =
    upsert_frame-IsKeyed (upsert_frame [] root_node) child_node
      (upsert_frame-IsKeyed [] root_node nothing)
  where
    nothing : IsKeyed {Value = ℕ} []
    nothing = record { distinct = tt; keyed = λ s i f e. cc }

set_root_unique_example :
    let (r, frames') = set_root_frame_id frames session child in
    ((HashMap.get frames (session, child) ≡ none)
      × (r ≡ err (StoreError.frame_not_found session child))
      × (frames' ≡ frames))
    ⊎ ((r ≡ ok child)
        × ((t : SessionId) (i : FrameId)
            → HashMap.get frames' (t, i) ≡ (elim (HashMap.get frames (t, i)) [
              | none ↦ none
              | some f ↦ some (if t == session then record f { is_root = i == child } else f)
            ]))
        × (get_root_frame_id frames' session ≡ ok child))
set_root_unique_example = set_root_unique frames session child frames-IsKeyed

-- Both frames are stored as roots: `upsert_frame` demotes none.
two_roots :
    (HashMap.get frames (session, root) ≡ some root_node)
    × (HashMap.get frames (session, child) ≡ some child_node)
unfolding upsert_frame HashMap.get HashMap.insert id_beq Node.new
two_roots = (refl, refl)

abbrev nothing_stored : FrameTree ℕ
nothing_stored = record { store = []; session_id = session; arena = [] }

remove_unflushed_example :
    let created = (set_root nothing_stored root args).1 in
    (after : FrameTree ℕ) × (remove 5 created root
      ≡ some (some (StoreError.frame_not_found session root), after))
    × (node_of after.arena root ≡ some root_node)
unfolding HashMap.get
remove_unflushed_example = remove_unflushed 4 nothing_stored root args refl

abbrev both_stored : FrameTree ℕ
both_stored = record { store = frames; session_id = session; arena = [] }

abbrev completed_tree : FrameTree ℕ
completed_tree = record tree {
  arena = HashMap.insert tree.arena root (record {
    node = record root_node { status = FrameStatus.completed };
    dirty = true;
    deleted = false;
  });
}

remove_returns_example : (r : Option StoreError × FrameTree ℕ) × (remove 3 tree root ≡ some r)
unfolding set_root create_node modify Container.deref_mut Container.from_new_node Node.new
    HashMap.get HashMap.insert id_beq
remove_returns_example = remove_returns 3 tree root (omega arith)
