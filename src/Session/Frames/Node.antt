-- ===== src/Session/Frames/Node.antt =====
-- frames/node.rs: `FrameNode`, with its links to the parent, the siblings and the children.
use marie.Base.{
  ℕ, Bool, true, false, Option, none, some, ◌==◌, if◌then◌else◌, List, [], ◌∷◌, nat_eq,
}
use marie.Base.HashMap
use marie.Base.HashMap.{HashMap}
use marie.Id.{SessionId, FrameId, HitlId, id_eq}
use marie.Session.Model.{SnapshotRef}
use marie.Session.Channel.{Channels}
use marie.Session.RunLogs.{RunLog}
use marie.Session.Frames.Policy.{FramePolicy, FrameStatus, FrameKind, FrameSpecRef}

module _ (Value : Type 0) where
  pub record NewFrameNodeArgs : Type 0 where
    pub session_id : SessionId
    pub spec_ref : FrameSpecRef
    pub data_kind : FrameKind Value
    pub inherited_channels : Channels Value
    pub forked_from : Option SnapshotRef
    pub frame_policy : FramePolicy Value
    pub barrier : Bool
    pub superstep : ℕ

  pub record FrameNode : Type 0 where
    pub session_id : SessionId
    pub id : FrameId
    pub status : FrameStatus Value
    pub frame_policy : FramePolicy Value
    pub superstep : ℕ
    pub barrier : Bool
    pub forked_from : Option SnapshotRef
    pub inherited_channels : Channels Value
    pub spec_ref : FrameSpecRef
    pub data_kind : FrameKind Value
    pub logs : List (RunLog Value)
    pub hitl_aliases : HashMap ℕ HitlId
    pub is_root : Bool
    pub parent : Option FrameId
    pub next_sibling : Option FrameId
    pub prev_sibling : Option FrameId
    pub children : List FrameId

unfoldable pub alias_of : HashMap ℕ HitlId → HitlId → Option ℕ
alias_of [] hitl_id = none
alias_of ((index, id) ∷ aliases) hitl_id =
    if id == hitl_id then some index else alias_of aliases hitl_id

module _ {Value : Type 0} where
  unfoldable pub new : FrameId → NewFrameNodeArgs Value → FrameNode Value
  new id args = record {
    session_id = args.session_id;
    id = id;
    status = FrameStatus.pending;
    frame_policy = args.frame_policy;
    superstep = args.superstep;
    barrier = args.barrier;
    forked_from = args.forked_from;
    inherited_channels = args.inherited_channels;
    spec_ref = args.spec_ref;
    data_kind = args.data_kind;
    logs = [];
    hitl_aliases = HashMap.empty;
    is_root = false;
    parent = none;
    next_sibling = none;
    prev_sibling = none;
    children = [];
  }

  unfoldable pub is_waiting_children : FrameNode Value → Bool
  is_waiting_children node = elim node.status [ FrameStatus.waiting_children ↦ true | _ ↦ false ]

  unfoldable pub bind_hitl_to_log : FrameNode Value → ℕ → HitlId → FrameNode Value
  bind_hitl_to_log node index hitl_id = record node {
    hitl_aliases = HashMap.insert node.hitl_aliases index hitl_id;
  }

  unfoldable pub hitl_id_of_log : FrameNode Value → ℕ → Option HitlId
  hitl_id_of_log node index = HashMap.get node.hitl_aliases index

  unfoldable pub log_index_of_hitl : FrameNode Value → HitlId → Option ℕ
  log_index_of_hitl node hitl_id = alias_of node.hitl_aliases hitl_id
