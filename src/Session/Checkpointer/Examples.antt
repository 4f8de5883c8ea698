-- ===== src/Session/Checkpointer/Examples.antt =====
-- A frame that waits for its tool calls, one of which is done; the theorems at them.
use marie.Base.{string_eq, ℕ, ◌≡◌, refl, false, none, some, ok, [], ◌∷◌, length, nat_eq}
use marie.Base.HashMap
use marie.Id.{SessionId, FrameId, id_beq, id_eq}
use marie.Session.Channel.{Json}
use marie.Session.Sessions as Sessions
use marie.Session.Snapshots.Store.{
  Snapshot, SnapshotStore, latest_snapshot, upsert_snapshot, max_by_superstep, greatest,
}
use marie.Session.Snapshots as Snapshots
use marie.Session.Frames.Policy.{
  FrameKind, FrameSpecRef, FrameStatus, ReducePolicy, OnResumePolicy, ChildFailurePolicy,
  ResumePolicy, OnStartPolicy,
}
use marie.Session.Frames.Node.{FrameNode, NewFrameNodeArgs}
use marie.Session.Frames.Node as Node
use marie.Session.Frames.Container.{FrameNodeContainer}
use marie.Session.Checkpointer.State.{Outside, Checkpointer}

abbrev json : Json ℕ ℕ
json = record {
  null = 0;
  array = λ vs. length vs;
  as_array = λ v. none;
  as_f64 = λ v. some v;
  number = λ f. f;
  max = λ a b. a;
}

abbrev pub outside : Outside ℕ ℕ ℕ
outside = record {
  json = json;
  object = λ m. 1;
  text = λ s. 2;
  of_answers = λ a. 3;
  codec = record { to_vec = λ g. none; from_slice = λ b. none };
  ids = λ n. record { prefix = 1; local = 100 };
  now = λ n. n;
  spawn = λ args. none;
  worker_text = λ e. "worker";
  error_text = λ e. "error";
  failed_children_text = λ n. "children";
}

abbrev pub session : SessionId
session = record { prefix = 1; local = 1 }

abbrev pub parent : FrameId
parent = record { prefix = 1; local = 2 }

abbrev pub child : FrameId
child = record { prefix = 1; local = 3 }

abbrev args : FrameSpecRef → NewFrameNodeArgs ℕ
args spec_ref = record {
  session_id = session;
  spec_ref = spec_ref;
  data_kind = FrameKind.void;
  inherited_channels = [];
  forked_from = none;
  frame_policy = record {
    on_child_failed = ChildFailurePolicy.dont_fail;
    resume_policy = ResumePolicy.fan_in;
    reduce_policy = ReducePolicy.dont_reduce;
    on_resume_policy = OnResumePolicy.run_frame;
    on_start_policy = OnStartPolicy.run_frame;
  };
  barrier = false;
  superstep = 0;
}

abbrev pub parent_container : FrameNodeContainer ℕ
parent_container = record {
  node = record (Node.new parent (args FrameSpecRef.tool_aggregator)) { children = child ∷ [] };
  dirty = false;
  deleted = false;
}

abbrev pub child_container : FrameNodeContainer ℕ
child_container = record {
  node = record (Node.new child (args FrameSpecRef.tool_call)) {
    parent = some parent;
    status = FrameStatus.completed;
  };
  dirty = false;
  deleted = false;
}

abbrev pub parent_snapshot : Snapshot ℕ ℕ
parent_snapshot = Snapshots.new session parent 3 [] [] 0

abbrev pub child_snapshot : Snapshot ℕ ℕ
child_snapshot = Snapshots.new session child 1 (("tool_result", 7) ∷ []) [] 0

abbrev stored : SnapshotStore ℕ ℕ
stored = upsert_snapshot (upsert_snapshot [] parent_snapshot) child_snapshot

abbrev pub start : Checkpointer ℕ ℕ
start = record {
  session_id = session;
  session = Sessions.cell_of (Sessions.new session 0 0);
  sessions = [];
  frames = record {
    store = [];
    session_id = session;
    arena = (parent, parent_container) ∷ (child, child_container) ∷ [];
  };
  snapshots = record { store = stored; session_id = session; snapshots = []; detached = [] };
  hitls = record { session_id = session; store = []; events = [] };
  graphs = [];
  listeners = [];
  spawned = [];
  announced = [];
  drawn = 0;
  readings = 0;
  panicked = false;
}

pub parent_cached : HashMap.get start.frames.arena parent ≡ some parent_container
unfolding HashMap.get id_beq
parent_cached = refl

pub child_cached : HashMap.get start.frames.arena child ≡ some child_container
unfolding HashMap.get id_beq
child_cached = refl

pub parent_stored : latest_snapshot start.snapshots.store session parent ≡ ok parent_snapshot
unfolding latest_snapshot upsert_snapshot max_by_superstep greatest Snapshots.new HashMap.insert
    id_beq
parent_stored = refl

pub child_stored : latest_snapshot start.snapshots.store session child ≡ ok child_snapshot
unfolding latest_snapshot upsert_snapshot max_by_superstep greatest Snapshots.new HashMap.insert
    id_beq
child_stored = refl
