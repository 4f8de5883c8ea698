-- ===== src/Session/Checkpointer/FanIn.antt =====
-- What a parent that fans in does once its children are over (session/checkpointer/mod.rs).
use marie.Base.{string_eq, [], ◌∷◌, ◌++◌}
use marie.Base.HashMap
use marie.Base.HashMap.{HashMap}
use marie.Id.{FrameId, id_eq}
use marie.Session.Snapshots as Snapshots
use marie.Session.Snapshots.{SessionSnapshots, ref_eq}
use marie.Session.Frames.Policy.{FrameStatus}
use marie.Session.Frames.Container.{FrameNodeContainer}
use marie.Session.Checkpointer.State.{SessionCheckpointEvent, Outside, Checkpointer}
use marie.Session.Checkpointer.Drains as Drains
use marie.Session.Checkpointer.Drains.{Child, Known}
use marie.Session.Checkpointer.Deliveries.{changed}

module _ {Value Float Time : Type 0} (outside : Outside Value Float Time) where
  -- The checkpointer once a cached frame was made ready.
  abbrev readied :
      FrameId → FrameNodeContainer Value → Checkpointer Value Time → Checkpointer Value Time
  readied id p c = record c {
    frames = changed c.frames id p (λ node. record node { status = FrameStatus.ready });
    listeners = c.listeners ++ SessionCheckpointEvent.frame_ready c.session_id id ∷ [];
  }
