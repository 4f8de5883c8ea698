-- ===== src/Session/Checkpointer/Families.antt =====
-- A parent that waits for its two children, and one whose child is done; the theorems at them.
use marie.Session.Frames.Container.{FrameNodeContainer}
use marie.Session.Frames.Node.{FrameNode}
use marie.Base.{◌≢◌, String, arith, string_eq, ℕ, ◌≡◌, refl, false, some, ok, List, [], ◌∷◌}
use marie.Base.HashMap
use marie.Base.HashMap.{HashMap}
use marie.Id.{FrameId, id_beq, id_eq}
use marie.Session.Spec.Core as Core
use marie.Session.Snapshots as Snapshots
use marie.Session.Snapshots.{ref_eq}
use marie.Session.Frames.Policy.{FrameStatus}
use marie.Session.Frames.Node as Node
use marie.Session.Checkpointer.State.{Checkpointer}
use marie.Session.Checkpointer.Children.{on_child_frame_terminated}
use marie.Session.Checkpointer.Barriers.{fan_in_waits}
use marie.Session.Checkpointer.Siblings.{Over}
use marie.Session.Checkpointer.Examples.{
  outside, parent, child, parent_container, child_container, child_snapshot, start,
}

-- The parent has a second child that still runs.
abbrev second : FrameId
second = record { prefix = 1; local = 4 }

abbrev second_container : FrameNodeContainer ℕ
second_container = record {
  node = record child_container.node { id = second; status = FrameStatus.ready };
  dirty = false;
  deleted = false;
}

abbrev two_children : FrameNodeContainer ℕ
two_children = record parent_container {
  node = record parent_container.node { children = child ∷ second ∷ [] };
}

abbrev busy : Checkpointer ℕ ℕ
busy = record start {
  frames = record start.frames {
    arena = (parent, two_children) ∷ (child, child_container) ∷ (second, second_container) ∷ [];
  };
}

busy_cached :
    (HashMap.get busy.frames.arena parent ≡ some two_children)
    × (HashMap.get busy.frames.arena child ≡ some child_container)
    × (HashMap.get busy.frames.arena second ≡ some second_container)
unfolding HashMap.get id_beq
busy_cached = (refl, refl, refl)

child_not_failed : (e : String) → child_container.node.status ≢ FrameStatus.failed e
child_not_failed e h = absurd (ground (arith, h))

fan_in_waits_example : on_child_frame_terminated outside parent child busy ≡ some (ok tt, busy)
unfolding Node.new
fan_in_waits_example =
    fan_in_waits outside busy parent child second two_children child_container second_container
      ((child, child_container) ∷ []) [] busy_cached.0 busy_cached.1 refl
      (busy_cached.1, (busy_cached.2, tt)) child_not_failed refl
      (λ h. absurd (ground (arith, h)), λ e h. absurd (ground (arith, h)))

abbrev joined_children : List (Over outside)
joined_children = (child, (child_container, some (Core.tool, child_snapshot))) ∷ []
