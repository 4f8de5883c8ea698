-- ===== src/Session/Checkpointer/Barriers.antt =====
-- When the end of a child lets its parent go on (session/checkpointer/mod.rs).
use marie.Base.{
  String, ◌≢◌, ◌++◌, ap, ◌∙◌, ◌≡◌, refl, arith, Bool, true, false, ◌&&◌, some, none, ok, err, List,
  [], ◌∷◌, if◌then◌else◌,
}
use marie.Base.HashMap
use marie.Base.HashMap.{HashMap}
use marie.Id.{FrameId, id_eq}
use marie.Session.Frames.Policy.{
  FramePolicy, FrameStatus, ChildFailurePolicy, ResumePolicy, has_failed, has_terminated,
}
use marie.Session.Frames.Node.{FrameNode}
use marie.Session.Frames.Container.{FrameNodeContainer}
use marie.Session.Frames.Tree.{FrameTree, node_of, iter_children_of}
use marie.Session.Frames.Tree.Access.{read, status_of, policy_of}
use marie.Session.Checkpointer.State.{
  Outside, Checkpointer, Action, pure, gets, choose, let_else, on_tree, ◌>>=◌,
}
use marie.Session.Checkpointer.Children.{
  all_have_terminated, all_children_have_terminated, too_many_failed, join_all, resume_by,
  on_child_frame_terminated,
}
use marie.Session.Checkpointer.Deliveries.{read_cached}

module _ {Value : Type 0} where
  -- The frames are cached in these containers.
  abbrev pub Cached : FrameTree Value → List (FrameId × FrameNodeContainer Value) → Type 0
  Cached tree [] = Unit
  Cached tree ((id, k) ∷ frames) = (HashMap.get tree.arena id ≡ some k) × Cached tree frames

  abbrev pub ids_of : List (FrameId × FrameNodeContainer Value) → List FrameId
  ids_of [] = []
  ids_of ((id, k) ∷ frames) = id ∷ ids_of frames

  -- A status that is neither completed nor failed.
  abbrev pub IsOpen : FrameStatus Value → Type 0
  IsOpen status = (status ≢ FrameStatus.completed) × ((e : String) → status ≢ FrameStatus.failed e)

  abbrev pub all_over : List (FrameId × FrameNodeContainer Value) → Bool
  all_over [] = true
  all_over ((id, k) ∷ frames) = has_terminated k.node.status && all_over frames

module _ {Value Time A B : Type 0} where
  pub bind_ok :
      (m : Action Value Time A) (f : A → Action Value Time B) (c d : Checkpointer Value Time)
      (a : A)
      → m c ≡ some (ok a, d)
      → (m >>= f) c ≡ f a d
  unfolding ◌>>=◌
  bind_ok m f c d a h =
      ap
        (λ o. elim o [
          | none ↦ none
          | some (r, c') ↦ elim r [ ok x ↦ f x c' | err e ↦ some (err e, c') ]
        ])
        h

module _ {Value Time A : Type 0} where
  pub choose_lem :
      (b : Bool) (m n : Action Value Time A) (c : Checkpointer Value Time)
      → choose b m n c ≡ (if b then m c else n c)
  unfolding choose
  choose_lem true m n c = refl
  choose_lem false m n c = refl

  pub on_cached :
      (c : Checkpointer Value Time) (id : FrameId) (k : FrameNodeContainer Value)
      (f : FrameNode Value → A)
      → HashMap.get c.frames.arena id ≡ some k
      → on_tree (λ tree. read tree id f) c ≡ some (ok (f k.node), c)
  unfolding on_tree
  on_cached c id k f h = ground (arith, read_cached c.frames id k f h)

module _ {Value Time : Type 0} where
  all_have_terminated_lem :
      (c : Checkpointer Value Time) (frames : List (FrameId × FrameNodeContainer Value))
      → Cached c.frames frames
      → all_have_terminated (ids_of frames) c ≡ some (ok (all_over frames), c)
  unfolding all_have_terminated pure status_of
  all_have_terminated_lem c [] h = refl
  all_have_terminated_lem c ((id, k) ∷ frames) h =
      bind_ok _ _ c c k.node.status (on_cached c id k (λ node. node.status) h.0)
      ∙ choose_lem (has_terminated k.node.status) _ _ c
      ∙ ground (arith, all_have_terminated_lem c frames h.1)

module _ {Value Float Time : Type 0} (outside : Outside Value Float Time) where
  pub too_many_failed_lem :
      (id : FrameId) (status : FrameStatus Value) (policy : ChildFailurePolicy)
      (c : Checkpointer Value Time)
      → has_failed status ≡ false
      → too_many_failed outside id status policy c ≡ some (ok none, c)
  unfolding too_many_failed pure has_failed
  too_many_failed_lem id (FrameStatus.failed e) policy c h = absurd (ground (arith, h))
  too_many_failed_lem id _ policy c h = refl

  not_over : (status : FrameStatus Value) → IsOpen status → has_terminated status ≡ false
  unfolding has_terminated
  not_over FrameStatus.completed o = absurd (o.0 refl)
  not_over (FrameStatus.failed e) o = absurd (o.1 e refl)
  not_over _ o = refl

  not_all_over :
      (front back : List (FrameId × FrameNodeContainer Value)) (waiting : FrameId)
      (k : FrameNodeContainer Value)
      → IsOpen k.node.status
      → all_over (front ++ (waiting, k) ∷ back) ≡ false
  not_all_over [] back waiting k o = ground (arith, not_over k.node.status o)
  not_all_over ((x, m) ∷ front) back waiting k o =
      ground (arith, not_all_over front back waiting k o)

  pub not_failed :
      (status : FrameStatus Value)
      → ((e : String) → status ≢ FrameStatus.failed e)
      → has_failed status ≡ false
  unfolding has_failed
  not_failed (FrameStatus.failed e) n = absurd (n e refl)
  not_failed _ n = refl

  pub fan_in_choice :
      (c : Checkpointer Value Time) (id child : FrameId) (p k : FrameNodeContainer Value)
      (children : List (FrameId × FrameNodeContainer Value))
      → HashMap.get c.frames.arena id ≡ some p
      → HashMap.get c.frames.arena child ≡ some k
      → p.node.children ≡ ids_of children
      → Cached c.frames children
      → ((e : String) → k.node.status ≢ FrameStatus.failed e)
      → FramePolicy.resume_policy p.node.frame_policy ≡ ResumePolicy.fan_in
      → on_child_frame_terminated outside id child c
        ≡ (if all_over children then join_all outside id c else some (ok tt, c))
  unfolding on_child_frame_terminated status_of policy_of let_else resume_by
      all_children_have_terminated gets pure iter_children_of node_of
  fan_in_choice c id child p k children hp hk hc known nf fan =
      bind_ok _ _ c c k.node.status (on_cached c child k (λ node. node.status) hk)
      ∙ bind_ok _ _ c c p.node.frame_policy (on_cached c id p (λ node. node.frame_policy) hp)
      ∙ bind_ok _ _ c c none
          (too_many_failed_lem id k.node.status _ c (not_failed k.node.status nf))
      ∙ ap (λ r. resume_by outside id r c) fan
      ∙ bind_ok _ _ c c (all_over children) (
          bind_ok _ _ c c p.node.children (ground (arith, hp))
          ∙ ap (λ l. all_have_terminated l c) hc
          ∙ all_have_terminated_lem c children known)
      ∙ choose_lem (all_over children) _ _ c

  -- A parent that fans in waits for each of its children, all frames being cached: as long as one of
  -- them has neither completed nor failed, the end of a child that has not failed changes nothing.
  pub fan_in_waits :
      (c : Checkpointer Value Time) (id child waiting : FrameId) (p k w : FrameNodeContainer Value)
      (front back : List (FrameId × FrameNodeContainer Value))
      → HashMap.get c.frames.arena id ≡ some p
      → HashMap.get c.frames.arena child ≡ some k
      → p.node.children ≡ ids_of (front ++ (waiting, w) ∷ back)
      → Cached c.frames (front ++ (waiting, w) ∷ back)
      → ((e : String) → k.node.status ≢ FrameStatus.failed e)
      → FramePolicy.resume_policy p.node.frame_policy ≡ ResumePolicy.fan_in
      → IsOpen w.node.status
      → on_child_frame_terminated outside id child c ≡ some (ok tt, c)
  fan_in_waits c id child waiting p k w front back hp hk hc known nf fan o =
      fan_in_choice c id child p k (front ++ (waiting, w) ∷ back) hp hk hc known nf fan
      ∙ ap (λ b. if b then join_all outside id c else some (ok tt, c))
          (not_all_over front back waiting w o)
