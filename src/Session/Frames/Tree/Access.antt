-- ===== src/Session/Frames/Tree/Access.antt =====
-- frames/tree.rs: the methods that read or change one node, loading it first. `none` where they
-- panic: the frame is neither cached nor stored.
use marie.Base.{ℕ, Option, none, some, List, [], ◌∷◌, ◌++◌, last?, nat_beq, if◌then◌else◌, ok, err}
use marie.Base.HashMap
use marie.Id.{FrameId, HitlId, id_eq}
use marie.Session.RunLogs.{RunLog}
use marie.Session.Frames.Policy.{
  FramePolicy, FrameStatus, FrameKind, OnResumePolicy, ResumePolicy, ReducePolicy, FrameSpecRef,
}
use marie.Session.Frames.Node.{FrameNode}
use marie.Session.Frames.Node as Node
use marie.Session.Frames.Container as Container
use marie.Session.Frames.Tree.{FrameTree, try_get}

module _ {Value : Type 0} where
  -- `get(id).await.lock()`, read
  unfoldable pub read :
      {A : Type 0}
      → FrameTree Value
      → FrameId
      → (FrameNode Value → A)
      → Option (A × FrameTree Value)
  read tree id f =
      let (r, tree') = try_get tree id in
      elim r [ ok container ↦ some (f container.node, tree') | err e ↦ none ]

  -- `get(id).await.lock()`, changed
  unfoldable pub update :
      FrameTree Value → FrameId → (FrameNode Value → FrameNode Value) → Option (FrameTree Value)
  update tree id change =
      let (r, tree') = try_get tree id in
      elim r [
        | ok container ↦ some (record tree' {
          arena = HashMap.insert tree'.arena id (Container.deref_mut change container);
        })
        | err e ↦ none
      ]

  unfoldable pub spec_ref_of : FrameTree Value → FrameId → Option (FrameSpecRef × FrameTree Value)
  spec_ref_of tree id = read tree id (λ node. node.spec_ref)

  unfoldable pub status_of :
      FrameTree Value → FrameId → Option (FrameStatus Value × FrameTree Value)
  status_of tree id = read tree id (λ node. node.status)

  unfoldable pub data_of : FrameTree Value → FrameId → Option (FrameKind Value × FrameTree Value)
  data_of tree id = read tree id (λ node. node.data_kind)

  unfoldable pub policy_of :
      FrameTree Value → FrameId → Option (FramePolicy Value × FrameTree Value)
  policy_of tree id = read tree id (λ node. node.frame_policy)

  unfoldable pub set_policy_of :
      FrameTree Value → FrameId → FramePolicy Value → Option (FrameTree Value)
  set_policy_of tree id policy = update tree id (λ node. record node { frame_policy = policy })

  -- The future of `set_policy_of` is dropped without being polled, in this method and in
  -- `set_on_resume_policy` and `set_reduce_policy`: all three only load the policy.
  unfoldable pub set_resume_policy :
      FrameTree Value → FrameId → ResumePolicy → Option (FrameTree Value)
  set_resume_policy tree id resume_policy = elim (policy_of tree id) [
    | some (policy, tree') ↦ some tree'
    | none ↦ none
  ]

  unfoldable pub set_on_resume_policy :
      FrameTree Value → FrameId → OnResumePolicy → Option (FrameTree Value)
  set_on_resume_policy tree id on_resume_policy = elim (policy_of tree id) [
    | some (policy, tree') ↦ some tree'
    | none ↦ none
  ]

  unfoldable pub set_reduce_policy :
      FrameTree Value → FrameId → ReducePolicy → Option (FrameTree Value)
  set_reduce_policy tree id reduce_policy = elim (policy_of tree id) [
    | some (policy, tree') ↦ some tree'
    | none ↦ none
  ]

  unfoldable pub on_resume_policy :
      FrameTree Value → FrameId → Option (OnResumePolicy × FrameTree Value)
  on_resume_policy tree id = read tree id (λ node. FramePolicy.on_resume_policy node.frame_policy)

  unfoldable pub logs_of :
      FrameTree Value → FrameId → Option (List (RunLog Value) × FrameTree Value)
  logs_of tree id = read tree id (λ node. node.logs)

  -- `logs.iter().rev().find(|l| l.value.is_none())`
  unfoldable pub pending_log : List (RunLog Value) → Option (RunLog Value)
  pending_log [] = none
  pending_log (log ∷ logs) = elim (pending_log logs) [
    | some found ↦ some found
    | none ↦ elim log.value [ some v ↦ none | none ↦ some log ]
  ]

  unfoldable pub pending_log_of :
      FrameTree Value → FrameId → Option (Option (RunLog Value) × FrameTree Value)
  pending_log_of tree id = read tree id (λ node. pending_log node.logs)

  unfoldable pub append_logs :
      FrameTree Value → FrameId → List (RunLog Value) → Option (FrameTree Value)
  append_logs tree id [] = some tree
  append_logs tree id (log ∷ logs) =
      update tree id (λ node. record node { logs = node.logs ++ log ∷ logs })

  -- The first entry under the index.
  unfoldable pub resolve : List (RunLog Value) → ℕ → Value → List (RunLog Value)
  resolve [] index value = []
  resolve (log ∷ logs) index value =
      let rest = resolve logs index value in
      if nat_beq log.index index then record log { value = some value } ∷ logs else log ∷ rest

  -- `iter_mut` on the logs marks the container, whether an entry is found or not.
  unfoldable pub resolve_log : FrameTree Value → FrameId → ℕ → Value → Option (FrameTree Value)
  resolve_log tree id index value =
      update tree id (λ node. record node { logs = resolve node.logs index value })

  unfoldable pub set_status :
      FrameTree Value → FrameId → FrameStatus Value → Option (FrameTree Value)
  set_status tree id status = update tree id (λ node. record node { status = status })

  unfoldable pub bind_hitl_to_log :
      FrameTree Value → FrameId → ℕ → HitlId → Option (FrameTree Value)
  bind_hitl_to_log tree id index hitl_id =
      update tree id (λ node. Node.bind_hitl_to_log node index hitl_id)

  unfoldable pub hitl_id_bound_to_log :
      FrameTree Value → FrameId → ℕ → Option (Option HitlId × FrameTree Value)
  hitl_id_bound_to_log tree id index = read tree id (λ node. Node.hitl_id_of_log node index)

  unfoldable pub log_index_bound_to_hitl_id :
      FrameTree Value → FrameId → HitlId → Option (Option ℕ × FrameTree Value)
  log_index_bound_to_hitl_id tree id hitl_id =
      read tree id (λ node. Node.log_index_of_hitl node hitl_id)

  unfoldable pub last_child_of :
      FrameTree Value → FrameId → Option (Option FrameId × FrameTree Value)
  last_child_of tree parent = read tree parent (λ node. last? node.children)
