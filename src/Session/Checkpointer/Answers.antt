-- ===== src/Session/Checkpointer/Answers.antt =====
-- What an answer of a person leads to (session/checkpointer/mod.rs).
use marie.Base.{true, List, ◌≡◌, arith, inl, inr, none, some, Option-cases, ok, [], ◌∷◌, ◌++◌}
use marie.Base.HashMap
use marie.Base.HashMap.{HashMap}
use marie.Id.{SessionId, FrameId, HitlId, id_eq}
use marie.Session.Hitl.Validate.{Answers}
use marie.Session.Frames.Policy.{FrameStatus}
use marie.Session.Frames.Node.{FrameNode}
use marie.Session.Frames.Node as Node
use marie.Session.Frames.Container as Container
use marie.Session.Frames.Container.{FrameNodeContainer}
use marie.Session.Frames.Store as Frames
use marie.Session.Frames.Tree.Access.{resolve, set_status, resolve_log, log_index_bound_to_hitl_id}
use marie.Session.Checkpointer.State.{
  todo, unless_panicked, SessionCheckpointEvent, Outside, Checkpointer, pure, panic, gets, let_else,
  on_tree, unwrap, change_tree, emit, ◌>>=◌,
}
use marie.Session.Checkpointer.Marks.{mark_ready_to_run_frame}
use marie.Session.Checkpointer.Handlers.{
  ignore_error, process_received, run, on_hitl_response, handle_event, process_event,
}
use marie.Session.Checkpointer.Deliveries.{changed, update_cached, read_cached, get-changed}

module _ {Value Float Time : Type 0} (outside : Outside Value Float Time) where
  -- A run whose next event is an answer to a request of a person, where the store binds the request to
  -- a cached frame, panics and processes no later event. If no log of the frame has an entry for the
  -- request, that is all. If one has, the entry is first resolved to the answers, the frame is made
  -- ready and that is sent; nothing else changes.
  pub answer_panics :
      (s : SessionId) (hitl_id : HitlId) (answers : Answers) (c : Checkpointer Value Time)
      (id : FrameId) (k : FrameNodeContainer Value)
      (events remaining : List (SessionCheckpointEvent Value))
      → Frames.get_frame_id_by_hitl_id c.frames.store c.frames.session_id hitl_id ≡ some id
      → HashMap.get c.frames.arena id ≡ some k
      → run outside (SessionCheckpointEvent.hitl_answered s hitl_id answers ∷ events) remaining c
        ≡ (elim (Node.log_index_of_hitl k.node hitl_id) [
          | none ↦ none
          | some index ↦ some (
            ok tt,
            record c {
              frames = changed c.frames id k (λ node. record node {
                status = FrameStatus.ready;
                logs = resolve node.logs index (outside.of_answers answers);
              });
              listeners = c.listeners ++ SessionCheckpointEvent.frame_ready c.session_id id ∷ [];
              panicked = true;
            },
          )
        ])
  unfolding run process_received ignore_error unless_panicked process_event handle_event
      on_hitl_response gets let_else pure panic todo on_tree unwrap change_tree
      mark_ready_to_run_frame emit ◌>>=◌ log_index_bound_to_hitl_id resolve_log set_status
      Container.deref_mut
  answer_panics s hitl_id answers c id k events remaining b h =
      let found = read_cached c.frames id k (λ node. Node.log_index_of_hitl node hitl_id) h in
      elim (Option-cases (Node.log_index_of_hitl k.node hitl_id)) [
        | inl n ↦ ground (arith, b, found, n)
        | inr (index, i) ↦
            let resolved : FrameNode Value → FrameNode Value =
              λ node. record node { logs = resolve node.logs index (outside.of_answers answers) } in
            ground (
              arith,
              b,
              found,
              i,
              update_cached c.frames id k resolved h,
              update_cached (changed c.frames id k resolved) id (Container.deref_mut resolved k)
                  (λ node. record node { status = FrameStatus.ready })
                  (get-changed c.frames id k resolved),
              HashMap.insert-insert c.frames.arena id (Container.deref_mut resolved k) (
                  Container.deref_mut
                    (λ node. record node {
                      status = FrameStatus.ready;
                      logs = resolve node.logs index (outside.of_answers answers);
                    })
                    k),
            )
      ]
