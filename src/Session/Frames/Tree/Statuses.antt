-- ===== src/Session/Frames/Tree/Statuses.antt =====
-- Reading a status after it was set (frames/tree.rs).
use marie.Base.{◌≡◌, ◌≢◌, refl, true, arith, inl, inr, some, Option-cases, Result-cases}
use marie.Base.HashMap
use marie.Id.{FrameId, id_eq}
use marie.Session.Frames.Policy.{FrameStatus}
use marie.Session.Frames.Node.{FrameNode}
use marie.Session.Frames.Container as Container
use marie.Session.Frames.Container.{FrameNodeContainer}
use marie.Session.Frames.Tree.{FrameTree, try_get}
use marie.Session.Frames.Tree.Access.{read, update, status_of, set_status}

module _ {Value : Type 0} where
  update_cached :
      (tree : FrameTree Value) (id : FrameId) (change : FrameNode Value → FrameNode Value)
      (tree' : FrameTree Value)
      → update tree id change ≡ some tree'
      → (c : FrameNodeContainer Value) × (HashMap.get tree'.arena id
          ≡ some (Container.deref_mut change c))
  unfolding update try_get
  update_cached tree id change tree' h = elim (Option-cases (HashMap.get tree.arena id)) [
    | inr (c, s) ↦ (
      c,
      ground (arith, s, h, HashMap.get-insert_self tree.arena id (Container.deref_mut change c)),
    )
    | inl n ↦ elim (Result-cases (Container.new tree.store tree.session_id id)) [
      | inr (e, s) ↦ absurd (ground (arith, n, s, h))
      | inl (c, s) ↦ (
        c,
        ground (
          arith,
          n,
          s,
          h,
          HashMap.get-insert_self (HashMap.insert tree.arena id c) id
              (Container.deref_mut change c),
        ),
      )
    ]
  ]

  update_others :
      (tree : FrameTree Value) (id j : FrameId) (change : FrameNode Value → FrameNode Value)
      (tree' : FrameTree Value)
      → update tree id change ≡ some tree'
      → id ≢ j
      → HashMap.get tree'.arena j ≡ HashMap.get tree.arena j
  unfolding update try_get
  update_others tree id j change tree' h ne = elim (Option-cases (HashMap.get tree.arena id)) [
    | inr (c, s) ↦
        ground
          (arith, s, h, HashMap.get-insert_ne tree.arena id j (Container.deref_mut change c) ne)
    | inl n ↦ elim (Result-cases (Container.new tree.store tree.session_id id)) [
      | inr (e, s) ↦ absurd (ground (arith, n, s, h))
      | inl (c, s) ↦ ground (
        arith,
        n,
        s,
        h,
        HashMap.get-insert_ne tree.arena id j c ne,
        HashMap.get-insert_ne (HashMap.insert tree.arena id c) id j (Container.deref_mut change c)
            ne,
      )
    ]
  ]

  -- If `set_status` does not panic, the frame has that status from then on and its container is
  -- marked for writing; every other cached node stays as it was.
  pub status_of-set_status :
      (tree : FrameTree Value) (id j : FrameId) (status : FrameStatus Value)
      (tree' : FrameTree Value)
      → set_status tree id status ≡ some tree'
      → (status_of tree' id ≡ some (status, tree'))
        × ((c : FrameNodeContainer Value) × (HashMap.get tree'.arena id ≡ some c)
            × (c.dirty ≡ true))
        × (id ≢ j → HashMap.get tree'.arena j ≡ HashMap.get tree.arena j)
  unfolding set_status status_of read try_get Container.deref_mut
  status_of-set_status tree id j status tree' h =
      let (c, s) = update_cached tree id (λ node. record node { status = status }) tree' h in
      (
        ground (arith, s),
        (_, s, refl),
        update_others tree id j (λ node. record node { status = status }) tree' h,
      )
