-- ===== src/Session/Frames/Store/Root.antt =====
-- The root frame of a session in the store (frames/store/in_memory.rs).
use marie.Base.{
  ◌≡◌, refl, arith, ◌⊎◌, inl, inr, true, false, ◌&&◌, ◌==◌, pair_eq, if◌then◌else◌, none, some,
  Option-cases, [], ◌∷◌, find?, find?-none, find?-some, ok, err,
}
use marie.Base.HashMap
use marie.Id.{SessionId, FrameId, id_eq, id_beq_iff}
use marie.Session.Frames.Node.{FrameNode}
use marie.Session.Frames.Store.{
  FrameStore, StoreError, get_root_frame_id, demote_others, set_root_frame_id, upsert_frame,
}

-- Each frame is stored once, under its own identifiers.
pub record IsKeyed {Value : Type 0} (frames : FrameStore Value) : Type 0 where
  pub distinct : HashMap.Distinct frames
  pub keyed :
      (s : SessionId) (i : FrameId) (f : FrameNode Value)
      → HashMap.get frames (s, i) ≡ some f
      → (f.session_id ≡ s) × (f.id ≡ i)

module _ {Value : Type 0} where
  pub upsert_frame-IsKeyed :
      (frames : FrameStore Value) (node : FrameNode Value)
      → IsKeyed frames
      → IsKeyed (upsert_frame frames node)
  unfolding upsert_frame
  upsert_frame-IsKeyed frames node v = record {
    distinct = HashMap.insert-Distinct frames (node.session_id, node.id) node v.distinct;
    keyed = λ s i f e. ground (
      arith,
      HashMap.get-insert frames (node.session_id, node.id) (s, i) node,
      v.keyed s i f,
      e,
      id_beq_iff node.session_id s,
      id_beq_iff node.id i,
    );
  }

  get-demote_others :
      (frames : FrameStore Value) (s t : SessionId) (root i : FrameId)
      → HashMap.get (demote_others frames s root) (t, i) ≡ (elim (HashMap.get frames (t, i)) [
        | none ↦ none
        | some f ↦ some (if t == s then record f { is_root = i == root } else f)
      ])
  unfolding demote_others HashMap.get
  get-demote_others [] s t root i = refl
  get-demote_others ((k, f) ∷ frames) s t root i = ground (
    arith,
    get-demote_others frames s t root i,
    id_beq_iff k.0 s,
    id_beq_iff k.0 t,
    id_beq_iff k.1 i,
    id_beq_iff t s,
  )

  demote_others-Distinct :
      (frames : FrameStore Value) (s : SessionId) (root : FrameId)
      → HashMap.Distinct frames
      → HashMap.Distinct (demote_others frames s root)
  unfolding demote_others
  demote_others-Distinct [] s root d = tt
  demote_others-Distinct ((k, f) ∷ frames) s root d =
      ground (
        arith,
        d,
        demote_others-Distinct frames s root d.1,
        get-demote_others frames s k.0 root k.1,
      )

  -- After the demotion a root of the session is the chosen frame.
  OnlyRoot : SessionId → FrameId → FrameNode Value → Type 0
  OnlyRoot s root f = f.session_id ≡ s → f.is_root ≡ true → f.id ≡ root

  demoted-OnlyRoot :
      (frames : FrameStore Value) (s : SessionId) (root : FrameId)
      → IsKeyed frames
      → (k : SessionId × FrameId) (f : FrameNode Value)
      → HashMap.get (demote_others frames s root) k ≡ some f
      → OnlyRoot s root f
  unfolding OnlyRoot
  demoted-OnlyRoot frames s root v k f g own is = elim (Option-cases (HashMap.get frames k)) [
    | inl n ↦ ground (arith, n, g, get-demote_others frames s k.0 root k.1)
    | inr (h, e) ↦ ground (
      arith,
      e,
      g,
      own,
      is,
      get-demote_others frames s k.0 root k.1,
      v.keyed k.0 k.1 h e,
      id_beq_iff k.0 s,
      id_beq_iff k.1 root,
    )
  ]

  root_found :
      (frames : FrameStore Value) (s : SessionId) (root : FrameId) (f : FrameNode Value)
      → IsKeyed frames
      → HashMap.get frames (s, root) ≡ some f
      → get_root_frame_id (demote_others frames s root) s ≡ ok root
  unfolding get_root_frame_id OnlyRoot
  root_found frames s root f v g =
      elim (Option-cases (
        find? (λ x. x.session_id == s && x.is_root)
          (HashMap.values (demote_others frames s root)))) [
            | inl n ↦ absurd (
                ground (
                  arith,
                  v.keyed s root f g,
                  id_beq_iff s s,
                  id_beq_iff root root,
                  HashMap.All-get (λ x. (x.session_id == s && x.is_root) ≡ false)
                      (demote_others frames s root) (s, root) (record f { is_root = root == root })
                      (ground (arith, get-demote_others frames s s root root, g, id_beq_iff s s))
                      (find?-none _ _ n),
                ))
            | inr (x, e) ↦
                let (only, is) = find?-some _ (OnlyRoot s root) _ x e (
                  HashMap.All-values (OnlyRoot s root) (demote_others frames s root)
                    (demote_others-Distinct frames s root v.distinct)
                    (demoted-OnlyRoot frames s root v)) in
                ground (arith, e, only, is, id_beq_iff x.session_id s)
          ]

  -- Where the frame exists, `set_root_frame_id` makes it the only root of its session, leaves the
  -- frames of other sessions as they were, and `get_root_frame_id` then answers it; where it does
  -- not, it is an error and nothing changes.
  pub set_root_unique :
      (frames : FrameStore Value) (s : SessionId) (root : FrameId)
      → IsKeyed frames
      → let (r, frames') = set_root_frame_id frames s root in
        ((HashMap.get frames (s, root) ≡ none)
          × (r ≡ err (StoreError.frame_not_found s root))
          × (frames' ≡ frames))
        ⊎ ((r ≡ ok root)
            × ((t : SessionId) (i : FrameId)
                → HashMap.get frames' (t, i) ≡ (elim (HashMap.get frames (t, i)) [
                  | none ↦ none
                  | some f ↦ some (if t == s then record f { is_root = i == root } else f)
                ]))
            × (get_root_frame_id frames' s ≡ ok root))
  unfolding set_root_frame_id HashMap.contains_key
  set_root_unique frames s root v = elim (Option-cases (HashMap.get frames (s, root))) [
    | inl n ↦ inl (n, ground (arith, n), ground (arith, n))
    | inr (f, g) ↦ inr (
      ground (arith, g),
      λ t i. ground (arith, g, get-demote_others frames s t root i),
      ground (arith, g, root_found frames s root f v g),
    )
  ]
