-- ===== src/Session/Hitl/Listing.antt =====
-- The requests that are listed as unanswered (hitl/store/in_memory.rs).
use marie.Base.{
  ◌≡◌, true, inl, inr, arith, none, some, Option-cases, All, In, In-filter, filter-All, All-imp,
  ◌==◌, ◌&&◌,
}
use marie.Base.HashMap
use marie.Base.HashMap.{HashMap}
use marie.Base.{pair_eq}
use marie.Id.{SessionId, HitlId, id_eq, id_beq_iff}
use marie.Session.Hitl.Store.{HitlFrame, HitlStore, list_unanswered_hitls_frames, is_none}

-- Each request is stored once, under its own identifiers.
pub record IsKeyed (store : HitlStore) : Type 0 where
  pub distinct : HashMap.Distinct store
  pub keyed :
      (s : SessionId) (i : HitlId) (f : HitlFrame)
      → HashMap.get store (s, i) ≡ some f
      → (f.session_id ≡ s) × (f.id ≡ i)

-- A request of the session that has no answer.
abbrev pub Waits : HitlStore → SessionId → HitlFrame → Type 0
Waits store s f = (HashMap.get store (s, f.id) ≡ some f) × (f.answer ≡ none)

own_entry :
    (store : HitlStore)
    → IsKeyed store
    → (k : SessionId × HitlId) (f : HitlFrame) → HashMap.get store k ≡ some f
    → HashMap.get store (f.session_id, f.id) ≡ some f
own_entry store v k f g = let (s, i) = v.keyed k.0 k.1 f g in ground (arith, s, i, g)

waiting :
    (store : HitlStore) (s : SessionId) (f : HitlFrame)
    → (HashMap.get store (f.session_id, f.id) ≡ some f)
      × ((f.session_id == s && is_none f.answer) ≡ true)
    → Waits store s f
waiting store s f (g, h) = elim (Option-cases f.answer) [
  | inl n ↦ (ground (arith, g, h, n, id_beq_iff f.session_id s), n)
  | inr (a, y) ↦ ground (arith, h, y)
]

-- In a store where each request stands under its own identifiers, the unanswered requests that are
-- listed for a session are those of that session that have no answer, all of them and no other.
pub list_unanswered_iff :
    (store : HitlStore) (s : SessionId)
    → IsKeyed store
    → All (Waits store s) (list_unanswered_hitls_frames store s)
      × ((f : HitlFrame) → Waits store s f → In f (list_unanswered_hitls_frames store s))
unfolding list_unanswered_hitls_frames
list_unanswered_iff store s v = (
  All-imp _ (Waits store s) _ (waiting store s) (
      filter-All _ _ (HashMap.values store)
        (HashMap.All-values _ store v.distinct (own_entry store v))),
  λ f w.
      In-filter _ f (HashMap.values store) (listed f w) (HashMap.In-values store (s, f.id) f w.0),
)
  where
    listed : (f : HitlFrame) → Waits store s f → (f.session_id == s && is_none f.answer) ≡ true
    listed f (g, n) = ground (arith, (v.keyed s f.id f g).0, n, id_beq_iff f.session_id s)
