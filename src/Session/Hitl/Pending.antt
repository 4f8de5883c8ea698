-- ===== src/Session/Hitl/Pending.antt =====
-- The requests of a session that wait for an answer (hitl/service.rs over hitl/store/in_memory.rs).
use marie.Base.{String, ◌≡◌, ◌≢◌, refl, sym, subst, ◌↔◌, ◌⊎◌, inl, inr, arith, none, some}
use marie.Base.HashMap
use marie.Base.HashMap.{HashMap}
use marie.Base.{pair_eq}
use marie.Id.{SessionId, HitlId, id_eq, id_beq_iff}
use marie.Session.Model.{Answer}
use marie.Session.Hitl.Validate.{Unicode}
use marie.Session.Hitl.Store.{Hitl, HitlFrame, HitlStore, upsert_hitl_frame}
use marie.Session.Hitl.Service.{SessionHitls, request, reply}
use marie.Session.Hitl.Listing.{IsKeyed, Waits}
use marie.Session.Hitl.Replies.{reply_outcomes}

-- The store after an answer was written to the request `i` of the session.
answered-Waits :
    (store : HitlStore) (s : SessionId) (i : HitlId) (f h : HitlFrame)
    (answers : HashMap String Answer)
    → Waits (HashMap.insert store (s, i) (record f { answer = some answers })) s h
      ↔ (Waits store s h × (h.id ≢ i))
answered-Waits store s i f h answers = ground (
  arith,
  HashMap.get-insert store (s, i) (s, h.id) (record f { answer = some answers }),
  id_beq_iff s s,
  id_beq_iff i h.id,
  id_beq_iff h.id i,
)

-- After a reply, whether its answers were valid or not, the request waits no longer; the other
-- requests of the session wait as before.
pub reply-closes :
    (u : Unicode) (hitls : SessionHitls) (i : HitlId) (answers : HashMap String Answer)
    (h : HitlFrame)
    → IsKeyed hitls.store
    → Waits (reply u hitls i answers).1.store hitls.session_id h
      ↔ (Waits hitls.store hitls.session_id h × (h.id ≢ i))
reply-closes u hitls i answers h v = elim (reply_outcomes u hitls i answers v) [
  | inl (n, same, e) ↦ rw same (λ w. (w, λ e. ground (arith, w.0, n, e)), λ w. w.0)
  | inr (f, g, s, r) ↦
      subst (λ t. Waits t hitls.session_id h ↔ (Waits hitls.store hitls.session_id h × (h.id ≢ i)))
        (sym s) (answered-Waits hitls.store hitls.session_id i f h answers)
]

-- A request under a new identifier is stored without an answer; apart from it the same requests
-- wait as before.
pub request-Waits :
    (hitls : SessionHitls) (i : HitlId) (hitl : Hitl) (h : HitlFrame)
    → HashMap.get hitls.store (hitls.session_id, i) ≡ none
    → Waits (request hitls i hitl).1.store hitls.session_id h ↔ (
        Waits hitls.store hitls.session_id h
        ⊎ (h ≡ record { session_id = hitls.session_id; id = i; hitl = hitl; answer = none }))
unfolding request upsert_hitl_frame
request-Waits hitls i hitl h new =
    let frame : HitlFrame = record {
      session_id = hitls.session_id;
      id = i;
      hitl = hitl;
      answer = none;
    } in
    ground (
      arith,
      HashMap.get-insert hitls.store (hitls.session_id, i) (hitls.session_id, h.id) frame,
      id_beq_iff i h.id,
      id_beq_iff h.id i,
      id_beq_iff hitls.session_id hitls.session_id,
      new,
    )

insert-IsKeyed :
    (store : HitlStore) (k : SessionId × HitlId) (f : HitlFrame)
    → IsKeyed store
    → (f.session_id ≡ k.0) × (f.id ≡ k.1)
    → IsKeyed (HashMap.insert store k f)
insert-IsKeyed store k f v h = record {
  distinct = HashMap.insert-Distinct store k f v.distinct;
  keyed = λ s i g e. ground (
    arith,
    HashMap.get-insert store k (s, i) f,
    v.keyed s i g,
    e,
    h,
    id_beq_iff k.0 s,
    id_beq_iff k.1 i,
  );
}

-- Requests and replies keep each request under its own identifiers.
pub service-IsKeyed :
    (u : Unicode) (hitls : SessionHitls)
    → IsKeyed hitls.store
    → ((i : HitlId) (hitl : Hitl) → IsKeyed (request hitls i hitl).1.store)
      × ((i : HitlId) (answers : HashMap String Answer) → IsKeyed (reply u hitls i answers).1.store)
unfolding request upsert_hitl_frame
service-IsKeyed u hitls v = (
  λ i hitl. insert-IsKeyed hitls.store _ _ v (refl, refl),
  λ i answers. elim (reply_outcomes u hitls i answers v) [
    | inl (n, same, e) ↦ rw same v
    | inr (f, g, s, r) ↦ rw s (insert-IsKeyed hitls.store _ _ v (v.keyed hitls.session_id i f g))
  ],
)
