-- ===== src/Session/Worker/Consultation.antt =====
-- Where the answer of an expert goes (session/worker.rs and session/spec.rs).
use marie.Base.HashMap
use marie.Session.Model.{ChannelName}
use marie.Session.Channel.{Channels}
use marie.Session.Spec.{CommonSpec}
use marie.Session.Checkpointer.State.{Outside}
use marie.Session.Checkpointer.Joins.{contributions, joined, reduced}
use marie.Session.Checkpointer.Exports.{exported}
use marie.Session.Checkpointer.Committing.{channels_after, get-channels_after}
use marie.Base.{◌∙◌, ap, All-imp, List, ◌∷◌}
use marie.Base.{
  String, subst, String, ◌≡◌, refl, arith, inl, inr, false, contains, string_eq, Option, none, some,
  Result-cases, ok, [], All,
}
use marie.Id.{FrameId}
use marie.Session.Model.{ChannelUpdate}
use marie.Session.Channel.{Json, ChannelsTracker, write, into_updates}
use marie.Session.Channel as Channel
use marie.Session.Spec.Core as Core
use marie.Session.Protocol.{FrameResponse}
use marie.Session.Frames.Policy.{FrameKind}
use marie.Session.Checkpointer.State.{RunFrameArgs}
use marie.Session.Worker.{
  Services, failure, success, read_text, consult, answer_with, follow, run_consultation, run_kind,
  run_frame,
}

module _ {Value Float Rest Tool : Type 0} (json : Json Value Float)
    (services : Services Value Rest Tool) where
  -- An update of the frame to a channel that experts do not export.
  abbrev pub IsLost : FrameId → ChannelUpdate Value → Type 0
  IsLost frame_id u =
      (u.contributor ≡ frame_id) × (contains (Core.expert json).exported_channels u.name ≡ false)

  -- A response for the frame whose updates are all lost.
  abbrev pub LosesAll : FrameId → FrameResponse Value → Type 0
  LosesAll frame_id response =
      (response.frame_id ≡ frame_id) × All (IsLost frame_id) response.updates

  answer_with-LosesAll :
      (args : RunFrameArgs Value) (o : Option String × Option String)
      → LosesAll args.frame_id
          (answer_with services args.frame_id (Channel.new args.frame_id args.channels) o)
  unfolding answer_with failure success into_updates write Channel.new Core.expert
      Core.build_common_spec
  answer_with-LosesAll args (answer, some e) = (refl, tt)
  answer_with-LosesAll args (answer, none) = (refl, ((refl, refl), tt))

  run_consultation-LosesAll :
      (args : RunFrameArgs Value) (response : FrameResponse Value)
      → run_consultation services args.frame_id (Channel.new args.frame_id args.channels)
        ≡ ok response
      → LosesAll args.frame_id response
  unfolding run_consultation failure
  run_consultation-LosesAll args response h =
      let channels = Channel.new args.frame_id args.channels in
      elim (Result-cases (read_text services channels "expert_id")) [
        | inr (e, x) ↦ absurd (ground (arith, x, h))
        | inl (id, x) ↦
            elim (Result-cases (read_text services channels "expert_consultation_task")) [
              | inr (e, y) ↦ absurd (ground (arith, x, y, h))
              | inl (task, y) ↦ elim (Result-cases (consult services id task)) [
                | inr (e, z) ↦
                    subst (LosesAll args.frame_id) {x = failure args.frame_id [] e} {y = response}
                      (ground (arith, x, y, z, h)) (refl, tt)
                | inl (events, z) ↦
                    let o = follow services none none events in
                    subst (LosesAll args.frame_id)
                      {x = answer_with services args.frame_id channels o} {y = response}
                      (ground (arith, x, y, z, h)) (answer_with-LosesAll args o)
              ]
            ]
      ]

  run_frame-LosesAll :
      (args : RunFrameArgs Value) (response : FrameResponse Value)
      → args.data_kind ≡ FrameKind.expert_consultation
      → run_frame services args ≡ some (ok response)
      → LosesAll args.frame_id response
  unfolding run_frame run_kind
  run_frame-LosesAll args response k h =
      run_consultation-LosesAll args response (ground (arith, k, h))

module _ {Value : Type 0} where
  unnamed :
      (us : List (ChannelUpdate Value)) (e : ChannelName) (es : List ChannelName)
      → All (λ u. contains (e ∷ es) u.name ≡ false) us
      → (contributions us e ≡ []) × All (λ u. contains es u.name ≡ false) us
  unnamed [] e es a = (refl, tt)
  unnamed (u ∷ us) e es a =
      let (x, y) = unnamed us e es a.1 in
      (
        ground (arith, a.0, x, string_eq.eq_iff u.name e, string_eq.eq_iff e u.name),
        (ground (arith, a.0), y),
      )

  unnamed_all :
      (us : List (ChannelUpdate Value)) (es : List ChannelName)
      → All (λ u. contains es u.name ≡ false) us
      → All (λ e. contributions us e ≡ []) es
  unnamed_all us [] a = tt
  unnamed_all us (e ∷ es) a = let (x, y) = unnamed us e es a in (x, unnamed_all us es y)

  exported_same :
      (p : CommonSpec Value) (m n : Channels Value) (es : List ChannelName) (name : ChannelName)
      → All (λ e. HashMap.get m e ≡ HashMap.get n e) es
      → exported p m es name ≡ exported p n es name
  exported_same p m n [] name a = refl
  exported_same p m n (e ∷ es) name a = ground (arith, a.0, exported_same p m n es name a.1)

module _ {Value Float Time Rest Tool : Type 0} (outside : Outside Value Float Time)
    (services : Services Value Rest Tool) where
  -- Whenever the job of a consultation answers, its response is for its frame, and the updates in it
  -- change nothing that an expert exports: onto whatever channels they are reduced by the spec of
  -- experts, each parent finds the same values exported to it under each name as without them.
  pub consultation_exports_nothing :
      (args : RunFrameArgs Value) (response : FrameResponse Value)
      → args.data_kind ≡ FrameKind.expert_consultation
      → run_frame services args ≡ some (ok response)
      → let spec = Core.expert outside.json in
        (response.frame_id ≡ args.frame_id)
        × ((p : CommonSpec Value) (channels : Channels Value) (name : ChannelName)
            → exported p
                (channels_after outside spec channels response.updates)
                spec.exported_channels
                name
              ≡ exported p channels spec.exported_channels name)
  consultation_exports_nothing args response k h =
      let spec = Core.expert outside.json in
      let lost = run_frame-LosesAll outside.json services args response k h in
      let silent = unnamed_all response.updates spec.exported_channels (
        All-imp (IsLost outside.json services args.frame_id) _ response.updates (λ u l. l.1)
          lost.1) in
      (
        lost.0,
        λ p channels name. exported_same p _ channels spec.exported_channels name (
            All-imp _
              (λ e.
                HashMap.get (channels_after outside spec channels response.updates) e
                ≡ HashMap.get channels e)
              _
              (λ e s.
                get-channels_after outside spec channels response.updates e
                ∙ ap (λ vs. reduced outside.json spec.channels channels e (joined none vs)) s)
              silent),
      )
