-- ===== src/Session/Worker/Examples.antt =====
-- An expert that answers; the theorem at it.
use marie.Base.{ℕ, ◌≡◌, refl, some, none, [], ◌∷◌, ok, err, string_eq}
use marie.Base.HashMap
use marie.Id.{SessionId, FrameId}
use marie.Session.Channel.{Json, read, write, into_updates, last_update}
use marie.Session.Channel as Channel
use marie.Session.Protocol.{FrameResponse}
use marie.Session.Frames.Policy.{FrameKind}
use marie.Session.Checkpointer.State.{RunFrameArgs}
use marie.Session.Worker.{
  ModelStreamEvent, Services, success, read_text, tools_of, follow, consult, answer_with,
  run_consultation, run_kind, run_frame,
}
use marie.Session.Worker.Consultation.{consultation_exports_nothing}
use marie.Session.Model.{ChannelName}
use marie.Session.Channel.{Channels}
use marie.Session.Spec.{CommonSpec}
use marie.Session.Spec.Core as Core
use marie.Session.Checkpointer.State.{Outside}
use marie.Session.Checkpointer.Exports.{exported}
use marie.Session.Checkpointer.Committing.{channels_after}

abbrev session : SessionId
session = record { prefix = 1; local = 1 }

abbrev child : FrameId
child = record { prefix = 1; local = 3 }

abbrev json : Json ℕ ℕ
json = record {
  null = 0;
  array = λ vs. 0;
  as_array = λ v. none;
  as_f64 = λ v. some v;
  number = λ f. f;
  max = λ a b. a;
}

abbrev outside : Outside ℕ ℕ ℕ
outside = record {
  json = json;
  object = λ m. 1;
  text = λ s. 2;
  of_answers = λ a. 3;
  codec = record { to_vec = λ g. none; from_slice = λ b. none };
  ids = λ n. record { prefix = 1; local = 100 };
  now = λ n. n;
  spawn = λ args. none;
  worker_text = λ e. "worker";
  error_text = λ e. "error";
  failed_children_text = λ n. "children";
}

abbrev services : Services ℕ ℕ ℕ
services = record {
  as_text = λ v. some "text";
  of_answer = λ o. 5;
  expert = λ id. ok (some (record { allowed_tools = "search" ∷ []; rest = 0 }));
  tool = λ id. ok (some 1);
  graph = λ r. err "no graph";
  execute_model = λ rest task tools. ok (ModelStreamEvent.completed (some "answer") ∷ []);
  execute_tool = λ s name v. ok v;
  execute_node = λ spec context. err "no node";
  expert_missing = λ id. "no expert";
  tool_missing = λ tool id. "no tool";
  node_missing = λ id r. "no node";
}

abbrev args : RunFrameArgs ℕ
args = record {
  session_id = session;
  frame_id = child;
  channels = ("expert_id", 1) ∷ ("expert_consultation_task", 2) ∷ [];
  logs = [];
  data_kind = FrameKind.expert_consultation;
}

abbrev response : FrameResponse ℕ
response =
    success child
      (record { name = "expert_consultation_answer"; value = 5; contributor = child } ∷ [])

answered : run_frame services args ≡ some (ok response)
unfolding run_frame run_kind run_consultation read_text read last_update consult tools_of follow
    answer_with success write into_updates Channel.new HashMap.get
answered = refl

consultation_exports_nothing_example :
    (response.frame_id ≡ child)
    × ((p : CommonSpec ℕ) (channels : Channels ℕ) (name : ChannelName)
        → exported p
            (channels_after outside (Core.expert json) channels response.updates)
            (Core.expert json).exported_channels
            name
          ≡ exported p channels (Core.expert json).exported_channels name)
consultation_exports_nothing_example =
    consultation_exports_nothing outside services args response refl answered
