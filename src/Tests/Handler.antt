-- ===== src/Tests/Handler.antt =====
-- The handler and the start of a session on concrete parts, over a state that is the image of the configuration.
use krellin.Prelude.{
  ◌≡◌, refl, ◌⊎◌, true, false, none, some, [], ◌∷◌, ◌++◌, if◌then◌else◌, Bool-cases, inl, inr,
}
use krellin.Prelude.Text.{Text, codes, has_prefix, is_empty}
use krellin.Prelude.Result.{ok, err}
use krellin.FilePath.{parts_of, is_rooted}
use krellin.FilePath.Under.{Under}
use krellin.Policy.{default_policy}
use krellin.Config.Files.{FileSystem, FileError, contents, default_config}
use krellin.Config.Files.Updated.{ReadsBack}
use krellin.Protocol.{Event}
use krellin.Agents.{openai}
use krellin.Session.Events.{Hub, emit}
use krellin.Session.Handler.{agent_message, Parts, AgentParts, Held, handle_freeze}
use krellin.Session.Handler.Ends.{Pins, LeaveFile, updating, handle_freeze-Pins}
use krellin.Session.Start.{
  Boot, Setup, Notices, start_session, before, marked, sent, Shared, registered, Steps, mark, send,
  register, here, next, read, full_of, take_from, read_of,
}
use krellin.Session.Start.Guarded.{start_session-Guarded}
use krellin.Session.Start.Heard.{AllServed, Steps-Heard}

abbrev agent : AgentParts Text
agent = record {
  resolve_provider = λ s. ok (record {
    name = codes "p";
    kind = openai;
    base_url = [];
    model = codes "m";
    api_key_env = [];
    enabled = true;
  });
  secret = none;
  build_prompt = λ content context s. content;
  run_with_tools = λ p key prompt content s. (ok (codes "hi"), agent_message (codes "hi") ∷ [], s);
}

abbrev image_of : Text
image_of = codes "img@sha256:0123456789abcdef0123456789abcdef0123456789abcdef0123456789abcdef"

-- A disk that holds one file, and is full for an empty one.
abbrev files : FileSystem Text
files = record {
  unmarshal = λ data_. some (default_config image_of);
  marshal = λ c. c.image;
  read_file = λ path s. contents s;
  write_file =
      λ path data_ s. if is_empty data_ then (some (codes "disk full"), []) else (none, data_);
}

files-ReadsBack : ReadsBack files (codes ".krellinrc")
files-ReadsBack data_ s after e = elim (Bool-cases (is_empty data_)) [
  | inl h ↦ cc (e, h)
  | inr h ↦ cc (e, h)
]

abbrev words : FileError → Text
words e = codes "error"

abbrev parts : Parts Text
parts = record {
  set_network = λ on s. (none, s);
  reset_capsule = λ preserve s. (some (codes "no docker"), s);
  reset_pty = λ s. s;
  ensure_pty = λ s. (none, s);
  commit = λ mode s. (ok (codes "sha256:1"), s);
  push = none;
  resolve_digest = some (λ image s. (ok image_of, s));
  update_image = some (updating files (codes ".krellinrc") words);
  run_command = λ command s. (none, s);
  apply_patch = none;
  diff = λ s. (err (codes "no diff"), s);
  revert = none;
  list_capsules = none;
  list_agents = λ s. (err (codes "no store"), s);
  serve_agents = λ request s. (err (codes "no store"), s);
  agent = some agent;
}

parts-LeaveFile : LeaveFile parts files (codes ".krellinrc")
parts-LeaveFile = record {
  commits = λ mode s. refl;
  pushes = λ image s. refl;
  resolves = λ image s. refl;
}

handle_freeze-Pins_example :
    Pins parts files
      (codes ".krellinrc")
      (contents (codes "old"))
      (handle_freeze parts [] (codes "old"))
handle_freeze-Pins_example =
    handle_freeze-Pins parts files (codes ".krellinrc") words parts-LeaveFile files-ReadsBack []
      (codes "old") refl

abbrev fresh : Held Text
fresh = record { outside = []; context = record { chat_history = []; tool_summaries = [] } }

abbrev notice : Text → Event
notice kind = record {
  event_id = kind;
  session_id = codes "s-1";
  zero_time = false;
  kind = kind;
  source = codes "system";
  agent_id = [];
  payload = [];
}

abbrev empty_hub : Hub
empty_hub = record { next = 0; subscribers = []; started_event = none; last_error_event = none }

abbrev boot : Boot Text
boot = record {
  once_done = false;
  has_capsule = true;
  started = false;
  executor_runs = false;
  hub = empty_hub;
  outside = [];
}

abbrev setup : Setup
setup = record {
  capsule_name = codes "krellin-ab12";
  repo_root = codes "/etc";
  image_digest = codes "img";
  capsule_user = [];
  network_on = false;
  cpus = 1;
  memory_mb = 1;
}

abbrev notices : Notices
notices = record {
  banner = notice (codes "terminal.output");
  ensure_error = notice (codes "error");
  session_started = notice (codes "session.started");
}

start_session-Guarded_example :
    Under (parts_of true (codes "/etc")) (parts_of true (codes "/repo"))
    ⊎ (((start_session
            (λ cfg s. (none, s))
            (default_policy (codes "/repo") [])
            setup
            notices
            boot).outside
          ≡ [])
        × ((start_session
              (λ cfg s. (none, s))
              (default_policy (codes "/repo") [])
              setup
              notices
              boot).started
            ≡ false)
        × ((start_session
              (λ cfg s. (none, s))
              (default_policy (codes "/repo") [])
              setup
              notices
              boot).executor_runs
            ≡ false))
unfolding default_policy is_rooted has_prefix
start_session-Guarded_example =
    start_session-Guarded (λ cfg s. (none, s)) (default_policy (codes "/repo") []) setup notices
      boot refl refl refl refl refl

abbrev shared : Shared
shared = record { hub = empty_hub; phase = before; due = []; received = []; missed = [] }

-- A subscription between the two parts of `Start`.
abbrev subscribed : Shared
subscribed = registered 1 (record shared {
  hub = record empty_hub { started_event = some notices.session_started };
  phase = marked;
})

abbrev finished : Shared
finished = record subscribed {
  hub = emit notices.session_started subscribed.hub;
  phase = sent;
  missed = full_of subscribed.hub.subscribers ++ subscribed.missed;
}

-- The subscriber reads the event.
abbrev read_out : Shared
read_out = record finished {
  hub = record finished.hub { subscribers = take_from 0 finished.hub.subscribers };
  received = read_of 0 finished.hub.subscribers ++ finished.received;
}

between : Steps notices.session_started shared read_out
between = next (next (next (next here (mark _ refl)) (register _ 1)) (send _ refl)) (read _ 0)

Steps-Heard_example : AllServed notices.session_started read_out
Steps-Heard_example = Steps-Heard notices.session_started between refl refl
