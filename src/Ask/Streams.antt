-- ===== src/Ask/Streams.antt =====
-- frontend/src/pages/Ask.tsx: questions, and what the page does with the answers that are streamed.
use notes_of_ashen.Base.{
  suc, Text, codes, [], ◌∷◌, ◌++◌, filter, any, length, trim, text_eq, truthy, Option, none, some,
  true, false, not, ◌||◌, ◌&&◌, ◌==◌, ltb, is_some, if◌then◌else◌,
}
use notes_of_ashen.Auth.{Settled, resolved, rejected}
use notes_of_ashen.Stream.{RagParsedStreamEvent}
use notes_of_ashen.Ask.Messages.{
  RagChatMessage, user_role, assistant_role, handle_stream_event, mark_assistant_incomplete,
  upsert_local_session, update_message, question_of,
}
use notes_of_ashen.Ask.State.{
  ErrorNotice, quiet, keyed, failed, told, Run, AskState, question_limit, same_number, is_aborted,
}

-- runStream, up to the request
unfoldable pub run_stream : Text → Text → AskState → AskState
run_stream question assistant_id s =
    let c = s.next_controller in
    record s {
      controller = some c;
      next_controller = suc c;
      error = quiet;
      streaming = true;
      streaming_assistant_id = some assistant_id;
      runs =
          record {
            controller = c;
            assistant_id = assistant_id;
            question = question;
            signed_in = is_some s.user;
          }
          ∷ s.runs;
    }

abbrev newer : Option Text → Option Text → Option Text
newer none old = old
newer (some id) old = some id

abbrev newer_error : Option Text → ErrorNotice → ErrorNotice
newer_error none old = old
newer_error (some text) old = told text

-- An event that the reader of a run passes on: one of an aborted or replaced run is dropped.
unfoldable pub stream_event : Run → RagParsedStreamEvent → AskState → AskState
stream_event r e s =
    let effect = handle_stream_event e r.assistant_id s.messages in
    if is_aborted r.controller s || not (same_number s.controller (some r.controller))
    then s
    else record s {
      session_id_ref = newer effect.session s.session_id_ref;
      session_id = newer effect.session s.session_id;
      messages = effect.messages;
      error = newer_error effect.failure s.error;
    }

-- The `finally` of `runStream`.
unfoldable pub run_settled : Run → AskState → AskState
run_settled r s =
    let rest = record s { runs = filter (λ x. not (x.controller == r.controller)) s.runs } in
    if same_number s.controller (some r.controller)
    then record rest { controller = none; streaming = false; streaming_assistant_id = none }
    else rest

-- The end of streamRAGChat for a run.
unfoldable pub stream_ended : Run → Settled (Unit {0}) → Text → AskState → AskState
unfolding run_settled
stream_ended r (resolved _) now s = run_settled r (
    if r.signed_in && not (is_aborted r.controller s)
    then record s { sessions = upsert_local_session s.sessions s.session_id_ref r.question now }
    else s)
stream_ended r (rejected e) now s = run_settled r (
    if is_aborted r.controller s then s else record s {
      messages = mark_assistant_incomplete s.messages (some r.assistant_id);
      error = failed e (codes "ragChat.sendError");
    })

abbrev local_message : Text → Option Text → Text → Text → RagChatMessage
local_message id session_id content now = record {
  id = id;
  session_id = session_id;
  role = user_role;
  content = content;
  sources = [];
  sources_updated = false;
  incomplete = false;
  hidden_at = none;
  created_at = now;
}

-- submitQuestion; `now` is the time, and the ids are those of createLocalID.
unfoldable pub submit_question : Text → Text → Text → AskState → AskState
unfolding run_stream
submit_question now id id' s =
    let asked = trim s.question in
    let assistant_id = codes "local-assistant-" ++ id' in
    let mine = local_message (codes "local-user-" ++ id) s.session_id asked now in
    let answer = record (local_message assistant_id s.session_id [] now) {
      role = assistant_role;
    } in
    if not (truthy asked)
    then record s { error = keyed (codes "ragChat.questionRequired") }
    else if s.streaming || ltb question_limit (length asked)
    then s
    else run_stream asked assistant_id (record s {
      session_id_ref = s.session_id;
      messages = s.messages ++ mine ∷ answer ∷ [];
      question = [];
    })

pub clear_answer : RagChatMessage → RagChatMessage
clear_answer m = record m {
  content = [];
  sources = [];
  sources_updated = false;
  incomplete = false;
}

-- retryAnswer
unfoldable pub retry_answer : Text → AskState → AskState
unfolding run_stream clear_answer
retry_answer assistant_id s =
    if s.streaming || not (any (λ m. text_eq m.id assistant_id) s.messages)
    then s
    else elim (question_of assistant_id s.messages) [
      | none ↦ s
      | some question ↦
          run_stream question assistant_id
            (record s { messages = update_message assistant_id clear_answer s.messages })
    ]

-- stopStreaming
unfoldable pub stop_streaming : AskState → AskState
stop_streaming s = elim s.controller [
  | none ↦ s
  | some c ↦ record s {
    aborted = c ∷ s.aborted;
    controller = none;
    messages = mark_assistant_incomplete s.messages s.streaming_assistant_id;
    error = keyed (codes "ragChat.interrupted");
    streaming = false;
    streaming_assistant_id = none;
  }
]
