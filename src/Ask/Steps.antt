-- ===== src/Ask/Steps.antt =====
-- What may happen on the question page: handlers that the visitor calls, and requests that end, in
-- any order. The button for a new chat is disabled while an answer is streamed.
use mathlib.Core.List.{Memᴰ}
use notes_of_ashen.Base.{ℕ, Text, [], List, Option, none, false, ◌≡◌}
use notes_of_ashen.Client.{User, user_id}
use notes_of_ashen.Auth.{Settled}
use notes_of_ashen.Settings.{RagChatAccessLevel}
use notes_of_ashen.Stream.{RagParsedStreamEvent}
use notes_of_ashen.Ask.Messages.{RagChatSession}
use notes_of_ashen.Ask.State.{AskState, Run, Deletion, quiet}
use notes_of_ashen.Ask.Page.{
  change_user, sessions_answered, load_session, session_answered, remove_session, session_removed,
  start_new_chat,
}
use notes_of_ashen.Ask.Streams.{
  submit_question, retry_answer, stop_streaming, stream_event, stream_ended,
}

pub data Step (s : AskState) : AskState → Type 0 where
  changes_user : (u : Option User) (level : RagChatAccessLevel) → Step s (change_user u level s)
  types : (question : Text) → Step s (record s { question = question })
  list_arrives : (c : ℕ) (a : Settled (List RagChatSession)) → Step s (sessions_answered c a s)
  opens : (id : Text) → Step s (load_session id s)
  session_arrives : (c : ℕ) (a : Settled RagChatSession) → Step s (session_answered c a s)
  removes : (id : Text) → Step s (remove_session id s)
  removed : (d : Deletion) (a : Settled (Unit {0})) → Step s (session_removed d a s)
  starts_anew : s.streaming ≡ false → Step s (start_new_chat s)
  submits : (now id id' : Text) → Step s (submit_question now id id' s)
  retries : (id : Text) → Step s (retry_answer id s)
  stops : Step s (stop_streaming s)
  event_arrives : (r : Run) (e : RagParsedStreamEvent) → Memᴰ r s.runs → Step s (stream_event r e s)
  run_ends :
      (r : Run) (a : Settled (Unit {0})) (now : Text)
      → Memᴰ r s.runs
      → Step s (stream_ended r a now s)

pub data Steps (s : AskState) : AskState → Type 0 where
  here : Steps s s
  next : {t u : AskState} → Steps s t → Step t u → Steps s u

-- The page as it is shown first, before its effects.
unfoldable pub ask_start : Option User → RagChatAccessLevel → AskState
ask_start u level = record {
  user = u;
  access_level = level;
  question = [];
  messages = [];
  sessions = [];
  session_id = none;
  sessions_loading = false;
  session_loading = false;
  streaming = false;
  streaming_assistant_id = none;
  error = quiet;
  history_error = quiet;
  controller = none;
  session_request = none;
  list_request = none;
  active_user_id = user_id u;
  session_id_ref = none;
  next_controller = 0;
  aborted = [];
  runs = [];
  loads = [];
  deletions = [];
}
