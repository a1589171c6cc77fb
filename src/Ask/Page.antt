-- ===== src/Ask/Page.antt =====
-- frontend/src/pages/Ask.tsx: the effects of the question page, and what it does about sessions.
use notes_of_ashen.Base.{
  ℕ, suc, Text, codes, [], List, ◌∷◌, filter, text_eq, Option, none, some, get_or, true, false, not,
  ◌||◌, ◌&&◌, ◌==◌, is_some, if◌then◌else◌,
}
use notes_of_ashen.Client.{User, user_id}
use notes_of_ashen.Auth.{Settled, resolved, rejected}
use notes_of_ashen.Settings.{RagChatAccessLevel}
use notes_of_ashen.Ask.Messages.{RagChatSession}
use notes_of_ashen.Ask.State.{
  quiet, failed, Deletion, AskState, same_number, same_text, abort, is_aborted, can_access,
}

-- The effect that fetches the list of sessions, its cleanup first.
unfoldable pub sessions_effect : AskState → AskState
unfolding can_access
sessions_effect s =
    let c = s.next_controller in
    let stopped = abort s.list_request s.aborted in
    if not (is_some s.user) || not (can_access s)
    then record s { sessions = []; list_request = none; aborted = stopped }
    else record s {
      sessions_loading = true;
      history_error = quiet;
      list_request = some c;
      next_controller = suc c;
      aborted = stopped;
    }

-- The effect behind a change of the user or of the access: what belongs to the user is dropped.
unfoldable pub reset_effect : AskState → AskState
unfolding can_access
reset_effect s =
    if same_number s.active_user_id (user_id s.user) && can_access s then s else record s {
      active_user_id = user_id s.user;
      aborted = abort s.session_request (abort s.controller s.aborted);
      controller = none;
      session_request = none;
      session_id_ref = none;
      session_id = none;
      messages = [];
      sessions = [];
      session_loading = false;
      streaming = false;
      streaming_assistant_id = none;
      error = quiet;
      history_error = quiet;
    }

unfoldable pub change_user : Option User → RagChatAccessLevel → AskState → AskState
unfolding sessions_effect reset_effect
change_user u level s = reset_effect (sessions_effect (record s { user = u; access_level = level }))

-- getRAGSessions, answered for the controller
unfoldable pub sessions_answered : ℕ → Settled (List RagChatSession) → AskState → AskState
sessions_answered c answer s =
    let next : AskState = elim answer [
      | resolved found ↦ record s { sessions = found }
      | rejected e ↦ record s { history_error = failed e (codes "ragChat.loadSessionsError") }
    ] in
    if is_aborted c s then s else record next { sessions_loading = false }

unfoldable pub start_new_chat : AskState → AskState
start_new_chat s = record s {
  aborted = abort s.session_request (abort s.controller s.aborted);
  controller = none;
  session_id_ref = none;
  session_id = none;
  messages = [];
  question = [];
  error = quiet;
  session_loading = false;
  streaming_assistant_id = none;
}

unfoldable pub load_session : Text → AskState → AskState
load_session id s =
    let c = s.next_controller in
    if s.streaming || same_text (some id) s.session_id then s else record s {
      aborted = abort s.session_request s.aborted;
      session_request = some c;
      next_controller = suc c;
      session_loading = true;
      error = quiet;
      loads = c ∷ s.loads;
    }

without : ℕ → List ℕ → List ℕ
without c cs = filter (λ d. not (d == c)) cs

-- The `finally` of `loadSession`.
unfoldable pub load_settled : ℕ → AskState → AskState
unfolding without
load_settled c s =
    let rest = record s { loads = without c s.loads } in
    if same_number s.session_request (some c)
    then record rest {
      session_request = none;
      session_loading = if is_aborted c s then s.session_loading else false;
    }
    else rest

-- getRAGSession, answered for the controller
unfoldable pub session_answered : ℕ → Settled RagChatSession → AskState → AskState
unfolding load_settled
session_answered c (resolved session) s = load_settled c (
    if is_aborted c s || not (same_number s.session_request (some c)) then s else record s {
      session_id_ref = some session.id;
      session_id = some session.id;
      messages = get_or session.messages [];
    })
session_answered c (rejected e) s =
    load_settled c (
      if is_aborted c s
      then s
      else record s { error = failed e (codes "ragChat.sessionLoadError") })

-- removeSession, up to the request
unfoldable pub remove_session : Text → AskState → AskState
remove_session target s = if s.streaming then s else record s {
  deletions = record { target = target; open_session = s.session_id } ∷ s.deletions;
}

-- removeSession, behind the request
unfoldable pub session_removed : Deletion → Settled (Unit {0}) → AskState → AskState
unfolding start_new_chat
session_removed d (resolved _) s =
    let s' = record s { sessions = filter (λ x. not (text_eq x.id d.target)) s.sessions } in
    if same_text (some d.target) d.open_session then start_new_chat s' else s'
session_removed d (rejected e) s = record s {
  history_error = failed e (codes "ragChat.deleteError");
}
