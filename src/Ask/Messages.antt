-- ===== src/Ask/Messages.antt =====
-- frontend/src/types/index.ts and frontend/src/pages/Ask.tsx: the messages and sessions of the
-- question page, and the functions on them. An absent list of sources is empty, and an absent flag
-- is false.
use notes_of_ashen.Base.{
  ℕ, Text, codes, [], List, ◌∷◌, ◌++◌, any, take, length, text_eq, or_text, Option, none, some,
  Bool, true, false, ltb, if◌then◌else◌,
}
use notes_of_ashen.Client.{UserRole, user, editor, admin}
use notes_of_ashen.Settings.{RagChatAccessLevel, guest, user as user_level, editor as editor_level}
use notes_of_ashen.Stream.{RagChatSource, RagParsedStreamEvent, meta, sources, delta, done, error}

pub data RagChatMessageRole : Type 0 where
  user_role assistant_role : RagChatMessageRole

pub record RagChatMessage : Type 0 where
  pub id : Text
  pub session_id : Option Text
  pub role : RagChatMessageRole
  pub content : Text
  pub sources : List RagChatSource
  pub sources_updated : Bool
  pub incomplete : Bool
  pub hidden_at : Option Text
  pub created_at : Text

pub record RagChatSession : Type 0 where
  pub id : Text
  pub title : Text
  pub source_epoch : Option ℕ
  pub expires_at : Option Text
  pub created_at : Text
  pub updated_at : Text
  pub messages : Option (List RagChatMessage)

-- current.map((message) => message.id === id ? f(message) : message)
unfoldable pub update_message :
    Text → (RagChatMessage → RagChatMessage) → List RagChatMessage → List RagChatMessage
update_message id f [] = []
update_message id f (m ∷ ms) = (if text_eq m.id id then f m else m) ∷ update_message id f ms

-- What an event does: to the messages, to the session's id, and to the error.
pub record StreamEffect : Type 0 where
  pub messages : List RagChatMessage
  pub session : Option Text
  pub failure : Option Text

abbrev when_id : Text → Option Text
when_id [] = none
when_id (c ∷ s) = some (c ∷ s)

-- handleStreamEvent. A `meta` event without an id falls through to the test for `delta` and
-- `sources`, and does nothing.
unfoldable pub handle_stream_event :
    RagParsedStreamEvent → Text → List RagChatMessage → StreamEffect
unfolding update_message
handle_stream_event (meta id) assistant_id ms = record {
  messages = ms;
  session = when_id id;
  failure = none;
}
handle_stream_event (done id message_id) assistant_id ms = record {
  messages = ms;
  session = when_id id;
  failure = none;
}
handle_stream_event (error text) assistant_id ms = record {
  messages = ms;
  session = none;
  failure = some text;
}
handle_stream_event (sources found) assistant_id ms = record {
  messages = update_message assistant_id (λ m. record m { sources = found }) ms;
  session = none;
  failure = none;
}
handle_stream_event (delta text) assistant_id ms = record {
  messages = update_message assistant_id (λ m. record m { content = m.content ++ text }) ms;
  session = none;
  failure = none;
}

unfoldable pub mark_assistant_incomplete : List RagChatMessage → Option Text → List RagChatMessage
unfolding update_message
mark_assistant_incomplete ms none = ms
mark_assistant_incomplete ms (some []) = ms
mark_assistant_incomplete ms (some (c ∷ s)) =
    update_message (c ∷ s) (λ m. record m { incomplete = true }) ms

unfoldable pub is_chat_access_allowed : RagChatAccessLevel → Option UserRole → Bool
is_chat_access_allowed guest role = true
is_chat_access_allowed user_level none = false
is_chat_access_allowed user_level (some role) = true
is_chat_access_allowed editor_level none = false
is_chat_access_allowed editor_level (some user) = false
is_chat_access_allowed editor_level (some editor) = true
is_chat_access_allowed editor_level (some admin) = true

-- question.length > 48 ? `${question.slice(0, 48)}…` : question
abbrev session_title : Text → Text
session_title question =
    if ltb 48 (length question) then take 48 question ++ codes "…" else question

retitle : Text → Text → Text → List RagChatSession → List RagChatSession
retitle id title now [] = []
retitle id title now (s ∷ ss) =
    (if text_eq s.id id then record s { title = or_text s.title title; updated_at = now } else s)
    ∷ retitle id title now ss

-- upsertLocalSession; `now` is new Date().toISOString()
unfoldable pub upsert_local_session :
    List RagChatSession → Option Text → Text → Text → List RagChatSession
unfolding retitle
upsert_local_session ss none question now = ss
upsert_local_session ss (some []) question now = ss
upsert_local_session ss (some (c ∷ s)) question now =
    let id = c ∷ s in
    if any (λ x. text_eq x.id id) ss
    then retitle id (session_title question) now ss
    else record {
      id = id;
      title = session_title question;
      source_epoch = none;
      expires_at = none;
      created_at = now;
      updated_at = now;
      messages = none;
    }
      ∷ ss

-- [...messages.slice(0, index)].reverse().find(isUser) for the index of the message with the id:
-- `last` is the latest user message so far.
question_before : Text → Option Text → List RagChatMessage → Option Text
question_before id last [] = none
question_before id last (m ∷ ms) =
    let next : Option Text = elim m.role [ user_role ↦ some m.content | assistant_role ↦ last ] in
    if text_eq m.id id then last else question_before id next ms

unfoldable pub question_of : Text → List RagChatMessage → Option Text
unfolding question_before
question_of id ms = question_before id none ms
