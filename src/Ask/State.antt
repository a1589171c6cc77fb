-- ===== src/Ask/State.antt =====
-- frontend/src/pages/Ask.tsx: the state of the question page, its handlers, and what it does with the
-- answers of its requests. Abort controllers are numbers, in the order of their making, and `aborted`
-- are those that were aborted. A request that is under way keeps what its closure captured.
-- What is shown of an error is kept as the key or the value that its text is made from.
use notes_of_ashen.Base.{
  ℕ, Text, List, ◌∷◌, any, text_eq, Option, none, some, Bool, true, false, ◌==◌,
}
use notes_of_ashen.Errors.{Thrown}
use notes_of_ashen.Client.{User}
use notes_of_ashen.Settings.{RagChatAccessLevel}
use notes_of_ashen.Ask.Messages.{RagChatMessage, RagChatSession, is_chat_access_allowed}

-- '', a text of the dictionary, the text of an error with its fallback, and a text of the server.
pub data ErrorNotice : Type 0 where
  quiet : ErrorNotice
  keyed : Text → ErrorNotice
  failed : Thrown → Text → ErrorNotice
  told : Text → ErrorNotice

-- A call of `runStream`; `signed_in` is whether it captured a user.
pub record Run : Type 0 where
  pub controller : ℕ
  pub assistant_id : Text
  pub question : Text
  pub signed_in : Bool

-- A call of `removeSession` behind the confirmation; `open` is the `sessionId` that it captured.
pub record Deletion : Type 0 where
  pub target : Text
  pub open_session : Option Text

pub record AskState : Type 0 where
  pub user : Option User
  pub access_level : RagChatAccessLevel
  pub question : Text
  pub messages : List RagChatMessage
  pub sessions : List RagChatSession
  pub session_id : Option Text
  pub sessions_loading : Bool
  pub session_loading : Bool
  pub streaming : Bool
  pub streaming_assistant_id : Option Text
  pub error : ErrorNotice
  pub history_error : ErrorNotice
  pub controller : Option ℕ
  pub session_request : Option ℕ
  pub list_request : Option ℕ
  pub active_user_id : Option ℕ
  pub session_id_ref : Option Text
  pub next_controller : ℕ
  pub aborted : List ℕ
  pub runs : List Run
  pub loads : List ℕ
  pub deletions : List Deletion

abbrev pub question_limit : ℕ
question_limit = 4_000

abbrev pub same_number : Option ℕ → Option ℕ → Bool
same_number none none = true
same_number (some a) (some b) = a == b
same_number _ _ = false

abbrev pub same_text : Option Text → Option Text → Bool
same_text none none = true
same_text (some a) (some b) = text_eq a b
same_text _ _ = false

-- controller?.abort()
abbrev pub abort : Option ℕ → List ℕ → List ℕ
abort none aborted = aborted
abort (some c) aborted = c ∷ aborted

-- controller.signal.aborted
abbrev pub is_aborted : ℕ → AskState → Bool
is_aborted c s = any (λ a. a == c) s.aborted

unfoldable pub can_access : AskState → Bool
can_access s =
    is_chat_access_allowed s.access_level (elim s.user [ none ↦ none | some u ↦ some u.role ])
