-- ===== src/Client.antt =====
-- The state that the client's stores and modules share: the local storage, the UI store, the auth
-- store (frontend/src/store/auth.ts), the variable `sessionExpiredHandled` of
-- frontend/src/utils/http.ts, the language of the document (`none` where there is no document), the
-- language of the preference store, and the outside world, of any type. Calls of the handler that `App` installs are counted.
-- Here too: the user of frontend/src/types/index.ts, and the actions of the auth store that wait for
-- nothing.
pub mod Drafts
pub mod Tests
use notes_of_ashen.Base.{
  ℕ, suc, ◌+◌, Text, codes, map, Option, none, some, Bool, true, false, not, List, text_eq,
  starts_with, lower, ◌==◌, if◌then◌else◌, truthy,
}
use notes_of_ashen.Storage.{Backend, SafeStorage, get_item}
use notes_of_ashen.Ui.{UiState}
use notes_of_ashen.Errors.Locale.{Language, zh, en}
use Drafts.{clear_editor_drafts_for_user}

pub data UserRole : Type 0 where
  user editor admin : UserRole

pub data UserStatus : Type 0 where
  active disabled : UserStatus

pub record User : Type 0 where
  pub id : ℕ
  pub account : Text
  pub email : Text
  pub avatar_url : Text
  pub nickname : Text
  pub role : UserRole
  pub status : UserStatus
  pub created_at : Text
  pub updated_at : Text

-- `on_session_expired`: whether a handler is installed.
pub record AuthState : Type 0 where
  pub user : Option User
  pub access_token : Option Text
  pub is_fetching : Bool
  pub is_initialized : Bool
  pub on_session_expired : Bool

abbrev pub initial_auth : AuthState
initial_auth = record {
  user = none;
  access_token = none;
  is_fetching = false;
  is_initialized = false;
  on_session_expired = false;
}

pub record Client (b : Backend) (World : Type 0) : Type 0 where
  pub storage : SafeStorage b
  pub ui : UiState
  pub auth : AuthState
  pub session_expired_handled : Bool
  pub handler_calls : ℕ
  pub document_lang : Option Text
  pub language : Language
  pub world : World

-- Boolean(token)
abbrev pub has_token : Option Text → Bool
has_token none = false
has_token (some t) = truthy t

abbrev pub user_id : Option User → Option ℕ
user_id none = none
user_id (some u) = some u.id

-- previousUser && previousUser.id !== user?.id
unfoldable pub user_changed : Option User → Option User → Bool
user_changed none next = false
user_changed (some u) none = true
user_changed (some u) (some v) = not (u.id == v.id)

module _ {b : Backend} {World : Type 0} where
  abbrev pub with_auth : Client b World → AuthState → Client b World
  with_auth c a = record c { auth = a }

  -- frontend/src/utils/error.ts: `readLanguage`, which reads the local storage.
  unfoldable pub read_language : Client b World → Language × Client b World
  read_language c =
      let (stored, storage) = get_item b (codes "notesOfAshen.language") c.storage in
      let by_document : Language = elim c.document_lang [
        | none ↦ zh
        | some l ↦ if starts_with (map lower l) (codes "en") then en else zh
      ] in
      let language : Language = elim stored [
        | none ↦ by_document
        | some l ↦ if text_eq l (codes "en") then en else by_document
      ] in
      (language, record c { storage = storage })

  -- clearEditorDraftsForUser(id)
  unfoldable pub clear_drafts : Option User → Client b World → Client b World
  clear_drafts u c = record c { storage = clear_editor_drafts_for_user b (user_id u) c.storage }

  -- window.dispatchEvent(new Event('noa:auth-changed')): the listener of http.ts resets its guard.
  unfoldable pub auth_changed : Client b World → Client b World
  auth_changed c = record c { session_expired_handled = false }

  -- The effect `setUser` of `fetchUser`: drafts of another user who was signed in are cleared.
  unfoldable pub set_user : Option User → Client b World → Client b World
  unfolding user_changed clear_drafts
  set_user next c =
      let c' = if user_changed c.auth.user next then clear_drafts c.auth.user c else c in
      with_auth c' (record c'.auth { user = next })

  unfoldable pub set_auth : Option User → Option Text → Client b World → Client b World
  unfolding user_changed clear_drafts auth_changed
  set_auth next token c =
      let c' =
        auth_changed (if user_changed c.auth.user next then clear_drafts c.auth.user c else c) in
      with_auth c' (record c'.auth { user = next; access_token = token; is_initialized = true })

  unfoldable pub logout : Client b World → Client b World
  unfolding clear_drafts auth_changed
  logout c =
      let c' = auth_changed (clear_drafts c.auth.user c) in
      with_auth c' (record c'.auth {
        user = none;
        access_token = none;
        is_initialized = true;
        is_fetching = false;
      })

  unfoldable pub set_session_expired_handler : Bool → Client b World → Client b World
  set_session_expired_handler handler c =
      with_auth c (record c.auth { on_session_expired = handler })

  -- get().onSessionExpired?.()
  unfoldable pub notify_session_expired : Client b World → Client b World
  notify_session_expired c = record c {
    handler_calls = if c.auth.on_session_expired then c.handler_calls + 1 else c.handler_calls;
  }
