-- ===== src/Ui.antt =====
-- frontend/src/store/ui.ts: toasts and the count of requests under way.
-- The module variable `toastId` is the field `toast_id`. Durations are natural numbers.
pub mod Laws
mod Tests
use notes_of_ashen.Base.{
  ℕ, ◌+◌, ◌-◌, Text, List, [], ◌∷◌, ◌++◌, Option, none, length, drop, filter, get_or, ◌==◌, not,
}

pub data ToastType : Type 0 where
  success error info : ToastType

pub record ToastItem : Type 0 where
  pub id : ℕ
  pub type : ToastType
  pub message : Text
  pub duration : ℕ

abbrev pub max_toasts : ℕ
max_toasts = 4

abbrev pub default_duration : ToastType → ℕ
default_duration success = 3000
default_duration info = 3000
default_duration error = 4000

pub record UiState : Type 0 where
  pub toasts : List ToastItem
  pub global_loading : ℕ
  pub toast_id : ℕ

abbrev pub initial_ui : UiState
initial_ui = record { toasts = []; global_loading = 0; toast_id = 0 }

-- Returns the id of the toast.
unfoldable pub push_toast : ToastType → Text → Option ℕ → UiState → ℕ × UiState
push_toast type message duration s =
    let id = s.toast_id + 1 in
    let item : ToastItem = record {
      id = id;
      type = type;
      message = message;
      duration = get_or duration (default_duration type);
    } in
    let next = s.toasts ++ item ∷ [] in
    (id, record s { toasts = drop (length next - max_toasts) next; toast_id = id })

unfoldable pub dismiss_toast : ℕ → UiState → UiState
dismiss_toast id s = record s { toasts = filter (λ t. not (t.id == id)) s.toasts }

unfoldable pub inc_loading : UiState → UiState
inc_loading s = record s { global_loading = s.global_loading + 1 }

-- `Math.max(0, n - 1)` is the subtraction that stops at 0.
unfoldable pub dec_loading : UiState → UiState
dec_loading s = record s { global_loading = s.global_loading - 1 }
