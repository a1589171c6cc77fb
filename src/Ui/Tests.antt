-- ===== src/Ui/Tests.antt =====
-- The laws of the UI store on concrete toasts.
use notes_of_ashen.Base.{codes, List, [], ◌∷◌, none, some, ◌≡◌, arith, map}
use notes_of_ashen.Ui.{success, error, info, initial_ui, push_toast, dismiss_toast}
use notes_of_ashen.Ui.Laws.{
  UiEvent, push, dismiss, started, steps, IsValid, steps-IsValid, Notice, pushes, content,
  notice_content, last_four, pushes-last_four, dismiss_toast-push_toast,
}

abbrev session : List UiEvent
session =
    push success (codes "saved") none
    ∷ started
    ∷ push error (codes "lost") (some 9)
    ∷ dismiss 1
    ∷ []

initial-IsValid : IsValid initial_ui
initial-IsValid = record { few = omega arith; ordered = omega arith }

steps-IsValid_example : IsValid (steps session initial_ui)
steps-IsValid_example = steps-IsValid session initial_ui initial-IsValid

abbrev five : List Notice
five =
    (info, codes "1", none)
    ∷ (info, codes "2", none)
    ∷ (info, codes "3", none)
    ∷ (info, codes "4", none)
    ∷ (error, codes "5", none)
    ∷ []

pushes-last_four_example :
    map content (steps (pushes five) initial_ui).toasts ≡ last_four (map notice_content five)
pushes-last_four_example = pushes-last_four five

dismiss_toast-push_toast_example :
    (dismiss_toast
      (push_toast info (codes "x") none initial_ui).0
      (push_toast info (codes "x") none initial_ui).1).toasts
    ≡ []
dismiss_toast-push_toast_example =
    dismiss_toast-push_toast info (codes "x") none initial_ui initial-IsValid (omega arith)
