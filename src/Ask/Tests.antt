-- ===== src/Ask/Tests.antt =====
-- A question that is asked, and what follows when another visitor takes over, when a conversation is
-- deleted meanwhile, and when its request is refused.
use mathlib.Core.List.{Memᴰ}
use notes_of_ashen.Base.{
  ℕ, ◌+◌, Text, codes, [], List, ◌∷◌, Option, none, some, Bool, true, false, text_eq, trim, ◌≡◌,
  refl, if◌then◌else◌,
}
use notes_of_ashen.Storage.Tests.{small}
use notes_of_ashen.Errors.{plain_error}
use notes_of_ashen.Client.{Client, User, user_id}
use notes_of_ashen.Client.Tests.{ann, signed_in}
use notes_of_ashen.Auth.{Settled, resolved, rejected, RefreshResponse, read_refresh}
use notes_of_ashen.Settings.{user as user_level}
use notes_of_ashen.Stream.{RagParsedStreamEvent, create_rag_stream_decoder, push, finish}
use notes_of_ashen.Stream.Tests.{plain, ascii, ascii-IsIncremental}
use notes_of_ashen.Stream.Laws.{concat}
use notes_of_ashen.Ask.State.{AskState, Run, Deletion, same_number, same_text}
use notes_of_ashen.Ask.Page.{change_user, session_removed}
use notes_of_ashen.Ask.Streams.{
  submit_question, stop_streaming, run_stream, stream_event, stream_ended,
}
use notes_of_ashen.Ask.Steps.{Steps, here, next, ask_start, types, submits, stops}
use notes_of_ashen.Ask.Privacy.{IsSameChat, old_run_silent}
use notes_of_ashen.Ask.Stuck.{IsWedged, deletion_wedges, keep_user, keeps_user}
use notes_of_ashen.Ask.Request.{StreamResponse, read_body, request_rag_stream}
use notes_of_ashen.Ask.Completion.{reading_of, is_accepted, is_complete, read_body-accepts}
use notes_of_ashen.Ask.SignOut.{
  KeepsUser, is_unauthorized, request-keeps_user, unauthorized_signs_out,
}

abbrev bob : User
bob = record ann { id = ann.id + 1 }

abbrev typed : AskState
typed = record (ask_start (some ann) user_level) { question = codes "why" }

-- Ann has asked a question.
abbrev asked : AskState
asked = submit_question (codes "now") (codes "1") (codes "2") typed

asked-Steps : Steps (ask_start (some ann) user_level) asked
asked-Steps = next (next here (types (codes "why"))) (submits (codes "now") (codes "1") (codes "2"))

abbrev run : Run
run = record {
  controller = 0;
  assistant_id = codes "local-assistant-2";
  question = codes "why";
  signed_in = true;
}

run_known : Memᴰ run asked.runs
unfolding submit_question run_stream ask_start trim
run_known = Memᴰ.head refl

bob_is_other : same_number asked.active_user_id (user_id (some bob)) ≡ false
unfolding submit_question run_stream ask_start trim
bob_is_other = refl

abbrev switched : AskState
switched = change_user (some bob) user_level asked

old_run_silent_example :
    ((e : RagParsedStreamEvent) → stream_event run e switched ≡ switched)
    × ((a : Settled (Unit {0})) (now : Text)
        → IsSameChat switched (stream_ended run a now switched))
old_run_silent_example =
    old_run_silent (some ann) user_level asked asked-Steps run run_known (some bob) user_level
      bob_is_other switched here

abbrev deletion : Deletion
deletion = record { target = codes "s"; open_session = some (codes "s") }

-- The conversation `s` was open when its deletion was confirmed, and a question follows in it.
abbrev asked_there : AskState
asked_there =
    submit_question (codes "now") (codes "1") (codes "2")
      (record typed { session_id = some (codes "s") })

abbrev wedged : AskState
wedged = session_removed deletion (resolved tt) asked_there

asked_streams : asked_there.streaming ≡ true
unfolding submit_question run_stream ask_start trim
asked_streams = refl

abbrev wedged_steps : Steps wedged (stop_streaming wedged)
wedged_steps = next here stops

wedged_keeps : keep_user wedged_steps ≡ true
unfolding keep_user keeps_user
wedged_keeps = refl

deletion_wedges_example : IsWedged (stop_streaming wedged)
unfolding text_eq
deletion_wedges_example =
    deletion_wedges deletion asked_there (stop_streaming wedged) refl asked_streams wedged_steps
      wedged_keeps

abbrev parts : List (List ℕ)
parts = codes "event: done\r\ndata: {}\r" ∷ codes "\n\r" ∷ codes "\n" ∷ []

read_body-accepts_example :
    is_accepted
      (read_body plain ascii (create_rag_stream_decoder plain ascii tt) (reading_of parts)).result
    ≡ is_complete (
        finish plain ascii
          (push plain ascii (create_rag_stream_decoder plain ascii tt) (concat parts)))
read_body-accepts_example = read_body-accepts plain ascii ascii-IsIncremental tt parts

abbrev denied : StreamResponse
denied = record {
  status = 401;
  ok = false;
  status_text = codes "Unauthorized";
  json = none;
  body = none;
}

abbrev served : StreamResponse
served = record { status = 200; ok = true; status_text = codes "OK"; json = none; body = none }

abbrev renewed : RefreshResponse
renewed = record { status = 200; code = 0; message = none; access_token = some (codes "new") }

-- The token `old` is refused, and the token `new` is taken.
abbrev fetch : Option Text → Client small ℕ → Settled StreamResponse × Client small ℕ
fetch token c = (
  resolved (if same_text token (some (codes "new")) then served else denied),
  record c { world = c.world + 1 },
)

-- The second request is aborted.
abbrev fetch_aborted : Option Text → Client small ℕ → Settled StreamResponse × Client small ℕ
fetch_aborted token c = (
  if same_text token (some (codes "new"))
      then rejected (plain_error (codes "AbortError"))
      else resolved denied,
  record c { world = c.world + 1 },
)

abbrev renew : Client small ℕ → Settled RefreshResponse × Client small ℕ
renew c = (resolved renewed, record c { world = c.world + 1 })

abbrev never : Client small ℕ → Bool
never c = false

fetch-KeepsUser : KeepsUser fetch renew never
fetch-KeepsUser = record { fetch_keeps = λ t c. refl; refresh_keeps = λ c. refl }

served_result :
    is_unauthorized fetch renew never (request_rag_stream fetch renew never signed_in).0 ≡ false
unfolding request_rag_stream text_eq read_refresh
served_result = refl

request-keeps_user_example :
    (request_rag_stream fetch renew never signed_in).1.auth.user ≡ signed_in.auth.user
request-keeps_user_example =
    request-keeps_user fetch renew never fetch-KeepsUser signed_in served_result

aborted_result :
    is_unauthorized fetch_aborted renew never
      (request_rag_stream fetch_aborted renew never signed_in).0
    ≡ true
unfolding request_rag_stream text_eq read_refresh
aborted_result = refl

unauthorized_signs_out_example :
    (request_rag_stream fetch_aborted renew never signed_in).1.auth.user ≡ none
unauthorized_signs_out_example =
    unauthorized_signs_out fetch_aborted renew never (λ c. refl) signed_in aborted_result
