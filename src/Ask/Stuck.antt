-- ===== src/Ask/Stuck.antt =====
-- What a deletion does to the question page when it ends while an answer is streamed.
use notes_of_ashen.Base.{
  Text, Option, none, some, Bool, true, false, ◌&&◌, ◌||◌, ◌≡◌, refl, arith, if◌then◌else◌, not,
  any, truthy, trim, ltb, length, text_eq, Bool-cases, is_some, sym, get_or, codes, [], ℕ, subst,
  inl, inr,
}
use notes_of_ashen.Auth.{Settled, resolved, rejected}
use notes_of_ashen.Ask.Messages.{RagChatSession, upsert_local_session, mark_assistant_incomplete}
use notes_of_ashen.Ask.State.{
  failed, AskState, Run, Deletion, same_number, same_text, is_aborted, question_limit,
}
use notes_of_ashen.Ask.Page.{
  sessions_answered, load_session, session_answered, load_settled, remove_session, session_removed,
  start_new_chat,
}
use notes_of_ashen.Ask.Streams.{
  submit_question, retry_answer, stop_streaming, stream_event, stream_ended, run_settled,
}
use notes_of_ashen.Ask.Steps.{
  Step, Steps, here, next, changes_user, types, list_arrives, opens, session_arrives, removes,
  removed, starts_anew, submits, retries, stops, event_arrives, run_ends,
}

-- The page says that an answer is streamed, and no request is behind it.
pub record IsWedged (s : AskState) : Type 0 where
  pub streaming : s.streaming ≡ true
  pub idle : s.controller ≡ none

unfoldable pub keeps_user : {s t : AskState} → Step s t → Bool
keeps_user (changes_user u level) = false
keeps_user _ = true

unfoldable pub keep_user : {s t : AskState} → Steps s t → Bool
unfolding keeps_user
keep_user here = true
keep_user (next ss st) = keep_user ss && keeps_user st

if-IsWedged :
    (p : Bool) (s t : AskState)
    → (p ≡ true → IsWedged s)
    → (p ≡ false → IsWedged t)
    → IsWedged (if p then s else t)
if-IsWedged true s t h k = h refl
if-IsWedged false s t h k = k refl

both-IsWedged :
    (p : Bool) (s t : AskState) → IsWedged s → IsWedged t → IsWedged (if p then s else t)
both-IsWedged p s t h k = if-IsWedged p s t (λ e. h) (λ e. k)

settled-IsWedged : (r : Run) (s : AskState) → IsWedged s → IsWedged (run_settled r s)
unfolding run_settled
settled-IsWedged r s h =
    if-IsWedged (same_number s.controller (some r.controller)) _ _
      (λ e.
        let no : ⊥ =
          ground (arith, subst (λ o. same_number o (some r.controller) ≡ true) h.idle e) in
        elim no [ ])
      (λ e. record { streaming = h.streaming; idle = h.idle })

busy :
    (s : AskState)
    → IsWedged s
    → (b : Bool) {t : AskState} → (s.streaming || b) ≡ false
    → IsWedged t
busy s h b e = let no : ⊥ = ground (arith, h.streaming, e) in elim no [ ]

option-IsWedged :
    {A : Type 0} (o : Option A) (s : AskState) (f : A → AskState)
    → IsWedged s
    → ((a : A) → o ≡ some a → IsWedged (f a))
    → IsWedged (elim o [ none ↦ s | some a ↦ f a ])
option-IsWedged none s f h k = h
option-IsWedged (some a) s f h k = k a refl

idle_some : {o : Option ℕ} {c : ℕ} → o ≡ none → o ≡ some c → is_some o ≡ false
idle_some h k = subst (λ o. is_some o ≡ false) (sym h) refl

load_settled-IsWedged : (d : ℕ) (s : AskState) → IsWedged s → IsWedged (load_settled d s)
unfolding load_settled
load_settled-IsWedged d s h =
    both-IsWedged (same_number s.session_request (some d)) _ _
      (record { streaming = h.streaming; idle = h.idle })
      (record { streaming = h.streaming; idle = h.idle })

session-IsWedged :
    (d : ℕ) (a : Settled RagChatSession) (s : AskState)
    → IsWedged s
    → IsWedged (session_answered d a s)
unfolding session_answered load_settled
session-IsWedged d (resolved x) s h =
    elim (Bool-cases (is_aborted d s || not (same_number s.session_request (some d)))) [
      | inl e ↦ rw e (load_settled-IsWedged d s h)
      | inr e ↦ rw e (
          load_settled-IsWedged d
            (record s {
              session_id_ref = some x.id;
              session_id = some x.id;
              messages = get_or x.messages [];
            })
            (record { streaming = h.streaming; idle = h.idle }))
    ]
session-IsWedged d (rejected x) s h = elim (Bool-cases (is_aborted d s)) [
  | inl e ↦ rw e (load_settled-IsWedged d s h)
  | inr e ↦ rw e (
      load_settled-IsWedged d (record s { error = failed x (codes "ragChat.sessionLoadError") })
        (record { streaming = h.streaming; idle = h.idle }))
]

ended-IsWedged :
    (r : Run) (a : Settled (Unit {0})) (now : Text) (s : AskState)
    → IsWedged s
    → IsWedged (stream_ended r a now s)
unfolding stream_ended run_settled
ended-IsWedged r (resolved x) now s h =
    elim (Bool-cases (r.signed_in && not (is_aborted r.controller s))) [
      | inl e ↦ rw e (
          settled-IsWedged r
            (record s {
              sessions = upsert_local_session s.sessions s.session_id_ref r.question now;
            })
            (record { streaming = h.streaming; idle = h.idle }))
      | inr e ↦ rw e (settled-IsWedged r s h)
    ]
ended-IsWedged r (rejected x) now s h = elim (Bool-cases (is_aborted r.controller s)) [
  | inl e ↦ rw e (settled-IsWedged r s h)
  | inr e ↦ rw e (
      settled-IsWedged r
        (record s {
          messages = mark_assistant_incomplete s.messages (some r.assistant_id);
          error = failed x (codes "ragChat.sendError");
        })
        (record { streaming = h.streaming; idle = h.idle }))
]

-- Every handler and every answer leaves such a page as it is.
IsWedged-still : {s t : AskState} (st : Step s t) → keeps_user st ≡ true → IsWedged s → IsWedged t
unfolding keeps_user sessions_answered load_session session_answered load_settled remove_session
    session_removed start_new_chat submit_question retry_answer stop_streaming stream_event
    stream_ended
IsWedged-still (changes_user u level) e h = let no : ⊥ = ground (arith, e) in elim no [ ]
IsWedged-still (types q) e h = record { streaming = h.streaming; idle = h.idle }
IsWedged-still {s} (list_arrives d (resolved x)) e h =
    both-IsWedged (is_aborted d s) _ _ h (record { streaming = h.streaming; idle = h.idle })
IsWedged-still {s} (list_arrives d (rejected x)) e h =
    both-IsWedged (is_aborted d s) _ _ h (record { streaming = h.streaming; idle = h.idle })
IsWedged-still {s} (opens id) e h =
    both-IsWedged (s.streaming || same_text (some id) s.session_id) _ _ h
      (record { streaming = h.streaming; idle = h.idle })
IsWedged-still {s} (session_arrives d a) e h = session-IsWedged d a s h
IsWedged-still {s} (removes id) e h =
    both-IsWedged s.streaming _ _ h (record { streaming = h.streaming; idle = h.idle })
IsWedged-still {s} (removed d (resolved x)) e h =
    both-IsWedged (same_text (some d.target) d.open_session) _ _
      (record { streaming = h.streaming; idle = refl })
      (record { streaming = h.streaming; idle = h.idle })
IsWedged-still (removed d (rejected x)) e h = record { streaming = h.streaming; idle = h.idle }
IsWedged-still (starts_anew p) e h = record { streaming = h.streaming; idle = refl }
IsWedged-still {s} (submits now id id') e h =
    both-IsWedged (not (truthy (trim s.question))) _ _
      (record { streaming = h.streaming; idle = h.idle })
      (if-IsWedged (s.streaming || ltb question_limit (length (trim s.question))) _ _ (λ k. h)
        (λ k. busy s h _ k))
IsWedged-still {s} (retries id) e h =
    if-IsWedged (s.streaming || not (any (λ m. text_eq m.id id) s.messages)) _ _ (λ k. h)
      (λ k. busy s h _ k)
IsWedged-still {s} stops e h =
    option-IsWedged s.controller s _ h
      (λ c k. let no : ⊥ = ground (arith, idle_some h.idle k) in elim no [ ])
IsWedged-still {s} (event_arrives r x m) e h =
    both-IsWedged (is_aborted r.controller s || not (same_number s.controller (some r.controller)))
      _ _ h (record { streaming = h.streaming; idle = h.idle })
IsWedged-still {s} (run_ends r a now m) e h = ended-IsWedged r a now s h

-- When the deletion of the conversation that was open at the click succeeds while an answer is
-- streamed, the page says for good that an answer is streamed, with no request behind it: no handler
-- and no answer that arrives, in any order, ends that, until the visitor or their access changes.
pub deletion_wedges :
    (d : Deletion) (s t : AskState)
    → same_text (some d.target) d.open_session ≡ true
    → s.streaming ≡ true
    → (ss : Steps (session_removed d (resolved tt) s) t) → keep_user ss ≡ true
    → IsWedged t
unfolding session_removed start_new_chat keep_user
deletion_wedges d s t e h here k = rw e (record { streaming = h; idle = refl })
deletion_wedges d s t e h (next ss st) k =
    IsWedged-still st (ground (arith, k)) (deletion_wedges d s _ e h ss (ground (arith, k)))
