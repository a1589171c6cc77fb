-- ===== src/Ask/Consistent.antt =====
-- An invariant of the question page: every run of a request is aborted, or is the one that is shown,
-- and a run that is shown is one that the page says it streams.
use notes_of_ashen.Base.{
  ℕ, trim, truthy, ltb, length, text_eq, Text, [], List, Option, none, some, Bool, true, false,
  is_some, any, not, filter, ◌||◌, ◌&&◌, if◌then◌else◌, ◌≡◌, refl, arith, Bool-cases, Option-cases,
  inl, inr, subst,
}
use notes_of_ashen.Client.{User, user_id}
use notes_of_ashen.Auth.{Settled, resolved, rejected}
use notes_of_ashen.Settings.{RagChatAccessLevel}
use notes_of_ashen.Stream.{RagParsedStreamEvent}
use notes_of_ashen.Ask.Messages.{RagChatSession, question_of}
use notes_of_ashen.Ask.State.{
  same_text, question_limit, AskState, Run, Deletion, abort, same_number, is_aborted, can_access,
}
use notes_of_ashen.Ask.Page.{
  change_user, sessions_effect, reset_effect, sessions_answered, load_session, session_answered,
  remove_session, session_removed, start_new_chat, load_settled,
}
use notes_of_ashen.Ask.Streams.{
  submit_question, retry_answer, stop_streaming, stream_event, stream_ended, run_stream,
  run_settled,
}
use notes_of_ashen.Ask.Sound.{
  IsSound, unlist-IsSound, unload-IsSound, abort_session-IsSound, stop-IsSound, list-IsSound,
  load-IsSound, filter-IsSound, run-IsSound, end-IsSound,
}
use notes_of_ashen.Ask.Steps.{
  Step, Steps, here, next, ask_start, changes_user, types, list_arrives, opens, session_arrives,
  removes, removed, starts_anew, submits, retries, stops, event_arrives, run_ends,
}

pub record IsConsistent (s : AskState) : Type 0 where
  pub sound :
      IsSound s.controller s.session_request s.list_request s.aborted s.next_controller s.runs
  pub shown : is_some s.controller ≡ true → s.streaming ≡ true

pub start-IsConsistent :
    (u : Option User) (level : RagChatAccessLevel) → IsConsistent (ask_start u level)
unfolding ask_start
start-IsConsistent u level = record {
  sound = record {
    live = refl;
    session_apart = refl;
    list_apart = refl;
    made = refl;
    session_made = refl;
    list_made = refl;
    aborted_made = refl;
    known = refl;
  };
  shown = ground arith;
}

sessions_effect-IsConsistent : (s : AskState) → IsConsistent s → IsConsistent (sessions_effect s)
unfolding sessions_effect
sessions_effect-IsConsistent s h = elim (Bool-cases (not (is_some s.user) || not (can_access s))) [
  | inl e ↦ rw e (record { sound = unlist-IsSound h.sound; shown = h.shown })
  | inr e ↦ rw e (record { sound = list-IsSound (unlist-IsSound h.sound); shown = h.shown })
]

reset_effect-IsConsistent : (s : AskState) → IsConsistent s → IsConsistent (reset_effect s)
unfolding reset_effect
reset_effect-IsConsistent s h =
    elim (Bool-cases (same_number s.active_user_id (user_id s.user) && can_access s)) [
      | inl e ↦ rw e h
      | inr e ↦ rw e (record {
        sound = unload-IsSound (abort_session-IsSound (stop-IsSound h.sound));
        shown = ground arith;
      })
    ]

change-IsConsistent :
    (u : Option User) (level : RagChatAccessLevel) (s : AskState)
    → IsConsistent s
    → IsConsistent (change_user u level s)
unfolding change_user
change-IsConsistent u level s h =
    let s1 = record s { user = u; access_level = level } in
    let h1 : IsConsistent s1 = record { sound = h.sound; shown = h.shown } in
    reset_effect-IsConsistent (sessions_effect s1) (sessions_effect-IsConsistent s1 h1)

new_chat-IsConsistent : (s : AskState) → IsConsistent s → IsConsistent (start_new_chat s)
unfolding start_new_chat
new_chat-IsConsistent s h = record {
  sound = abort_session-IsSound (stop-IsSound h.sound);
  shown = ground arith;
}

if-IsConsistent :
    (p : Bool) {s t : AskState}
    → (p ≡ true → IsConsistent s)
    → (p ≡ false → IsConsistent t)
    → IsConsistent (if p then s else t)
if-IsConsistent true h k = h refl
if-IsConsistent false h k = k refl

option-IsConsistent :
    {A : Type 0} (o : Option A) {s : AskState} {f : A → AskState}
    → IsConsistent s
    → ((a : A) → o ≡ some a → IsConsistent (f a))
    → IsConsistent (elim o [ none ↦ s | some a ↦ f a ])
option-IsConsistent none h k = h
option-IsConsistent (some a) h k = k a refl

load-IsConsistent : (id : Text) (s : AskState) → IsConsistent s → IsConsistent (load_session id s)
unfolding load_session
load-IsConsistent id s h =
    if-IsConsistent (s.streaming || same_text (some id) s.session_id) (λ e. h)
      (λ e. record { sound = load-IsSound (abort_session-IsSound h.sound); shown = h.shown })

answered-IsConsistent :
    (c : ℕ) (a : Settled (List RagChatSession)) (s : AskState)
    → IsConsistent s
    → IsConsistent (sessions_answered c a s)
unfolding sessions_answered
answered-IsConsistent c (resolved found) s h =
    if-IsConsistent (is_aborted c s) (λ e. h) (λ e. record { sound = h.sound; shown = h.shown })
answered-IsConsistent c (rejected e) s h =
    if-IsConsistent (is_aborted c s) (λ e. h) (λ e. record { sound = h.sound; shown = h.shown })

settled-IsConsistent : (c : ℕ) (s : AskState) → IsConsistent s → IsConsistent (load_settled c s)
unfolding load_settled
settled-IsConsistent c s h =
    if-IsConsistent (same_number s.session_request (some c))
      (λ e. record { sound = unload-IsSound h.sound; shown = h.shown })
      (λ e. record { sound = h.sound; shown = h.shown })

session-IsConsistent :
    (c : ℕ) (a : Settled RagChatSession) (s : AskState)
    → IsConsistent s
    → IsConsistent (session_answered c a s)
unfolding session_answered
session-IsConsistent c (resolved found) s h = settled-IsConsistent c _ (
    if-IsConsistent (is_aborted c s || not (same_number s.session_request (some c))) (λ e. h)
      (λ e. record { sound = h.sound; shown = h.shown }))
session-IsConsistent c (rejected e) s h =
    settled-IsConsistent c _
      (if-IsConsistent (is_aborted c s) (λ e. h) (λ e. record { sound = h.sound; shown = h.shown }))

removed-IsConsistent :
    (d : Deletion) (a : Settled (Unit {0})) (s : AskState)
    → IsConsistent s
    → IsConsistent (session_removed d a s)
unfolding session_removed
removed-IsConsistent d (resolved _) s h =
    let s' = record s { sessions = filter (λ x. not (text_eq x.id d.target)) s.sessions } in
    let h' : IsConsistent s' = record { sound = h.sound; shown = h.shown } in
    if-IsConsistent (same_text (some d.target) d.open_session) (λ e. new_chat-IsConsistent s' h')
      (λ e. h')
removed-IsConsistent d (rejected e) s h = record { sound = h.sound; shown = h.shown }

run-IsConsistent :
    (question id : Text) (s : AskState)
    → s.streaming ≡ false
    → IsConsistent s
    → IsConsistent (run_stream question id s)
unfolding run_stream
run-IsConsistent question id s e h = record {
  sound = run-IsSound _ refl (idle s e h);
  shown = λ k. refl;
}
  where
    idle :
        (s : AskState)
        → s.streaming ≡ false
        → IsConsistent s
        → IsSound none s.session_request s.list_request s.aborted s.next_controller s.runs
    idle s e h = elim (Option-cases s.controller) [
      | inl k ↦
          subst (λ c. IsSound c s.session_request s.list_request s.aborted s.next_controller s.runs)
            k h.sound
      | inr (c, k) ↦ let none_shown : ⊥ = ground (arith, h.shown) in elim none_shown [ ]
    ]

submit-IsConsistent :
    (now id id' : Text) (s : AskState)
    → IsConsistent s
    → IsConsistent (submit_question now id id' s)
unfolding submit_question
submit-IsConsistent now id id' s h =
    if-IsConsistent (not (truthy (trim s.question)))
      (λ e. record { sound = h.sound; shown = h.shown })
      (λ e.
        if-IsConsistent (s.streaming || ltb question_limit (length (trim s.question))) (λ k. h)
          (λ k.
            run-IsConsistent _ _
              (record s { session_id_ref = s.session_id; messages = _; question = [] })
              (ground arith) (record { sound = h.sound; shown = h.shown })))

retry-IsConsistent : (id : Text) (s : AskState) → IsConsistent s → IsConsistent (retry_answer id s)
unfolding retry_answer
retry-IsConsistent id s h =
    if-IsConsistent (s.streaming || not (any (λ m. text_eq m.id id) s.messages)) (λ e. h)
      (λ e. option-IsConsistent (question_of id s.messages) h (λ q k.
        run-IsConsistent q id (record s { messages = _ }) (ground arith)
          (record { sound = h.sound; shown = h.shown })))

stop-IsConsistent : (s : AskState) → IsConsistent s → IsConsistent (stop_streaming s)
unfolding stop_streaming
stop-IsConsistent s h = option-IsConsistent s.controller h (λ c e. record {
  sound =
      subst
        (λ o.
          IsSound none s.session_request s.list_request (abort o s.aborted) s.next_controller
            s.runs)
        e (stop-IsSound h.sound);
  shown = ground arith;
})

event-IsConsistent :
    (r : Run) (e : RagParsedStreamEvent) (s : AskState)
    → IsConsistent s
    → IsConsistent (stream_event r e s)
unfolding stream_event
event-IsConsistent r e s h =
    if-IsConsistent
      (is_aborted r.controller s || not (same_number s.controller (some r.controller))) (λ k. h)
      (λ k. record { sound = h.sound; shown = h.shown })

end-IsConsistent : (r : Run) (s : AskState) → IsConsistent s → IsConsistent (run_settled r s)
unfolding run_settled
end-IsConsistent r s h =
    if-IsConsistent (same_number s.controller (some r.controller))
      (λ e. record {
        sound = end-IsSound r.controller s.runs (
            subst
              (λ o. IsSound o s.session_request s.list_request s.aborted s.next_controller s.runs)
              (ground (arith, e)) h.sound);
        shown = ground arith;
      })
      (λ e. record { sound = filter-IsSound h.sound _; shown = h.shown })

ended-IsConsistent :
    (r : Run) (a : Settled (Unit {0})) (now : Text) (s : AskState)
    → IsConsistent s
    → IsConsistent (stream_ended r a now s)
unfolding stream_ended
ended-IsConsistent r (resolved _) now s h = end-IsConsistent r _ (
    if-IsConsistent (r.signed_in && not (is_aborted r.controller s))
      (λ e. record { sound = h.sound; shown = h.shown }) (λ e. h))
ended-IsConsistent r (rejected x) now s h = end-IsConsistent r _ (
    if-IsConsistent (is_aborted r.controller s) (λ e. h)
      (λ e. record { sound = h.sound; shown = h.shown }))

pub Step-IsConsistent : {s t : AskState} → Step s t → IsConsistent s → IsConsistent t
unfolding remove_session
Step-IsConsistent {s} (changes_user u level) h = change-IsConsistent u level s h
Step-IsConsistent (types q) h = record { sound = h.sound; shown = h.shown }
Step-IsConsistent (list_arrives c a) h = answered-IsConsistent c a _ h
Step-IsConsistent (opens id) h = load-IsConsistent id _ h
Step-IsConsistent (session_arrives c a) h = session-IsConsistent c a _ h
Step-IsConsistent {s} (removes id) h =
    if-IsConsistent s.streaming (λ e. h) (λ e. record { sound = h.sound; shown = h.shown })
Step-IsConsistent (removed d a) h = removed-IsConsistent d a _ h
Step-IsConsistent (starts_anew e) h = new_chat-IsConsistent _ h
Step-IsConsistent (submits now id id') h = submit-IsConsistent now id id' _ h
Step-IsConsistent (retries id) h = retry-IsConsistent id _ h
Step-IsConsistent stops h = stop-IsConsistent _ h
Step-IsConsistent (event_arrives r e m) h = event-IsConsistent r e _ h
Step-IsConsistent (run_ends r a now m) h = ended-IsConsistent r a now _ h

pub Steps-IsConsistent : {s t : AskState} → Steps s t → IsConsistent s → IsConsistent t
Steps-IsConsistent here h = h
Steps-IsConsistent (next ss st) h = Step-IsConsistent st (Steps-IsConsistent ss h)
