-- ===== src/Ask/Over.antt =====
-- A request of the question page that was aborted stays aborted.
use notes_of_ashen.Base.{
  ℕ, Text, [], List, Option, none, some, Bool, true, false, any, not, ◌||◌, ◌&&◌, if◌then◌else◌,
  ◌≡◌, arith, Bool-cases, inl, inr, length, truthy, trim, ltb, text_eq, is_some, get_or, codes,
}
use notes_of_ashen.Client.{user_id}
use notes_of_ashen.Auth.{Settled, resolved, rejected}
use notes_of_ashen.Ask.Messages.{
  RagChatSession, question_of, upsert_local_session, mark_assistant_incomplete,
}
use notes_of_ashen.Ask.State.{
  AskState, Run, failed, abort, same_number, same_text, is_aborted, can_access, question_limit,
}
use notes_of_ashen.Ask.Page.{
  change_user, sessions_effect, reset_effect, sessions_answered, load_session, session_answered,
  load_settled, remove_session, session_removed, start_new_chat,
}
use notes_of_ashen.Ask.Streams.{
  submit_question, retry_answer, stop_streaming, stream_event, stream_ended, run_stream,
  run_settled,
}
use notes_of_ashen.Ask.Sound.{member}
use notes_of_ashen.Ask.Steps.{
  Step, Steps, here, next, changes_user, types, list_arrives, opens, session_arrives, removes,
  removed, starts_anew, submits, retries, stops, event_arrives, run_ends,
}

pub member-abort :
    (c : ℕ) (o : Option ℕ) (a : List ℕ) → member c a ≡ true → member c (abort o a) ≡ true
member-abort c none a h = h
member-abort c (some d) a h = ground arith

module _ (c : ℕ) where
  abbrev IsOver : AskState → Type 0
  IsOver s = is_aborted c s ≡ true

  if-IsOver : (p : Bool) (s t : AskState) → IsOver s → IsOver t → IsOver (if p then s else t)
  if-IsOver true s t h k = h
  if-IsOver false s t h k = k

  option-IsOver :
      {A : Type 0} (o : Option A) (s : AskState) (f : A → AskState)
      → IsOver s
      → ((a : A) → IsOver (f a))
      → IsOver (elim o [ none ↦ s | some a ↦ f a ])
  option-IsOver none s f h k = h
  option-IsOver (some a) s f h k = k a

  sessions_effect-IsOver : (s : AskState) → IsOver s → IsOver (sessions_effect s)
  unfolding sessions_effect
  sessions_effect-IsOver s h =
      let e = member-abort c s.list_request s.aborted h in
      if-IsOver (not (is_some s.user) || not (can_access s)) _ _ e e

  dropped-IsOver :
      (s : AskState)
      → IsOver s
      → member c (abort s.session_request (abort s.controller s.aborted)) ≡ true
  dropped-IsOver s h = member-abort c s.session_request _ (member-abort c s.controller s.aborted h)

  reset_effect-IsOver : (s : AskState) → IsOver s → IsOver (reset_effect s)
  unfolding reset_effect
  reset_effect-IsOver s h =
      if-IsOver (same_number s.active_user_id (user_id s.user) && can_access s) _ _ h
        (dropped-IsOver s h)

  load_settled-IsOver : (d : ℕ) (s : AskState) → IsOver s → IsOver (load_settled d s)
  unfolding load_settled
  load_settled-IsOver d s h = if-IsOver (same_number s.session_request (some d)) _ _ h h

  run_settled-IsOver : (r : Run) (s : AskState) → IsOver s → IsOver (run_settled r s)
  unfolding run_settled
  run_settled-IsOver r s h = if-IsOver (same_number s.controller (some r.controller)) _ _ h h

  session_answered-IsOver :
      (d : ℕ) (a : Settled RagChatSession) (s : AskState)
      → IsOver s
      → IsOver (session_answered d a s)
  unfolding session_answered load_settled
  session_answered-IsOver d (resolved x) s h =
      elim (Bool-cases (is_aborted d s || not (same_number s.session_request (some d)))) [
        | inl e ↦ rw e (load_settled-IsOver d s h)
        | inr e ↦ rw e (
            load_settled-IsOver d
              (record s {
                session_id_ref = some x.id;
                session_id = some x.id;
                messages = get_or x.messages [];
              })
              h)
      ]
  session_answered-IsOver d (rejected x) s h = elim (Bool-cases (is_aborted d s)) [
    | inl e ↦ rw e (load_settled-IsOver d s h)
    | inr e ↦
        rw e (
          load_settled-IsOver d (record s { error = failed x (codes "ragChat.sessionLoadError") })
            h)
  ]

  stream_ended-IsOver :
      (r : Run) (a : Settled (Unit {0})) (now : Text) (s : AskState)
      → IsOver s
      → IsOver (stream_ended r a now s)
  unfolding stream_ended run_settled
  stream_ended-IsOver r (resolved x) now s h =
      elim (Bool-cases (r.signed_in && not (is_aborted r.controller s))) [
        | inl e ↦ rw e (
            run_settled-IsOver r
              (record s {
                sessions = upsert_local_session s.sessions s.session_id_ref r.question now;
              })
              h)
        | inr e ↦ rw e (run_settled-IsOver r s h)
      ]
  stream_ended-IsOver r (rejected x) now s h = elim (Bool-cases (is_aborted r.controller s)) [
    | inl e ↦ rw e (run_settled-IsOver r s h)
    | inr e ↦ rw e (
        run_settled-IsOver r
          (record s {
            messages = mark_assistant_incomplete s.messages (some r.assistant_id);
            error = failed x (codes "ragChat.sendError");
          })
          h)
  ]

  -- A request that was aborted stays so.
  Step-IsOver : {s t : AskState} → Step s t → IsOver s → IsOver t
  unfolding change_user sessions_answered load_session session_answered remove_session
      session_removed start_new_chat submit_question retry_answer stop_streaming stream_event
      stream_ended run_stream
  Step-IsOver {s} (changes_user u level) h =
      reset_effect-IsOver (sessions_effect (record s { user = u; access_level = level }))
        (sessions_effect-IsOver (record s { user = u; access_level = level }) h)
  Step-IsOver (types q) h = h
  Step-IsOver {s} (list_arrives d (resolved x)) h = if-IsOver (is_aborted d s) _ _ h h
  Step-IsOver {s} (list_arrives d (rejected x)) h = if-IsOver (is_aborted d s) _ _ h h
  Step-IsOver {s} (opens id) h =
      if-IsOver (s.streaming || same_text (some id) s.session_id) _ _ h
        (member-abort c s.session_request s.aborted h)
  Step-IsOver {s} (session_arrives d a) h = session_answered-IsOver d a s h
  Step-IsOver {s} (removes id) h = if-IsOver s.streaming _ _ h h
  Step-IsOver {s} (removed d (resolved x)) h =
      if-IsOver (same_text (some d.target) d.open_session) _ _ (dropped-IsOver s h) h
  Step-IsOver (removed d (rejected x)) h = h
  Step-IsOver {s} (starts_anew e) h = dropped-IsOver s h
  Step-IsOver {s} (submits now id id') h =
      if-IsOver (not (truthy (trim s.question))) _ _ h
        (if-IsOver (s.streaming || ltb question_limit (length (trim s.question))) _ _ h h)
  Step-IsOver {s} (retries id) h =
      if-IsOver (s.streaming || not (any (λ m. text_eq m.id id) s.messages)) _ _ h
        (option-IsOver (question_of id s.messages) s _ h (λ q. h))
  Step-IsOver {s} stops h =
      option-IsOver s.controller s _ h (λ d. member-abort c (some d) s.aborted h)
  Step-IsOver {s} (event_arrives r e m) h =
      if-IsOver (is_aborted r.controller s || not (same_number s.controller (some r.controller))) _
        _ h h
  Step-IsOver {s} (run_ends r a now m) h = stream_ended-IsOver r a now s h

  pub Steps-IsOver : {s t : AskState} → Steps s t → IsOver s → IsOver t
  Steps-IsOver here h = h
  Steps-IsOver (next ss st) h = Step-IsOver st (Steps-IsOver ss h)
