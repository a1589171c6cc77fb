-- ===== src/Ask/Privacy.antt =====
-- What is left of a visitor's questions when another visitor signs in on the same page.
use mathlib.Core.List.{Memᴰ}
use notes_of_ashen.Base.{
  ℕ, Text, [], List, ◌∷◌, Option, none, some, Bool, true, false, all, not, ◌||◌, ◌&&◌, ◌==◌, ◌≡◌,
  refl, arith, Bool-cases, Option-cases, inl, inr, sym, subst, is_some,
}
use notes_of_ashen.Client.{User, user_id}
use notes_of_ashen.Auth.{Settled, resolved, rejected}
use notes_of_ashen.Settings.{RagChatAccessLevel}
use notes_of_ashen.Stream.{RagParsedStreamEvent}
use notes_of_ashen.Ask.State.{AskState, Run, abort, same_number, is_aborted, can_access}
use notes_of_ashen.Ask.Page.{change_user, sessions_effect, reset_effect}
use notes_of_ashen.Ask.Streams.{stream_event, stream_ended, run_settled}
use notes_of_ashen.Ask.Sound.{member, is_known, is_live}
use notes_of_ashen.Ask.Steps.{Steps, here, next, ask_start, changes_user}
use notes_of_ashen.Ask.Consistent.{IsConsistent, start-IsConsistent, Steps-IsConsistent}
use notes_of_ashen.Ask.Over.{member-abort, Steps-IsOver}

known_member :
    (c : Option ℕ) (a : List ℕ) (r : Run) (rs : List Run)
    → all (is_known c a) rs ≡ true
    → Memᴰ r rs
    → is_known c a r ≡ true
known_member c a r [] h x = elim x [ ]
known_member c a r (x ∷ rs) h (Memᴰ.head e) = rw e (ground (arith, h))
known_member c a r (x ∷ rs) h (Memᴰ.tail m) = known_member c a r rs (ground arith) m

append_steps : {s t u : AskState} → Steps s t → Steps t u → Steps s u
append_steps ss here = ss
append_steps ss (next ts t) = next (append_steps ss ts) t

and_not : (b c : Bool) → c ≡ true → (b && not c) ≡ false
and_not b c h = ground arith

-- Aborting the answer that is shown aborts every run.
member_dropped :
    (c : Option ℕ) (a : List ℕ) (r : Run)
    → is_known c a r ≡ true
    → member r.controller (abort c a) ≡ true
member_dropped none a r h = ground arith
member_dropped (some d) a r h = ground arith

known_more :
    (c : Option ℕ) (l : Option ℕ) (a : List ℕ) (r : Run)
    → is_known c a r ≡ true
    → is_known c (abort l a) r ≡ true
known_more c none a r h = h
known_more c (some d) a r h = ground arith

list_dropped :
    (r : Run) (s : AskState)
    → is_known s.controller s.aborted r ≡ true
    → (l : Option ℕ)
    → member r.controller (abort s.session_request (abort s.controller (abort l s.aborted))) ≡ true
list_dropped r s h l =
    member-abort r.controller s.session_request _
      (member_dropped s.controller (abort l s.aborted) r (known_more s.controller l s.aborted r h))

switch-IsOver :
    (r : Run) (u : Option User) (level : RagChatAccessLevel) (s : AskState)
    → same_number s.active_user_id (user_id u) ≡ false
    → is_known s.controller s.aborted r ≡ true
    → is_aborted r.controller (change_user u level s) ≡ true
unfolding change_user reset_effect sessions_effect
switch-IsOver r u level s e h =
    elim (Bool-cases
      (not (is_some u) || not (can_access (record s { user = u; access_level = level })))) [
        | inl k ↦ rw (k, e) (list_dropped r s h s.list_request)
        | inr k ↦ rw (k, e) (list_dropped r s h s.list_request)
      ]

-- What the page shows of a conversation.
pub record IsSameChat (s t : AskState) : Type 0 where
  pub messages : t.messages ≡ s.messages
  pub sessions : t.sessions ≡ s.sessions
  pub session_id : t.session_id ≡ s.session_id
  pub error : t.error ≡ s.error
  pub streaming : t.streaming ≡ s.streaming
  pub controller : t.controller ≡ s.controller

module _ (r : Run) (t : AskState) where
  silent_event :
      (e : RagParsedStreamEvent) → is_aborted r.controller t ≡ true → stream_event r e t ≡ t
  unfolding stream_event
  silent_event e h = rw h refl

  not_shown :
      IsConsistent t
      → is_aborted r.controller t ≡ true
      → same_number t.controller (some r.controller) ≡ false
  not_shown h k = elim (Option-cases t.controller) [
    | inl e ↦ rw e refl
    | inr (c, e) ↦ rw e (other c e)
  ]
    where
      other : (c : ℕ) → t.controller ≡ some c → (c == r.controller) ≡ false
      other c e =
          let l : is_live (some c) t.aborted ≡ true =
            subst (λ o. is_live o t.aborted ≡ true) e h.sound.live in
          elim (Bool-cases (c == r.controller)) [
            | inl m ↦
                let q : c ≡ r.controller = ground (arith, m) in
                let no : ⊥ = ground (arith, l, subst (λ n. member n t.aborted ≡ true) (sym q) k) in
                elim no [ ]
            | inr m ↦ m
          ]

  silent_end :
      (a : Settled (Unit {0})) (now : Text)
      → IsConsistent t
      → is_aborted r.controller t ≡ true
      → IsSameChat t (stream_ended r a now t)
  unfolding stream_ended run_settled
  silent_end (resolved x) now h k =
      rw (and_not r.signed_in _ k, not_shown h k)
        (record {
          messages = refl;
          sessions = refl;
          session_id = refl;
          error = refl;
          streaming = refl;
          controller = refl;
        })
  silent_end (rejected x) now h k =
      rw (k, not_shown h k)
        (record {
          messages = refl;
          sessions = refl;
          session_id = refl;
          error = refl;
          streaming = refl;
          controller = refl;
        })

-- A private conversation is not shown to the visitor who signs in next: an answer that was streamed
-- when the page went over to a user with another id, at any point of any history of the page, changes
-- nothing that the page shows, neither by an event nor by its end, whatever happens in between.
pub old_run_silent :
    (first : Option User) (level : RagChatAccessLevel) (s : AskState)
    → Steps (ask_start first level) s
    → (r : Run) → Memᴰ r s.runs
    → (u : Option User) (level' : RagChatAccessLevel)
    → same_number s.active_user_id (user_id u) ≡ false
    → (t : AskState) → Steps (change_user u level' s) t
    → ((e : RagParsedStreamEvent) → stream_event r e t ≡ t)
      × ((a : Settled (Unit {0})) (now : Text) → IsSameChat t (stream_ended r a now t))
old_run_silent first level s ss r m u level' other t tt =
    let h = Steps-IsConsistent ss (start-IsConsistent first level) in
    let k = Steps-IsOver r.controller tt (
      switch-IsOver r u level' s other
        (known_member s.controller s.aborted r s.runs h.sound.known m)) in
    let h' =
      Steps-IsConsistent (append_steps (next ss (changes_user u level')) tt)
        (start-IsConsistent first level) in
    ((λ e. silent_event r t e k), (λ a now. silent_end r t a now h' k))
