-- ===== src/Ask/Sound.antt =====
-- The controllers of the question page: the one of the answer that is streamed (`c`), those of the
-- session and of the list that are fetched (`q`, `l`), the aborted ones, and those of the runs.
use notes_of_ashen.Base.{
  ℕ, suc, List, [], ◌∷◌, filter, any, all, Option, none, some, Bool, true, false, not, ◌||◌, ◌==◌,
  ltb, ◌≡◌, refl, arith,
}
use notes_of_ashen.Ask.State.{Run, same_number, abort}

abbrev pub member : ℕ → List ℕ → Bool
member c cs = any (λ a. a == c) cs

abbrev pub is_live : Option ℕ → List ℕ → Bool
is_live none aborted = true
is_live (some c) aborted = not (member c aborted)

abbrev pub is_below : ℕ → Option ℕ → Bool
is_below n none = true
is_below n (some c) = ltb c n

abbrev pub is_apart : Option ℕ → Option ℕ → Bool
is_apart none d = true
is_apart (some c) none = true
is_apart (some c) (some d) = not (c == d)

-- A run is aborted, or it is the one that is shown.
abbrev pub is_known : Option ℕ → List ℕ → Run → Bool
is_known c aborted r = member r.controller aborted || same_number c (some r.controller)

-- Controllers below `n` have been made; the one that is streamed is neither aborted nor in use
-- elsewhere, and every run is known.
pub record IsSound (c q l : Option ℕ) (aborted : List ℕ) (n : ℕ) (runs : List Run) : Type 0 where
  pub live : is_live c aborted ≡ true
  pub session_apart : is_apart c q ≡ true
  pub list_apart : is_apart c l ≡ true
  pub made : is_below n c ≡ true
  pub session_made : is_below n q ≡ true
  pub list_made : is_below n l ≡ true
  pub aborted_made : all (λ a. ltb a n) aborted ≡ true
  pub known : all (is_known c aborted) runs ≡ true

member_fresh : (n : ℕ) (cs : List ℕ) → all (λ a. ltb a n) cs ≡ true → member n cs ≡ false
member_fresh n [] h = refl
member_fresh n (c ∷ cs) h = ground (arith, member_fresh n cs)

made_later :
    (n : ℕ) (cs : List ℕ) → all (λ a. ltb a n) cs ≡ true → all (λ a. ltb a (suc n)) cs ≡ true
made_later n [] h = refl
made_later n (c ∷ cs) h = ground (arith, made_later n cs)

-- A list of runs that are known stays so where each of them does.
known_still :
    (c c' : Option ℕ) (a a' : List ℕ) (rs : List Run)
    → ((k : ℕ)
        → (member k a || same_number c (some k)) ≡ true
        → (member k a' || same_number c' (some k)) ≡ true)
    → all (is_known c a) rs ≡ true
    → all (is_known c' a') rs ≡ true
known_still c c' a a' [] f h = refl
known_still c c' a a' (r ∷ rs) f h = ground (arith, f r.controller, known_still c c' a a' rs f)

known-filter :
    (c : Option ℕ) (a : List ℕ) (p : Run → Bool) (rs : List Run)
    → all (is_known c a) rs ≡ true
    → all (is_known c a) (filter p rs) ≡ true
known-filter c a p [] h = refl
known-filter c a p (r ∷ rs) h = ground (arith, known-filter c a p rs)

live_abort :
    (c d : Option ℕ) (a : List ℕ)
    → is_apart c d ≡ true
    → is_live c a ≡ true
    → is_live c (abort d a) ≡ true
live_abort none d a h k = refl
live_abort (some c) none a h k = k
live_abort (some c) (some d) a h k = ground arith

made_abort :
    (d : Option ℕ) (a : List ℕ) (n : ℕ)
    → is_below n d ≡ true
    → all (λ x. ltb x n) a ≡ true
    → all (λ x. ltb x n) (abort d a) ≡ true
made_abort none a n h k = k
made_abort (some d) a n h k = ground arith

known_abort :
    (c d : Option ℕ) (a : List ℕ) (rs : List Run)
    → all (is_known c a) rs ≡ true
    → all (is_known c (abort d a)) rs ≡ true
known_abort c none a rs = λ h. h
known_abort c (some d) a rs = known_still c c a (d ∷ a) rs (λ k h. ground arith)

-- Aborting the current one keeps every run known.
known_dropped :
    (c : Option ℕ) (a : List ℕ) (rs : List Run)
    → all (is_known c a) rs ≡ true
    → all (is_known none (abort c a)) rs ≡ true
known_dropped none a rs = λ h. h
known_dropped (some c) a rs = known_still (some c) none a (c ∷ a) rs (λ k h. ground arith)

below_later : (d : Option ℕ) (n : ℕ) → is_below n d ≡ true → is_below (suc n) d ≡ true
below_later none n h = refl
below_later (some d) n h = ground arith

apart_new : (c : Option ℕ) (n : ℕ) → is_below n c ≡ true → is_apart c (some n) ≡ true
apart_new none n h = refl
apart_new (some c) n h = ground arith

new_apart : (d : Option ℕ) (n : ℕ) → is_below n d ≡ true → is_apart (some n) d ≡ true
new_apart none n h = refl
new_apart (some d) n h = ground arith

apart_none : (c : Option ℕ) → is_apart c none ≡ true
apart_none none = refl
apart_none (some c) = refl

module _ {c q l : Option ℕ} {a : List ℕ} {n : ℕ} {rs : List Run} (s : IsSound c q l a n rs) where
  -- The list of sessions is fetched no longer.
  pub unlist-IsSound : IsSound c q none (abort l a) n rs
  unlist-IsSound = record {
    live = live_abort c l a s.list_apart s.live;
    session_apart = s.session_apart;
    list_apart = apart_none c;
    made = s.made;
    session_made = s.session_made;
    list_made = refl;
    aborted_made = made_abort l a n s.list_made s.aborted_made;
    known = known_abort c l a rs s.known;
  }

  -- A session is fetched no longer.
  pub unload-IsSound : IsSound c none l a n rs
  unload-IsSound = record {
    live = s.live;
    session_apart = apart_none c;
    list_apart = s.list_apart;
    made = s.made;
    session_made = refl;
    list_made = s.list_made;
    aborted_made = s.aborted_made;
    known = s.known;
  }

  pub abort_session-IsSound : IsSound c q l (abort q a) n rs
  abort_session-IsSound = record {
    live = live_abort c q a s.session_apart s.live;
    session_apart = s.session_apart;
    list_apart = s.list_apart;
    made = s.made;
    session_made = s.session_made;
    list_made = s.list_made;
    aborted_made = made_abort q a n s.session_made s.aborted_made;
    known = known_abort c q a rs s.known;
  }

  -- The streamed answer is dropped.
  pub stop-IsSound : IsSound none q l (abort c a) n rs
  stop-IsSound = record {
    live = refl;
    session_apart = refl;
    list_apart = refl;
    made = refl;
    session_made = s.session_made;
    list_made = s.list_made;
    aborted_made = made_abort c a n s.made s.aborted_made;
    known = known_dropped c a rs s.known;
  }

  -- A list, or a session, is fetched with a new controller.
  pub list-IsSound : IsSound c q (some n) a (suc n) rs
  list-IsSound = record {
    live = s.live;
    session_apart = s.session_apart;
    list_apart = apart_new c n s.made;
    made = below_later c n s.made;
    session_made = below_later q n s.session_made;
    list_made = ground arith;
    aborted_made = made_later n a s.aborted_made;
    known = s.known;
  }

  pub load-IsSound : IsSound c (some n) l a (suc n) rs
  load-IsSound = record {
    live = s.live;
    session_apart = apart_new c n s.made;
    list_apart = s.list_apart;
    made = below_later c n s.made;
    session_made = ground arith;
    list_made = below_later l n s.list_made;
    aborted_made = made_later n a s.aborted_made;
    known = s.known;
  }

  -- A run ends, and leaves the others.
  pub filter-IsSound : (p : Run → Bool) → IsSound c q l a n (filter p rs)
  filter-IsSound p = record {
    live = s.live;
    session_apart = s.session_apart;
    list_apart = s.list_apart;
    made = s.made;
    session_made = s.session_made;
    list_made = s.list_made;
    aborted_made = s.aborted_made;
    known = known-filter c a p rs s.known;
  }

-- A run starts where none is shown.
pub run-IsSound :
    {q l : Option ℕ} {a : List ℕ} {n : ℕ} {rs : List Run} (r : Run)
    → r.controller ≡ n
    → IsSound none q l a n rs
    → IsSound (some n) q l a (suc n) (r ∷ rs)
run-IsSound {q} {l} {a} {n} {rs} r h s = record {
  live = ground (arith, member_fresh n a s.aborted_made);
  session_apart = new_apart q n s.session_made;
  list_apart = new_apart l n s.list_made;
  made = ground arith;
  session_made = below_later q n s.session_made;
  list_made = below_later l n s.list_made;
  aborted_made = made_later n a s.aborted_made;
  known = ground (arith, known_still none (some n) a a rs (λ k e. ground arith) s.known);
}

-- The run that is shown ends: no other run is known by being shown.
pub end-IsSound :
    {q l : Option ℕ} {a : List ℕ} {n : ℕ} (k : ℕ) (rs : List Run)
    → IsSound (some k) q l a n rs
    → IsSound none q l a n (filter (λ r. not (r.controller == k)) rs)
end-IsSound {q} {l} {a} {n} k rs s = record {
  live = refl;
  session_apart = refl;
  list_apart = refl;
  made = refl;
  session_made = s.session_made;
  list_made = s.list_made;
  aborted_made = s.aborted_made;
  known = others rs s.known;
}
  where
    others :
        (rs : List Run)
        → all (is_known (some k) a) rs ≡ true
        → all (is_known none a) (filter (λ r. not (r.controller == k)) rs) ≡ true
    others [] h = refl
    others (r ∷ rs) h = ground (arith, others rs)
