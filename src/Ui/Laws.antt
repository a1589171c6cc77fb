-- ===== src/Ui/Laws.antt =====
-- The toasts on the screen: which they are, in what order, and how many.
use notes_of_ashen.Base.{
  ℕ, zero, suc, ◌+◌, ◌-◌, ◌≤◌, ◌<◌, Text, List, [], ◌∷◌, ◌++◌, Option, Bool, length, drop, filter,
  ◌==◌, not, ◌≡◌, refl, arith, length-append, length-drop, length-filter, map, ap, append_assoc,
  append-nil, sym, ◌∙◌, get_or, leb, if◌then◌else◌, length-map, map-append,
}
use native.Mathlib.Nat.{zero-add}
use notes_of_ashen.Ui.{
  ToastType, ToastItem, UiState, initial_ui, max_toasts, push_toast, dismiss_toast, inc_loading,
  dec_loading, default_duration,
}

-- What the client does to the store.
pub data UiEvent : Type 0 where
  push : ToastType → Text → Option ℕ → UiEvent
  dismiss : ℕ → UiEvent
  started finished : UiEvent

pub step : UiEvent → UiState → UiState
step (push type message duration) s = (push_toast type message duration s).1
step (dismiss id) s = dismiss_toast id s
step started s = inc_loading s
step finished s = dec_loading s

pub steps : List UiEvent → UiState → UiState
steps [] s = s
steps (e ∷ es) s = steps es (step e s)

-- The ids of the toasts grow along the list, from above `low` up to `high`.
abbrev pub Increasing : ℕ → ℕ → List ToastItem → Type 0
Increasing low high [] = low ≤ high
Increasing low high (t ∷ ts) = (low < t.id) × Increasing t.id high ts

pub record IsValid (s : UiState) : Type 0 where
  pub few : length s.toasts ≤ max_toasts
  pub ordered : Increasing 0 s.toast_id s.toasts

Increasing-snoc :
    (low high : ℕ) (ts : List ToastItem) (t : ToastItem)
    → Increasing low high ts
    → high < t.id
    → Increasing low t.id (ts ++ t ∷ [])
Increasing-snoc low high [] t h k = (omega arith, omega arith)
Increasing-snoc low high (u ∷ ts) t h k = (h.0, Increasing-snoc u.id high ts t h.1 k)

Increasing-le : (low high : ℕ) (ts : List ToastItem) → Increasing low high ts → low ≤ high
Increasing-le low high [] h = h
Increasing-le low high (t ∷ ts) h = omega (arith, Increasing-le t.id high ts h.1)

Increasing-weaken :
    (low low' high : ℕ) (ts : List ToastItem)
    → low' ≤ low
    → Increasing low high ts
    → Increasing low' high ts
Increasing-weaken low low' high [] k h = omega arith
Increasing-weaken low low' high (t ∷ ts) k h = (omega arith, h.1)

Increasing-drop :
    (n low high : ℕ) (ts : List ToastItem)
    → Increasing low high ts
    → Increasing low high (drop n ts)
Increasing-drop zero low high ts h = h
Increasing-drop (suc n) low high [] h = h
Increasing-drop (suc n) low high (t ∷ ts) h =
    Increasing-drop n low high ts (Increasing-weaken t.id low high ts (omega arith) h.1)

Increasing-filter :
    (p : ToastItem → Bool) (low high : ℕ) (ts : List ToastItem)
    → Increasing low high ts
    → Increasing low high (filter p ts)
Increasing-filter p low high [] h = h
Increasing-filter p low high (t ∷ ts) h = ground (
  arith,
  Increasing-filter p t.id high ts h.1,
  Increasing-filter p low high ts (Increasing-weaken t.id low high ts (omega arith) h.1),
)

push_toast-IsValid :
    (type : ToastType) (m : Text) (d : Option ℕ) (s : UiState)
    → IsValid s
    → IsValid (push_toast type m d s).1
unfolding push_toast
push_toast-IsValid type m d s v =
    let t : ToastItem = record {
      id = s.toast_id + 1;
      type = type;
      message = m;
      duration = get_or d (default_duration type);
    } in
    record {
      few =
          omega
            (arith, length-drop (length (s.toasts ++ t ∷ []) - max_toasts) (s.toasts ++ t ∷ []));
      ordered =
          Increasing-drop _ 0 (s.toast_id + 1) (s.toasts ++ t ∷ [])
            (Increasing-snoc 0 s.toast_id s.toasts t v.ordered (omega arith));
    }

dismiss_toast-IsValid : (id : ℕ) (s : UiState) → IsValid s → IsValid (dismiss_toast id s)
unfolding dismiss_toast
dismiss_toast-IsValid id s v =
    let keep = λ (t : ToastItem). not (t.id == id) in
    record {
      few = omega (arith, length-filter keep s.toasts, v.few);
      ordered = Increasing-filter keep 0 s.toast_id s.toasts v.ordered;
    }

step-IsValid : (e : UiEvent) (s : UiState) → IsValid s → IsValid (step e s)
unfolding step inc_loading dec_loading
step-IsValid (push type m d) s v = push_toast-IsValid type m d s v
step-IsValid (dismiss id) s v = dismiss_toast-IsValid id s v
step-IsValid started s v = record { few = v.few; ordered = v.ordered }
step-IsValid finished s v = record { few = v.few; ordered = v.ordered }

-- From a valid store, after any pushes, dismissals and requests, at most four toasts are shown and
-- their ids grow along the list, so that no two toasts share an id.
pub steps-IsValid : (es : List UiEvent) (s : UiState) → IsValid s → IsValid (steps es s)
unfolding steps
steps-IsValid [] s v = v
steps-IsValid (e ∷ es) s v = steps-IsValid es (step e s) (step-IsValid e s v)

-- The content of the toasts, without ids.
abbrev pub Notice : Type 0
Notice = ToastType × Text × Option ℕ

pub pushes : List Notice → List UiEvent
pushes [] = []
pushes ((type, m, d) ∷ ns) = push type m d ∷ pushes ns

abbrev pub content : ToastItem → ToastType × Text
content t = (t.type, t.message)

abbrev pub notice_content : Notice → ToastType × Text
notice_content n = (n.0, n.1)

abbrev pub last_four {ℓ} : {A : Type ℓ} → List A → List A
last_four l = drop (length l - max_toasts) l

drop-nil {ℓ} : {A : Type ℓ} (n : ℕ) → drop {A = A} n [] ≡ []
drop-nil zero = refl
drop-nil (suc n) = refl

drop-drop {ℓ} : {A : Type ℓ} (m n : ℕ) (l : List A) → drop m (drop n l) ≡ drop (n + m) l
drop-drop m zero l = rw zero-add refl
drop-drop m (suc n) [] = drop-nil m ∙ sym (drop-nil (suc n + m))
drop-drop m (suc n) (x ∷ l) =
    let e : suc n + m ≡ suc (n + m) = omega arith in rw e (drop-drop m n l)

drop-append {ℓ} :
    {A : Type ℓ} (n : ℕ) (l r : List A) → n ≤ length l → drop n (l ++ r) ≡ drop n l ++ r
drop-append zero l r h = refl
drop-append (suc n) [] r h = absurd (omega arith)
drop-append (suc n) (x ∷ l) r h = drop-append n l r (omega arith)

-- Dropping to four after each push is dropping to four at the end.
last_four-snoc {ℓ} :
    {A : Type ℓ} (l : List A) (x : A) → last_four (last_four l ++ x ∷ []) ≡ last_four (l ++ x ∷ [])
last_four-snoc l x =
    let n = length l - max_toasts in
    let inner : length (drop n l ++ x ∷ []) - max_toasts
        ≡ (if leb max_toasts (length l) then 1 else 0) =
      ground (arith, length-append (drop n l) (x ∷ []), length-drop n l) in
    let outer : length (l ++ x ∷ []) - max_toasts
        ≡ n + (if leb max_toasts (length l) then 1 else 0) =
      ground (arith, length-append l (x ∷ [])) in
    rw (inner, outer, ← drop-append n l (x ∷ []) (omega arith)) (drop-drop _ n (l ++ x ∷ []))

map-drop {ℓ κ} :
    {A : Type ℓ} {B : Type κ} (f : A → B) (n : ℕ) (l : List A) → map f (drop n l) ≡ drop n (map f l)
map-drop f zero l = refl
map-drop f (suc n) [] = refl
map-drop f (suc n) (x ∷ l) = map-drop f n l

map-last_four {ℓ κ} :
    {A : Type ℓ} {B : Type κ} (f : A → B) (l : List A) → map f (last_four l) ≡ last_four (map f l)
map-last_four f l = rw (length-map l f) (map-drop f (length l - max_toasts) l)

content-push_toast :
    (type : ToastType) (m : Text) (d : Option ℕ) (s : UiState)
    → map content (push_toast type m d s).1.toasts
      ≡ last_four (map content s.toasts ++ (type, m) ∷ [])
unfolding push_toast
content-push_toast type m d s =
    let t : ToastItem = record {
      id = s.toast_id + 1;
      type = type;
      message = m;
      duration = get_or d (default_duration type);
    } in
    map-last_four content (s.toasts ++ t ∷ []) ∙ ap last_four (map-append content s.toasts (t ∷ []))

content-pushes :
    (ns : List Notice) (s : UiState) (l : List (ToastType × Text))
    → map content s.toasts ≡ last_four l
    → map content (steps (pushes ns) s).toasts ≡ last_four (l ++ map notice_content ns)
unfolding steps pushes step
content-pushes [] s l h = h ∙ ap last_four (sym (append-nil l))
content-pushes ((type, m, d) ∷ ns) s l h =
    content-pushes ns (push_toast type m d s).1 (l ++ (type, m) ∷ []) (
      content-push_toast type m d s
      ∙ ap (λ c. last_four (c ++ (type, m) ∷ [])) h
      ∙ last_four-snoc l (type, m))
    ∙ ap last_four (append_assoc l ((type, m) ∷ []) (map notice_content ns))

-- After any pushes onto an empty store, the screen shows the last four of them, in order.
pub pushes-last_four :
    (ns : List Notice)
    → map content (steps (pushes ns) initial_ui).toasts ≡ last_four (map notice_content ns)
pushes-last_four ns = content-pushes ns initial_ui [] refl

filter-snoc_fresh :
    (low high : ℕ) (ts : List ToastItem) (t : ToastItem)
    → Increasing low high ts
    → high < t.id
    → filter (λ u. not (u.id == t.id)) (ts ++ t ∷ []) ≡ ts
filter-snoc_fresh low high [] t h k = ground arith
filter-snoc_fresh low high (u ∷ ts) t h k =
    ground (arith, filter-snoc_fresh u.id high ts t h.1 k, Increasing-le u.id high ts h.1)

-- While fewer than four toasts are shown, dismissing the id that a push returned takes away that
-- toast and no other.
pub dismiss_toast-push_toast :
    (type : ToastType) (m : Text) (d : Option ℕ) (s : UiState)
    → IsValid s
    → length s.toasts < max_toasts
    → (dismiss_toast (push_toast type m d s).0 (push_toast type m d s).1).toasts ≡ s.toasts
unfolding dismiss_toast push_toast
dismiss_toast-push_toast type m d s v h =
    let t : ToastItem = record {
      id = s.toast_id + 1;
      type = type;
      message = m;
      duration = get_or d (default_duration type);
    } in
    let room : length (s.toasts ++ t ∷ []) - max_toasts ≡ 0 =
      omega (arith, length-append s.toasts (t ∷ [])) in
    rw room (filter-snoc_fresh 0 s.toast_id s.toasts t v.ordered (omega arith))
