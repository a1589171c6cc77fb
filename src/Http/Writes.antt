-- ===== src/Http/Writes.antt =====
-- frontend/src/utils/http.ts: a write that is under way is shared by the calls that repeat it. A
-- promise is a number, in the order of their making. `http.getUri`, which may throw, is a parameter;
-- a value in a configuration is known by its JSON text, which `read_value` reads.
use notes_of_ashen.Base.{
  ℕ, suc, Text, codes, map, leb, text_eq, get_or, [], List, ◌∷◌, ◌-◌, filter, Option, none, some,
  Bool, true, false, not, ◌||◌, ◌&&◌, ◌==◌, if◌then◌else◌,
}
use notes_of_ashen.Json.{Json}
use notes_of_ashen.Storage.{Backend, SafeStorage, get_item}
use notes_of_ashen.Errors.{method_name, is_get}
use notes_of_ashen.Http.Requests
use notes_of_ashen.Http.Requests.{Config, Body, sent_authorization, url_includes}
use notes_of_ashen.Http.Stringify.{Printer, stable_stringify}

pub record Addressing : Type 0 where
  pub get_uri : Config → Option Text
  pub read_value : Text → Option Json

-- toUpperCase, on the letters of a method
unfoldable pub upper : ℕ → ℕ
upper c = if leb b'a' c && leb c b'z' then c - 32 else c

-- isDedupeDisabled, which reads the local storage.
unfoldable pub is_dedupe_disabled : {b : Backend} → SafeStorage b → Bool × SafeStorage b
is_dedupe_disabled {b} s =
    let (stored, s') = get_item b (codes "NOA_DEDUPE") s in
    let off : Bool = elim stored [ none ↦ false | some v ↦ text_eq v (codes "off") ] in (off, s')

-- getAuthorizationHeader
abbrev pub get_authorization_header : Config → Text
get_authorization_header config = get_or (sent_authorization config) []

abbrev is_form_data : Body → Bool
is_form_data Requests.form_data = true
is_form_data _ = false

-- A request that is never shared: a retry, a read, a download, one with a signal, one of the AI or
-- one of a form.
unfoldable pub is_alone : Config → Bool
is_alone config =
    config.retry
    || config.network_retry
    || is_get config.method
    || config.is_blob
    || config.signal
    || url_includes (codes "/ai/") config.url
    || is_form_data config.body

module _ (p : Printer) (a : Addressing) where
  -- The `body` of the key; a value that cannot be written is a failure.
  unfoldable pub body_text : Body → Option Text
  body_text (Requests.text s) = some s
  body_text (Requests.value s) = elim (a.read_value s) [
    | none ↦ none
    | some v ↦ some (stable_stringify p v)
  ]
  body_text _ = some []

  -- The list that the key is made from: a failure of either part is a failure.
  abbrev pub parts_with : Config → Option Text → Option Text → Option (List Text)
  parts_with config (some body) (some uri) =
      some
        (map upper (method_name config.method) ∷ uri ∷ body ∷ get_authorization_header config ∷ [])
  parts_with config _ _ = none

  abbrev pub stringified : Option (List Text) → Option Text
  stringified none = none
  stringified (some parts) = some (p.stringify_list parts)

  -- buildDedupeKey, behind the test whether it is disabled.
  unfoldable pub dedupe_key : Config → Option Text
  unfolding is_alone body_text
  dedupe_key config =
      if is_alone config
      then none
      else stringified (parts_with config (body_text config.body) (a.get_uri config))

  unfoldable pub build_dedupe_key :
      {b : Backend} → Config → SafeStorage b → Option Text × SafeStorage b
  unfolding is_dedupe_disabled dedupe_key
  build_dedupe_key config s =
      let (off, s') = is_dedupe_disabled s in (if off then none else dedupe_key config, s')

-- The map `inflightWrites`, the requests that are under way (each with its key, if it has one), and
-- the next promise.
pub record Writes : Type 0 where
  pub in_flight : List (Text × ℕ)
  pub under_way : List (Option Text × ℕ)
  pub next_promise : ℕ

abbrev pub no_writes : Writes
no_writes = record { in_flight = []; under_way = []; next_promise = 0 }

-- inflightWrites.get(key)
unfoldable pub find_write : Text → List (Text × ℕ) → Option ℕ
find_write k [] = none
find_write k (w ∷ ws) = if text_eq w.0 k then some w.1 else find_write k ws

-- inflightWrites.delete(key)
unfoldable pub drop_write : Text → List (Text × ℕ) → List (Text × ℕ)
drop_write k ws = filter (λ w. not (text_eq w.0 k)) ws

-- http.defaults.adapter, for a request with the key: the promise that it gives.
unfoldable pub adapt : Option Text → Writes → ℕ × Writes
unfolding find_write
adapt none w =
    let n = w.next_promise in
    (n, record w { under_way = (none, n) ∷ w.under_way; next_promise = suc n })
adapt (some k) w =
    let n = w.next_promise in
    elim (find_write k w.in_flight) [
      | some m ↦ (m, w)
      | none ↦ (
        n,
        record {
          in_flight = (k, n) ∷ w.in_flight;
          under_way = (some k, n) ∷ w.under_way;
          next_promise = suc n;
        },
      )
    ]

abbrev pub forget : Option Text → List (Text × ℕ) → List (Text × ℕ)
forget none ws = ws
forget (some k) ws = drop_write k ws

-- A request ends, and the `finally` of its promise runs.
unfoldable pub settle_write : Option Text → ℕ → Writes → Writes
unfolding drop_write
settle_write key n w = record w {
  in_flight = forget key w.in_flight;
  under_way = filter (λ o. not (o.1 == n)) w.under_way;
}
