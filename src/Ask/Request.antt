-- ===== src/Ask/Request.antt =====
-- frontend/src/api/rag.ts: the request of a streamed answer, and the reading of its body. `fetch` and
-- the request of a new token are effects on the client, and whether the signal is aborted is read
-- from it.
use notes_of_ashen.Base.{
  ℕ, Text, codes, [], List, ◌∷◌, ◌++◌, any, truthy, trim, or_text, Option, none, some, Bool, true,
  false, decimal, not, ◌||◌, ◌==◌, if◌then◌else◌,
}
use notes_of_ashen.Json.{Json, text_property}
use notes_of_ashen.Storage.{Backend}
use notes_of_ashen.Errors.{Thrown, plain_error}
use notes_of_ashen.Client.{Client, with_auth, logout, notify_session_expired}
use notes_of_ashen.Auth.{Settled, resolved, rejected, RefreshResponse, read_refresh}
use notes_of_ashen.Stream.{
  Parsers, Decoder, RagStreamDecoder, RagParsedStreamEvent, done, error, create_rag_stream_decoder,
  push, finish,
}

-- What `reader.read()` gives, one after the other: chunks, then the end or a failure.
pub data Reading : Type 0 where
  ends : Reading
  breaks : Thrown → Reading
  chunk : List ℕ → Reading → Reading

pub record StreamResponse : Type 0 where
  pub status : ℕ
  pub ok : Bool
  pub status_text : Text
  pub json : Option Json
  pub body : Option Reading

abbrev pub is_done : RagParsedStreamEvent → Bool
is_done (done _ _) = true
is_done _ = false

abbrev pub error_text : RagParsedStreamEvent → Option Text
error_text (error m) = some m
error_text _ = none

abbrev pub later : Option Text → Option Text → Option Text
later none o = o
later (some m) o = some m

-- `streamError`: the error of the last `error` event.
unfoldable pub stream_error : List RagParsedStreamEvent → Option Text
stream_error [] = none
stream_error (e ∷ es) = let rest = stream_error es in later rest (error_text e)

-- The events that `onEvent` got, how the call settled, and whether the reader was cancelled.
pub record StreamOutcome : Type 0 where
  pub events : List RagParsedStreamEvent
  pub result : Settled (Unit {0})
  pub cancelled : Bool

abbrev pub end_result : Option Text → Bool → Settled (Unit {0})
end_result (some m) _ = rejected (plain_error m)
end_result none true = resolved tt
end_result none false = rejected (plain_error (codes "RAG stream ended before completion"))

-- if (streamError) throw streamError; the rest is not read.
abbrev pub after_chunk : Option Text → List RagParsedStreamEvent → StreamOutcome → StreamOutcome
after_chunk (some m) events next = record {
  events = events;
  result = rejected (plain_error m);
  cancelled = true;
}
after_chunk none events next = next

module _ (p : Parsers) (d : Decoder) where
  -- The loop over the chunks, and what follows it.
  unfoldable pub read_body : RagStreamDecoder p d → Reading → StreamOutcome
  unfolding stream_error
  read_body s ends =
      let events = finish p d s in
      record {
        events = events;
        result = end_result (stream_error events) (any is_done events);
        cancelled = false;
      }
  read_body s (breaks e) = record { events = s.events; result = rejected e; cancelled = true }
  read_body s (chunk bytes rest) =
      let s' = push p d s bytes in
      let next = read_body s' rest in after_chunk (stream_error s'.events) s'.events next

  unfoldable pub response_error_message : StreamResponse → Text
  response_error_message r =
      let other =
        or_text r.status_text (codes "RAG request failed (" ++ decimal r.status ++ codes ")") in
      elim r.json [
        | none ↦ other
        | some payload ↦ elim (text_property (codes "message") payload) [
          | none ↦ other
          | some m ↦ if truthy (trim m) then m else other
        ]
      ]

  abbrev not_read : Thrown → StreamOutcome
  not_read e = record { events = []; result = rejected e; cancelled = false }

  -- streamRAGChat, behind `requestRAGStream`
  unfoldable pub stream_rag_chat : d.State → Settled StreamResponse → StreamOutcome
  unfolding read_body response_error_message
  stream_rag_chat st (rejected e) = not_read e
  stream_rag_chat st (resolved r) =
      if not r.ok then not_read (plain_error (response_error_message r)) else elim r.body [
        | none ↦ not_read (plain_error (codes "RAG stream response body is empty"))
        | some reading ↦ read_body (create_rag_stream_decoder p d st) reading
      ]

module _ {b : Backend} {World : Type 0}
    (fetch : Option Text → Client b World → Settled StreamResponse × Client b World)
    (post_refresh : Client b World → Settled RefreshResponse × Client b World)
    (is_aborted : Client b World → Bool) where
  abbrev pub sign_out : Client b World → Client b World
  sign_out c = notify_session_expired (logout c)

  abbrev pub is_final : StreamResponse → Client b World → Bool
  is_final r c = not (r.status == 401) || is_aborted c

  -- The answer to the second request; `initial` is the first.
  unfoldable pub retried :
      StreamResponse
      → Settled StreamResponse × Client b World
      → Settled StreamResponse × Client b World
  retried initial (rejected e, c) = (resolved initial, sign_out c)
  retried initial (resolved r, c) =
      if is_final r c then (resolved r, c) else (resolved r, sign_out c)

  unfoldable pub token_answered :
      StreamResponse → Settled Text × Client b World → Settled StreamResponse × Client b World
  unfolding retried
  token_answered initial (rejected e, c) = (resolved initial, sign_out c)
  token_answered initial (resolved token, c) = retried initial (
      fetch (some token)
        (with_auth c (record c.auth { access_token = some token; is_initialized = true })))

  unfoldable pub first_answered :
      Settled StreamResponse × Client b World → Settled StreamResponse × Client b World
  unfolding token_answered
  first_answered (rejected e, c) = (rejected e, c)
  first_answered (resolved initial, c) =
      if is_final initial c
      then (resolved initial, c)
      else (let (answer, c') = post_refresh c in token_answered initial (read_refresh answer, c'))

  unfoldable pub request_rag_stream : Client b World → Settled StreamResponse × Client b World
  unfolding first_answered
  request_rag_stream c = first_answered (fetch c.auth.access_token c)
