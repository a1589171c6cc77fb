-- ===== src/Stream.antt =====
-- frontend/src/utils/ragStream.ts: the events of an answer that the server streams. JSON.parse,
-- `Number` (where it gives a natural number) and TextDecoder are parameters.
pub mod Split
pub mod Laws
pub mod Tests
use notes_of_ashen.Base.{
  ℕ, Text, codes, [], List, ◌∷◌, ◌++◌, drop, length, starts_with, trim, truthy, or_text, text_eq,
  Option, none, some, get_or, Bool, true, false, ◌||◌, ◌&&◌, ◌==◌, if◌then◌else◌,
}
use notes_of_ashen.Json.{
  Json, arr, obj, num, str, Items, nil, cons, Fields, property, text_property,
}
use Split.{split, strip_line_feed}

-- frontend/src/types: RAGChatSource
pub record RagChatSource : Type 0 where
  pub article_id : ℕ
  pub title : Text
  pub url : Option Text
  pub snippet : Option Text

pub data RagParsedStreamEvent : Type 0 where
  meta : Text → RagParsedStreamEvent
  sources : List RagChatSource → RagParsedStreamEvent
  delta : Text → RagParsedStreamEvent
  done : Text → Text → RagParsedStreamEvent
  error : Text → RagParsedStreamEvent

-- JSON.parse and Number
pub record Parsers : Type 0 where
  pub parse_json : Text → Option Json
  pub number : Option Json → Option ℕ

-- block.split(/\r?\n/); `line` is the line so far.
split_lines : Text → Text → List Text
split_lines line [] = line ∷ []
split_lines line (c ∷ s) =
    let next = split_lines [] s in
    let same = split_lines line s in
    let longer = split_lines (line ++ c ∷ []) s in
    if c == 10
    then line ∷ next
    else elim (strip_line_feed s) [ none ↦ longer | some r ↦ if c == 13 then same else longer ]

-- One optional space goes.
abbrev strip_space : Text → Text
strip_space [] = []
strip_space (c ∷ s) = if c == 32 then s else c ∷ s

-- The name of the event and the lines of data, as the loop leaves them.
read_lines : Text → List Text → List Text → Text × List Text
read_lines event_name data_lines [] = (event_name, data_lines)
read_lines event_name data_lines (line ∷ lines) =
    if starts_with line (codes "event:")
    then read_lines (trim (drop 6 line)) data_lines lines
    else if starts_with line (codes "data:")
    then read_lines event_name (data_lines ++ strip_space (drop 5 line) ∷ []) lines
    else read_lines event_name data_lines lines

-- dataLines.join('\n')
join : List Text → Text
join [] = []
join (line ∷ []) = line
join (line ∷ next ∷ lines) = line ++ 10 ∷ join (next ∷ lines)

-- stringValue(payload.k)
string_value : Text → Json → Text
string_value k v = get_or (text_property k v) []

abbrev optional : Text → Option Text
optional [] = none
optional (c ∷ s) = some (c ∷ s)

module _ (p : Parsers) where
  -- A source is kept where it has a positive id and a title; an item that is no object has none.
  source_of : Json → List RagChatSource
  unfolding string_value
  source_of item =
      let title = string_value (codes "title") item in
      elim (p.number (property (codes "articleId") item)) [
        | none ↦ []
        | some id ↦
            if id == 0 || text_eq title []
            then []
            else record {
              article_id = id;
              title = title;
              url = optional (string_value (codes "url") item);
              snippet = optional (string_value (codes "snippet") item);
            }
              ∷ []
      ]

  sources_of : Items → List RagChatSource
  unfolding source_of
  sources_of nil = []
  sources_of (cons item items) = source_of item ++ sources_of items

  unfoldable pub normalize_rag_sources : Option Json → List RagChatSource
  unfolding sources_of
  normalize_rag_sources (some (arr items)) = sources_of items
  normalize_rag_sources _ = []

  -- The switch; a type that is none of the five is `delta`.
  event_of : Text → Json → RagParsedStreamEvent
  unfolding string_value normalize_rag_sources
  event_of type payload =
      if text_eq type (codes "meta")
      then meta (string_value (codes "sessionId") payload)
      else if text_eq type (codes "sources")
      then sources (normalize_rag_sources (property (codes "sources") payload))
      else if text_eq type (codes "done")
      then done (string_value (codes "sessionId") payload)
          (string_value (codes "messageId") payload)
      else if text_eq type (codes "error")
      then error (or_text (string_value (codes "message") payload) (codes "RAG stream failed"))
      else delta (
          or_text (string_value (codes "delta") payload) (
            or_text (string_value (codes "content") payload) (string_value (codes "text") payload)))

  -- A value that is no object has no properties, as `{}` has none.
  unfoldable pub to_rag_stream_event : Text → Text → RagParsedStreamEvent
  unfolding event_of string_value
  to_rag_stream_event event_name raw = elim (p.parse_json raw) [
    | none ↦ delta raw
    | some payload ↦
        event_of
          (or_text event_name
            (or_text (string_value (codes "type") payload) (string_value (codes "event") payload)))
          payload
  ]

  abbrev event_from : Text × List Text → Option RagParsedStreamEvent
  event_from (event_name, []) = none
  event_from (event_name, line ∷ lines) =
      some (to_rag_stream_event event_name (join (line ∷ lines)))

  unfoldable pub parse_rag_stream_block : Text → Option RagParsedStreamEvent
  unfolding split_lines read_lines join to_rag_stream_event
  parse_rag_stream_block block = event_from (read_lines [] [] (split_lines [] block))

  -- blocks.forEach(...): the events that `onEvent` gets.
  unfoldable pub emit : List Text → List RagParsedStreamEvent
  unfolding parse_rag_stream_block
  emit [] = []
  emit (block ∷ blocks) = elim (parse_rag_stream_block block) [
    | none ↦ emit blocks
    | some e ↦ e ∷ emit blocks
  ]

  -- consume: the events, and the buffer.
  unfoldable pub consume : Text → Text → List RagParsedStreamEvent × Text
  unfolding emit
  consume buffer text =
      let (blocks, rest) = split (buffer ++ text) in
      if truthy text then (emit blocks, rest) else ([], buffer)

-- TextDecoder: `decode_stream` is decode(chunk, { stream: true }), `decode_end` is decode().
pub record Decoder : Type 1 where
  pub State : Type 0
  pub decode_stream : State → List ℕ → Text × State
  pub decode_end : State → Text

module _ (p : Parsers) (d : Decoder) where
  -- createRAGStreamDecoder: the decoder, the buffer, and the events so far.
  pub record RagStreamDecoder : Type 0 where
    pub decoder : d.State
    pub buffer : Text
    pub events : List RagParsedStreamEvent

  abbrev pub create_rag_stream_decoder : d.State → RagStreamDecoder
  create_rag_stream_decoder st = record { decoder = st; buffer = []; events = [] }

  unfoldable pub push : RagStreamDecoder → List ℕ → RagStreamDecoder
  unfolding consume
  push s chunk =
      let (text, decoder) = d.decode_stream s.decoder chunk in
      let (events, buffer) = consume p s.buffer text in
      record { decoder = decoder; buffer = buffer; events = s.events ++ events }

  unfoldable pub finish : RagStreamDecoder → List RagParsedStreamEvent
  unfolding consume emit
  finish s =
      let (events, buffer) = consume p s.buffer (d.decode_end s.decoder) in
      let last = if truthy (trim buffer) then emit p (buffer ∷ []) else [] in
      s.events ++ events ++ last
