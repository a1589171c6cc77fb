-- ===== src/Ask/Completion.antt =====
-- When a streamed answer counts as complete.
use notes_of_ashen.Base.{
  ℕ, Text, [], List, ◌∷◌, ◌++◌, any, Option, none, some, Bool, true, false, not, ◌&&◌, truthy, trim,
  is_some, ◌≡◌, refl, sym, ap, ◌∙◌, arith, if◌then◌else◌,
}
use notes_of_ashen.Auth.{Settled, resolved, rejected}
use notes_of_ashen.Stream.{
  Parsers, Decoder, RagStreamDecoder, RagParsedStreamEvent, create_rag_stream_decoder, push, finish,
  consume, emit,
}
use notes_of_ashen.Stream.Laws.{IsIncremental, concat, pushes, finish-pushes}
use notes_of_ashen.Ask.Request.{
  Reading, ends, chunk, StreamOutcome, is_done, later, error_text, stream_error, end_result,
  after_chunk, read_body,
}

-- A body that the network cuts into the chunks, and that ends.
unfoldable pub reading_of : List (List ℕ) → Reading
reading_of [] = ends
reading_of (c ∷ cs) = chunk c (reading_of cs)

abbrev pub is_accepted : Settled (Unit {0}) → Bool
is_accepted (resolved _) = true
is_accepted (rejected _) = false

-- `done` was sent, and `error` was not.
abbrev pub is_complete : List RagParsedStreamEvent → Bool
is_complete es = any is_done es && not (is_some (stream_error es))

error_append :
    (es fs : List RagParsedStreamEvent)
    → is_some (stream_error es) ≡ true
    → is_some (stream_error (es ++ fs)) ≡ true
unfolding stream_error
error_append [] fs h = let no : ⊥ = ground (arith, h) in elim no [ ]
error_append (e ∷ es) fs h =
    more (stream_error es) (stream_error (es ++ fs)) (error_text e) h (error_append es fs)
  where
    more :
        (o o' x : Option Text)
        → is_some (later o x) ≡ true
        → (is_some o ≡ true → is_some o' ≡ true)
        → is_some (later o' x) ≡ true
    more o (some m) x h k = refl
    more none none x h k = h
    more (some m) none x h k = let no : ⊥ = ground (arith, k refl) in elim no [ ]

accepted_end : (o : Option Text) (b : Bool) → is_accepted (end_result o b) ≡ (b && not (is_some o))
accepted_end (some m) b = ground arith
accepted_end none true = refl
accepted_end none false = refl

accepted_chunk :
    (o : Option Text) (es : List RagParsedStreamEvent) (next : StreamOutcome) (b : Bool)
    → (is_some o ≡ true → b ≡ false)
    → is_accepted next.result ≡ b
    → is_accepted (after_chunk o es next).result ≡ b
accepted_chunk (some m) es next b h k = sym (h refl)
accepted_chunk none es next b h k = k

incomplete :
    (es : List RagParsedStreamEvent) → is_some (stream_error es) ≡ true → is_complete es ≡ false
incomplete es h = ground arith

module _ (p : Parsers) (d : Decoder) where
  push_more :
      (s : RagStreamDecoder p d) (bytes : List ℕ)
      → is_some (stream_error s.events) ≡ true
      → is_some (stream_error (push p d s bytes).events) ≡ true
  unfolding push
  push_more s bytes h = error_append s.events _ h

  finish_error :
      (s : RagStreamDecoder p d) (cs : List (List ℕ))
      → is_some (stream_error s.events) ≡ true
      → is_some (stream_error (finish p d (pushes p d s cs))) ≡ true
  unfolding pushes finish consume emit
  finish_error s [] h =
      let (events, buffer) = consume p s.buffer (d.decode_end s.decoder) in
      error_append (s.events ++ events) (if truthy (trim buffer) then emit p (buffer ∷ []) else [])
        (error_append s.events events h)
  finish_error s (c ∷ cs) h = finish_error (push p d s c) cs (push_more s c h)

  accepted_body :
      (s : RagStreamDecoder p d) (cs : List (List ℕ))
      → is_accepted (read_body p d s (reading_of cs)).result
        ≡ is_complete (finish p d (pushes p d s cs))
  unfolding read_body reading_of pushes
  accepted_body s [] = accepted_end (stream_error (finish p d s)) (any is_done (finish p d s))
  accepted_body s (c ∷ cs) =
      let s' = push p d s c in
      accepted_chunk (stream_error s'.events) s'.events _ _
        (λ h. incomplete (finish p d (pushes p d s' cs)) (finish_error s' cs h))
        (accepted_body s' cs)

  -- Where the decoder of texts is one that takes bytes in parts, a body that ends is taken for a
  -- complete answer exactly where the events of the whole, however the network cuts its bytes, have a
  -- `done` and no `error`: a stream that ends early is an error.
  pub read_body-accepts :
      IsIncremental d
      → (st : d.State) (chunks : List (List ℕ))
      → let start = create_rag_stream_decoder p d st in
        is_accepted (read_body p d start (reading_of chunks)).result
        ≡ is_complete (finish p d (push p d start (concat chunks)))
  read_body-accepts law st chunks =
      let start = create_rag_stream_decoder p d st in
      accepted_body start chunks ∙ ap is_complete (finish-pushes p d law st chunks)
