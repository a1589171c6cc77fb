-- ===== src/Stream/Laws.antt =====
-- The events of a streamed answer do not depend on how the network cuts it.
use notes_of_ashen.Base.{
  ℕ, Text, [], List, ◌∷◌, ◌++◌, none, ◌≡◌, refl, sym, ap, ◌∙◌, append_assoc, append-nil,
  Option-cases, inl, inr,
}
use notes_of_ashen.Stream.{
  Parsers, Decoder, RagStreamDecoder, create_rag_stream_decoder, push, finish, consume, emit,
  parse_rag_stream_block,
}
use notes_of_ashen.Stream.Split.{split, find_break, split-append, split_rest, split-none}

-- A decoder that decodes a sequence of bytes in parts as it does the whole.
pub record IsIncremental (d : Decoder) : Type 0 where
  pub decode_empty : (st : d.State) → d.decode_stream st [] ≡ ([], st)
  pub decode_append :
      (st : d.State) (xs ys : List ℕ)
      → let (text, st') = d.decode_stream st xs in
        let (text', st'') = d.decode_stream st' ys in
        d.decode_stream st (xs ++ ys) ≡ (text ++ text', st'')

-- The bytes of an answer that was cut into chunks.
unfoldable pub concat : List (List ℕ) → List ℕ
concat [] = []
concat (chunk ∷ chunks) = chunk ++ concat chunks

unfoldable pub pushes :
    (p : Parsers) (d : Decoder) → RagStreamDecoder p d → List (List ℕ) → RagStreamDecoder p d
pushes p d s [] = s
pushes p d s (chunk ∷ chunks) = pushes p d (push p d s chunk) chunks

module _ (p : Parsers) where
  emit-append : (bs cs : List Text) → emit p (bs ++ cs) ≡ emit p bs ++ emit p cs
  unfolding emit
  emit-append [] cs = refl
  emit-append (b ∷ bs) cs = elim (Option-cases (parse_rag_stream_block p b)) [
    | inl e ↦ rw (emit, e, emit-append bs cs)
    | inr (v, e) ↦ rw (emit, e, emit-append bs cs)
  ]

  -- Without the test for an empty text.
  consume-split :
      (buffer text : Text)
      → find_break buffer ≡ none
      → consume p buffer text ≡ (emit p (split (buffer ++ text)).0, (split (buffer ++ text)).1)
  unfolding consume emit
  consume-split buffer [] h = rw (append-nil buffer, split-none buffer h)
  consume-split buffer (c ∷ s) h = refl

  consume-append :
      (buffer x y : Text)
      → find_break buffer ≡ none
      → let (es, b') = consume p buffer x in
        let (fs, b'') = consume p b' y in consume p buffer (x ++ y) ≡ (es ++ fs, b'')
  consume-append buffer x y h = rw (
    consume-split buffer x h,
    consume-split buffer (x ++ y) h,
    consume-split (split (buffer ++ x)).1 y (split_rest (buffer ++ x)),
    sym (append_assoc buffer x y),
    split-append (buffer ++ x) y,
    emit-append,
  )

  consume_rest :
      (buffer text : Text) → find_break buffer ≡ none → find_break (consume p buffer text).1 ≡ none
  consume_rest buffer text h = rw (consume-split buffer text h) (split_rest (buffer ++ text))

  module _ (d : Decoder) (law : IsIncremental d) where
    push_empty : (s : RagStreamDecoder p d) → push p d s [] ≡ s
    unfolding push
    push_empty s = rw (law.decode_empty s.decoder, append-nil s.events)

    push-append :
        (s : RagStreamDecoder p d) (xs ys : List ℕ)
        → find_break s.buffer ≡ none
        → push p d (push p d s xs) ys ≡ push p d s (xs ++ ys)
    unfolding push
    push-append s xs ys h = rw (
      law.decode_append s.decoder xs ys,
      consume-append s.buffer (d.decode_stream s.decoder xs).0
          (d.decode_stream (d.decode_stream s.decoder xs).1 ys).0 h,
      append_assoc,
    )

    pushes_whole :
        (s : RagStreamDecoder p d) (chunks : List (List ℕ))
        → find_break s.buffer ≡ none
        → pushes p d s chunks ≡ push p d s (concat chunks)
    unfolding pushes concat push
    pushes_whole s [] h = sym (push_empty s)
    pushes_whole s (chunk ∷ chunks) h =
        pushes_whole (push p d s chunk) chunks (consume_rest s.buffer _ h)
        ∙ push-append s chunk (concat chunks) h

    -- However the network cuts the bytes of an answer, within a character or a line break included,
    -- the events that are given out until the end are those of the whole, where the decoder of texts
    -- is one that takes bytes in parts.
    pub finish-pushes :
        (st : d.State) (chunks : List (List ℕ))
        → finish p d (pushes p d (create_rag_stream_decoder p d st) chunks)
          ≡ finish p d (push p d (create_rag_stream_decoder p d st) (concat chunks))
    unfolding find_break
    finish-pushes st chunks =
        ap (finish p d) (pushes_whole (create_rag_stream_decoder p d st) chunks refl)
