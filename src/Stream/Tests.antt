-- ===== src/Stream/Tests.antt =====
-- An answer in ASCII, cut in the middle of a line break.
use notes_of_ashen.Base.{ℕ, codes, [], List, ◌∷◌, none, trim, starts_with, ◌≡◌, refl}
use notes_of_ashen.Stream.{Parsers, Decoder, delta, create_rag_stream_decoder, push, finish, emit}
use notes_of_ashen.Stream.Split.{split, find_break}
use notes_of_ashen.Stream.Laws.{IsIncremental, pushes, concat, finish-pushes}

-- Every text is plain.
abbrev pub plain : Parsers
plain = record { parse_json = λ s. none; number = λ v. none }

abbrev pub ascii : Decoder
ascii = record { State = Unit {0}; decode_stream = λ st xs. (xs, st); decode_end = λ st. [] }

pub ascii-IsIncremental : IsIncremental ascii
ascii-IsIncremental = record { decode_empty = λ st. refl; decode_append = λ st xs ys. refl }

abbrev parts : List (List ℕ)
parts = codes "event: delta\r\ndata: a\ndata:  b\r" ∷ codes "\n\r" ∷ codes "\n: ping\n\ndata:c" ∷ []

given :
    finish plain ascii (pushes plain ascii (create_rag_stream_decoder plain ascii tt) parts)
    ≡ delta (codes "a\n b") ∷ delta (codes "c") ∷ []
unfolding finish pushes push split find_break emit trim starts_with
given = refl

finish-pushes_example :
    finish plain ascii (pushes plain ascii (create_rag_stream_decoder plain ascii tt) parts)
    ≡ finish plain ascii
        (push plain ascii (create_rag_stream_decoder plain ascii tt) (concat parts))
finish-pushes_example = finish-pushes plain ascii ascii-IsIncremental tt parts
