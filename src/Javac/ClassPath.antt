-- ===== src/Javac/ClassPath.antt =====
-- The class path that `handle_class_path` builds, and the room that it needs.
use cc_base.Base.{
  ℕ, suc, ◌+◌, ◌*◌, ◌≤◌, true, Option, none, some, List, [], ◌∷◌, ◌++◌, ◌≡◌, refl, sym, ap, ◌∙◌,
  inl, inr, arith, length, length-append, take-append, get_elem?, Option-cases, append-nil,
  append_assoc, ◌>>=◌,
}
use cc_base.Cstring.{Bytes, strtok}
use cc_base.Paths.{make_path_abs}
use cc_base.Host.{Host}
use cc_base.Tool.{colon}
use cc_base.Tool.Programs.{program_list}
use cc_base.Javac.{
  Buffer, Expansion, expanded, kept, out_of_bounds, cut_colon, make_room, append_path, append_words,
  append_parts, handle_class_path,
}

-- The text and its final zero are counted, and fit the buffer.
pub record Fits (b : Buffer) : Type 0 where
  pub counted : length b.text + 1 ≤ b.curr_size
  pub room : b.curr_size ≤ b.size

colonized : List Bytes → Bytes
colonized [] = []
colonized (path ∷ paths) = path ++ colon ∷ colonized paths

abbrev text_of : Option Buffer → Option Bytes
text_of none = none
text_of (some b) = some b.text

colonized-append : (ps qs : List Bytes) → colonized (ps ++ qs) ≡ colonized ps ++ colonized qs
unfolding colonized
colonized-append [] qs = refl
colonized-append (p ∷ ps) qs =
    rw (colonized-append ps qs) (sym (append_assoc p (colon ∷ colonized ps) (colonized qs)))

length-snoc : (text : Bytes) → length (text ++ colon ∷ []) ≡ suc (length text)
length-snoc [] = refl
length-snoc (c ∷ text) = ap suc (length-snoc text)

get_elem?-snoc : (text : Bytes) → get_elem? (text ++ colon ∷ []) (length text) ≡ some colon
get_elem?-snoc [] = refl
get_elem?-snoc (c ∷ text) = get_elem?-snoc text

cut_colon-snoc : (text : Bytes) → cut_colon (text ++ colon ∷ []) ≡ expanded text
unfolding cut_colon
cut_colon-snoc [] = refl
cut_colon-snoc (c ∷ text) =
    rw (cut_colon, length-snoc text, get_elem?-snoc text, length-snoc text)
      (ap (λ l. expanded (c ∷ l)) (take-append text (colon ∷ [])))

colonized-program_list :
    (p : Bytes) (ps : List Bytes) → colonized (p ∷ ps) ≡ program_list (p ∷ ps) ++ colon ∷ []
unfolding colonized program_list
colonized-program_list p [] = refl
colonized-program_list p (q ∷ ps) =
    rw (append_assoc p (colon ∷ program_list (q ∷ ps)) (colon ∷ []))
      (ap (λ l. p ++ colon ∷ l) (colonized-program_list q ps))

joined :
    (text : Bytes) (ps : List Bytes) (rest : Option (List Bytes))
    → (rest >>= λ qs. some ((text ++ colonized ps) ++ colonized qs))
      ≡ ((rest >>= λ qs. some (ps ++ qs)) >>= λ qs. some (text ++ colonized qs))
joined text ps none = refl
joined text ps (some qs) = ap some (
    append_assoc text (colonized ps) (colonized qs) ∙ ap (◌++◌ text) (sym (colonized-append ps qs)))

-- What is left in the buffer, given the files found.
abbrev pub outcome : Bytes → Option (List Bytes) → Expansion
outcome cp none = kept cp
outcome cp (some []) = out_of_bounds
outcome cp (some (p ∷ ps)) = expanded (program_list (p ∷ ps))

no_text :
    (cp : Bytes) (o : Option (List Bytes))
    → none ≡ (o >>= λ ps. some (colonized ps))
    → kept cp ≡ outcome cp o
no_text cp none h = refl
no_text cp (some ps) h = cc

nil_text : (text : Bytes) → some text ≡ some (colonized []) → text ≡ []
unfolding colonized
nil_text text h = ground arith

cut_colon-nil : cut_colon [] ≡ out_of_bounds
unfolding cut_colon
cut_colon-nil = refl

some_text :
    (cp text : Bytes) (o : Option (List Bytes))
    → some text ≡ (o >>= λ ps. some (colonized ps))
    → cut_colon text ≡ outcome cp o
some_text cp text none h = cc
some_text cp text (some []) h = rw (nil_text text h) cut_colon-nil
some_text cp text (some (p ∷ ps)) h =
    let e : text ≡ colonized (p ∷ ps) = ground (arith, h) in
    rw (e, colonized-program_list p ps) (cut_colon-snoc (program_list (p ∷ ps)))

module _ (host : Host) where
  append_path-Fits :
      (path : Bytes) (b b' : Buffer) → Fits b → append_path host path b ≡ some b' → Fits b'
  unfolding append_path make_room
  append_path-Fits path b b' f h =
      ground (arith, length-append b.text (path ++ colon ∷ []), length-append path (colon ∷ []))

  append_words-Fits :
      (words : List Bytes) (b b' : Buffer) → Fits b → append_words host words b ≡ some b' → Fits b'
  unfolding append_words
  append_words-Fits [] b b' f h = ground arith
  append_words-Fits (word ∷ words) b b' f h =
      elim (Option-cases (make_path_abs host.fs word true)) [
        | inl e ↦ append_words-Fits words b b' f (ground (arith, e, h))
        | inr (path, e) ↦ elim (Option-cases (append_path host path b)) [
          | inl g ↦ absurd (ground (arith, e, g, h))
          | inr (c, g) ↦
              append_words-Fits words c b' (append_path-Fits path b c f g) (ground (arith, e, g, h))
        ]
      ]

  append_parts-Fits :
      (parts : List Bytes) (b b' : Buffer) → Fits b → append_parts host parts b ≡ some b' → Fits b'
  unfolding append_parts
  append_parts-Fits [] b b' f h = ground arith
  append_parts-Fits (part ∷ parts) b b' f h = elim (Option-cases (host.wordexp part)) [
    | inl e ↦ absurd (ground (arith, e, h))
    | inr (words, e) ↦ elim (Option-cases (append_words host words b)) [
      | inl g ↦ absurd (ground (arith, e, g, h))
      | inr (c, g) ↦
          append_parts-Fits parts c b' (append_words-Fits words b c f g) (ground (arith, e, g, h))
    ]
  ]

  -- Whatever the class path and whenever memory is granted, the text that is built and its final
  -- zero fit the buffer, which begins with room for one byte at least.
  pub append_parts_in_bounds :
      (parts : List Bytes) (size : ℕ) (b : Buffer)
      → 1 ≤ size
      → append_parts host parts (record { text = []; size = size; curr_size = 1 }) ≡ some b
      → length b.text + 1 ≤ b.size
  append_parts_in_bounds parts size b h e =
      let f = append_parts-Fits parts _ b (record { counted = omega arith; room = h }) e in
      omega (arith, f.counted, f.room)

  -- The existing files among the words.
  pub word_paths : List Bytes → List Bytes
  word_paths [] = []
  word_paths (word ∷ words) = elim (make_path_abs host.fs word true) [
    | none ↦ word_paths words
    | some path ↦ path ∷ word_paths words
  ]

  -- The files of the whole class path, or none if a part cannot be expanded.
  pub resolved : List Bytes → Option (List Bytes)
  resolved [] = some []
  resolved (part ∷ parts) = do
    words ← host.wordexp part
    rest ← resolved parts
    some (word_paths words ++ rest)

  module _ (granted : (n : ℕ) → host.grants n ≡ true) where
    text-append_path :
        (path : Bytes) (b : Buffer)
        → text_of (append_path host path b) ≡ some (b.text ++ (path ++ colon ∷ []))
    unfolding append_path make_room
    text-append_path path b = ground (arith, granted ((b.curr_size + (length path + 1)) * 2))

    text-append_words :
        (words : List Bytes) (b : Buffer)
        → text_of (append_words host words b) ≡ some (b.text ++ colonized (word_paths words))
    unfolding append_words word_paths colonized
    text-append_words [] b = ap some (sym (append-nil b.text))
    text-append_words (word ∷ words) b = elim (Option-cases (make_path_abs host.fs word true)) [
      | inl e ↦ rw (append_words, word_paths, e) (text-append_words words b)
      | inr (path, e) ↦ elim (Option-cases (append_path host path b)) [
        | inl g ↦ absurd (ground (arith, g, text-append_path path b))
        | inr (c, g) ↦
            let t : c.text ≡ b.text ++ (path ++ colon ∷ []) =
              ground (arith, g, text-append_path path b) in
            rw (append_words, word_paths, e, g)
              (text-append_words words c
                ∙ ap some (
                    rw t (
                      append_assoc b.text (path ++ colon ∷ []) _
                      ∙ ap (◌++◌ b.text) (append_assoc path (colon ∷ []) _))))
      ]
    ]

    text-append_parts :
        (parts : List Bytes) (b : Buffer)
        → text_of (append_parts host parts b)
          ≡ (resolved parts >>= λ ps. some (b.text ++ colonized ps))
    unfolding append_parts resolved colonized
    text-append_parts [] b = ap some (sym (append-nil b.text))
    text-append_parts (part ∷ parts) b = elim (Option-cases (host.wordexp part)) [
      | inl e ↦ rw e
      | inr (words, e) ↦ elim (Option-cases (append_words host words b)) [
        | inl g ↦ absurd (ground (arith, g, text-append_words words b))
        | inr (c, g) ↦
            let t : c.text ≡ b.text ++ colonized (word_paths words) =
              ground (arith, g, text-append_words words b) in
            rw (e, g)
              (text-append_parts parts c ∙ rw t (joined b.text (word_paths words) (resolved parts)))
      ]
    ]

    -- With memory at hand the class path becomes the existing files that its parts expand to, with
    -- a colon between each two. It stays as given if a part cannot be expanded, and if no file
    -- exists, then the byte before the buffer is read.
    pub handle_class_path_lem :
        (size : ℕ) (cp : Bytes)
        → handle_class_path host size cp ≡ outcome cp (resolved (strtok colon cp))
    unfolding handle_class_path
    handle_class_path_lem size cp =
        let b : Buffer = record { text = []; size = size; curr_size = 1 } in
        let t = text-append_parts (strtok colon cp) b in
        elim (Option-cases (append_parts host (strtok colon cp) b)) [
          | inl e ↦
              rw (handle_class_path, e)
                (no_text cp (resolved (strtok colon cp)) (ground (arith, e, t)))
          | inr (c, e) ↦
              rw (handle_class_path, e)
                (some_text cp c.text (resolved (strtok colon cp)) (ground (arith, e, t)))
        ]
