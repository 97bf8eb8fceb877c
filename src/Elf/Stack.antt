-- ===== src/Elf/Stack.antt =====
-- The first stack of a program: its arguments, as the program reads them.
use nos.Prelude.{
  ℕ, suc, ◌+◌, ◌-◌, ◌*◌, ◌/◌, ◌%◌, ◌^◌, ◌≤◌, ◌<◌, ◌≡◌, ◌⊎◌, refl, sym, ap, ◌∙◌, subst, List, [],
  ◌∷◌, ◌++◌, length, All, length-append, inl, inr, arith, update,
}
use nos.Strings.{strlen, memset}
use nos.Elf.Segments.{le32-Agree}
use nos.Elf.{
  le32, word, put_bytes, put_word, put_words, put_strings, initial_stack, user_stack_top,
  user_stack_size,
}

-- The bytes stand at the address.
abbrev pub BytesAt : (ℕ → ℕ) → ℕ → List ℕ → Type 0
BytesAt mem a [] = Unit
BytesAt mem a (b ∷ s) = (mem a ≡ b) × BytesAt mem (a + 1) s

put_bytes-outside :
    (s : List ℕ) (mem : ℕ → ℕ) (a x : ℕ)
    → (x < a) ⊎ (a + length s ≤ x)
    → put_bytes mem a s x ≡ mem x
unfolding put_bytes
put_bytes-outside [] mem a x h = refl
put_bytes-outside (b ∷ s) mem a x h =
    let rest = put_bytes-outside s (update mem a b) (a + 1) x in
    elim h [
      | inl low ↦ rest (inl (omega arith)) ∙ ground arith
      | inr high ↦ rest (inr (omega arith)) ∙ ground arith
    ]

BytesAt-agree :
    (s : List ℕ) (m n : ℕ → ℕ) (a : ℕ)
    → ((y : ℕ) → a ≤ y → y < a + length s → m y ≡ n y)
    → BytesAt m a s
    → BytesAt n a s
BytesAt-agree [] m n a same h = tt
BytesAt-agree (b ∷ s) m n a same (h, rest) = (
  sym (same a (omega arith) (omega arith)) ∙ h,
  BytesAt-agree s m n (a + 1) (λ y lo hi. same y (omega arith) (omega arith)) rest,
)

put_bytes-BytesAt : (s : List ℕ) (mem : ℕ → ℕ) (a : ℕ) → BytesAt (put_bytes mem a s) a s
unfolding put_bytes
put_bytes-BytesAt [] mem a = tt
put_bytes-BytesAt (b ∷ s) mem a = (
  put_bytes-outside s (update mem a b) (a + 1) a (inl (omega arith)) ∙ ground arith,
  put_bytes-BytesAt s (update mem a b) (a + 1),
)

word-read : (mem : ℕ → ℕ) (a v : ℕ) → v < 2 ^ 32 → BytesAt mem a (word v) → le32 mem a ≡ v
word-read mem a v small (h0, (h1, (h2, (h3, h4)))) =
    let e2 : a + 1 + 1 ≡ a + 2 = omega arith in
    let e3 : a + 1 + 1 + 1 ≡ a + 2 + 1 = omega arith in
    let g2 : mem (a + 2) ≡ v / 65536 % 256 = ap mem (sym e2) ∙ h2 in
    let g3 : mem (a + 2 + 1) ≡ v / 16777216 % 256 = ap mem (sym e3) ∙ h3 in
    rw (h0, h1, g2, g3) (omega arith)

put_word-read : (mem : ℕ → ℕ) (a v : ℕ) → v < 2 ^ 32 → le32 (put_word mem a v) a ≡ v
put_word-read mem a v small =
    word-read (put_word mem a v) a v small (put_bytes-BytesAt (word v) mem a)

put_word-outside : (mem : ℕ → ℕ) (a v x : ℕ) → (x < a) ⊎ (a + 4 ≤ x) → put_word mem a v x ≡ mem x
put_word-outside mem a v x h = put_bytes-outside (word v) mem a x h

-- The words stand at the address, one behind the other.
abbrev pub WordsAt : (ℕ → ℕ) → ℕ → List ℕ → Type 0
WordsAt mem a [] = Unit
WordsAt mem a (v ∷ vs) = (le32 mem a ≡ v) × WordsAt mem (a + 4) vs

put_words-outside :
    (vs : List ℕ) (mem : ℕ → ℕ) (a x : ℕ)
    → (x < a) ⊎ (a + length vs * 4 ≤ x)
    → put_words mem a vs x ≡ mem x
unfolding put_words
put_words-outside [] mem a x h = refl
put_words-outside (v ∷ vs) mem a x h =
    let rest = put_words-outside vs (put_word mem a v) (a + 4) x in
    let one = put_word-outside mem a v x in
    elim h [
      | inl low ↦ rest (inl (omega arith)) ∙ one (inl low)
      | inr high ↦ rest (inr (omega arith)) ∙ one (inr (omega arith))
    ]

put_words-WordsAt :
    (vs : List ℕ) (mem : ℕ → ℕ) (a : ℕ)
    → All (λ v. v < 2 ^ 32) vs
    → WordsAt (put_words mem a vs) a vs
unfolding put_words
put_words-WordsAt [] mem a h = tt
put_words-WordsAt (v ∷ vs) mem a (small, h) = (
  le32-Agree (put_words (put_word mem a v) (a + 4) vs) (put_word mem a v) a
        (λ y lo hi. put_words-outside vs (put_word mem a v) (a + 4) y (inl (omega arith)))
      ∙ put_word-read mem a v small,
  put_words-WordsAt vs (put_word mem a v) (a + 4) h,
)

WordsAt-agree :
    (vs : List ℕ) (m n : ℕ → ℕ) (a : ℕ)
    → ((y : ℕ) → a ≤ y → y < a + length vs * 4 → m y ≡ n y)
    → WordsAt m a vs
    → WordsAt n a vs
WordsAt-agree [] m n a same h = tt
WordsAt-agree (v ∷ vs) m n a same (h, rest) = (
  sym (le32-Agree m n a (λ y lo hi. same y lo (omega arith))) ∙ h,
  WordsAt-agree vs m n (a + 4) (λ y lo hi. same y (omega arith) (omega arith)) rest,
)

-- The bytes that the texts take with their final 0.
abbrev pub text_bytes : List (List ℕ) → ℕ
text_bytes [] = 0
text_bytes (s ∷ args) = strlen s + 1 + text_bytes args

-- Each text stands between `low` and `top` at its address, with its final 0.
abbrev pub TextsAt : (ℕ → ℕ) → ℕ → ℕ → List ℕ → List (List ℕ) → Type 0
TextsAt mem low top [] [] = Unit
TextsAt mem low top [] (s ∷ args) = ⊥
TextsAt mem low top (u ∷ us) [] = ⊥
TextsAt mem low top (u ∷ us) (s ∷ args) =
    (low ≤ u)
    × (u + (strlen s + 1) ≤ top)
    × BytesAt mem u (s ++ (0 ∷ []))
    × TextsAt mem low top us args

length-text : (s : List ℕ) → length (s ++ (0 ∷ [])) ≡ strlen s + 1
unfolding strlen
length-text [] = refl
length-text (c ∷ s) = omega (arith, length-text s)

TextsAt-agree :
    (us : List ℕ) (args : List (List ℕ)) (m n : ℕ → ℕ) (low top low2 : ℕ)
    → low2 ≤ low
    → ((y : ℕ) → low ≤ y → y < top → m y ≡ n y)
    → TextsAt m low top us args
    → TextsAt n low2 top us args
TextsAt-agree [] [] m n low top low2 le same h = tt
TextsAt-agree [] (s ∷ args) m n low top low2 le same h = absurd h
TextsAt-agree (u ∷ us) [] m n low top low2 le same h = absurd h
TextsAt-agree (u ∷ us) (s ∷ args) m n low top low2 le same (a, b, c, rest) =
    let l : length (s ++ (0 ∷ [])) ≡ strlen s + 1 = length-text s in
    (
      omega arith,
      b,
      BytesAt-agree (s ++ (0 ∷ [])) m n u (λ y lo hi. same y (omega arith) (omega arith)) c,
      TextsAt-agree us args m n low top low2 le same rest,
    )

put_strings-TextsAt :
    (args : List (List ℕ)) (usp top : ℕ) (mem : ℕ → ℕ)
    → text_bytes args ≤ usp
    → usp ≤ top
    → let p = put_strings args usp mem in
      (p.1 ≡ usp - text_bytes args)
      × (length p.0 ≡ length args)
      × TextsAt p.2 (usp - text_bytes args) top p.0 args
      × ((x : ℕ) → (x < usp - text_bytes args) ⊎ (usp ≤ x) → p.2 x ≡ mem x)
unfolding put_strings
put_strings-TextsAt [] usp top mem fits le = (omega arith, refl, tt, λ x h. refl)
put_strings-TextsAt (s ∷ args) usp top mem fits le =
    let t = usp - (strlen s + 1) in
    let now = put_bytes mem t (s ++ (0 ∷ [])) in
    let l = length-text s in
    let (low, count, texts, out) = put_strings-TextsAt args t top now (omega arith) (omega arith) in
    let p = put_strings args t now in
    let same : usp - (strlen s + 1 + text_bytes args) ≡ t - text_bytes args = omega arith in
    (
      low ∙ sym same,
      ap suc count,
      (
        omega arith,
        omega arith,
        BytesAt-agree (s ++ (0 ∷ [])) now p.2 t (λ y lo hi. sym (out y (inr lo)))
            (put_bytes-BytesAt (s ++ (0 ∷ [])) mem t),
        TextsAt-agree p.0 args p.2 p.2 (t - text_bytes args) top
            (usp - (strlen s + 1 + text_bytes args)) (omega arith) (λ y lo hi. refl) texts,
      ),
      λ x h. elim h [
        | inl a ↦
            out x (inl (omega arith))
            ∙ put_bytes-outside (s ++ (0 ∷ [])) mem t x (inl (omega arith))
        | inr b ↦
            out x (inr (omega arith))
            ∙ put_bytes-outside (s ++ (0 ∷ [])) mem t x (inr (omega arith))
      ],
    )

addresses-small :
    (us : List ℕ) (args : List (List ℕ)) (mem : ℕ → ℕ) (low top : ℕ)
    → top < 2 ^ 32
    → TextsAt mem low top us args
    → All (λ v. v < 2 ^ 32) (us ++ (0 ∷ []))
addresses-small [] [] mem low top small h = (omega arith, tt)
addresses-small [] (s ∷ args) mem low top small h = absurd h
addresses-small (u ∷ us) [] mem low top small h = absurd h
addresses-small (u ∷ us) (s ∷ args) mem low top small (a, b, c, rest) =
    (omega arith, addresses-small us args mem low top small rest)

-- What `_start` finds: a return address of 0, the number of the arguments, and a table of their
-- addresses that ends with 0, on a stack that starts at `esp`.
abbrev pub Started : (ℕ → ℕ) → ℕ → List (List ℕ) → Type 0
Started mem esp args =
    (esp % 4 ≡ 0)
    × (user_stack_top - user_stack_size ≤ esp)
    × (le32 mem esp ≡ 0)
    × (le32 mem (esp + 4) ≡ length args)
    × (le32 mem (esp + 8) ≡ esp + 12)
    × ((us : List ℕ) × WordsAt mem (esp + 12) (us ++ (0 ∷ []))
        × (length us ≡ length args)
        × TextsAt mem (esp + 12 + (length args + 1) * 4) user_stack_top us args)

-- The words below the strings, where `u` is the place of the table.
module _ (m : ℕ → ℕ) (us : List ℕ) (args : List (List ℕ)) (low e u p q : ℕ) (at_u : u ≡ e + 12)
    (at_p : p ≡ e + 8) (at_q : q ≡ e + 4) (bound : low ≤ user_stack_top)
    (room : u + (length args + 1) * 4 ≤ low) (count : length us ≡ length args)
    (texts : TextsAt m low user_stack_top us args) (few : length args ≤ 16) where
  abbrev table : ℕ → ℕ
  table = put_words m u (us ++ (0 ∷ []))

  abbrev with_argv : ℕ → ℕ
  with_argv = put_word table p u

  abbrev with_argc : ℕ → ℕ
  with_argc = put_word with_argv q (length args)

  abbrev filled : ℕ → ℕ
  filled = put_word with_argc e 0

  words : length (us ++ (0 ∷ [])) ≡ length args + 1
  words = length-append us (0 ∷ []) ∙ omega (arith, count)

  -- Above the three words only the table is written.
  filled-table : (y : ℕ) → u ≤ y → filled y ≡ table y
  filled-table y h =
      put_word-outside with_argc e 0 y (inr (omega arith))
      ∙ put_word-outside with_argv q (length args) y (inr (omega arith))
      ∙ put_word-outside table p u y (inr (omega arith))

  filled-argc : le32 filled (e + 4) ≡ length args
  filled-argc =
      ap (le32 filled) (sym at_q)
      ∙ le32-Agree filled with_argc q
          (λ y lo hi. put_word-outside with_argc e 0 y (inr (omega arith)))
      ∙ put_word-read with_argv q (length args) (omega arith)

  filled-argv : le32 filled (e + 8) ≡ e + 12
  filled-argv =
      ap (le32 filled) (sym at_p)
      ∙ le32-Agree filled with_argv p (λ y lo hi.
        put_word-outside with_argc e 0 y (inr (omega arith))
        ∙ put_word-outside with_argv q (length args) y (inr (omega arith)))
      ∙ put_word-read table p u (omega arith)
      ∙ at_u

  filled-words : WordsAt filled u (us ++ (0 ∷ []))
  filled-words =
      WordsAt-agree (us ++ (0 ∷ [])) table filled u (λ y lo hi. sym (filled-table y lo))
        (put_words-WordsAt (us ++ (0 ∷ [])) m u
          (addresses-small us args m low user_stack_top (omega arith) texts))

  filled-texts : TextsAt filled (e + 12 + (length args + 1) * 4) user_stack_top us args
  filled-texts =
      TextsAt-agree us args m filled low user_stack_top (e + 12 + (length args + 1) * 4)
        (omega arith)
        (λ y lo hi.
          let w = words in
          sym (
            filled-table y (omega arith)
            ∙ put_words-outside (us ++ (0 ∷ [])) m u y (inr (omega arith))))
        texts

  filled-Started : e % 4 ≡ 0 → user_stack_top - user_stack_size ≤ e → Started filled e args
  filled-Started aligned above = (
    aligned,
    above,
    put_word-read with_argc e 0 (omega arith),
    filled-argc,
    filled-argv,
    (us, subst (λ a. WordsAt filled a (us ++ (0 ∷ []))) at_u filled-words, count, filled-texts),
  )

module _ (args : List (List ℕ)) (mem0 : ℕ → ℕ) (few : length args ≤ 16)
    (short : text_bytes args ≤ 1024) where
  abbrev cleared : ℕ → ℕ
  cleared = memset mem0 (user_stack_top - user_stack_size) 0 user_stack_size

  pub initial_stack-Started : Started (initial_stack args mem0).1 (initial_stack args mem0).0 args
  unfolding initial_stack
  initial_stack-Started =
      let (low_is, count, texts, out) =
        put_strings-TextsAt args user_stack_top user_stack_top cleared (omega arith)
          (omega arith) in
      let p = put_strings args user_stack_top cleared in
      let low : p.1 ≡ user_stack_top - text_bytes args = low_is in
      let u = p.1 / 4 * 4 - (length args + 1) * 4 in
      filled-Started p.2 p.0 args (user_stack_top - text_bytes args) (u - 12) u (u - 4) (u - 8)
        (omega (arith, low)) (omega (arith, low)) (omega (arith, low)) (omega arith)
        (omega (arith, low)) count texts few (omega (arith, low)) (omega (arith, low))
