-- ===== src/Frames/Bitmap.antt =====
-- The bitmap as a set of frames.
use nos.Prelude.{
  ℕ, zero, suc, ◌+◌, ◌-◌, ◌*◌, ◌/◌, ◌%◌, ◌^◌, ◌≤◌, ◌<◌, ◌≡◌, refl, sym, ap, ◌∙◌, min, max, ltb,
  Option, none, some, Bool, true, false, if◌then◌else◌, ◌==◌, bit_and, bit_or, bit, bit-and, bit-or,
  bit-two, bit-one, bit-others, and_power, inl, inr, Bool-cases, Option-cases, ==_iff, passes_below,
  passes_below_lem, arith, subst,
}
use nos.Frames.{Frames, set_frame, clear_frame, first_bit, first_word, first_frame}

-- 1 if the frame is taken, else 0.
abbrev pub taken : Frames → ℕ → ℕ
taken s f = bit (s.frames (f / 32)) (f % 32)

module _ (s : Frames) (f g : ℕ) where
  same_place : (f / 32 == g / 32) ≡ true → (f % 32 == g % 32) ≡ (f == g)
  same_place h = ground arith

  other_word : (f / 32 == g / 32) ≡ false → (f == g) ≡ false
  other_word h = ground arith

  word_same : (f / 32 == g / 32) ≡ true → bit (s.frames (f / 32)) (g % 32) ≡ taken s g
  word_same h =
      let word : f / 32 ≡ g / 32 = ground arith in ap (λ k. bit (s.frames k) (g % 32)) word

  pub set_frame-taken : taken (set_frame s (f * 4096)) g ≡ (if f == g then 1 else taken s g)
  unfolding set_frame
  set_frame-taken =
      let e : f * 4096 / 4096 ≡ f = omega arith in
      ap
        (λ k.
          bit
            (if k / 32 == g / 32
              then bit_or (s.frames (k / 32)) (2 ^ (k % 32))
              else s.frames (g / 32))
            (g % 32))
        e
      ∙ elim (Bool-cases (f / 32 == g / 32)) [
        | inl h ↦ rw h (
            bit-or (g % 32) (s.frames (f / 32)) (2 ^ (f % 32))
            ∙ ap (max (bit (s.frames (f / 32)) (g % 32)))
                (bit-one (f % 32) (g % 32) (omega arith) (omega arith))
            ∙ (let t = word_same h in
                let u = bit-two (g % 32) (s.frames (g / 32)) in
                let w = same_place h in ground arith))
        | inr h ↦ rw (h, other_word h) refl
      ]

  pub clear_frame-taken : taken (clear_frame s (f * 4096)) g ≡ (if f == g then 0 else taken s g)
  unfolding clear_frame
  clear_frame-taken =
      let e : f * 4096 / 4096 ≡ f = omega arith in
      ap
        (λ k.
          bit
            (if k / 32 == g / 32
              then bit_and (s.frames (k / 32)) (2 ^ 32 - 1 - 2 ^ (k % 32))
              else s.frames (g / 32))
            (g % 32))
        e
      ∙ elim (Bool-cases (f / 32 == g / 32)) [
        | inl h ↦ rw h (
            bit-and (g % 32) (s.frames (f / 32)) (2 ^ 32 - 1 - 2 ^ (f % 32))
            ∙ ap (min (bit (s.frames (f / 32)) (g % 32)))
                (bit-others (f % 32) (g % 32) (omega arith) (omega arith))
            ∙ (let t = word_same h in
                let u = bit-two (g % 32) (s.frames (g / 32)) in
                let w = same_place h in ground arith))
        | inr h ↦ rw (h, other_word h) refl
      ]

-- The first place from j on whose digit is 0.
abbrev FirstBit : ℕ → ℕ → ℕ → Option ℕ → Type 0
FirstBit n j word none = (k : ℕ) → j ≤ k → k < j + n → bit word k ≡ 1
FirstBit n j word (some k) =
    (j ≤ k) × (k < j + n) × (bit word k ≡ 0) × ((i : ℕ) → j ≤ i → i < k → bit word i ≡ 1)

first_bit-step :
    (n j word : ℕ)
    → first_bit (suc n) j word ≡ (if bit word j == 0 then some j else first_bit n (j + 1) word)
unfolding first_bit
first_bit-step n j word =
    ap (λ b. if b then some j else first_bit n (j + 1) word) (and_power j word)

FirstBit-later :
    (n j word : ℕ) (o : Option ℕ)
    → bit word j ≡ 1
    → FirstBit n (j + 1) word o
    → FirstBit (suc n) j word o
FirstBit-later n j word none e h = λ k lo hi. elim (Bool-cases (k == j)) [
  | inl same ↦ let s : k ≡ j = ground arith in ap (bit word) s ∙ e
  | inr other ↦ h k (ground arith) (ground arith)
]
FirstBit-later n j word (some k) e (lo, hi, z, before) = (
  omega arith,
  omega arith,
  z,
  λ i a b. elim (Bool-cases (i == j)) [
    | inl same ↦ let s : i ≡ j = ground arith in ap (bit word) s ∙ e
    | inr other ↦ before i (ground arith) b
  ],
)

first_bit-FirstBit : (n j word : ℕ) → FirstBit n j word (first_bit n j word)
unfolding first_bit
first_bit-FirstBit zero j word = λ k lo hi. absurd (omega arith)
first_bit-FirstBit (suc n) j word =
    subst (FirstBit (suc n) j word) (sym (first_bit-step n j word))
      (elim (Bool-cases (bit word j == 0)) [
        | inl e ↦ rw e (omega arith, omega arith, ground arith, λ i a b. absurd (omega arith))
        | inr e ↦ rw e (
            FirstBit-later n j word (first_bit n (j + 1) word)
              (let t = bit-two j word in ground arith) (first_bit-FirstBit n (j + 1) word))
      ])

-- The first free frame of a range.
abbrev pub FirstFree : Frames → ℕ → ℕ → Option ℕ → Type 0
FirstFree s lo hi none = (f : ℕ) → lo ≤ f → f < hi → taken s f ≡ 1
FirstFree s lo hi (some f) =
    (lo ≤ f) × (f < hi) × (taken s f ≡ 0) × ((g : ℕ) → lo ≤ g → g < f → taken s g ≡ 1)

full_table : passes_below (λ k. bit 0xFFFFFFFF k == 1) 32 ≡ true
unfolding passes_below
full_table = refl

full-bit : (k : ℕ) → k < 32 → bit 0xFFFFFFFF k ≡ 1
full-bit k h = (==_iff _ _).0 (passes_below_lem (λ k. bit 0xFFFFFFFF k == 1) full_table h)

module _ (s : Frames) where
  abbrev is_full : ℕ → Bool
  is_full i = s.frames i == 0xFFFFFFFF

  first_word-found :
      (n i j : ℕ)
      → is_full i ≡ false
      → first_bit 32 0 (s.frames i) ≡ some j
      → first_word (suc n) i s ≡ some (i * 4 * 8 + j)
  unfolding first_word
  first_word-found n i j e f = ground arith

  first_word-full : (n i : ℕ) → is_full i ≡ true → first_word (suc n) i s ≡ first_word n (i + 1) s
  unfolding first_word
  first_word-full n i e = ground arith

  first_word-none :
      (n i : ℕ)
      → is_full i ≡ false
      → first_bit 32 0 (s.frames i) ≡ none
      → first_word (suc n) i s ≡ first_word n (i + 1) s
  unfolding first_word
  first_word-none n i e f = ground arith

  in_word : (i k : ℕ) → k < 32 → taken s (i * 4 * 8 + k) ≡ bit (s.frames i) k
  in_word i k h =
      let a : (i * 4 * 8 + k) / 32 ≡ i = omega arith in
      let b : (i * 4 * 8 + k) % 32 ≡ k = omega arith in
      ap (λ w. bit (s.frames w) ((i * 4 * 8 + k) % 32)) a ∙ ap (bit (s.frames i)) b

  -- A word of taken frames is passed over.
  FirstFree-later :
      (n i : ℕ) (o : Option ℕ)
      → ((k : ℕ) → k < 32 → bit (s.frames i) k ≡ 1)
      → FirstFree s (32 * (i + 1)) (32 * (i + 1 + n)) o
      → FirstFree s (32 * i) (32 * (i + suc n)) o
  FirstFree-later n i o full rest = later o rest
    where
      word : (f : ℕ) → 32 * i ≤ f → f < 32 * (i + 1) → taken s f ≡ 1
      word f a b =
          let p : i * 4 * 8 + f % 32 ≡ f = omega arith in
          ap (taken s) (sym p) ∙ in_word i (f % 32) (omega arith) ∙ full (f % 32) (omega arith)

      later :
          (o : Option ℕ)
          → FirstFree s (32 * (i + 1)) (32 * (i + 1 + n)) o
          → FirstFree s (32 * i) (32 * (i + suc n)) o
      later none h = λ f a b. elim (Bool-cases (ltb f (32 * (i + 1)))) [
        | inl e ↦ word f a (ground arith)
        | inr e ↦ h f (ground arith) (omega arith)
      ]
      later (some f) (a, b, z, before) = (
        omega arith,
        omega arith,
        z,
        λ g c d. elim (Bool-cases (ltb g (32 * (i + 1)))) [
          | inl e ↦ word g c (ground arith)
          | inr e ↦ before g (ground arith) d
        ],
      )

  first_word-FirstFree : (n i : ℕ) → FirstFree s (32 * i) (32 * (i + n)) (first_word n i s)
  unfolding first_word
  first_word-FirstFree zero i = λ f a b. absurd (omega arith)
  first_word-FirstFree (suc n) i =
      let ih = first_word-FirstFree n (i + 1) in
      elim (Bool-cases (is_full i)) [
        | inl e ↦
            let w : s.frames i ≡ 0xFFFFFFFF = (==_iff _ _).0 e in
            subst (FirstFree s (32 * i) (32 * (i + suc n))) (sym (first_word-full n i e)) (
              FirstFree-later n i (first_word n (i + 1) s)
                (λ k h. ap (λ v. bit v k) w ∙ full-bit k h) ih)
        | inr e ↦ elim (Option-cases (first_bit 32 0 (s.frames i))) [
          | inl f ↦
              let all =
                subst (FirstBit 32 0 (s.frames i)) f (first_bit-FirstBit 32 0 (s.frames i)) in
              subst (FirstFree s (32 * i) (32 * (i + suc n))) (sym (first_word-none n i e f)) (
                FirstFree-later n i (first_word n (i + 1) s)
                  (λ k h. all k (omega arith) (omega arith)) ih)
          | inr (j, f) ↦
              let (a, b, z, before) =
                subst (FirstBit 32 0 (s.frames i)) f (first_bit-FirstBit 32 0 (s.frames i)) in
              subst (FirstFree s (32 * i) (32 * (i + suc n))) (sym (first_word-found n i j e f)) (
                omega arith,
                omega arith,
                in_word i j (omega arith) ∙ z,
                λ g c d.
                    let p : i * 4 * 8 + g % 32 ≡ g = omega arith in
                    ap (taken s) (sym p)
                    ∙ in_word i (g % 32) (omega arith)
                    ∙ before (g % 32) (omega arith) (omega arith),
              )
        ]
      ]

  -- `first_frame` finds the lowest free frame, or all frames of whole words are taken.
  pub first_frame-FirstFree : FirstFree s 0 (32 * (s.nframes / 32)) (first_frame s)
  unfolding first_frame
  first_frame-FirstFree =
      let a : 32 * 0 ≡ 0 = omega arith in
      let b : 32 * (0 + s.nframes / 32) ≡ 32 * (s.nframes / 32) = omega arith in
      subst (λ lo. FirstFree s lo (32 * (s.nframes / 32)) (first_word (s.nframes / 32) 0 s)) a
        (subst (λ hi. FirstFree s (32 * 0) hi (first_word (s.nframes / 32) 0 s)) b
          (first_word-FirstFree (s.nframes / 32) 0))
