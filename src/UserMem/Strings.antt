-- ===== src/UserMem/Strings.antt =====
-- What the check of a user string promises.
use nos.Prelude.{
  ℕ, zero, suc, ◌+◌, ◌-◌, ◌/◌, ◌%◌, ◌≤◌, ◌<◌, ◌^◌, ◌≡◌, ◌↔◌, ltb, min, true, false, Bool-cases, inl,
  inr, ap, ◌∙◌, sym, subst, ◌==◌, add32, arith,
}
use nos.UserMem.{Directory, user_ok, scan, str_loop, user_str_ok}
use nos.UserMem.Checks.{user_byte, Accessible, user_ok-Accessible, page-same}

-- A string with its closing 0 stands in the first `max` bytes from s on, all of which up to the 0
-- the program may read.
abbrev pub Terminated : Directory → (ℕ → ℕ) → ℕ → ℕ → Type 0
Terminated dir mem s max = (n : ℕ) × (n < max) × (mem (s + n) ≡ 0) × Accessible dir false s (suc n)

scan-found :
    (n : ℕ) (mem : ℕ → ℕ) (a : ℕ) → scan n mem a ≡ true → (i : ℕ) × (i < n) × (mem (a + i) ≡ 0)
unfolding scan
scan-found zero mem a h = absurd (ground arith)
scan-found (suc n) mem a h = elim (Bool-cases (mem a == 0)) [
  | inl e ↦ (0, omega arith, (let z : a + 0 ≡ a = omega arith in ap mem z ∙ ground arith))
  | inr e ↦
      let (i, lt, z) = scan-found n mem (a + 1) (ground arith) in
      let s : a + suc i ≡ a + 1 + i = omega arith in (suc i, omega arith, ap mem s ∙ z)
]

scan-finds : (n : ℕ) (mem : ℕ → ℕ) (a i : ℕ) → i < n → mem (a + i) ≡ 0 → scan n mem a ≡ true
unfolding scan
scan-finds zero mem a i lt z = absurd (omega arith)
scan-finds (suc n) mem a zero lt z =
    let e : a + 0 ≡ a = omega arith in let here = sym (ap mem e) ∙ z in ground arith
scan-finds (suc n) mem a (suc i) lt z =
    let e : a + suc i ≡ a + 1 + i = omega arith in
    let rest = scan-finds n mem (a + 1) i (omega arith) (sym (ap mem e) ∙ z) in ground arith

module _ (dir : Directory) where
  -- Bytes of one page are accessible together.
  user_byte-page :
      (x y : ℕ) → x / 4096 ≡ y / 4096 → user_byte dir false x ≡ true → user_byte dir false y ≡ true
  user_byte-page x y e h = let same = page-same dir false x y e in ground arith

  Accessible-append :
      (a c n : ℕ)
      → Accessible dir false a c
      → Accessible dir false (a + c) n
      → Accessible dir false a (c + n)
  Accessible-append a c n h k i lt = elim (Bool-cases (ltb i c)) [
    | inl e ↦ h i (ground arith)
    | inr e ↦
        let s : a + c + (i - c) ≡ a + i = ground arith in
        subst (λ x. user_byte dir false x ≡ true) s (k (i - c) (ground arith))
  ]

  chunk-Accessible :
      (a c : ℕ)
      → 0 < c
      → c ≤ 4096 - a % 4096
      → user_byte dir false a ≡ true
      → Accessible dir false a c
  chunk-Accessible a c some_byte fits h i lt = user_byte-page a (a + i) (omega arith) h

  str_loop-none : (mem : ℕ → ℕ) (f a max : ℕ) → max ≡ 0 → str_loop f dir mem a max ≡ true → ⊥
  unfolding str_loop
  str_loop-none mem zero a max e h = ground arith
  str_loop-none mem (suc f) a max e h = ground arith

  str_loop-zero : (mem : ℕ → ℕ) (a max : ℕ) → str_loop 0 dir mem a max ≡ true → ⊥
  unfolding str_loop
  str_loop-zero mem a max h = ground arith

  module _ (mem : ℕ → ℕ) (f a max : ℕ) where
    abbrev chunk : ℕ
    chunk = min (4096 - a % 4096) max

    str_loop-checks :
        0 < max → str_loop (suc f) dir mem a max ≡ true → user_ok dir a chunk false ≡ true
    unfolding str_loop
    str_loop-checks some_byte h = ground arith

    str_loop-ends :
        0 < max
        → user_ok dir a chunk false ≡ true
        → scan chunk mem a ≡ true
        → str_loop (suc f) dir mem a max ≡ true
    unfolding str_loop
    str_loop-ends some_byte ok e = ground arith

    str_loop-more :
        0 < max
        → user_ok dir a chunk false ≡ true
        → scan chunk mem a ≡ false
        → a + chunk < 2 ^ 32
        → str_loop (suc f) dir mem a max ≡ str_loop f dir mem (a + chunk) (max - chunk)
    unfolding str_loop
    str_loop-more some_byte ok e small =
        let s : add32 a chunk ≡ a + chunk = ground arith in
        sym (ground arith) ∙ ap (λ b. str_loop f dir mem b (max - chunk)) s

    -- A checked chunk ends inside the window.
    chunk-below : 0 < max → Accessible dir false a chunk → a + chunk < 2 ^ 32
    chunk-below some_byte k = let last = k (chunk - 1) (omega arith) in ground arith

  -- The loop accepts terminated strings alone.
  str_loop_sound :
      (mem : ℕ → ℕ) (f a max : ℕ)
      → a < 2 ^ 32
      → str_loop f dir mem a max ≡ true
      → Terminated dir mem a max
  str_loop_sound mem zero a max small h = absurd (str_loop-zero mem a max h)
  str_loop_sound mem (suc f) a max small h = elim (Bool-cases (ltb 0 max)) [
    | inr e ↦ absurd (str_loop-none mem (suc f) a max (ground arith) h)
    | inl e ↦
        let c = chunk mem f a max in
        let ok = str_loop-checks mem f a max (ground arith) h in
        let k = (user_ok-Accessible dir a c false (ground arith) small).0 ok in
        let below = chunk-below mem f a max (ground arith) k in
        elim (Bool-cases (scan c mem a)) [
          | inl found ↦
              let (i, lt, z) = scan-found c mem a found in
              (i, ground arith, z, λ j jlt. k j (ground arith))
          | inr more ↦
              let rest = sym (str_loop-more mem f a max (ground arith) ok more below) ∙ h in
              let (i, lt, z, k2) = str_loop_sound mem f (a + c) (max - c) below rest in
              let s : a + (c + i) ≡ a + c + i = omega arith in
              let t : c + suc i ≡ suc (c + i) = omega arith in
              (
                c + i,
                ground arith,
                ap mem s ∙ z,
                subst (λ n. Accessible dir false a n) t (Accessible-append a c (suc i) k k2),
              )
        ]
  ]

  -- And all of them, with as many rounds as bytes.
  str_loop_complete :
      (mem : ℕ → ℕ) (f a max : ℕ)
      → max ≤ f
      → a < 2 ^ 32
      → Terminated dir mem a max
      → str_loop f dir mem a max ≡ true
  str_loop_complete mem zero a max room small (n, lt, z, k) = absurd (omega arith)
  str_loop_complete mem (suc f) a max room small (n, lt, z, k) =
      let c = chunk mem f a max in
      let start : a + 0 ≡ a = omega arith in
      let first = subst (λ x. user_byte dir false x ≡ true) start (k 0 (omega arith)) in
      let kc = chunk-Accessible a c (omega arith) (omega arith) first in
      let ok = (user_ok-Accessible dir a c false (omega arith) small).1 kc in
      let below = chunk-below mem f a max (omega arith) kc in
      elim (Bool-cases (scan c mem a)) [
        | inl found ↦ str_loop-ends mem f a max (omega arith) ok found
        | inr more ↦ elim (Bool-cases (ltb n c)) [
          | inl e ↦ absurd (let found = scan-finds c mem a n (ground arith) z in ground arith)
          | inr e ↦
              let s : a + c + (n - c) ≡ a + n = ground arith in
              str_loop-more mem f a max (omega arith) ok more below
              ∙ str_loop_complete mem f (a + c) (max - c) (omega arith) below (
                n - c,
                ground arith,
                ap mem s ∙ z,
                λ i lt2.
                    let t : a + (c + i) ≡ a + c + i = omega arith in
                    subst (λ x. user_byte dir false x ≡ true) t (k (c + i) (ground arith)),
              )
        ]
      ]

-- For a 32-bit address user_str_ok holds just if a 0 stands among the first max bytes and the
-- program may read every byte up to and including it, in the user window.
pub user_str_ok-Terminated :
    (dir : Directory) (mem : ℕ → ℕ) (s max : ℕ)
    → s < 2 ^ 32
    → (user_str_ok dir mem s max ≡ true) ↔ Terminated dir mem s max
unfolding user_str_ok
user_str_ok-Terminated dir mem s max small = (
  str_loop_sound dir mem max s max small,
  str_loop_complete dir mem max s max (omega arith) small,
)
