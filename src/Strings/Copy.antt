-- ===== src/Strings/Copy.antt =====
-- What `memcpy` leaves in memory, and `strncpy` in a buffer.
use nos.Prelude.{
  ℕ, zero, suc, ◌+◌, ◌-◌, ◌≤◌, ◌<◌, ◌≡◌, ◌⊎◌, refl, sym, ap, ◌∙◌, ltb, leb, inl, inr, Bool-cases,
  if◌then◌else◌, ◌&&◌, update, arith,
}
use nos.Strings.{memcpy}

pub memcpy-outside :
    (n dst src : ℕ) (mem : ℕ → ℕ) (a : ℕ)
    → (a < dst) ⊎ (dst + n ≤ a)
    → memcpy mem dst src n a ≡ mem a
unfolding memcpy
memcpy-outside zero dst src mem a h = refl
memcpy-outside (suc n) dst src mem a h =
    let rest = memcpy-outside n (dst + 1) (src + 1) (update mem dst (mem src)) a in
    elim h [
      | inl low ↦ rest (inl (omega arith)) ∙ ground arith
      | inr high ↦ rest (inr (omega arith)) ∙ ground arith
    ]

-- Source and target may overlap where the target starts first.
memcpy-inside :
    (n dst src : ℕ) (mem : ℕ → ℕ) (i : ℕ)
    → (dst ≤ src) ⊎ (src + n ≤ dst)
    → i < n
    → memcpy mem dst src n (dst + i) ≡ mem (src + i)
unfolding memcpy
memcpy-inside zero dst src mem i h lt = absurd (omega arith)
memcpy-inside (suc n) dst src mem zero h lt =
    let z : src + 0 ≡ src = omega arith in
    memcpy-outside n (dst + 1) (src + 1) (update mem dst (mem src)) (dst + 0) (inl (omega arith))
    ∙ ground (arith, ap mem z)
memcpy-inside (suc n) dst src mem (suc i) h lt =
    let d : dst + suc i ≡ dst + 1 + i = omega arith in
    let s : src + 1 + i ≡ src + suc i = omega arith in
    let next : (dst + 1 ≤ src + 1) ⊎ (src + 1 + n ≤ dst + 1) = elim h [
      | inl a ↦ inl (omega arith)
      | inr b ↦ inr (omega arith)
    ] in
    ap (memcpy (update mem dst (mem src)) (dst + 1) (src + 1) n) d
    ∙ memcpy-inside n (dst + 1) (src + 1) (update mem dst (mem src)) i next (omega arith)
    ∙ (elim h [ inl a ↦ ground arith | inr b ↦ ground arith ])
    ∙ ap mem s

-- Where the target does not start inside the source behind its first byte, each byte of the
-- target has after memcpy the value that the source byte had before, and every other byte keeps
-- its value.
pub memcpy-bytes :
    (mem : ℕ → ℕ) (dst src n a : ℕ)
    → (dst ≤ src) ⊎ (src + n ≤ dst)
    → memcpy mem dst src n a
      ≡ (if leb dst a && ltb a (dst + n) then mem (src + (a - dst)) else mem a)
memcpy-bytes mem dst src n a h = elim (Bool-cases (leb dst a && ltb a (dst + n))) [
  | inl e ↦
      let place : dst + (a - dst) ≡ a = ground arith in
      ap (memcpy mem dst src n) (sym place)
      ∙ memcpy-inside n dst src mem (a - dst) h (ground arith)
      ∙ rw e refl
  | inr e ↦ elim (Bool-cases (ltb a dst)) [
    | inl low ↦ memcpy-outside n dst src mem a (inl (ground arith)) ∙ rw e refl
    | inr high ↦ memcpy-outside n dst src mem a (inr (ground arith)) ∙ rw e refl
  ]
]
