-- ===== src/Elf/Segments.antt =====
-- What the copy of the segments leaves alone.
use nos.Prelude.{
  ℕ, zero, suc, ◌+◌, ◌-◌, ◌*◌, ◌≤◌, ◌<◌, ◌≡◌, ◌⊎◌, refl, sym, ap, ◌∙◌, subst, ltb, if◌then◌else◌,
  ◌==◌, inl, inr, Bool-cases, arith, update, ◌%◌,
}
use native.Mathlib.Nat.{mul-le-mul}
use nos.Strings.{memcpy, memset}
use nos.Strings.Copy.{memcpy-outside}
use nos.UserMem.{user_vaddr_min, user_vaddr_max}
use nos.Elf.{Ehdr, Phdr, le32, read_phdr, phdr_at, load_segment, load_segments}

memset-outside :
    (n d c : ℕ) (mem : ℕ → ℕ) (a : ℕ) → (a < d) ⊎ (d + n ≤ a) → memset mem d c n a ≡ mem a
unfolding memset
memset-outside zero d c mem a h = refl
memset-outside (suc n) d c mem a h =
    let rest = memset-outside n (d + 1) c (update mem d (c % 256)) a in
    elim h [
      | inl low ↦ rest (inl (omega arith)) ∙ ground arith
      | inr high ↦ rest (inr (omega arith)) ∙ ground arith
    ]

-- The segment lies in the user window.
abbrev pub InWindow : Phdr → Type 0
InWindow ph =
    (ph.p_filesz ≤ ph.p_memsz)
    × (user_vaddr_min ≤ ph.p_vaddr)
    × (ph.p_vaddr + ph.p_memsz ≤ user_vaddr_max)

abbrev Outside : ℕ → Type 0
Outside a = (a < user_vaddr_min) ⊎ (user_vaddr_max ≤ a)

load_segment-Outside :
    (mem : ℕ → ℕ) (buf : ℕ) (ph : Phdr) (a : ℕ)
    → InWindow ph
    → Outside a
    → load_segment mem buf ph a ≡ mem a
load_segment-Outside mem buf ph a (fits, low, high) out =
    let copied = memcpy mem ph.p_vaddr (buf + ph.p_offset) ph.p_filesz in
    let far : (lo n : ℕ) → user_vaddr_min ≤ lo → lo + n ≤ user_vaddr_max → (a < lo) ⊎ (lo + n ≤ a) =
      λ lo n p q. elim out [ inl b ↦ inl (omega arith) | inr b ↦ inr (omega arith) ] in
    let same =
      memcpy-outside ph.p_filesz ph.p_vaddr (buf + ph.p_offset) mem a
        (far ph.p_vaddr ph.p_filesz low (omega arith)) in
    elim (Bool-cases (ltb ph.p_filesz ph.p_memsz)) [
      | inl e ↦ rw e (
          memset-outside (ph.p_memsz - ph.p_filesz) (ph.p_vaddr + ph.p_filesz) 0 copied a
            (far (ph.p_vaddr + ph.p_filesz) (ph.p_memsz - ph.p_filesz) (omega arith) (ground arith))
          ∙ same)
      | inr e ↦ rw e same
    ]

module _ (m n : ℕ → ℕ) where
  abbrev Agree : ℕ → ℕ → Type 0
  Agree lo hi = (y : ℕ) → lo ≤ y → y < hi → m y ≡ n y

  pub le32-Agree : (x : ℕ) → Agree x (x + 4) → le32 m x ≡ le32 n x
  le32-Agree x h =
      let a = h x (omega arith) (omega arith) in
      let b = h (x + 1) (omega arith) (omega arith) in
      let c = h (x + 2) (omega arith) (omega arith) in
      let d = h (x + 2 + 1) (omega arith) (omega arith) in rw (a, b, c, d) refl

  read_phdr-Agree : (x : ℕ) → Agree x (x + 24) → read_phdr m x ≡ read_phdr n x
  read_phdr-Agree x h =
      let at : (k : ℕ) → k + 4 ≤ 24 → le32 m (x + k) ≡ le32 n (x + k) =
        λ k lt. le32-Agree (x + k) (λ y lo hi. h y (omega arith) (omega arith)) in
      let z = le32-Agree x (λ y lo hi. h y lo (omega arith)) in
      rw (z, at 4 (omega arith), at 8 (omega arith), at 16 (omega arith), at 20 (omega arith)) refl

module _ (mem : ℕ → ℕ) (buf : ℕ) (eh : Ehdr) (sized : 32 ≤ eh.e_phentsize)
    (below : buf + eh.e_phoff + eh.e_phnum * eh.e_phentsize ≤ user_vaddr_min)
    (windows : (k : ℕ)
      → k < eh.e_phnum
      → (phdr_at mem buf eh k).p_type ≡ 1
      → InWindow (phdr_at mem buf eh k)) where
  header-below :
      (i : ℕ) → i < eh.e_phnum → buf + eh.e_phoff + i * eh.e_phentsize + 24 ≤ user_vaddr_min
  header-below i lt =
      let next : (i + 1) * eh.e_phentsize ≤ eh.e_phnum * eh.e_phentsize =
        mul-le-mul (omega arith) (omega arith) in
      let split : (i + 1) * eh.e_phentsize ≡ i * eh.e_phentsize + eh.e_phentsize = omega arith in
      omega arith

  load_loop-Outside :
      (n i : ℕ) (now : ℕ → ℕ)
      → i + n ≤ eh.e_phnum
      → ((y : ℕ) → Outside y → now y ≡ mem y)
      → (a : ℕ) → Outside a
      → load_segments n now buf eh i a ≡ mem a
  unfolding load_segments
  load_loop-Outside zero i now top same a out = same a out
  load_loop-Outside (suc n) i now top same a out =
      let ph = phdr_at now buf eh i in
      let low = header-below i (omega arith) in
      let read : phdr_at now buf eh i ≡ phdr_at mem buf eh i =
        read_phdr-Agree now mem (buf + eh.e_phoff + i * eh.e_phentsize)
          (λ y lo hi. same y (inl (omega arith))) in
      let step : (y : ℕ)
          → Outside y
          → (if ph.p_type == 1 then load_segment now buf ph else now) y ≡ mem y =
        λ y o. elim (Bool-cases (ph.p_type == 1)) [
          | inl load ↦
              let kind : (phdr_at mem buf eh i).p_type ≡ 1 =
                ap (λ p. p.p_type) (sym read) ∙ ground arith in
              rw load (
                load_segment-Outside now buf ph y
                  (subst InWindow (sym read) (windows i (omega arith) kind)) o
                ∙ same y o)
          | inr other ↦ rw other (same y o)
        ] in
      load_loop-Outside n (i + 1) (if ph.p_type == 1 then load_segment now buf ph else now)
        (omega arith) step a out

  -- Where the file lies below the user window with its header table, the headers are at least 32
  -- bytes apart, and each PT_LOAD has its memory in the user window and no more data than memory,
  -- the copy of the segments changes no byte outside the window.
  pub load_segments-Outside : (a : ℕ) → Outside a → load_segments eh.e_phnum mem buf eh 0 a ≡ mem a
  load_segments-Outside = load_loop-Outside eh.e_phnum 0 mem (omega arith) (λ y o. refl)
