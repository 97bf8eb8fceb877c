-- ===== src/Elf/Headers.antt =====
-- Which program files pass the checks of the loader.
use nos.Prelude.{
  ℕ, zero, suc, ◌+◌, ◌*◌, ◌^◌, ◌≤◌, ◌<◌, ◌≡◌, ◌↔◌, ◌⊎◌, refl, ap, ◌∙◌, subst, some, Bool, true,
  false, not, if◌then◌else◌, ◌==◌, inl, inr, Bool-cases, arith,
}
use nos.UserMem.{user_vaddr_min, user_vaddr_max}
use nos.Elf.{
  Ehdr, Phdr, le32, read_ehdr, phdr_at, bad_segment, segments_ok, check_headers, elf_is_valid,
}

-- In a file of `got` bytes, and in the user window or wholly above it, where the sum wraps.
abbrev pub Accepted : ℕ → Phdr → Type 0
Accepted got ph =
    (ph.p_offset + ph.p_filesz ≤ got)
    × (ph.p_filesz ≤ ph.p_memsz)
    × (user_vaddr_min ≤ ph.p_vaddr)
    × ((ph.p_vaddr + ph.p_memsz ≤ user_vaddr_max)
        ⊎ ((user_vaddr_max < ph.p_vaddr) × (ph.p_vaddr + ph.p_memsz ≤ user_vaddr_max + 2 ^ 32)))

module _ (got : ℕ) (ph : Phdr) (small : ph.p_vaddr < 2 ^ 32) where
  good-Accepted : bad_segment got ph ≡ false → Accepted got ph
  unfolding bad_segment
  good-Accepted e = (ground arith, ground arith, ground arith, ground arith)

  Accepted-good : Accepted got ph → bad_segment got ph ≡ false
  unfolding bad_segment
  Accepted-good (a, b, c, inl d) = ground arith
  Accepted-good (a, b, c, inr (d, e)) = ground arith

guarded :
    (p q r : Bool)
    → (if not p then r else if q then false else r) ≡ true
    → (r ≡ true) × (p ≡ true → q ≡ false)
guarded true true r e = absurd (ground arith)
guarded true false r e = (e, λ h. refl)
guarded false q r e = (e, λ h. absurd (ground arith))

module _ (mem : ℕ → ℕ) (bytes : (a : ℕ) → mem a < 256) (buf got : ℕ) where
  le32-lt : (a : ℕ) → le32 mem a < 2 ^ 32
  le32-lt a = omega (arith, bytes a, bytes (a + 1), bytes (a + 2), bytes (a + 2 + 1))

  module _ (eh : Ehdr) where
    -- The n headers from i on.
    abbrev AllAccepted : ℕ → ℕ → Type 0
    AllAccepted i n =
        (k : ℕ)
        → i ≤ k
        → k < i + n
        → (phdr_at mem buf eh k).p_type ≡ 1
        → Accepted got (phdr_at mem buf eh k)

    segments_ok-AllAccepted : (n i : ℕ) → segments_ok n mem buf got eh i ≡ true → AllAccepted i n
    unfolding segments_ok
    segments_ok-AllAccepted zero i e k lo hi load = absurd (omega arith)
    segments_ok-AllAccepted (suc n) i e k lo hi load =
        let ph = phdr_at mem buf eh i in
        let (ok, good) =
          guarded (ph.p_type == 1) (bad_segment got ph) (segments_ok n mem buf got eh (i + 1)) e in
        let rest = segments_ok-AllAccepted n (i + 1) ok in
        elim (Bool-cases (i == k)) [
          | inl same ↦
              let i_k : i ≡ k = ground arith in
              let here : (phdr_at mem buf eh i).p_type ≡ 1 =
                ap (λ j. (phdr_at mem buf eh j).p_type) i_k ∙ load in
              subst (λ j. Accepted got (phdr_at mem buf eh j)) i_k
                (good-Accepted got (phdr_at mem buf eh i) (le32-lt _) (good (ground arith)))
          | inr other ↦ rest k (ground arith) (omega arith) load
        ]

    AllAccepted-segments_ok : (n i : ℕ) → AllAccepted i n → segments_ok n mem buf got eh i ≡ true
    unfolding segments_ok
    AllAccepted-segments_ok zero i all = refl
    AllAccepted-segments_ok (suc n) i all =
        let rest =
          AllAccepted-segments_ok n (i + 1) (λ k lo hi. all k (omega arith) (omega arith)) in
        elim (Bool-cases ((phdr_at mem buf eh i).p_type == 1)) [
          | inl load ↦
              let good =
                Accepted-good got (phdr_at mem buf eh i) (le32-lt _)
                  (all i (omega arith) (omega arith) (ground arith)) in
              rw (load, good, rest) refl
          | inr other ↦ rw (other, rest) refl
        ]

  -- For memory of bytes: the checks accept a file of got bytes just if it has 52 bytes or more
  -- and the magic number, its program header table ends inside it, and the data of each PT_LOAD
  -- lies in the file and is no longer than its memory, which lies in the user window, or starts
  -- above the window and ends at most 4 GB behind the end of the window.
  pub check_headers-Accepted : (check_headers mem buf got ≡ some (read_ehdr mem buf)) ↔ (
      (52 ≤ got)
      × (elf_is_valid mem buf ≡ true)
      × ((read_ehdr mem buf).e_phoff + (read_ehdr mem buf).e_phnum * (read_ehdr mem buf).e_phentsize
          ≤ got)
      × ((k : ℕ)
          → k < (read_ehdr mem buf).e_phnum
          → (phdr_at mem buf (read_ehdr mem buf) k).p_type ≡ 1
          → Accepted got (phdr_at mem buf (read_ehdr mem buf) k)))
  unfolding check_headers
  check_headers-Accepted =
      let eh = read_ehdr mem buf in
      (
        (λ e. (
          ground arith,
          ground arith,
          ground arith,
          λ k lt load.
              segments_ok-AllAccepted eh eh.e_phnum 0 (ground arith) k (omega arith) (omega arith)
                load,
        )),
        (λ (size, magic, table, all).
            let ok =
              AllAccepted-segments_ok eh eh.e_phnum 0 (λ k lo hi load. all k (omega arith) load) in
            ground arith),
      )
