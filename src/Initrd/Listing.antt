-- ===== src/Initrd/Listing.antt =====
-- `parse` on an archive in memory.
use nos.Prelude.{
  ℕ, zero, suc, ◌+◌, ◌*◌, ◌/◌, ◌%◌, ◌^◌, ◌<◌, ◌≡◌, ◌≢◌, refl, sym, ap, ◌∙◌, List, [], ◌∷◌, length,
  some, false, if◌then◌else◌, ◌==◌, add32, arith,
}
use nos.Initrd.{Header, getsize, parse}

-- At the address stand the headers of files with these sizes, each followed by its data in blocks of
-- 512 bytes, below the end of the address space, and then a 0.
abbrev pub Archive : (ℕ → ℕ) → ℕ → List Header → Type 0
Archive mem addr [] = mem addr ≡ 0
Archive mem addr (h ∷ files) =
    (mem addr ≢ 0)
    × (h.tar_header ≡ addr)
    × (getsize mem (addr + 124) ≡ h.size)
    × (addr + 512 + (h.size + 511) / 512 * 512 < 2 ^ 32)
    × Archive mem (addr + 512 + (h.size + 511) / 512 * 512) files

-- On an archive in memory, headers of files with their sizes, each followed by its data in blocks
-- of 512 bytes, below the end of the address space and with a 0 behind the last, parse ends
-- within one round more than there are files and returns just these files.
pub parse-Archive :
    (files : List Header) (rounds : ℕ) (mem : ℕ → ℕ) (addr : ℕ)
    → length files < rounds
    → Archive mem addr files
    → parse rounds mem addr ≡ some files
unfolding parse
parse-Archive files zero mem addr enough a = absurd (omega arith)
parse-Archive [] (suc n) mem addr enough a = rw a refl
parse-Archive (h ∷ files) (suc n) mem addr enough (there, at, size, top, rest) =
    let step : add32 addr ((h.size / 512 + 1) * 512 + (if h.size % 512 == 0 then 0 else 512))
        ≡ addr + 512 + (h.size + 511) / 512 * 512 =
      ground arith in
    let tail =
      parse-Archive files n mem (addr + 512 + (h.size + 511) / 512 * 512) (omega arith) rest in
    let no : (mem addr == 0) ≡ false = ground arith in
    let next : add32 addr (
          (getsize mem (addr + 124) / 512 + 1) * 512
          + (if getsize mem (addr + 124) % 512 == 0 then 0 else 512))
        ≡ addr + 512 + (h.size + 511) / 512 * 512 =
      ap (λ z. add32 addr ((z / 512 + 1) * 512 + (if z % 512 == 0 then 0 else 512))) size ∙ step in
    rw (no, next, tail)
      (ap (λ z. some (record { size = z; tar_header = addr } ∷ files)) size
        ∙ ap (λ t. some (record { size = h.size; tar_header = t } ∷ files)) (sym at))
