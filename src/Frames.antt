-- ===== src/Frames.antt =====
-- kernel/paging.c: the bitmap of physical frames, and how pages get a frame and give it back.
pub mod Bitmap
pub mod Owners
mod Tests
use nos.Prelude.{
  ℕ, zero, suc, ◌+◌, ◌-◌, ◌*◌, ◌/◌, ◌%◌, ◌^◌, ltb, Option, none, some, Bool, true, false, not,
  if◌then◌else◌, ◌==◌, update, bit_and, bit_or,
}
use nos.UserMem.{Page}

-- `frames` and `nframes`
pub record Frames : Type 0 where
  pub frames : ℕ → ℕ
  pub nframes : ℕ

unfoldable pub set_frame : Frames → ℕ → Frames
set_frame s frame_addr =
    let frame = frame_addr / 4096 in
    let idx = frame / 32 in
    let off = frame % 32 in
    record s { frames = update s.frames idx (bit_or (s.frames idx) (2 ^ off)) }

-- `~` of a word is its distance from 32 ones.
unfoldable pub clear_frame : Frames → ℕ → Frames
clear_frame s frame_addr =
    let frame = frame_addr / 4096 in
    let idx = frame / 32 in
    let off = frame % 32 in
    record s { frames = update s.frames idx (bit_and (s.frames idx) (2 ^ 32 - 1 - 2 ^ off)) }

-- The inner loop of `first_frame` over the n bits from j on.
unfoldable pub first_bit : ℕ → ℕ → ℕ → Option ℕ
first_bit zero j word = none
first_bit (suc n) j word =
    let rest = first_bit n (j + 1) word in if bit_and word (2 ^ j) == 0 then some j else rest

-- The outer loop over the n words from i on; `none` is the result -1.
unfoldable pub first_word : ℕ → ℕ → Frames → Option ℕ
first_word zero i s = none
first_word (suc n) i s =
    let rest = first_word n (i + 1) s in
    if not (s.frames i == 0xFFFFFFFF)
    then elim (first_bit 32 0 (s.frames i)) [ none ↦ rest | some j ↦ some (i * 4 * 8 + j) ]
    else rest

unfoldable pub first_frame : Frames → Option ℕ
first_frame s = first_word (s.nframes / 32) 0 s

-- `none` is the panic.
unfoldable pub alloc_frame : Frames → Page → Bool → Bool → Option (Page × Frames)
alloc_frame s page is_kernel is_writeable =
    if not (page.frame == 0) then some (page, s) else elim (first_frame s) [
      | none ↦ none
      | some idx ↦ some (
        record page { present = true; rw = is_writeable; user = not is_kernel; frame = idx },
        set_frame s (idx * 4096),
      )
    ]

unfoldable pub free_frame : Frames → Page → Page × Frames
free_frame s page = if page.frame == 0 then (page, s) else (
  record page { frame = 0; present = false },
  if ltb page.frame s.nframes then clear_frame s (page.frame * 4096) else s,
)
