-- ===== src/Initrd/Archive.antt =====
-- What a read of a file returns, and the size in a header.
use nos.Prelude.{
  ℕ, ◌+◌, ◌-◌, ◌*◌, ◌/◌, ◌%◌, ◌^◌, ◌≤◌, ◌<◌, ◌≡◌, ◌⊎◌, refl, ltb, leb, some, false, ◌&&◌,
  if◌then◌else◌, get_elem?, inl, inr, arith, add32, sub32, min,
}
use nos.Strings.{memcpy}
use nos.Strings.Copy.{memcpy-bytes}
use nos.Initrd.{Initrd, Header, char_word, getsize_loop, getsize, initrd_read}

-- For an inode of the archive, an offset within the file, an offset and a size with a sum below 2
-- ^ 32, and a buffer that is not behind the start of the source and before the end of the file:
-- initrd_read returns the smaller of the size and the bytes behind the offset, copies just these
-- bytes of the file, and changes nothing else.
pub initrd_read-bytes :
    (s : Initrd) (inode offset size buffer : ℕ) (mem : ℕ → ℕ) (h : Header)
    → get_elem? s.headers inode ≡ some h
    → offset ≤ h.size
    → offset + size < 2 ^ 32
    → (buffer ≤ h.tar_header + 512 + offset) ⊎ (h.tar_header + 512 + h.size ≤ buffer)
    → (after : ℕ → ℕ) × (initrd_read s inode offset size mem buffer
        ≡ some (min size (h.size - offset), after))
      × ((a : ℕ)
          → after a ≡ (
              if leb buffer a && ltb a (buffer + min size (h.size - offset))
              then mem (h.tar_header + 512 + offset + (a - buffer))
              else mem a))
unfolding initrd_read
initrd_read-bytes s inode offset size buffer mem h e inside small apart =
    let n = min size (h.size - offset) in
    let kept : (if ltb h.size (add32 offset size) then h.size - offset else size) ≡ n =
      ground arith in
    let not_behind : ltb h.size offset ≡ false = ground arith in
    (
      memcpy mem buffer (h.tar_header + 512 + offset) n,
      rw (initrd_read, e, not_behind, kept) refl,
      λ a.
          memcpy-bytes mem buffer (h.tar_header + 512 + offset) n a
            (elim apart [ inl low ↦ inl low | inr high ↦ inr (omega arith) ]),
    )

digit_value : (c d : ℕ) → d < 8 → c ≡ 48 + d → sub32 (char_word c) 48 ≡ d
digit_value c d small e = ground arith

module _ (mem : ℕ → ℕ) (a n : ℕ) (small : n < 2 ^ 32)
    (written : (i : ℕ) → i < 11 → mem (a + i) ≡ 48 + n / 8 ^ (10 - i) % 8) where
  -- Of the 11 octal digits of a number below 2 ^ 32, with leading zeros, getsize returns the
  -- number.
  pub getsize-octal : getsize mem a ≡ n
  unfolding getsize getsize_loop
  getsize-octal =
      let w10 : sub32 (char_word (mem (a + 10))) 48 ≡ n / 1 % 8 =
        digit_value (mem (a + 10)) (n / 1 % 8) (omega arith) (written 10 (omega arith)) in
      let w9 : sub32 (char_word (mem (a + 9))) 48 ≡ n / 8 % 8 =
        digit_value (mem (a + 9)) (n / 8 % 8) (omega arith) (written 9 (omega arith)) in
      let w8 : sub32 (char_word (mem (a + 8))) 48 ≡ n / 64 % 8 =
        digit_value (mem (a + 8)) (n / 64 % 8) (omega arith) (written 8 (omega arith)) in
      let w7 : sub32 (char_word (mem (a + 7))) 48 ≡ n / 512 % 8 =
        digit_value (mem (a + 7)) (n / 512 % 8) (omega arith) (written 7 (omega arith)) in
      let w6 : sub32 (char_word (mem (a + 6))) 48 ≡ n / 4096 % 8 =
        digit_value (mem (a + 6)) (n / 4096 % 8) (omega arith) (written 6 (omega arith)) in
      let w5 : sub32 (char_word (mem (a + 5))) 48 ≡ n / 32768 % 8 =
        digit_value (mem (a + 5)) (n / 32768 % 8) (omega arith) (written 5 (omega arith)) in
      let w4 : sub32 (char_word (mem (a + 4))) 48 ≡ n / 262144 % 8 =
        digit_value (mem (a + 4)) (n / 262144 % 8) (omega arith) (written 4 (omega arith)) in
      let w3 : sub32 (char_word (mem (a + 3))) 48 ≡ n / 2097152 % 8 =
        digit_value (mem (a + 3)) (n / 2097152 % 8) (omega arith) (written 3 (omega arith)) in
      let w2 : sub32 (char_word (mem (a + 2))) 48 ≡ n / 16777216 % 8 =
        digit_value (mem (a + 2)) (n / 16777216 % 8) (omega arith) (written 2 (omega arith)) in
      let w1 : sub32 (char_word (mem (a + 1))) 48 ≡ n / 134217728 % 8 =
        digit_value (mem (a + 1)) (n / 134217728 % 8) (omega arith) (written 1 (omega arith)) in
      let w0 : sub32 (char_word (mem (a + 0))) 48 ≡ n / 1073741824 % 8 =
        digit_value (mem (a + 0)) (n / 1073741824 % 8) (omega arith) (written 0 (omega arith)) in
      let s1 : add32 0 (n / 1 % 8 * 1 % 4294967296) ≡ n % 8 = omega arith in
      let s2 : add32 (n % 8) (n / 8 % 8 * 8 % 4294967296) ≡ n % 64 = omega arith in
      let s3 : add32 (n % 64) (n / 64 % 8 * 64 % 4294967296) ≡ n % 512 = omega arith in
      let s4 : add32 (n % 512) (n / 512 % 8 * 512 % 4294967296) ≡ n % 4096 = omega arith in
      let s5 : add32 (n % 4096) (n / 4096 % 8 * 4096 % 4294967296) ≡ n % 32768 = omega arith in
      let s6 : add32 (n % 32768) (n / 32768 % 8 * 32768 % 4294967296) ≡ n % 262144 = omega arith in
      let s7 : add32 (n % 262144) (n / 262144 % 8 * 262144 % 4294967296) ≡ n % 2097152 =
        omega arith in
      let s8 : add32 (n % 2097152) (n / 2097152 % 8 * 2097152 % 4294967296) ≡ n % 16777216 =
        omega arith in
      let s9 : add32 (n % 16777216) (n / 16777216 % 8 * 16777216 % 4294967296) ≡ n % 134217728 =
        omega arith in
      let s10 : add32 (n % 134217728) (n / 134217728 % 8 * 134217728 % 4294967296)
          ≡ n % 1073741824 =
        omega arith in
      let s11 : add32 (n % 1073741824) (n / 1073741824 % 8 * 1073741824 % 4294967296) ≡ n =
        omega arith in
      rw (w10, w9, w8, w7, w6, w5, w4, w3, w2, w1, w0, s1, s2, s3, s4, s5, s6, s7, s8, s9, s10, s11)
        refl
