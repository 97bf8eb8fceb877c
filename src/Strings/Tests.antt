-- ===== src/Strings/Tests.antt =====
-- Numbers in text, and a copy onto itself.
use nos.Prelude.{
  ℕ, ◌+◌, ◌-◌, ◌^◌, ◌≡◌, ◌↔◌, refl, List, [], ◌∷◌, pos, leb, ltb, ◌&&◌, if◌then◌else◌, inl, arith,
}
use nos.Strings.{
  strtol, strcmp, memcpy, digit, isdigit, isspace, skip_space, take_sign, take_prefix, scan_loop,
  isalpha, isupper,
}
use nos.Strings.Compare.{strcmp-eq}
use nos.Strings.Copy.{memcpy-bytes}

strtol_hex :
    strtol (b' ' ∷ b'-' ∷ b'0' ∷ b'x' ∷ b'1' ∷ b'f' ∷ b'g' ∷ []) 0 ≡ (2 ^ 32 - 31, b'g' ∷ [])
unfolding strtol digit isspace isdigit isalpha isupper skip_space take_sign take_prefix scan_loop
strtol_hex = refl

abbrev one : List ℕ
one = b'a' ∷ []

abbrev longer : List ℕ
longer = b'a' ∷ b'b' ∷ []

strcmp-eq_test : (strcmp one longer ≡ pos 0) ↔ (one ≡ longer)
strcmp-eq_test = strcmp-eq one longer

memcpy-bytes_test :
    memcpy (λ a. a) 10 12 5 11 ≡ (if leb 10 11 && ltb 11 (10 + 5) then 12 + (11 - 10) else 11)
memcpy-bytes_test = memcpy-bytes (λ a. a) 10 12 5 11 (inl (omega arith))
