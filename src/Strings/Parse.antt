-- ===== src/Strings/Parse.antt =====
-- What `strtol` and `strtoul` make of blanks, a sign, digits and whatever follows.
use nos.Prelude.{
  ℕ, ◌/◌, ◌%◌, ◌^◌, ◌≤◌, ◌<◌, ◌≡◌, ◌≢◌, List, [], ◌∷◌, ◌++◌, Bool, true, All, if◌then◌else◌, sub32,
}
use nos.Strings.{
  isspace, long_min, long_max, ulong_max, nothing, is_overflow, Scan, scan_loop, end_of,
}
use nos.Strings.Numbers.{value, IsDigits, Stops}

abbrev pub sign_text : Bool → List ℕ
sign_text neg = if neg then b'-' ∷ [] else []

abbrev pub cut : Bool → ℕ
cut neg = if neg then long_min else long_max

abbrev pub signed_result : Bool → ℕ → ℕ
signed_result neg n = if neg then sub32 0 n else n

abbrev of_scan : List ℕ → Bool → Scan → ℕ × List ℕ
of_scan nptr neg r = (
  if is_overflow r.any then (if neg then long_min else long_max) else signed_result neg r.acc,
  end_of nptr r,
)

abbrev of_scan_unsigned : List ℕ → Bool → Scan → ℕ × List ℕ
of_scan_unsigned nptr neg r =
    (if is_overflow r.any then ulong_max else signed_result neg r.acc, end_of nptr r)

-- The loop, at a number against a limit.
module _ (base top : ℕ) (two : 2 ≤ base) (c : ℕ) (s rest : List ℕ) (d : IsDigits base (c ∷ s))
    (e : Stops base rest) (small : top < 2 ^ 32) where
  abbrev scanned : Scan
  scanned = scan_loop base (top / base) (top % base) (c ∷ (s ++ rest)) (0, nothing)

module _ (base : ℕ) (neg : Bool) (blanks : List ℕ) (c : ℕ) (s rest : List ℕ) (two : 2 ≤ base)
    (a : base ≢ 2) (b : base ≢ 16) (h : All (λ x. isspace x ≡ true) blanks)
    (d : IsDigits base (c ∷ s)) (e : Stops base rest) where
  abbrev pub line : List ℕ
  line = blanks ++ (sign_text neg ++ (c ∷ (s ++ rest)))

  abbrev pub number : ℕ
  number = value base 0 (c ∷ s)
