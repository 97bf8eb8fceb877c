-- ===== src/Strings/Numbers.antt =====
-- The loop of `strtol` and `strtoul` reads digits up to a limit.
use nos.Prelude.{
  ℕ, ◌+◌, ◌-◌, ◌*◌, ◌^◌, ◌≤◌, ◌<◌, ◌≡◌, refl, sym, ap, ◌∙◌, ltb, List, [], ◌∷◌, ◌++◌, true, false,
  All, ◌&&◌, ◌||◌, ◌==◌, inl, inr, Bool-cases, none, some, arith,
}
use nos.Strings.{digit, Any, nothing, digits, overflow, is_overflow, Scan, add_digit, scan_loop}

abbrev pub digit_value : ℕ → ℕ → ℕ
digit_value base c = elim (digit base c) [ none ↦ 0 | some v ↦ v ]

digit_value-eq : (base c v : ℕ) → digit base c ≡ some v → digit_value base c ≡ v
digit_value-eq base c v e = ground arith

-- The number that digits behind `acc` make.
abbrev pub value : ℕ → ℕ → List ℕ → ℕ
value base acc [] = acc
value base acc (c ∷ s) = value base (acc * base + digit_value base c) s

abbrev pub IsDigits : ℕ → List ℕ → Type 0
IsDigits base s = All (λ c. (v : ℕ) × (digit base c ≡ some v)) s

-- The text does not go on with a digit.
abbrev pub Stops : ℕ → List ℕ → Type 0
Stops base [] = Unit
Stops base (c ∷ s) = digit base c ≡ none

pub digit-lt : (base c v : ℕ) → digit base c ≡ some v → v < base
unfolding digit
digit-lt base c v e = ground arith

value_grows : (base acc : ℕ) (s : List ℕ) → 0 < base → acc ≤ value base acc s
value_grows base acc [] h = omega arith
value_grows base acc (c ∷ s) h =
    let rest = value_grows base (acc * base + digit_value base c) s h in grind arith

mul-lt : (a b n : ℕ) → a < b → a * n + n ≤ b * n
mul-lt a b n h =
    let e : b ≡ (a + 1) + (b - (a + 1)) = omega arith in grind (arith, ap (λ (t : ℕ). t * n) e)

-- The test in front of a digit finds just the numbers above the limit.
module _ (base q r : ℕ) (below : r < base) where
  above :
      (acc c : ℕ)
      → c < base
      → (ltb q acc || (acc == q && ltb r c)) ≡ ltb (q * base + r) (acc * base + c)
  above acc c h = elim (Bool-cases (ltb q acc)) [
    | inl e ↦ let m = mul-lt q acc base (ground arith) in ground arith
    | inr e ↦ elim (Bool-cases (ltb acc q)) [
      | inl f ↦ let m = mul-lt acc q base (ground arith) in ground arith
      | inr f ↦
          let same : acc ≡ q = ground arith in let m = ap (λ (t : ℕ). t * base) same in ground arith
    ]
  ]

  abbrev pub limit : ℕ
  limit = q * base + r

  add_digit-fits :
      (acc v : ℕ) (any : Any)
      → is_overflow any ≡ false
      → v < base
      → limit < 2 ^ 32
      → acc * base + v ≤ limit
      → add_digit base q r v (acc, any) ≡ (acc * base + v, digits)
  add_digit-fits acc v overflow e lt small fits = absurd (cc e)
  add_digit-fits acc v nothing e lt small fits = let t = above acc v lt in ground arith
  add_digit-fits acc v digits e lt small fits = let t = above acc v lt in ground arith

  add_digit-above :
      (acc v : ℕ) (any : Any)
      → is_overflow any ≡ false
      → v < base
      → limit < acc * base + v
      → add_digit base q r v (acc, any) ≡ (acc, overflow)
  add_digit-above acc v overflow e lt big = absurd (cc e)
  add_digit-above acc v nothing e lt big = let t = above acc v lt in ground arith
  add_digit-above acc v digits e lt big = let t = above acc v lt in ground arith

  scan-digit :
      (c v : ℕ) (s : List ℕ) (acc : ℕ) (any : Any)
      → digit base c ≡ some v
      → scan_loop base q r (c ∷ s) (acc, any)
        ≡ scan_loop base q r s (add_digit base q r v (acc, any))
  unfolding scan_loop
  scan-digit c v s acc any e = ground arith

  scan-stop :
      (rest : List ℕ) (acc : ℕ) (any : Any)
      → Stops base rest
      → scan_loop base q r rest (acc, any) ≡ record { acc = acc; any = any; at = rest }
  unfolding scan_loop
  scan-stop [] acc any e = refl
  scan-stop (c ∷ s) acc any e = ground arith

  -- Above the limit the digits are only skipped.
  scan-overflow :
      (s rest : List ℕ) (acc : ℕ)
      → IsDigits base s
      → Stops base rest
      → scan_loop base q r (s ++ rest) (acc, overflow)
        ≡ record { acc = acc; any = overflow; at = rest }
  scan-overflow [] rest acc d e = scan-stop rest acc overflow e
  scan-overflow (c ∷ s) rest acc ((v, dv), d) e =
      scan-digit c v (s ++ rest) acc overflow dv ∙ scan-overflow s rest acc d e

  module _ (small : limit < 2 ^ 32) where
    abbrev pub after : Any → List ℕ → Any
    after any [] = any
    after any (c ∷ s) = digits

    pub scan-value :
        (s rest : List ℕ) (acc : ℕ) (any : Any)
        → is_overflow any ≡ false
        → IsDigits base s
        → Stops base rest
        → value base acc s ≤ limit
        → scan_loop base q r (s ++ rest) (acc, any)
          ≡ record { acc = value base acc s; any = after any s; at = rest }
    scan-value [] rest acc any ok d e fits = scan-stop rest acc any e
    scan-value (c ∷ s) rest acc any ok ((v, dv), d) e fits =
        let lt = digit-lt base c v dv in
        let same = digit_value-eq base c v dv in
        let step = ap (λ t. value base (acc * base + t) s) same in
        let grows = value_grows base (acc * base + v) s (omega arith) in
        scan-digit c v (s ++ rest) acc any dv
        ∙ ap (scan_loop base q r (s ++ rest))
            (add_digit-fits acc v any ok lt small (omega (arith, step)))
        ∙ settle s (scan-value s rest (acc * base + v) digits refl d e (omega (arith, step)))
            (sym step)
      where
        settle :
            (t : List ℕ) {n m : ℕ} {w : Scan}
            → w ≡ record { acc = n; any = after digits t; at = rest }
            → n ≡ m
            → w ≡ record { acc = m; any = digits; at = rest }
        settle [] p g = p ∙ ap (λ k. record { acc = k; any = digits; at = rest }) g
        settle (x ∷ t) p g = p ∙ ap (λ k. record { acc = k; any = digits; at = rest }) g

    pub scan-above :
        (s rest : List ℕ) (acc : ℕ) (any : Any)
        → is_overflow any ≡ false
        → IsDigits base s
        → Stops base rest
        → acc ≤ limit
        → limit < value base acc s
        → (is_overflow (scan_loop base q r (s ++ rest) (acc, any)).any ≡ true)
          × ((scan_loop base q r (s ++ rest) (acc, any)).at ≡ rest)
    scan-above [] rest acc any ok d e fits big = absurd (omega arith)
    scan-above (c ∷ s) rest acc any ok ((v, dv), d) e fits big =
        let lt = digit-lt base c v dv in
        let same = digit_value-eq base c v dv in
        let step = ap (λ t. value base (acc * base + t) s) same in
        let first = scan-digit c v (s ++ rest) acc any dv in
        elim (Bool-cases (ltb limit (acc * base + v))) [
          | inl over ↦
              let all =
                first
                ∙ ap (scan_loop base q r (s ++ rest))
                    (add_digit-above acc v any ok lt (ground arith))
                ∙ scan-overflow s rest acc d e in
              (ap (λ w. is_overflow w.any) all, ap (λ w. w.at) all)
          | inr under ↦
              let all =
                first
                ∙ ap (scan_loop base q r (s ++ rest))
                    (add_digit-fits acc v any ok lt small (ground arith)) in
              let (over, place) =
                scan-above s rest (acc * base + v) digits refl d e (ground arith)
                  (omega (arith, step)) in
              (ap (λ w. is_overflow w.any) all ∙ over, ap (λ w. w.at) all ∙ place)
        ]
