-- ===== src/Net/Checksum.antt =====
-- The checksum of a packet makes the packet's own sum come out as all ones.
use nos.Prelude.{
  ℕ, ◌+◌, ◌-◌, ◌*◌, ◌/◌, ◌%◌, ◌≤◌, ◌<◌, ◌^◌, ◌≡◌, refl, ap, ◌∙◌, List, [], ◌∷◌, ◌++◌, arith, length,
  add32,
}
use nos.Net.{net_csum_add, net_csum_fin, fold, stored16, htons}

-- The loop ends with 16 bits, with the same remainder modulo 65535, and with 0 only from 0.
fold_lem :
    (s : ℕ)
    → s < 2 ^ 32
    → (k : ℕ) × (s ≡ fold 3 s + 65535 * k) × (fold 3 s < 65536) × (0 < s → 0 < fold 3 s)
unfolding fold
fold_lem s h =
    let a = s % 65536 + s / 65536 in
    let b = a % 65536 + a / 65536 in
    ((s - fold 3 s) / 65535, ground arith, ground arith, ground arith)

-- The 16-bit words of a packet, added up.
abbrev pub words : List ℕ → ℕ
words [] = 0
words (a ∷ []) = a * 256
words (a ∷ b ∷ rest) = a * 256 + b + words rest

abbrev pub IsByte : ℕ → Type 0
IsByte a = a < 256

-- As long as 32 bits are enough, the loop adds the words up.
csum_add-words : (s : ℕ) (p : List ℕ) → s + words p < 2 ^ 32 → net_csum_add s p ≡ s + words p
unfolding net_csum_add
csum_add-words s [] h = omega arith
csum_add-words s (a ∷ []) h = omega arith
csum_add-words s (a ∷ b ∷ rest) h =
    let e : add32 s (a * 256 + b) ≡ s + (a * 256 + b) = omega arith in
    rw e (omega (arith, csum_add-words (s + (a * 256 + b)) rest (omega arith)))

-- Two bytes at an even offset count as one word.
words-put :
    (k : ℕ) (pre post : List ℕ) (a b : ℕ)
    → length pre ≡ 2 * k
    → words (pre ++ (a ∷ b ∷ post)) ≡ words (pre ++ (0 ∷ 0 ∷ post)) + (a * 256 + b)
words-put k [] post a b e = omega arith
words-put k (x ∷ []) post a b e = absurd (omega arith)
words-put k (x ∷ y ∷ pre) post a b e = omega (arith, words-put (k - 1) pre post a b (omega arith))

csum_fin_lem : (sum : ℕ) → net_csum_fin sum ≡ htons (65535 - fold 3 sum)
unfolding net_csum_fin
csum_fin_lem sum = refl

-- A field that makes the total of the words a multiple of 65535.
filled :
    (s k c : ℕ) (pre post : List ℕ)
    → length pre ≡ 2 * k
    → s + words (pre ++ (0 ∷ 0 ∷ post)) + 65536 ≤ 2 ^ 32
    → 0 < s + words (pre ++ (0 ∷ 0 ∷ post))
    → c ≡ htons (65535 - fold 3 (s + words (pre ++ (0 ∷ 0 ∷ post))))
    → fold 3 (net_csum_add s (pre ++ (stored16 c ++ post))) ≡ 65535
filled s k c pre post even small some_word e =
    let t : ℕ = s + words (pre ++ (0 ∷ 0 ∷ post)) in
    let (q, eq, lt, pos) = fold_lem t (omega arith) in
    let put = words-put k pre post (c % 256) (c / 256) even in
    let more : s + words (pre ++ (stored16 c ++ post)) ≡ t + (65535 - fold 3 t) = omega arith in
    let again = fold_lem (s + words (pre ++ (stored16 c ++ post))) (omega arith) in
    rw (csum_add-words s (pre ++ (stored16 c ++ post)) (omega arith)) (omega arith)

-- A packet whose checksum field, two zero bytes at an even offset, is filled with the checksum of
-- the packet (and of a pseudo-header with a given sum) sums up to all ones, which is what a
-- receiver tests, if the sum of its words fits in 32 bits with room for one more and is not 0.
pub checksum_verifies :
    (s k : ℕ) (pre post : List ℕ)
    → length pre ≡ 2 * k
    → s + words (pre ++ (0 ∷ 0 ∷ post)) + 65536 ≤ 2 ^ 32
    → 0 < s + words (pre ++ (0 ∷ 0 ∷ post))
    → let c = net_csum_fin (net_csum_add s (pre ++ (0 ∷ 0 ∷ post))) in
      fold 3 (net_csum_add s (pre ++ (stored16 c ++ post))) ≡ 65535
checksum_verifies s k pre post even small some_word = filled s k _ pre post even small some_word (
    csum_fin_lem _
    ∙ ap (λ t. htons (65535 - fold 3 t)) (csum_add-words s (pre ++ (0 ∷ 0 ∷ post)) (omega arith)))
