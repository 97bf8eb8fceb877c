-- ===== src/Strings/Compare.antt =====
-- When `strcmp` takes two texts for equal.
use nos.Prelude.{
  ℕ, ◌≡◌, refl, ap₂, subst, ◌↔◌, List, [], ◌∷◌, inl, inr, Bool-cases, ◌==◌, pos, arith,
}
use nos.Strings.{strcmp}

strcmp_refl : (s : List ℕ) → strcmp s s ≡ pos 0
unfolding strcmp
strcmp_refl [] = refl
strcmp_refl (c ∷ s) = let rest = strcmp_refl s in ground arith

strcmp-zero : (s t : List ℕ) → strcmp s t ≡ pos 0 → s ≡ t
unfolding strcmp
strcmp-zero [] [] e = refl
strcmp-zero [] (d ∷ t) e = absurd (ground arith)
strcmp-zero (c ∷ s) [] e = absurd (ground arith)
strcmp-zero (c ∷ s) (d ∷ t) e = elim (Bool-cases (c == d)) [
  | inl h ↦
      let rest = strcmp-zero s t (ground arith) in
      let same : c ≡ d = ground arith in ap₂ (λ (x : ℕ) (xs : List ℕ). x ∷ xs) same rest
  | inr h ↦ absurd (ground arith)
]

-- strcmp returns 0 just for equal texts.
pub strcmp-eq : (s t : List ℕ) → (strcmp s t ≡ pos 0) ↔ (s ≡ t)
strcmp-eq s t = (strcmp-zero s t, λ e. subst (λ u. strcmp s u ≡ pos 0) e (strcmp_refl s))
