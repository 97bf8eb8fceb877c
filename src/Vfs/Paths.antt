-- ===== src/Vfs/Paths.antt =====
-- The names in a path, and the node to which they lead.
use nos.Prelude.{
  ℕ, zero, suc, ◌+◌, ◌≤◌, ◌<◌, ◌≡◌, refl, sym, ap, ◌∙◌, ◌==◌, ltb, List, [], ◌∷◌, true, false,
  if◌then◌else◌, length, Bool-cases, inl, inr, arith,
}
use nos.Vfs.{Vfs, slash, vfs_finddir, vfs_follow, skip_slashes, starts, component, is_empty}

abbrev pub cons_head : ℕ → List (List ℕ) → List (List ℕ)
cons_head c [] = (c ∷ []) ∷ []
cons_head c (w ∷ ws) = (c ∷ w) ∷ ws

-- The longest runs of bytes that are no slashes.
abbrev pub names : List ℕ → List (List ℕ)
names [] = []
names (c ∷ path) =
    if c == slash
    then names path
    else if starts path
    then cons_head c (names path)
    else (c ∷ []) ∷ names path

-- From the node on, one directory after the other; a name of more than 127 bytes is not found.
abbrev pub descend : Vfs → ℕ → List (List ℕ) → ℕ
descend v node [] = node
descend v node (name ∷ more) =
    let child = vfs_finddir v node name in
    let rest = descend v (vfs_follow v child) more in
    if ltb 127 (length name) then 0 else if child == 0 then 0 else rest

pub skip-names : (p : List ℕ) → names (skip_slashes p) ≡ names p
unfolding skip_slashes
skip-names [] = refl
skip-names (c ∷ p) = elim (Bool-cases (c == slash)) [
  | inl e ↦ rw e (skip-names p)
  | inr e ↦ ap names {x = skip_slashes (c ∷ p)} {y = c ∷ p} (ground arith)
]

pub length-skip : (p : List ℕ) → length (skip_slashes p) ≤ length p
unfolding skip_slashes
length-skip [] = omega arith
length-skip (c ∷ p) = let h = length-skip p in ground arith

-- Behind slashes stands a name or the end.
pub skip-starts : (p : List ℕ) → is_empty (skip_slashes p) ≡ false → starts (skip_slashes p) ≡ true
unfolding skip_slashes
skip-starts [] h = ground arith
skip-starts (c ∷ p) h = let k = skip-starts p in ground arith

pub component-shut : (r : ℕ) (p : List ℕ) → starts p ≡ false → component r p ≡ ([], p)
unfolding component
component-shut zero p h = refl
component-shut (suc r) [] h = refl
component-shut (suc r) (c ∷ p) h = ground arith

pub component-step :
    (r c : ℕ) (p : List ℕ)
    → (c == slash) ≡ false
    → component (suc r) (c ∷ p) ≡ (c ∷ (component r p).0, (component r p).1)
unfolding component
component-step r c p h = rw h refl

pub length-component :
    (r : ℕ) (p : List ℕ) → length (component r p).0 + length (component r p).1 ≡ length p
unfolding component
length-component zero p = omega arith
length-component (suc r) [] = refl
length-component (suc r) (c ∷ p) = let h = length-component r p in ground arith

pub component-bound : (r : ℕ) (p : List ℕ) → length (component r p).0 ≤ r
unfolding component
component-bound zero p = omega arith
component-bound (suc r) [] = omega arith
component-bound (suc r) (c ∷ p) = let h = component-bound r p in ground arith

names-glue :
    (c : ℕ) (p : List ℕ)
    → (c == slash) ≡ false
    → starts p ≡ true
    → names (c ∷ p) ≡ cons_head c (names p)
names-glue c p e h = rw e (rw h refl)

names-last :
    (c : ℕ) (p : List ℕ)
    → (c == slash) ≡ false
    → starts p ≡ false
    → names (c ∷ p) ≡ (c ∷ []) ∷ names p
names-last c p e h = rw e (rw h refl)

component-zero : (p : List ℕ) → component 0 p ≡ ([], p)
unfolding component
component-zero p = refl

-- A component that ends is the first name.
pub component-name :
    (r : ℕ) (p : List ℕ)
    → starts p ≡ true
    → starts (component r p).1 ≡ false
    → names p ≡ (component r p).0 ∷ names (component r p).1
component-name zero p h k = absurd (let e = ap (λ q. starts q.1) (component-zero p) in ground arith)
component-name (suc r) [] h k = absurd (ground arith)
component-name (suc r) (c ∷ p) h k =
    let step = component-step r c p (ground arith) in
    let ends = sym (ap (λ q. starts q.1) step) ∙ k in
    elim (Bool-cases (starts p)) [
      | inl e ↦
          names-glue c p (ground arith) e
          ∙ ap (cons_head c) (component-name r p e ends)
          ∙ sym (ap (λ q. q.0 ∷ names q.1) step)
      | inr e ↦
          names-last c p (ground arith) e
          ∙ sym (ap (λ q. (c ∷ q.0) ∷ names q.1) (component-shut r p e))
          ∙ sym (ap (λ q. q.0 ∷ names q.1) step)
    ]

-- The first name is longer than n bytes.
abbrev pub Long : ℕ → List ℕ → Type 0
Long n p = (w : List ℕ) × (ws : List (List ℕ)) × (names p ≡ w ∷ ws) × (n < length w)

Long-glue :
    (n c : ℕ) (p : List ℕ)
    → (c == slash) ≡ false
    → starts p ≡ true
    → Long n p
    → Long (suc n) (c ∷ p)
Long-glue n c p e h (w, ws, k, lt) =
    (c ∷ w, ws, names-glue c p e h ∙ ap (cons_head c) k, omega arith)

starts-Long : (p : List ℕ) → starts p ≡ true → Long 0 p
starts-Long [] h = absurd (ground arith)
starts-Long (c ∷ p) h = elim (Bool-cases (starts p)) [
  | inl e ↦
      let (w, ws, k, lt) = Long-glue 0 c p (ground arith) e (starts-Long p e) in
      (w, ws, k, omega arith)
  | inr e ↦ (c ∷ [], names p, names-last c p (ground arith) e, omega arith)
]

-- One that does not end in the room is the start of a longer name.
pub component-Long : (r : ℕ) (p : List ℕ) → starts (component r p).1 ≡ true → Long r p
component-Long zero p k = starts-Long p (sym (ap (λ q. starts q.1) (component-zero p)) ∙ k)
component-Long (suc r) [] k =
    absurd
      (let e = component-shut (suc r) [] refl in let t = ap (λ q. starts q.1) e in ground arith)
component-Long (suc r) (c ∷ p) k = elim (Bool-cases (c == slash)) [
  | inl e ↦
      absurd (
        let t = ap (λ q. starts q.1) (component-shut (suc r) (c ∷ p) (ground arith)) in
        ground arith)
  | inr e ↦
      let more = sym (ap (λ q. starts q.1) (component-step r c p e)) ∙ k in
      elim (Bool-cases (starts p)) [
        | inl h ↦ Long-glue r c p e h (component-Long r p more)
        | inr h ↦ absurd (let t = ap (λ q. starts q.1) (component-shut r p h) in ground arith)
      ]
]
