-- ===== src/Heap/Blocks.antt =====
-- The blocks in use: `kmalloc` adds one that lies apart from the others, `kfree` takes one away.
use nos.Prelude.{
  ℕ, ◌+◌, ◌≤◌, ◌<◌, ◌^◌, ◌≡◌, refl, ap, ◌∙◌, sym, ◌⊎◌, inl, inr, List, [], ◌∷◌, ◌++◌, true, false,
  Bool-cases, arith, ◌==◌, if◌then◌else◌, sub32,
}
use mathlib.Core.Path.{subst}
use nos.Heap.{Heap, Alloc, Outcome, put_header, round_up, kmalloc, kfree}
use nos.Heap.FirstFit.{
  Layout, layout_end, fits, first_fit, Layout-update, end-le, put_self, put_below,
  kmalloc-first_fit, round_up_lem,
}

-- The pointer and the size of each block in use.
abbrev pub live : ℕ → List Alloc → List (ℕ × ℕ)
live a [] = []
live a (x ∷ xs) =
    let rest = live (a + 8 + x.size) xs in if x.status == 1 then (a + 8, x.size) ∷ rest else rest

-- Blocks in ascending order from `lo` on, none of which reaches into the next.
abbrev pub Apart : ℕ → List (ℕ × ℕ) → Type 0
Apart lo [] = Unit
Apart lo ((p, s) ∷ rest) = (lo ≤ p) × Apart (p + s) rest

Apart-below : (lo hi : ℕ) (l : List (ℕ × ℕ)) → lo ≤ hi → Apart hi l → Apart lo l
Apart-below lo hi [] le h = tt
Apart-below lo hi ((p, s) ∷ rest) le h = (omega arith, h.1)

live-Apart : (a : ℕ) (xs : List Alloc) → Apart a (live a xs)
live-Apart a [] = tt
live-Apart a (x ∷ xs) = elim (Bool-cases (x.status == 1)) [
  | inl e ↦ rw e (omega arith, live-Apart (a + 8 + x.size) xs)
  | inr e ↦ rw e (Apart-below a (a + 8 + x.size) _ (omega arith) (live-Apart (a + 8 + x.size) xs))
]

-- One block more: where it stands, and that it is large enough.
abbrev pub OneMore : ℕ → ℕ → List (ℕ × ℕ) → List (ℕ × ℕ) → Type 0
OneMore n p old new =
    (pre : List (ℕ × ℕ)) × (post : List (ℕ × ℕ)) × (s : ℕ) × (old ≡ pre ++ post)
    × (new ≡ pre ++ ((p, s) ∷ post))
    × (n ≤ s)

first_fit-OneMore :
    (size a : ℕ) (xs : List Alloc)
    → let (p, ys) = first_fit size a xs in OneMore size p (live a xs) (live a ys)
unfolding first_fit
first_fit-OneMore size a [] = ([], [], size, refl, refl, omega arith)
first_fit-OneMore size a (x ∷ xs) = elim (Bool-cases (fits size x)) [
  | inl e ↦
      let free : (x.status == 1) ≡ false = ground arith in
      rw (e, free) ([], live (a + 8 + x.size) xs, x.size, refl, refl, ground arith)
  | inr e ↦
      let (pre, post, s, old, new, le) = first_fit-OneMore size (a + 8 + x.size) xs in
      rw e (elim (Bool-cases (x.status == 1)) [
        | inl u ↦ rw u (
          (a + 8, x.size) ∷ pre,
          post,
          s,
          ap (◌∷◌ (a + 8, x.size)) old,
          ap (◌∷◌ (a + 8, x.size)) new,
          le,
        )
        | inr u ↦ rw u (pre, post, s, old, new, le)
      ])
]

-- With blocks of positive sizes and room behind the last, kmalloc keeps every block in use as it
-- is, and adds one of the size that was asked for at least, at the address that it returns; no
-- two blocks in use overlap.
pub kmalloc-OneMore :
    (h : Heap) (n : ℕ) (xs : List Alloc)
    → Layout h.hdr h.heap xs
    → 0 < n
    → layout_end h.heap xs + 16 + n ≤ h.heap_end
    → h.heap_end < 2 ^ 32
    → (g : Heap) × (p : ℕ) × (ys : List Alloc) × (kmalloc h n ≡ Outcome.ptr p g)
      × Layout g.hdr g.heap ys
      × OneMore n p (live h.heap xs) (live g.heap ys)
      × Apart g.heap (live g.heap ys)
kmalloc-OneMore h n xs l pos room small =
    let (g, went, laid, start, _) = kmalloc-first_fit h n xs l pos room small in
    let (up, _, _) = round_up_lem n (omega arith) pos in
    let (pre, post, s, old, new, le) = first_fit-OneMore (round_up n) h.heap xs in
    let (p, ys) = first_fit (round_up n) h.heap xs in
    (
      g,
      p,
      ys,
      went,
      rw start laid,
      (pre, post, s, old, rw start new, omega arith),
      live-Apart g.heap ys,
    )

-- The block at `p` is given back.
pub free_at : ℕ → ℕ → List Alloc → List Alloc
free_at p a [] = []
free_at p a (x ∷ xs) =
    let rest = free_at p (a + 8 + x.size) xs in
    if a + 8 == p then record x { status = 0 } ∷ xs else x ∷ rest

-- `p` points to one of the blocks.
abbrev pub IsBlock : ℕ → ℕ → List Alloc → Type 0
IsBlock p a [] = ⊥
IsBlock p a (x ∷ xs) = (a + 8 ≡ p) ⊎ IsBlock p (a + 8 + x.size) xs

IsBlock-le : (p a : ℕ) (xs : List Alloc) → IsBlock p a xs → (a + 8 ≤ p) × (p ≤ layout_end a xs)
IsBlock-le p a [] m = absurd m
IsBlock-le p a (x ∷ xs) (inl e) = omega (arith, end-le (a + 8 + x.size) xs)
IsBlock-le p a (x ∷ xs) (inr m) = omega (arith, IsBlock-le p (a + 8 + x.size) xs m)

freed_head :
    (h : Heap) (a : ℕ) (x : Alloc) (xs : List Alloc)
    → Layout h.hdr a (x ∷ xs)
    → Layout (put_header h a (h.hdr a).size 0).hdr a (free_at (a + 8) a (x ∷ xs))
unfolding free_at
freed_head h a x xs (at, pos, st, l) =
    let here : (a + 8 == a + 8) ≡ true = ground arith in
    rw here (
      put_self h a (h.hdr a).size 0 ∙ ap (λ (y : Alloc). record { size = y.size; status = 0 }) at,
      pos,
      omega arith,
      Layout-update h.hdr a (a + 8 + x.size) _ xs (omega arith) l,
    )

freed-Layout :
    (h : Heap) (b a : ℕ) (xs : List Alloc)
    → Layout h.hdr a xs
    → IsBlock (b + 8) a xs
    → Layout (put_header h b (h.hdr b).size 0).hdr a (free_at (b + 8) a xs)
unfolding free_at
freed-Layout h b a [] l m = absurd m
freed-Layout h b a (x ∷ xs) l (inl e) =
    let same : a ≡ b = omega arith in
    subst (λ c. Layout (put_header h c (h.hdr c).size 0).hdr a (free_at (c + 8) a (x ∷ xs))) same
      (freed_head h a x xs l)
freed-Layout h b a (x ∷ xs) (at, pos, st, l) (inr m) =
    let le = IsBlock-le (b + 8) (a + 8 + x.size) xs m in
    let there : (a + 8 == b + 8) ≡ false = ground arith in
    rw there (
      put_below h b (h.hdr b).size 0 a (omega arith) ∙ at,
      pos,
      st,
      freed-Layout h b (a + 8 + x.size) xs l m,
    )

-- On a sound heap kfree of a block's pointer marks that block as free, and nothing else.
pub kfree-free_at :
    (h : Heap) (p : ℕ) (xs : List Alloc)
    → Layout h.hdr h.heap xs
    → IsBlock p h.heap xs
    → layout_end h.heap xs < 2 ^ 32
    → Layout (kfree h p).hdr h.heap (free_at p h.heap xs)
unfolding kfree
kfree-free_at h p xs l m small =
    let le = IsBlock-le p h.heap xs m in
    let ne : (p == 0) ≡ false = ground arith in
    let b : ℕ = sub32 p 8 in
    let e : p ≡ b + 8 = omega arith in
    rw ne (
      subst (λ q. Layout (put_header h b (h.hdr b).size 0).hdr h.heap (free_at q h.heap xs)) (sym e)
        (freed-Layout h b h.heap xs l (subst (λ q. IsBlock q h.heap xs) e m)))

first_fit-IsBlock : (size a : ℕ) (xs : List Alloc) → a + 8 ≤ (first_fit size a xs).0
unfolding first_fit
first_fit-IsBlock size a [] = omega arith
first_fit-IsBlock size a (x ∷ xs) = ground (arith, first_fit-IsBlock size (a + 8 + x.size) xs)

-- Giving back the block that was just handed out leaves the blocks in use as they were before.
pub free-malloc :
    (size a : ℕ) (xs : List Alloc)
    → let (p, ys) = first_fit size a xs in live a (free_at p a ys) ≡ live a xs
unfolding first_fit free_at
free-malloc size a [] = let e : (a + 8 == a + 8) ≡ true = ground arith in rw e
free-malloc size a (x ∷ xs) = elim (Bool-cases (fits size x)) [
  | inl e ↦
      let here : (a + 8 == a + 8) ≡ true = ground arith in
      let free : (x.status == 1) ≡ false = ground arith in rw (e, free, here)
  | inr e ↦
      let r = first_fit size (a + 8 + x.size) xs in
      let later = first_fit-IsBlock size (a + 8 + x.size) xs in
      let there : (a + 8 == r.0) ≡ false = ground arith in
      rw (e, there)
        (ap (λ l. if x.status == 1 then (a + 8, x.size) ∷ l else l)
          (free-malloc size (a + 8 + x.size) xs))
]

first_fit-ends :
    (size a : ℕ) (xs : List Alloc)
    → let (p, ys) = first_fit size a xs in
      IsBlock p a ys × (layout_end a ys ≤ layout_end a xs + 8 + size)
unfolding first_fit
first_fit-ends size a [] = (inl refl, omega arith)
first_fit-ends size a (x ∷ xs) = elim (Bool-cases (fits size x)) [
  | inl e ↦ rw e (inl refl, omega arith)
  | inr e ↦ let (m, le) = first_fit-ends size (a + 8 + x.size) xs in rw e (inr m, le)
]

-- Under the same conditions, kfree of the address that kmalloc returned leaves a sound heap in
-- which the blocks in use are the same as before both calls.
pub kfree-kmalloc :
    (h : Heap) (n : ℕ) (xs : List Alloc)
    → Layout h.hdr h.heap xs
    → 0 < n
    → layout_end h.heap xs + 16 + n ≤ h.heap_end
    → h.heap_end < 2 ^ 32
    → (g : Heap) × (p : ℕ) × (ys : List Alloc) × (kmalloc h n ≡ Outcome.ptr p g)
      × Layout (kfree g p).hdr g.heap ys
      × (live g.heap ys ≡ live h.heap xs)
kfree-kmalloc h n xs l pos room small =
    let (g, went, laid, start, _) = kmalloc-first_fit h n xs l pos room small in
    let (_, down, _) = round_up_lem n (omega arith) pos in
    let (m, le) = first_fit-ends (round_up n) h.heap xs in
    let (p, ys) = first_fit (round_up n) h.heap xs in
    (
      g,
      p,
      free_at p g.heap ys,
      went,
      kfree-free_at g p ys (rw start laid) (rw start m) (rw start (omega arith)),
      rw start (free-malloc (round_up n) h.heap xs),
    )
