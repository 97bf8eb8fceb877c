-- ===== src/Heap/FirstFit.antt =====
-- `kmalloc` and `kfree` against a first-fit allocator on a list of blocks.
use nos.Prelude.{
  ℕ, zero, suc, ◌+◌, ◌%◌, ◌≤◌, ◌<◌, ◌^◌, ◌≡◌, refl, ap, ◌∙◌, inl, inr, List, [], ◌∷◌, Bool, true,
  false, ◌&&◌, Bool-cases, arith, leb, ◌==◌, if◌then◌else◌, update,
}
use nos.Heap.{
  Heap, Alloc, Outcome, blank, put_header, next_block, head_to_pointer, round_up, walk, kmalloc,
}

-- The blocks of a heap in the order of their addresses, and a blank header behind the last.
abbrev pub Layout : (ℕ → Alloc) → ℕ → List Alloc → Type 0
Layout hdr a [] = (b : ℕ) → a ≤ b → hdr b ≡ blank
Layout hdr a (x ∷ xs) = (hdr a ≡ x) × (0 < x.size) × (x.status < 2) × Layout hdr (a + 8 + x.size) xs

-- The first address behind the blocks.
abbrev pub layout_end : ℕ → List Alloc → ℕ
layout_end a [] = a
layout_end a (x ∷ xs) = layout_end (a + 8 + x.size) xs

abbrev pub fits : ℕ → Alloc → Bool
fits size x = x.status == 0 && leb size x.size

-- The address that a first-fit allocator returns, and its blocks then.
unfoldable pub first_fit : ℕ → ℕ → List Alloc → ℕ × List Alloc
first_fit size a [] = (a + 8, record { size = size; status = 1 } ∷ [])
first_fit size a (x ∷ xs) =
    let rest = first_fit size (a + 8 + x.size) xs in
    if fits size x then (a + 8, record x { status = 1 } ∷ xs) else (rest.0, x ∷ rest.1)

-- A header below the blocks is none of theirs.
pub Layout-update :
    (hdr : ℕ → Alloc) (i a : ℕ) (v : Alloc) (xs : List Alloc)
    → i < a
    → Layout hdr a xs
    → Layout (update hdr i v) a xs
Layout-update hdr i a v [] h l = λ b le. let e : (i == b) ≡ false = ground arith in rw e (l b le)
Layout-update hdr i a v (x ∷ xs) h (e, p, s, l) =
    let ne : (i == a) ≡ false = ground arith in
    (rw ne e, p, s, Layout-update hdr i (a + 8 + x.size) v xs (omega arith) l)

pub end-le : (a : ℕ) (xs : List Alloc) → a ≤ layout_end a xs
end-le a [] = omega arith
end-le a (x ∷ xs) = omega (arith, end-le (a + 8 + x.size) xs)

-- What the walk from the first of `xs` on gives.
abbrev Found : Heap → ℕ → List Alloc → ℕ → Outcome → Type 0
Found h mem xs size out =
    (g : Heap) × (out ≡ Outcome.ptr (first_fit size mem xs).0 g)
    × Layout g.hdr mem (first_fit size mem xs).1
    × (g.heap ≡ h.heap)
    × (g.heap_end ≡ h.heap_end)
    × ((b : ℕ) → b < mem → g.hdr b ≡ h.hdr b)

pub put_self :
    (h : Heap) (a size status : ℕ)
    → (put_header h a size status).hdr a ≡ record { size = size; status = status }
put_self h a size status = let e : (a == a) ≡ true = ground arith in rw e

pub put_below :
    (h : Heap) (a size status b : ℕ) → b < a → (put_header h a size status).hdr b ≡ h.hdr b
put_below h a size status b lt = let e : (a == b) ≡ false = ground arith in rw e

module _ (f : ℕ) (h : Heap) (size mem : ℕ) (inside : mem < h.heap_end) where
  walk-take :
      fits size (h.hdr mem) ≡ true
      → walk (suc f) h size mem
        ≡ Outcome.ptr (head_to_pointer mem) (put_header h mem (h.hdr mem).size 1)
  unfolding walk
  walk-take e = ground arith

  walk-last :
      h.hdr mem ≡ blank
      → 0 < size
      → walk (suc f) h size mem ≡ Outcome.ptr (head_to_pointer mem) (put_header h mem size 1)
  unfolding walk
  walk-last e pos = ground arith

  walk-skip :
      fits size (h.hdr mem) ≡ false
      → 0 < (h.hdr mem).size
      → walk (suc f) h size mem ≡ walk f h size (next_block h mem)
  unfolding walk
  walk-skip e pos = ground arith

walk-Found :
    (f : ℕ) (h : Heap) (size mem : ℕ) (xs : List Alloc)
    → 0 < size
    → Layout h.hdr mem xs
    → layout_end mem xs + 8 + size ≤ h.heap_end
    → h.heap_end < 2 ^ 32
    → h.heap_end ≤ mem + f
    → Found h mem xs size (walk f h size mem)
unfolding first_fit
walk-Found zero h size mem xs pos l room small fuel = absurd (omega (arith, end-le mem xs))
walk-Found (suc f) h size mem [] pos l room small fuel =
    let p : head_to_pointer mem ≡ mem + 8 = omega arith in
    (
      put_header h mem size 1,
      walk-last f h size mem (omega arith) (l mem (omega arith)) pos
          ∙ ap (λ q. Outcome.ptr q (put_header h mem size 1)) p,
      (
        put_self h mem size 1,
        pos,
        omega arith,
        (λ b le. let e : (mem == b) ≡ false = ground arith in rw e (l b (omega arith))),
      ),
      refl,
      refl,
      (λ b lt. put_below h mem size 1 b lt),
    )
walk-Found (suc f) h size mem (x ∷ xs) pos (at, xpos, st, l) room small fuel =
    elim (Bool-cases (fits size x)) [
      | inl e ↦
          let p : head_to_pointer mem ≡ mem + 8 = omega (arith, behind) in
          let g = put_header h mem (h.hdr mem).size 1 in
          rw e (
            g,
            walk-take f h size mem inside (rw at e) ∙ ap (λ q. Outcome.ptr q g) p,
            (
              put_self h mem (h.hdr mem).size 1
                  ∙ ap (λ (y : Alloc). record { size = y.size; status = 1 }) at,
              xpos,
              omega arith,
              Layout-update h.hdr mem (mem + 8 + x.size) _ xs (omega arith) l,
            ),
            refl,
            refl,
            (λ b lt. put_below h mem (h.hdr mem).size 1 b lt),
          )
      | inr e ↦
          let (g, went, laid, start, stop, below) =
            walk-Found f h size (mem + 8 + x.size) xs pos l room small (omega arith) in
          rw e (
            g,
            walk-skip f h size mem inside (rw at e) (rw at xpos) ∙ ap (walk f h size) step ∙ went,
            (below mem (omega arith) ∙ at, xpos, st, laid),
            start,
            stop,
            (λ b lt. below b (omega arith)),
          )
    ]
  where
    behind : mem + 8 + x.size + 8 + size ≤ h.heap_end
    behind = omega (arith, end-le (mem + 8 + x.size) xs)

    inside : mem < h.heap_end
    inside = omega (arith, behind)

    step : next_block h mem ≡ mem + 8 + x.size
    step = omega (arith, behind, ap (λ (y : Alloc). y.size) at)

pub round_up_lem :
    (n : ℕ)
    → n + 8 ≤ 2 ^ 32
    → 0 < n
    → (n ≤ round_up n) × (round_up n < n + 8) × (round_up n % 8 ≡ 0)
unfolding round_up
round_up_lem n h pos = omega arith

-- Under the same conditions, kmalloc returns the address that a first-fit allocator on the list
-- of blocks gives, lays the blocks out as that does, and keeps the bounds of the heap; it neither
-- panics nor fails to end.
pub kmalloc-first_fit :
    (h : Heap) (n : ℕ) (xs : List Alloc)
    → Layout h.hdr h.heap xs
    → 0 < n
    → layout_end h.heap xs + 16 + n ≤ h.heap_end
    → h.heap_end < 2 ^ 32
    → (g : Heap) × (kmalloc h n ≡ Outcome.ptr (first_fit (round_up n) h.heap xs).0 g)
      × Layout g.hdr h.heap (first_fit (round_up n) h.heap xs).1
      × (g.heap ≡ h.heap)
      × (g.heap_end ≡ h.heap_end)
unfolding kmalloc
kmalloc-first_fit h n xs l pos room small =
    let (up, down, _) = round_up_lem n (omega arith) pos in
    let (g, went, laid, start, stop, _) =
      walk-Found (suc h.heap_end) h (round_up n) h.heap xs (omega arith) l (omega arith) small
        (omega arith) in
    (g, went, laid, start, stop)
