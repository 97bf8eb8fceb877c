-- ===== src/Heap/Aligned.antt =====
-- What `kmalloc_a` returns begins a page.
use nos.Prelude.{
  ℕ, zero, suc, ◌+◌, ◌%◌, ◌<◌, ◌≤◌, ◌^◌, ◌≡◌, refl, ap, inl, inr, List, [], ◌∷◌, true, false, ◌&&◌,
  Bool-cases, arith, leb, if◌then◌else◌, sub32,
}
use nos.Heap.{
  Heap, Alloc, Outcome, blank, put_header, next_block, head_to_pointer, page_align, page_aligned,
  round_up, walk_a, carve, kmalloc_a,
}
use nos.Heap.FirstFit.{Layout, layout_end, fits, end-le, put_self, round_up_lem}

-- A block in use of `size` bytes at least, at the beginning of a page.
abbrev pub AtPage : ℕ → Outcome → Type 0
AtPage size out =
    (p : ℕ) × (g : Heap) × (out ≡ Outcome.ptr p g)
    × (p % 4096 ≡ 0)
    × (size ≤ (g.hdr (sub32 p 8)).size)
    × ((g.hdr (sub32 p 8)).status ≡ 1)

marked :
    (h : Heap) (mem size s : ℕ)
    → mem + 8 < 2 ^ 32
    → size ≤ s
    → page_aligned (head_to_pointer mem) ≡ true
    → AtPage size (Outcome.ptr (head_to_pointer mem) (put_header h mem s 1))
marked h mem size s small le e =
    let back : sub32 (head_to_pointer mem) 8 ≡ mem = omega arith in
    (
      head_to_pointer mem,
      put_header h mem s 1,
      refl,
      ground arith,
      rw (back, put_self h mem s 1) le,
      rw (back, put_self h mem s 1) refl,
    )

placed :
    (h : Heap) (a size : ℕ)
    → a % 4096 ≡ 4088
    → a + 8 < 2 ^ 32
    → AtPage size (Outcome.ptr (head_to_pointer a) (put_header h a size 1))
placed h a size e small = marked h a size size small (omega arith) (ground arith)

carve-AtPage : (h : Heap) (size mem : ℕ) → mem + 8208 < 2 ^ 32 → AtPage size (carve h size mem)
unfolding carve
carve-AtPage h size mem small =
    let addr = page_align (head_to_pointer mem) in
    elim (Bool-cases (leb 8 (sub32 addr (head_to_pointer mem)))) [
      | inl e ↦ rw e (placed _ _ size (omega arith) (omega arith))
      | inr e ↦ rw e (placed _ _ size (omega arith) (omega arith))
    ]

module _ (f : ℕ) (h : Heap) (size mem : ℕ) (inside : mem < h.heap_end) where
  -- At the blank header behind the last block.
  last :
      h.hdr mem ≡ blank
      → 0 < size
      → walk_a (suc f) h size mem ≡ (
          if page_aligned (head_to_pointer mem)
          then Outcome.ptr (head_to_pointer mem) (put_header h mem size 1)
          else carve h size mem)
  unfolding walk_a
  last e pos = ground arith

  take_it :
      (fits size (h.hdr mem) ≡ true)
      → page_aligned (head_to_pointer mem) ≡ true
      → walk_a (suc f) h size mem
        ≡ Outcome.ptr (head_to_pointer mem) (put_header h mem (h.hdr mem).size 1)
  unfolding walk_a
  take_it e al = ground arith

  pass_by :
      0 < (h.hdr mem).size
      → (fits size (h.hdr mem) && page_aligned (head_to_pointer mem)) ≡ false
      → walk_a (suc f) h size mem ≡ walk_a f h size (next_block h mem)
  unfolding walk_a
  pass_by pos e = ground arith

walk_a-AtPage :
    (f : ℕ) (h : Heap) (size mem : ℕ) (xs : List Alloc)
    → 0 < size
    → Layout h.hdr mem xs
    → layout_end mem xs + 8208 ≤ h.heap_end
    → h.heap_end < 2 ^ 32
    → h.heap_end ≤ mem + f
    → AtPage size (walk_a f h size mem)
walk_a-AtPage zero h size mem xs pos l room small fuel = absurd (omega (arith, end-le mem xs))
walk_a-AtPage (suc f) h size mem [] pos l room small fuel =
    rw (last f h size mem (omega arith) (l mem (omega arith)) pos)
      (elim (Bool-cases (page_aligned (head_to_pointer mem))) [
        | inl e ↦ rw e (marked h mem size size (omega arith) (omega arith) e)
        | inr e ↦ rw e (carve-AtPage h size mem (omega arith))
      ])
walk_a-AtPage (suc f) h size mem (x ∷ xs) pos (at, xpos, st, l) room small fuel =
    let later : AtPage size (walk_a f h size (next_block h mem)) =
      rw step (walk_a-AtPage f h size (mem + 8 + x.size) xs pos l room small (omega arith)) in
    elim (Bool-cases (fits size (h.hdr mem))) [
      | inr e ↦ rw (pass_by f h size mem inside (rw at xpos) (rw e)) later
      | inl e ↦ elim (Bool-cases (page_aligned (head_to_pointer mem))) [
        | inl al ↦ rw (take_it f h size mem inside e al) (
            marked h mem size (h.hdr mem).size (omega (arith, end-le (mem + 8 + x.size) xs))
              (ground arith) al)
        | inr al ↦ rw (pass_by f h size mem inside (rw at xpos) (ground arith)) later
      ]
    ]
  where
    inside : mem < h.heap_end
    inside = omega (arith, end-le (mem + 8 + x.size) xs)

    step : next_block h mem ≡ mem + 8 + x.size
    step = omega (arith, end-le (mem + 8 + x.size) xs, ap (λ (y : Alloc). y.size) at)

-- For a size from 1 to 2 ^ 32 - 8, on a heap that ends below 2 ^ 32, with blocks of positive
-- sizes and at least 8208 bytes behind the last: kmalloc_a ends without a panic and returns the
-- beginning of a page, and the header in the 8 bytes before it is that of a block in use with a
-- size of at least what was asked for. Whether a new block ends inside the heap is not part of
-- this.
pub kmalloc_a-AtPage :
    (h : Heap) (n : ℕ) (xs : List Alloc)
    → Layout h.hdr h.heap xs
    → 0 < n
    → n + 8 ≤ 2 ^ 32
    → layout_end h.heap xs + 8208 ≤ h.heap_end
    → h.heap_end < 2 ^ 32
    → AtPage n (kmalloc_a h n)
unfolding kmalloc_a
kmalloc_a-AtPage h n xs l pos small room bound =
    let (up, _, _) = round_up_lem n small pos in
    let (p, g, went, page, size, used) =
      walk_a-AtPage (suc h.heap_end) h (round_up n) h.heap xs (omega arith) l room bound
        (omega arith) in
    (p, g, went, page, omega arith, used)
