-- ===== src/Heap/Overlap.antt =====
-- `kmalloc_a` may leave a filler of no bytes, which the next `kmalloc` takes for the last block.
use nos.Prelude.{
  ℕ, suc, ◌+◌, ◌-◌, ◌%◌, ◌≤◌, ◌<◌, ◌^◌, ◌≡◌, ap, ◌∙◌, sym, List, [], ◌∷◌, arith, length,
}
use nos.Heap.{
  Heap, Alloc, Outcome, blank, put_header, next_block, round_up, walk, walk_a, carve, kmalloc,
  kmalloc_a,
}
use nos.Heap.FirstFit.{layout_end, end-le, put_self, put_below, round_up_lem}

-- The blocks from `a` on, all of them in use.
abbrev pub InUse : (ℕ → Alloc) → ℕ → List Alloc → Type 0
InUse hdr a [] = Unit
InUse hdr a (x ∷ xs) = (hdr a ≡ x) × (x.status ≡ 1) × InUse hdr (a + 8 + x.size) xs

length-le : (a : ℕ) (xs : List Alloc) → a + length xs ≤ layout_end a xs
length-le a [] = omega arith
length-le a (x ∷ xs) = omega (arith, length-le (a + 8 + x.size) xs)

module _ (h : Heap) (size : ℕ) where
  used-walk :
      (f mem : ℕ)
      → mem < h.heap_end
      → (h.hdr mem).status ≡ 1
      → walk (suc f) h size mem ≡ walk f h size (next_block h mem)
  unfolding walk
  used-walk f mem lt e = ground arith

  used-walk_a :
      (f mem : ℕ)
      → mem < h.heap_end
      → (h.hdr mem).status ≡ 1
      → walk_a (suc f) h size mem ≡ walk_a f h size (next_block h mem)
  unfolding walk_a
  used-walk_a f mem lt e = ground arith

  step :
      (a : ℕ) (x : Alloc) (xs : List Alloc)
      → h.hdr a ≡ x
      → layout_end a (x ∷ xs) < 2 ^ 32
      → next_block h a ≡ a + 8 + x.size
  step a x xs at small = omega (arith, end-le (a + 8 + x.size) xs, ap (λ (y : Alloc). y.size) at)

  -- The walks go past all blocks in use.
  walk-used :
      (f a : ℕ) (xs : List Alloc)
      → InUse h.hdr a xs
      → layout_end a xs < h.heap_end
      → h.heap_end < 2 ^ 32
      → walk (length xs + f) h size a ≡ walk f h size (layout_end a xs)
  walk-used f a [] u lt small = ap (λ n. walk n h size a) (omega arith)
  walk-used f a (x ∷ xs) (at, used, u) lt small =
      let l = end-le (a + 8 + x.size) xs in
      let s : suc (length xs) + f ≡ suc (length xs + f) = omega arith in
      ap (λ n. walk n h size a) s
      ∙ used-walk (length xs + f) a (omega arith) (ap (λ (y : Alloc). y.status) at ∙ used)
      ∙ ap (walk (length xs + f) h size) (step a x xs at (omega arith))
      ∙ walk-used f (a + 8 + x.size) xs u lt small

  walk_a-used :
      (f a : ℕ) (xs : List Alloc)
      → InUse h.hdr a xs
      → layout_end a xs < h.heap_end
      → h.heap_end < 2 ^ 32
      → walk_a (length xs + f) h size a ≡ walk_a f h size (layout_end a xs)
  walk_a-used f a [] u lt small = ap (λ n. walk_a n h size a) (omega arith)
  walk_a-used f a (x ∷ xs) (at, used, u) lt small =
      let l = end-le (a + 8 + x.size) xs in
      let s : suc (length xs) + f ≡ suc (length xs + f) = omega arith in
      ap (λ n. walk_a n h size a) s
      ∙ used-walk_a (length xs + f) a (omega arith) (ap (λ (y : Alloc). y.status) at ∙ used)
      ∙ ap (walk_a (length xs + f) h size) (step a x xs at (omega arith))
      ∙ walk_a-used f (a + 8 + x.size) xs u lt small

InUse-put :
    (h : Heap) (b size status a : ℕ) (xs : List Alloc)
    → layout_end a xs ≤ b
    → InUse h.hdr a xs
    → InUse (put_header h b size status).hdr a xs
InUse-put h b size status a [] le u = tt
InUse-put h b size status a (x ∷ xs) le (at, used, u) = (
  put_below h b size status a (omega (arith, end-le (a + 8 + x.size) xs)) ∙ at,
  used,
  InUse-put h b size status (a + 8 + x.size) xs le u,
)

-- The heap after the carving at `mem`, 16 bytes below a page boundary: a filler of no bytes, and the
-- block behind it.
abbrev pub carved : Heap → ℕ → ℕ → Heap
carved h size mem = put_header (put_header h mem 0 0) (mem + 8) size 1

carve_lem :
    (h : Heap) (size mem f : ℕ)
    → mem % 4096 ≡ 4080
    → mem + 16 < 2 ^ 32
    → mem < h.heap_end
    → h.hdr mem ≡ blank
    → 0 < size
    → walk_a (suc f) h size mem ≡ Outcome.ptr (mem + 16) (carved h size mem)
unfolding walk_a carve
carve_lem h size mem f off small lt e pos = ground arith

refuel :
    (end : ℕ) (a : ℕ) (xs : List Alloc)
    → layout_end a xs < end
    → suc end ≡ length xs + suc (end - length xs)
refuel end a xs lt = omega (arith, length-le a xs)

second :
    (g : Heap) (n mem f : ℕ)
    → mem + 16 < 2 ^ 32
    → mem < g.heap_end
    → g.hdr mem ≡ blank
    → 0 < n
    → walk (suc f) g n mem ≡ Outcome.ptr (mem + 8) (put_header g mem n 1)
unfolding walk
second g n mem f small lt e pos = ground arith

-- If all blocks are in use and the last of them ends 16 bytes below a page boundary, kmalloc_a
-- returns a block with its header at e + 8, where e is the end of the blocks, and the next
-- kmalloc returns that very address e + 8: the second caller's memory begins with the header of
-- the first caller's block.
pub kmalloc_overlap :
    (h : Heap) (m n e : ℕ) (xs : List Alloc)
    → InUse h.hdr h.heap xs
    → e ≡ layout_end h.heap xs
    → e % 4096 ≡ 4080
    → h.hdr e ≡ blank
    → e + 16 < h.heap_end
    → h.heap_end < 2 ^ 32
    → 0 < m
    → m + 8 ≤ 2 ^ 32
    → 0 < n
    → n + 8 ≤ 2 ^ 32
    → (g k : Heap) × (kmalloc_a h m ≡ Outcome.ptr (e + 16) g)
      × (g.hdr (e + 8) ≡ record { size = round_up m; status = 1 })
      × (kmalloc g n ≡ Outcome.ptr (e + 8) k)
unfolding kmalloc kmalloc_a
kmalloc_overlap h m n e xs u ends off clear room small m_pos m_small n_pos n_small =
    let f = h.heap_end - length xs in
    let fuel = refuel h.heap_end h.heap xs (omega arith) in
    let g = carved h (round_up m) e in
    let (m_up, _, _) = round_up_lem m m_small m_pos in
    let (n_up, _, _) = round_up_lem n n_small n_pos in
    let filled = put_header h e 0 0 in
    let g_used : InUse g.hdr g.heap xs =
      InUse-put filled (e + 8) (round_up m) 1 h.heap xs (omega arith)
        (InUse-put h e 0 0 h.heap xs (omega arith) u) in
    let filler : g.hdr e ≡ blank =
      put_below filled (e + 8) (round_up m) 1 e (omega arith) ∙ put_self h e 0 0 in
    (
      g,
      put_header g e (round_up n) 1,
      ap (λ k. walk_a k h (round_up m) h.heap) fuel
          ∙ walk_a-used h (round_up m) (suc f) h.heap xs u (omega arith) small
          ∙ ap (walk_a (suc f) h (round_up m)) (sym ends)
          ∙ carve_lem h (round_up m) e f off (omega arith) (omega arith) clear (omega arith),
      put_self filled (e + 8) (round_up m) 1,
      ap (λ k. walk k g (round_up n) h.heap) fuel
          ∙ walk-used g (round_up n) (suc f) h.heap xs g_used (omega arith) small
          ∙ ap (walk (suc f) g (round_up n)) (sym ends)
          ∙ second g (round_up n) e f (omega arith) (omega arith) filler (omega arith),
    )
