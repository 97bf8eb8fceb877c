-- ===== src/Heap/Tests.antt =====
-- Runs of the heap, and the theorems about it at concrete inputs.
use nos.Prelude.{ℕ, ◌≡◌, refl, List, [], ◌∷◌, arith, update, inl, inr}
use nos.Heap.{Heap, Alloc, Outcome, blank, heap_init, kmalloc, kmalloc_a, kfree, round_up}
use nos.Heap.FirstFit.{Layout, first_fit, kmalloc-first_fit}
use nos.Heap.Blocks.{live, Apart, OneMore, free_at, kmalloc-OneMore, kfree-free_at, kfree-kmalloc}
use nos.Heap.Aligned.{AtPage, kmalloc_a-AtPage}
use nos.Heap.Overlap.{kmalloc_overlap}

abbrev block : ℕ → ℕ → Alloc
block size status = record { size = size; status = status }

-- 64 KB from 0x1000 on, all clear.
abbrev clear : Heap
clear = record { heap = 0x1000; heap_end = 0x11000; hdr = λ a. blank }

clear-Layout : Layout clear.hdr 0x1000 []
clear-Layout b le = refl

-- A free block of 24 bytes in front of one in use.
abbrev worn : Heap
worn = record clear { hdr = update (update clear.hdr 0x1000 (block 24 0)) 0x1020 (block 8 1) }

abbrev worn_blocks : List Alloc
worn_blocks = block 24 0 ∷ block 8 1 ∷ []

worn-Layout : Layout worn.hdr 0x1000 worn_blocks
worn-Layout =
    (refl, omega arith, omega arith, (refl, omega arith, omega arith, λ b le. ground arith))

init_run : (heap_init 0x100001 0x102345).heap ≡ 0x103000
unfolding heap_init
init_run = refl

kmalloc-first_fit_test :
    (g : Heap) × (kmalloc worn 16 ≡ Outcome.ptr 0x1008 g)
    × Layout g.hdr 0x1000 (block 24 1 ∷ block 8 1 ∷ [])
    × (g.heap ≡ 0x1000)
    × (g.heap_end ≡ 0x11000)
unfolding first_fit round_up
kmalloc-first_fit_test =
    kmalloc-first_fit worn 16 worn_blocks worn-Layout (omega arith) (omega arith) (omega arith)

kmalloc-OneMore_example :
    (g : Heap) × (p : ℕ) × (ys : List Alloc) × (kmalloc worn 16 ≡ Outcome.ptr p g)
    × Layout g.hdr g.heap ys
    × OneMore 16 p (live 0x1000 worn_blocks) (live g.heap ys)
    × Apart g.heap (live g.heap ys)
kmalloc-OneMore_example =
    kmalloc-OneMore worn 16 worn_blocks worn-Layout (omega arith) (omega arith) (omega arith)

kfree-free_at_test : Layout (kfree worn 0x1028).hdr 0x1000 (free_at 0x1028 0x1000 worn_blocks)
kfree-free_at_test =
    kfree-free_at worn 0x1028 worn_blocks worn-Layout (inr (inl refl)) (omega arith)

kfree-kmalloc_example :
    (g : Heap) × (p : ℕ) × (ys : List Alloc) × (kmalloc worn 40 ≡ Outcome.ptr p g)
    × Layout (kfree g p).hdr g.heap ys
    × (live g.heap ys ≡ live 0x1000 worn_blocks)
kfree-kmalloc_example =
    kfree-kmalloc worn 40 worn_blocks worn-Layout (omega arith) (omega arith) (omega arith)

kmalloc_a-AtPage_example : AtPage 100 (kmalloc_a worn 100)
kmalloc_a-AtPage_example =
    kmalloc_a-AtPage worn 100 worn_blocks worn-Layout (omega arith) (omega arith) (omega arith)
      (omega arith)

-- One block in use, from 0x1000 to 0x1ff0.
abbrev tight : Heap
tight = record clear { hdr = update clear.hdr 0x1000 (block 0xfe8 1) }

kmalloc_overlap_example :
    (g k : Heap) × (kmalloc_a tight 64 ≡ Outcome.ptr 0x2000 g)
    × (g.hdr 0x1ff8 ≡ block 64 1)
    × (kmalloc g 32 ≡ Outcome.ptr 0x1ff8 k)
unfolding round_up
kmalloc_overlap_example =
    kmalloc_overlap tight 64 32 0x1ff0 (block 0xfe8 1 ∷ []) (refl, refl, tt) refl refl refl
      (omega arith) (omega arith) (omega arith) (omega arith) (omega arith) (omega arith)
