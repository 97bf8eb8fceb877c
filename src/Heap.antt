-- ===== src/Heap.antt =====
-- kernel/kmalloc.c. The memory of the heap is read and written through the headers alone, so the
-- model keeps the header that stands at each address; callers write inside their blocks only.
-- `panicked` is the call of `panic`; `out_of_fuel` says that the walk was cut short.
pub mod FirstFit
pub mod Blocks
pub mod Aligned
pub mod Overlap
mod Tests
use nos.Prelude.{
  ℕ, zero, suc, ◌+◌, ◌-◌, ◌*◌, ◌/◌, ◌%◌, ltb, leb, Bool, not, if◌then◌else◌, ◌==◌, add32, sub32,
  update,
}

-- `struct alloc`, whose size is 8
pub record Alloc : Type 0 where
  pub size : ℕ
  pub status : ℕ

pub record Heap : Type 0 where
  pub heap : ℕ
  pub heap_end : ℕ
  pub hdr : ℕ → Alloc

pub data Outcome : Type 0 where
  ptr : ℕ → Heap → Outcome
  panicked : Outcome
  out_of_fuel : Outcome

abbrev pub blank : Alloc
blank = record { size = 0; status = 0 }

-- `(a & 0xFFFFF000) + 0x1000`
abbrev pub page_align : ℕ → ℕ
page_align a = add32 (a / 4096 * 4096) 4096

abbrev pub page_aligned : ℕ → Bool
page_aligned a = a % 4096 == 0

-- The start is moved up to a page boundary, and the memory is cleared.
unfoldable pub heap_init : ℕ → ℕ → Heap
heap_init kernel_end reserved_end =
    let start = if ltb kernel_end reserved_end then reserved_end else kernel_end in
    let heap = if page_aligned start then start else page_align start in
    record { heap = heap; heap_end = add32 heap (4096 * 600); hdr = λ a. blank }

-- `(size + 8 - 1) & ~(8 - 1)`
unfoldable pub round_up : ℕ → ℕ
round_up size = sub32 (add32 size 8) 1 / 8 * 8

abbrev pub put_header : Heap → ℕ → ℕ → ℕ → Heap
put_header h a size status = record h {
  hdr = update h.hdr a (record { size = size; status = status });
}

-- `HEAD_TO_POINTER`
abbrev pub head_to_pointer : ℕ → ℕ
head_to_pointer a = add32 a 8

-- `to_next_block`
abbrev pub next_block : Heap → ℕ → ℕ
next_block h mem = add32 (add32 mem 8) (h.hdr mem).size

-- The loop of `kmalloc`, at the rounded size.
unfoldable pub walk : ℕ → Heap → ℕ → ℕ → Outcome
walk zero h size mem = Outcome.out_of_fuel
walk (suc f) h size mem =
    let a = h.hdr mem in
    let skip = walk f h size (next_block h mem) in
    if ltb mem h.heap_end
    then (if a.status == 1
        then skip
        else if a.status == 0
        then (if leb size a.size
            then Outcome.ptr (head_to_pointer mem) (put_header h mem a.size 1)
            else if a.size == 0
            then Outcome.ptr (head_to_pointer mem) (put_header h mem size 1)
            else skip)
        else skip)
    else Outcome.panicked

-- Each round moves up by 8 at least, so `heap_end` rounds are enough (`FirstFit`).
unfoldable pub kmalloc : Heap → ℕ → Outcome
kmalloc h size = walk (suc h.heap_end) h (round_up size) h.heap

unfoldable pub kfree : Heap → ℕ → Heap
kfree h p = let a = sub32 p 8 in if p == 0 then h else put_header h a (h.hdr a).size 0

-- The last block, in `kmalloc_a`: a filler up to the page boundary, and the block behind it.
unfoldable pub carve : Heap → ℕ → ℕ → Outcome
carve h size mem =
    let addr = page_align (head_to_pointer mem) in
    let offset = sub32 addr (head_to_pointer mem) in
    if leb 8 offset
    then (let filled = put_header h mem (offset - 8) (h.hdr mem).status in
        Outcome.ptr (head_to_pointer (sub32 addr 8)) (put_header filled (sub32 addr 8) size 1))
    else (let filled = put_header h mem (sub32 (add32 offset 4096) 8) (h.hdr mem).status in
        let aligned = sub32 (add32 addr 4096) 8 in
        Outcome.ptr (head_to_pointer aligned) (put_header filled aligned size 1))

-- The loop of `kmalloc_a`.
unfoldable pub walk_a : ℕ → Heap → ℕ → ℕ → Outcome
walk_a zero h size mem = Outcome.out_of_fuel
walk_a (suc f) h size mem =
    let a = h.hdr mem in
    let skip = walk_a f h size (next_block h mem) in
    if ltb mem h.heap_end
    then (if a.status == 1
        then skip
        else if a.status == 0
        then (if leb size a.size
            then (if page_aligned (head_to_pointer mem)
                then Outcome.ptr (head_to_pointer mem) (put_header h mem a.size 1)
                else skip)
            else if a.size == 0
            then (if page_aligned (head_to_pointer mem)
                then Outcome.ptr (head_to_pointer mem) (put_header h mem size 1)
                else carve h size mem)
            else skip)
        else skip)
    else Outcome.panicked

unfoldable pub kmalloc_a : Heap → ℕ → Outcome
kmalloc_a h size = walk_a (suc h.heap_end) h (round_up size) h.heap
