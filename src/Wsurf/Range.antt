-- ===== src/Wsurf/Range.antt =====
-- kernel/wsurf.c: `map_range` and `unmap_range` on a page directory.
use nos.Prelude.{ℕ, zero, suc, ◌+◌, ◌/◌, true, false, add32}
use nos.UserMem.{Directory, with_page, with_old_page}

-- The loop of `map_range` from `off` on, `bytes / 4096` rounds of it.
unfoldable pub map_loop : ℕ → Directory → ℕ → ℕ → ℕ → Directory
map_loop zero dir va phys off = dir
map_loop (suc rounds) dir va phys off =
    map_loop rounds
      (with_page (add32 va off)
        (λ pg. record pg { present = true; rw = true; user = true; frame = add32 phys off / 4096 })
        dir)
      va phys (off + 4096)

-- `bytes` is a multiple of the page size.
unfoldable pub map_range : Directory → ℕ → ℕ → ℕ → Directory
map_range dir va phys bytes = map_loop (bytes / 4096) dir va phys 0

unfoldable pub unmap_loop : ℕ → Directory → ℕ → ℕ → Directory
unmap_loop zero dir va off = dir
unmap_loop (suc rounds) dir va off =
    unmap_loop rounds
      (with_old_page (add32 va off) (λ pg. record pg { present = false; frame = 0 }) dir) va
      (off + 4096)

unfoldable pub unmap_range : Directory → ℕ → ℕ → Directory
unmap_range dir va bytes = unmap_loop (bytes / 4096) dir va 0
