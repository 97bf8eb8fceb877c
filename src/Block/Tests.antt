-- ===== src/Block/Tests.antt =====
-- A device of 8 sectors whose driver reports what it was asked for.
use nos.Prelude.{
  ℕ, ◌+◌, ◌≡◌, refl, List, [], ◌∷◌, none, some, true, ◌&&◌, ltb, leb, if◌then◌else◌, ℤ, pos,
  minus_one, arith,
}
use nos.Block.{BlockDevice, Devices, block_register, block_get, block_read, block_range_ok}
use nos.Block.Ranges.{IsValid, block_register-IsValid, block_read-InRange}

abbrev eight : BlockDevice ℕ
eight = record {
  named = true;
  sector_count = 8;
  read = some (λ lba count s. (pos 0, lba ∷ count ∷ [], s + 1));
  write = some (λ lba count bytes s. (pos 0, s + 1));
}

abbrev empty : Devices ℕ
empty = record { devices = λ i. none; ndevices = 0 }

abbrev single : Devices ℕ
single = record { devices = λ i. some eight; ndevices = 1 }

block_read_run : block_read (block_get single 0) 6 3 true 0 ≡ some (minus_one, [], 0)
unfolding block_read block_get block_range_ok
block_read_run = refl

empty-IsValid : IsValid empty
empty-IsValid = (omega arith, λ i h. absurd (omega arith))

single-IsValid : IsValid single
single-IsValid = (omega arith, λ i h. (eight, refl, (refl, refl, omega arith, omega arith)))

block_register-IsValid_test : IsValid (block_register empty (some eight)).1
block_register-IsValid_test = block_register-IsValid empty eight empty-IsValid (omega arith)

block_read-InRange_example :
    (dev : BlockDevice ℕ) × (f : ℕ → ℕ → ℕ → ℤ × List ℕ × ℕ) × (single.devices 0 ≡ some dev)
    × (dev.read ≡ some f)
    × (block_read (block_get single 0) 6 2 true 0 ≡ (
        if ltb 0 2 && leb (6 + 2) dev.sector_count
        then some (f 6 2 0)
        else some (minus_one, [], 0)))
block_read-InRange_example = block_read-InRange single 0 6 2 0 single-IsValid (omega arith)
