-- ===== src/Block.antt =====
-- kernel/block.c: the table of block devices and the range checks in front of their drivers. The
-- drivers are functions: what a transfer returns, and the device after it.
pub mod Ranges
mod Tests
use nos.Prelude.{
  ℕ, ◌==◌, ltb, leb, List, [], Option, none, some, Bool, true, false, not, ◌&&◌, ◌||◌,
  if◌then◌else◌, ℤ, pos, minus_one, add32, sub32, update,
}

-- `struct block_device` over the driver's own state; `named` says that its name is not null.
pub record BlockDevice (S : Type 0) : Type 0 where
  pub named : Bool
  pub sector_count : ℕ
  pub read : Option (ℕ → ℕ → S → ℤ × List ℕ × S)
  pub write : Option (ℕ → ℕ → List ℕ → S → ℤ × S)

-- `BLOCK_MAX_DEVICES`
abbrev pub block_max_devices : ℕ
block_max_devices = 4

-- `devices` and `ndevices`
pub record Devices (S : Type 0) : Type 0 where
  pub devices : ℕ → Option (BlockDevice S)
  pub ndevices : ℕ

abbrev pub is_none {ℓ} : {A : Type ℓ} → Option A → Bool
is_none none = true
is_none (some a) = false

module _ {S : Type 0} where
  unfoldable pub block_register : Devices S → Option (BlockDevice S) → ℤ × Devices S
  block_register ds none = (minus_one, ds)
  block_register ds (some dev) =
      if not dev.named
        || (dev.sector_count == 0
            || (is_none dev.read || (is_none dev.write || ds.ndevices == block_max_devices)))
      then (minus_one, ds)
      else (
        pos 0,
        record {
          devices = update ds.devices ds.ndevices (some dev);
          ndevices = add32 ds.ndevices 1;
        },
      )

  unfoldable pub block_get : Devices S → ℕ → Option (BlockDevice S)
  block_get ds index = if ltb index ds.ndevices then ds.devices index else none

  unfoldable pub block_range_ok : Option (BlockDevice S) → ℕ → ℕ → Bool
  block_range_ok none lba count = false
  block_range_ok (some dev) lba count =
      not (count == 0) && (ltb lba dev.sector_count && leb count (sub32 dev.sector_count lba))

  -- The call of the driver; `none` is a call of a null pointer.
  abbrev pub call_read : Option (BlockDevice S) → ℕ → ℕ → S → Option (ℤ × List ℕ × S)
  call_read none lba count s = none
  call_read (some dev) lba count s = elim dev.read [ none ↦ none | some f ↦ some (f lba count s) ]

  abbrev pub call_write : Option (BlockDevice S) → ℕ → ℕ → List ℕ → S → Option (ℤ × S)
  call_write none lba count bytes s = none
  call_write (some dev) lba count bytes s = elim dev.write [
    | none ↦ none
    | some f ↦ some (f lba count bytes s)
  ]

  -- `buffer` says that the pointer is not null.
  unfoldable pub block_read : Option (BlockDevice S) → ℕ → ℕ → Bool → S → Option (ℤ × List ℕ × S)
  block_read dev lba count buffer s =
      if not buffer || not (block_range_ok dev lba count)
      then some (minus_one, [], s)
      else call_read dev lba count s

  unfoldable pub block_write : Option (BlockDevice S) → ℕ → ℕ → Option (List ℕ) → S → Option (ℤ × S)
  block_write dev lba count none s = some (minus_one, s)
  block_write dev lba count (some bytes) s =
      if not (block_range_ok dev lba count)
      then some (minus_one, s)
      else call_write dev lba count bytes s
