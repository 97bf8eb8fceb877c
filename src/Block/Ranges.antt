-- ===== src/Block/Ranges.antt =====
-- Drivers are called for sectors of their device alone.
use nos.Prelude.{
  ℕ, ◌+◌, ◌^◌, ◌≤◌, ◌<◌, ◌≡◌, ◌⊎◌, ◌↔◌, inl, inr, refl, sym, ap, ◌∙◌, ◌==◌, ltb, leb, List, [],
  Option, none, some, Bool, true, false, not, ◌&&◌, ◌||◌, if◌then◌else◌, ℤ, pos, minus_one, update,
  Bool-cases, subst, arith,
}
use nos.Block.{BlockDevice, Devices, is_none, block_register, block_get, block_range_ok, block_read}

driver {ℓ} : {A : Type ℓ} (o : Option A) → is_none o ≡ false → (a : A) × (o ≡ some a)
driver none h = absurd (ground arith)
driver (some a) h = (a, refl)

module _ {S : Type 0} where
  -- What a driver has to fill in; the count of sectors is a uint32_t.
  abbrev pub IsReady : BlockDevice S → Type 0
  IsReady dev =
      (is_none dev.read ≡ false)
      × (is_none dev.write ≡ false)
      × (0 < dev.sector_count)
      × (dev.sector_count < 2 ^ 32)

  -- Every slot in use holds a device that is ready.
  abbrev pub IsValid : Devices S → Type 0
  IsValid ds =
      (ds.ndevices ≤ 4)
      × ((i : ℕ)
          → i < ds.ndevices
          → (dev : BlockDevice S) × (ds.devices i ≡ some dev) × IsReady dev)

  abbrev refused : Devices S → BlockDevice S → Bool
  refused ds dev =
      not dev.named
      || (dev.sector_count == 0 || (is_none dev.read || (is_none dev.write || ds.ndevices == 4)))

  block_register-cases :
      (ds : Devices S) (dev : BlockDevice S)
      → ds.ndevices ≤ 4
      → dev.sector_count < 2 ^ 32
      → (block_register ds (some dev) ≡ (minus_one, ds))
        ⊎ ((block_register ds (some dev) ≡ (
          pos 0,
          record { devices = update ds.devices ds.ndevices (some dev); ndevices = ds.ndevices + 1 },
        ))
            × IsReady dev
            × (ds.ndevices < 4))
  unfolding block_register
  block_register-cases ds dev b small = elim (Bool-cases (refused ds dev)) [
    | inl e ↦ inl (rw e refl)
    | inr e ↦ inr (
      rw e (
          ap
            (λ n.
              (pos 0, record { devices = update ds.devices ds.ndevices (some dev); ndevices = n }))
            (ground arith)),
      (ground arith, ground arith, ground arith, small),
      ground arith,
    )
  ]

  added-IsValid :
      (ds : Devices S) (dev : BlockDevice S)
      → IsValid ds
      → IsReady dev
      → ds.ndevices < 4
      → IsValid (record {
        devices = update ds.devices ds.ndevices (some dev);
        ndevices = ds.ndevices + 1;
      })
  added-IsValid ds dev (b, k) ready lt = (
    omega arith,
    λ i below. elim (Bool-cases (ds.ndevices == i)) [
      | inl e ↦ (dev, rw e refl, ready)
      | inr e ↦ let (d, same, r) = k i (ground arith) in (d, rw e same, r)
    ],
  )

  -- block_register of a device with a 32-bit number of sectors, whether it is accepted or
  -- refused, keeps the table valid: four devices at most, each with both callbacks and a number
  -- of sectors above 0.
  pub block_register-IsValid :
      (ds : Devices S) (dev : BlockDevice S)
      → IsValid ds
      → dev.sector_count < 2 ^ 32
      → IsValid (block_register ds (some dev)).1
  block_register-IsValid ds dev valid small = elim (block_register-cases ds dev valid.0 small) [
    | inl e ↦ subst (λ r. IsValid r.1) (sym e) valid
    | inr (e, ready, lt) ↦ subst (λ r. IsValid r.1) (sym e) (added-IsValid ds dev valid ready lt)
  ]

  block_get-inside : (ds : Devices S) (i : ℕ) → i < ds.ndevices → block_get ds i ≡ ds.devices i
  unfolding block_get
  block_get-inside ds i h = ground arith

  block_get-outside : (ds : Devices S) (i : ℕ) → ds.ndevices ≤ i → block_get ds i ≡ none
  unfolding block_get
  block_get-outside ds i h = ground arith

  block_read-refused :
      (dev : Option (BlockDevice S)) (lba count : ℕ) (s : S)
      → block_range_ok dev lba count ≡ false
      → block_read dev lba count true s ≡ some (minus_one, [], s)
  unfolding block_read
  block_read-refused dev lba count s e = rw e refl

  block_read-called :
      (dev : BlockDevice S) (f : ℕ → ℕ → S → ℤ × List ℕ × S) (lba count : ℕ) (s : S)
      → dev.read ≡ some f
      → block_range_ok (some dev) lba count ≡ true
      → block_read (some dev) lba count true s ≡ some (f lba count s)
  unfolding block_read
  block_read-called dev f lba count s r e = rw e (rw r refl)

  range-inside :
      (dev : BlockDevice S) (lba count : ℕ)
      → dev.sector_count < 2 ^ 32
      → (block_range_ok (some dev) lba count ≡ true)
        ↔ ((0 < count) × (lba + count ≤ dev.sector_count))
  unfolding block_range_ok
  range-inside dev lba count small =
      ((λ h. (ground arith, ground arith)), λ (some_sector, fits). ground arith)

  -- On a slot in use of a valid table, with a buffer, block_read calls the driver of that device
  -- just where the range has one sector at least and ends inside the device, and returns what the
  -- driver returns; otherwise it returns -1 and leaves the state of the device alone. Valid
  -- means: four devices at most, each with both callbacks and a 32-bit number of sectors above 0.
  pub block_read-InRange :
      (ds : Devices S) (i lba count : ℕ) (s : S)
      → IsValid ds
      → i < ds.ndevices
      → (dev : BlockDevice S) × (f : ℕ → ℕ → S → ℤ × List ℕ × S) × (ds.devices i ≡ some dev)
        × (dev.read ≡ some f)
        × (block_read (block_get ds i) lba count true s ≡ (
            if ltb 0 count && leb (lba + count) dev.sector_count
            then some (f lba count s)
            else some (minus_one, [], s)))
  block_read-InRange ds i lba count s (b, k) below =
      let (dev, same, (reads, rest, size, small)) = k i below in
      let (f, r) = driver dev.read reads in
      let got = ap (λ d. block_read d lba count true s) (block_get-inside ds i below ∙ same) in
      let inside = range-inside dev lba count small in
      (
        dev,
        f,
        same,
        r,
        got ∙ (elim (Bool-cases (block_range_ok (some dev) lba count)) [
          | inl e ↦
              block_read-called dev f lba count s r e ∙ (let (p, q) = inside.0 e in ground arith)
          | inr e ↦
              block_read-refused (some dev) lba count s e ∙ (let no = inside.1 in ground arith)
        ]),
      )
