-- ===== src/Wsurf/Mapping.antt =====
-- The frames that a directory shows, before and after a range is mapped or unmapped.
use nos.Prelude.{
  ℕ, zero, suc, ◌+◌, ◌-◌, ◌*◌, ◌/◌, ◌%◌, ◌^◌, ◌≤◌, ◌≡◌, refl, sym, ap, ◌∙◌, ltb, leb, Option, none,
  some, Bool, true, false, ◌&&◌, if◌then◌else◌, ◌==◌, add32, inl, inr, Bool-cases, arith,
}
use nos.UserMem.{
  Page, Directory, get_page, with_page, with_old_page, in_table, table_of, change_entry, change_old,
  put_table,
}
use nos.Wsurf.Range.{map_loop, map_range, unmap_loop, unmap_range}

-- The frame behind an address; 0 where there is none.
abbrev frame_of : Option Page → ℕ
frame_of none = 0
frame_of (some pg) = pg.frame

abbrev pub frame_at : Directory → ℕ → ℕ
frame_at dir a = frame_of (get_page a dir)

same_table :
    (a b : ℕ)
    → (a / 4096 / 1024 == b / 4096 / 1024) ≡ true
    → (a / 4096 % 1024 == b / 4096 % 1024) ≡ (a / 4096 == b / 4096)
same_table a b h = ground arith

other_table :
    (a b : ℕ) → (a / 4096 / 1024 == b / 4096 / 1024) ≡ false → (a / 4096 == b / 4096) ≡ false
other_table a b h = ground arith

table_of-frame : (o : Option (ℕ → Page)) (k : ℕ) → (table_of o k).frame ≡ frame_of (in_table o k)
table_of-frame none k = refl
table_of-frame (some table) k = refl

module _ (dir : Directory) (change : Page → Page) (f addr a : ℕ)
    (set : (pg : Page) → (change pg).frame ≡ f) where
  -- The entry in the table that was written.
  written-frame :
      (table : ℕ → Page)
      → (addr / 4096 / 1024 == a / 4096 / 1024) ≡ true
      → (change_entry table (addr / 4096 % 1024) change (a / 4096 % 1024)).frame
        ≡ (if addr / 4096 == a / 4096 then f else (table (a / 4096 % 1024)).frame)
  written-frame table h =
      let place = same_table addr a h in
      elim (Bool-cases (addr / 4096 == a / 4096)) [
        | inl e ↦ rw (place ∙ e, e) (set _)
        | inr e ↦ rw (place ∙ e, e) refl
      ]

  put-frame :
      (table : ℕ → Page)
      → ((k : ℕ)
          → (addr / 4096 / 1024 == a / 4096 / 1024) ≡ true
          → (table k).frame ≡ frame_of (in_table (dir.tables (a / 4096 / 1024)) k))
      → frame_at
          (put_table dir (addr / 4096 / 1024) (change_entry table (addr / 4096 % 1024) change))
          a
        ≡ (if addr / 4096 == a / 4096 then f else frame_at dir a)
  unfolding get_page
  put-frame table old = elim (Bool-cases (addr / 4096 / 1024 == a / 4096 / 1024)) [
    | inl h ↦ rw h (
        written-frame table h
        ∙ ap (λ n. if addr / 4096 == a / 4096 then f else n) (old (a / 4096 % 1024) h))
    | inr h ↦ rw (h, other_table addr a h) refl
  ]

  with_page-frame :
      frame_at (with_page addr change dir) a
      ≡ (if addr / 4096 == a / 4096 then f else frame_at dir a)
  unfolding with_page
  with_page-frame = put-frame (table_of (dir.tables (addr / 4096 / 1024))) (λ k h.
      table_of-frame (dir.tables (addr / 4096 / 1024)) k
      ∙ (let same : addr / 4096 / 1024 ≡ a / 4096 / 1024 = ground arith in
          ap (λ i. frame_of (in_table (dir.tables i) k)) same))

  change_old-frame :
      f ≡ 0
      → (o : Option (ℕ → Page)) → dir.tables (addr / 4096 / 1024) ≡ o
      → frame_at (change_old dir (addr / 4096 / 1024) (addr / 4096 % 1024) change o) a
        ≡ (if addr / 4096 == a / 4096 then 0 else frame_at dir a)
  unfolding get_page
  change_old-frame z none e = elim (Bool-cases (addr / 4096 == a / 4096)) [
    | inl h ↦ rw h (
        let same : a / 4096 / 1024 ≡ addr / 4096 / 1024 = ground arith in
        ap (λ i. frame_of (in_table (dir.tables i) (a / 4096 % 1024))) same
        ∙ ap (λ p. frame_of (in_table p (a / 4096 % 1024))) e)
    | inr h ↦ rw h refl
  ]
  change_old-frame z (some table) e =
      put-frame table (λ k h.
        let same : addr / 4096 / 1024 ≡ a / 4096 / 1024 = ground arith in
        sym (ap (λ p. frame_of (in_table p k)) e)
        ∙ ap (λ i. frame_of (in_table (dir.tables i) k)) same)
      ∙ ap (λ n. if addr / 4096 == a / 4096 then n else frame_at dir a) z

  with_old_page-frame :
      f ≡ 0
      → frame_at (with_old_page addr change dir) a
        ≡ (if addr / 4096 == a / 4096 then 0 else frame_at dir a)
  unfolding with_old_page
  with_old_page-frame z = change_old-frame z (dir.tables (addr / 4096 / 1024)) refl

-- A range of whole pages below the end of the address space.
abbrev pub within : ℕ → ℕ → ℕ → Bool
within lo size a = leb lo a && ltb a (lo + size)

map_loop-frame :
    (rounds : ℕ) (dir : Directory) (va phys off a : ℕ)
    → va % 4096 ≡ 0
    → off % 4096 ≡ 0
    → va + off + rounds * 4096 ≤ 2 ^ 32
    → frame_at (map_loop rounds dir va phys off) a ≡ (
        if within (va + off) (rounds * 4096) a
        then add32 phys ((a - va) / 4096 * 4096) / 4096
        else frame_at dir a)
unfolding map_loop
map_loop-frame zero dir va phys off a al ol top = ground arith
map_loop-frame (suc rounds) dir va phys off a al ol top =
    map_loop-frame rounds _ va phys (off + 4096) a al (omega arith) (omega arith)
    ∙ ap
        (λ n.
          if within (va + (off + 4096)) (rounds * 4096) a
          then add32 phys ((a - va) / 4096 * 4096) / 4096
          else n)
        (with_page-frame dir
          (λ pg. record pg {
            present = true;
            rw = true;
            user = true;
            frame = add32 phys off / 4096;
          })
          (add32 phys off / 4096) (add32 va off) a (λ pg. refl))
    ∙ elim (Bool-cases (add32 va off / 4096 == a / 4096)) [
      | inl e ↦ rw e (
          let here : (a - va) / 4096 * 4096 ≡ off = ground arith in
          let f = ap (λ o. add32 phys o / 4096) here in ground arith)
      | inr e ↦ rw e (ground arith)
    ]

unmap_loop-frame :
    (rounds : ℕ) (dir : Directory) (va off a : ℕ)
    → va % 4096 ≡ 0
    → off % 4096 ≡ 0
    → va + off + rounds * 4096 ≤ 2 ^ 32
    → frame_at (unmap_loop rounds dir va off) a
      ≡ (if within (va + off) (rounds * 4096) a then 0 else frame_at dir a)
unfolding unmap_loop
unmap_loop-frame zero dir va off a al ol top = ground arith
unmap_loop-frame (suc rounds) dir va off a al ol top =
    unmap_loop-frame rounds _ va (off + 4096) a al (omega arith) (omega arith)
    ∙ ap (λ n. if within (va + (off + 4096)) (rounds * 4096) a then 0 else n)
        (with_old_page-frame dir (λ pg. record pg { present = false; frame = 0 }) 0 (add32 va off) a
          (λ pg. refl) refl)
    ∙ elim (Bool-cases (add32 va off / 4096 == a / 4096)) [
      | inl e ↦ rw e (ground arith)
      | inr e ↦ rw e (ground arith)
    ]

pub map_range-frame :
    (dir : Directory) (va phys bytes a : ℕ)
    → va % 4096 ≡ 0
    → bytes % 4096 ≡ 0
    → va + bytes ≤ 2 ^ 32
    → frame_at (map_range dir va phys bytes) a
      ≡ (if within va bytes a then add32 phys ((a - va) / 4096 * 4096) / 4096 else frame_at dir a)
unfolding map_range
map_range-frame dir va phys bytes a al bl top =
    let whole : bytes / 4096 * 4096 ≡ bytes = omega arith in
    let z : va + 0 ≡ va = omega arith in
    map_loop-frame (bytes / 4096) dir va phys 0 a al (omega arith) (omega arith)
    ∙ ap
        (λ n.
          if within (va + 0) n a
          then add32 phys ((a - va) / 4096 * 4096) / 4096
          else frame_at dir a)
        whole
    ∙ ap
        (λ n.
          if within n bytes a then add32 phys ((a - va) / 4096 * 4096) / 4096 else frame_at dir a)
        z

pub unmap_range-frame :
    (dir : Directory) (va bytes a : ℕ)
    → va % 4096 ≡ 0
    → bytes % 4096 ≡ 0
    → va + bytes ≤ 2 ^ 32
    → frame_at (unmap_range dir va bytes) a ≡ (if within va bytes a then 0 else frame_at dir a)
unfolding unmap_range
unmap_range-frame dir va bytes a al bl top =
    let whole : bytes / 4096 * 4096 ≡ bytes = omega arith in
    let z : va + 0 ≡ va = omega arith in
    unmap_loop-frame (bytes / 4096) dir va 0 a al (omega arith) (omega arith)
    ∙ ap (λ n. if within (va + 0) n a then 0 else frame_at dir a) whole
    ∙ ap (λ n. if within n bytes a then 0 else frame_at dir a) z
