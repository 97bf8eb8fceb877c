-- ===== src/Initrd/Names.antt =====
-- The names that `initrd_readdir` lists, looked up by `initrd_finddir`.
use nos.Prelude.{
  ℕ, zero, suc, ◌+◌, ◌-◌, ◌<◌, ◌≡◌, ◌≢◌, refl, sym, ap, ◌∙◌, ltb, List, [], ◌∷◌, Option, none, some,
  true, false, ◌&&◌, if◌then◌else◌, ◌==◌, ℤ, pos, negsuc, get_elem?, inl, inr, Bool-cases, arith,
}
use nos.Strings.{strcmp}
use nos.Strings.Compare.{strcmp-eq}
use nos.Initrd.{
  Initrd, root, file, same_name, dev_name, disk_name, initrd_readdir, find_loop, initrd_finddir,
}

zero_test : (z : ℤ) → (elim z [ pos n ↦ n == 0 | negsuc n ↦ false ]) ≡ true → z ≡ pos 0
zero_test (pos n) e = ap pos (ground arith)
zero_test (negsuc n) e = absurd (ground arith)

same_name_refl : (s : List ℕ) → same_name s s ≡ true
same_name_refl s = rw (same_name, (strcmp-eq s s).1 refl) refl

same_name-eq : (s t : List ℕ) → same_name s t ≡ true → s ≡ t
same_name-eq s t e = (strcmp-eq s t).0 (zero_test (strcmp s t) e)

other_name : (s t : List ℕ) → s ≢ t → same_name s t ≡ false
other_name s t ne = elim (Bool-cases (same_name s t)) [
  | inl e ↦ absurd (ne (same_name-eq s t e))
  | inr e ↦ e
]

find_loop-first :
    (names : List (List ℕ)) (i k : ℕ) (name : List ℕ)
    → get_elem? names k ≡ some name
    → ((j : ℕ) → j < k → get_elem? names j ≢ some name)
    → find_loop names i name ≡ some (file (i + k))
unfolding find_loop
find_loop-first [] i k name e first = absurd (ground arith)
find_loop-first (n ∷ names) i zero name e first =
    let same : n ≡ name = ground arith in
    let z : i + 0 ≡ i = omega arith in rw (same, same_name_refl name, z) refl
find_loop-first (n ∷ names) i (suc k) name e first =
    let no : same_name name n ≡ false =
      other_name name n (λ same. first 0 (omega arith) (ap some (sym same))) in
    rw no (
      find_loop-first names (i + 1) k name e (λ j lt. first (suc j) (omega arith))
      ∙ ap (λ m. some (file m)) (omega arith))

abbrev base : Initrd → ℕ
base s = if s.disk then 2 else 1

abbrev listed : Option (List ℕ) → ℕ → Option (List ℕ × ℕ)
listed o i = elim o [ none ↦ none | some n ↦ some (n, i) ]

readdir-file :
    (s : Initrd) (index inode : ℕ) (name : List ℕ)
    → initrd_readdir s root index ≡ some (name, inode)
    → name ≢ dev_name
    → name ≢ disk_name
    → get_elem? s.names inode ≡ some name
unfolding initrd_readdir
readdir-file s index inode name e no_dev no_disk = elim (Bool-cases (index == 0)) [
  | inl zeroth ↦
      let here : some (dev_name, 0) ≡ some (name, inode) = sym (rw zeroth refl) ∙ e in
      absurd (no_dev (cc here))
  | inr more ↦ elim (Bool-cases (s.disk && index == 1)) [
    | inl d ↦
        let here : some (disk_name, 0) ≡ some (name, inode) = sym (rw (more, d) refl) ∙ e in
        absurd (no_disk (cc here))
    | inr no_d ↦ elim (Bool-cases (ltb index (base s))) [
      | inl low ↦
          let here : none ≡ some (name, inode) = sym (rw (more, no_d, low) refl) ∙ e in
          absurd (ground arith)
      | inr high ↦
          by (get_elem? s.names (index - base s)) refl (sym (rw (more, no_d, high) refl) ∙ e)
    ]
  ]
]
  where
    by :
        (o : Option (List ℕ))
        → get_elem? s.names (index - base s) ≡ o
        → listed o (index - base s) ≡ some (name, inode)
        → get_elem? s.names inode ≡ some name
    by none g h = absurd (ground arith)
    by (some n) g h =
        let at : index - base s ≡ inode = cc h in
        let same : n ≡ name = cc h in ap (get_elem? s.names) (sym at) ∙ g ∙ ap some same

-- A name that the listing of the root gives with an inode, other than those of the directories
-- dev and disk, and that no file of a smaller inode has, is looked up in the root to the file of
-- that inode.
pub readdir-finddir :
    (s : Initrd) (index inode : ℕ) (name : List ℕ)
    → initrd_readdir s root index ≡ some (name, inode)
    → name ≢ dev_name
    → name ≢ disk_name
    → ((j : ℕ) → j < inode → get_elem? s.names j ≢ some name)
    → initrd_finddir s root name ≡ some (file inode)
unfolding initrd_finddir
readdir-finddir s index inode name e no_dev no_disk first =
    let found =
      find_loop-first s.names 0 inode name (readdir-file s index inode name e no_dev no_disk)
        first in
    let z : 0 + inode ≡ inode = omega arith in
    let a = other_name name dev_name no_dev in
    let b = other_name name disk_name no_disk in
    rw a (elim (Bool-cases s.disk) [
      | inl d ↦ rw (d, b) (found ∙ ap (λ k. some (file k)) z)
      | inr d ↦ rw d (found ∙ ap (λ k. some (file k)) z)
    ])
