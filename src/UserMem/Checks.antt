-- ===== src/UserMem/Checks.antt =====
-- What the checks of user pointers promise, byte by byte.
use nos.Prelude.{
  ℕ, zero, suc, ◌+◌, ◌-◌, ◌*◌, ◌/◌, ◌%◌, ◌≤◌, ◌<◌, ◌^◌, ◌≡◌, ◌↔◌, ltb, leb, Bool, true, false,
  Bool-cases, inl, inr, ap, ◌∙◌, sym, subst, ◌&&◌, if◌then◌else◌, add32, arith,
}
use nos.UserMem.{
  in_table, Directory, user_vaddr_min, user_vaddr_max, get_page, allows, pages_ok, user_ok,
}

-- A program itself may read, or write, the byte at x.
abbrev pub user_byte : Directory → Bool → ℕ → Bool
user_byte dir write x =
    leb user_vaddr_min x && (ltb x user_vaddr_max && allows (get_page x dir) write)

abbrev pub Accessible : Directory → Bool → ℕ → ℕ → Type 0
Accessible dir write start len = (i : ℕ) → i < len → user_byte dir write (start + i) ≡ true

module _ (dir : Directory) (write : Bool) where
  -- Bytes of one page have one page entry.
  pub page-same :
      (x y : ℕ)
      → x / 4096 ≡ y / 4096
      → allows (get_page x dir) write ≡ allows (get_page y dir) write
  unfolding get_page
  page-same x y e = ap (λ page. allows (in_table (dir.tables (page / 1024)) (page % 1024)) write) e

  pages_ok-step :
      (f a stop : ℕ)
      → a < stop
      → pages_ok (suc f) dir a stop write ≡ (
          if allows (get_page a dir) write then pages_ok f dir (add32 a 4096) stop write else false)
  unfolding pages_ok
  pages_ok-step f a stop h = ground arith

  pages_ok-end : (f a stop : ℕ) → stop ≤ a → pages_ok (suc f) dir a stop write ≡ true
  unfolding pages_ok
  pages_ok-end f a stop h = ground arith

  both : (b c : Bool) → (if b then c else false) ≡ true → (b ≡ true) × (c ≡ true)
  both b c h = ground arith

  pages_ok-no_rounds : (a stop : ℕ) → pages_ok 0 dir a stop write ≡ true → ⊥
  unfolding pages_ok
  pages_ok-no_rounds a stop h = ground arith

  -- The loop from a page boundary on tests the page of every byte below `stop`.
  pages_ok-every :
      (f a stop : ℕ)
      → a % 4096 ≡ 0
      → stop ≤ 2 ^ 31
      → pages_ok f dir a stop write ≡ true
      → (x : ℕ) → a ≤ x
      → x < stop
      → allows (get_page x dir) write ≡ true
  pages_ok-every zero a stop al b h x lo hi = absurd (pages_ok-no_rounds a stop h)
  pages_ok-every (suc f) a stop al b h x lo hi =
      let (here, later) = both _ _ (sym (pages_ok-step f a stop (omega arith)) ∙ h) in
      elim (Bool-cases (ltb x (a + 4096))) [
        | inl e ↦ page-same x a (ground arith) ∙ here
        | inr e ↦ pages_ok-every f (add32 a 4096) stop (ground arith) b later x (ground arith) hi
      ]

  -- It finds no fault if there is none, and the rounds suffice.
  pages_ok-all :
      (f a stop : ℕ)
      → stop ≤ 2 ^ 31
      → a < stop + 4096
      → stop + 4096 ≤ a + 4096 * f
      → ((x : ℕ) → a ≤ x → x < stop → allows (get_page x dir) write ≡ true)
      → pages_ok f dir a stop write ≡ true
  pages_ok-all zero a stop b near room k = absurd (omega arith)
  pages_ok-all (suc f) a stop b near room k = elim (Bool-cases (ltb a stop)) [
    | inl e ↦
        pages_ok-step f a stop (ground arith)
        ∙ rw (k a (omega arith) (ground arith)) (
            pages_ok-all f (add32 a 4096) stop b (ground arith) (ground arith)
              (λ x lo hi. k x (ground arith) hi))
    | inr e ↦ pages_ok-end f a stop (ground arith)
  ]

module _ (dir : Directory) (start len : ℕ) (write : Bool) where
  user_ok-window :
      start < 2 ^ 32
      → user_ok dir start len write ≡ true
      → (user_vaddr_min ≤ start) × (start < user_vaddr_max) × (start + len ≤ user_vaddr_max)
  unfolding user_ok
  user_ok-window small h = ground arith

  user_ok-inside :
      user_vaddr_min ≤ start
      → start < user_vaddr_max
      → start + len ≤ user_vaddr_max
      → user_ok dir start len write
        ≡ pages_ok (len / 4096 + 3) dir (start / 4096 * 4096) (start + len) write
  unfolding user_ok
  user_ok-inside lo mid hi = ground arith

  inside :
      Accessible dir write start len
      → 0 < len
      → (user_vaddr_min ≤ start) × (start < user_vaddr_max) × (start + len ≤ user_vaddr_max)
  inside k some_byte =
      let first = k 0 some_byte in let last = k (len - 1) (omega arith) in ground arith

  page-allows :
      Accessible dir write start len
      → 0 < len
      → (x : ℕ) → start / 4096 * 4096 ≤ x
      → x < start + len
      → allows (get_page x dir) write ≡ true
  page-allows k some_byte x lo hi = elim (Bool-cases (ltb x start)) [
    | inl e ↦
        let first = k 0 some_byte in
        let at_start : start + 0 ≡ start = omega arith in
        page-same dir write x start (ground arith)
        ∙ ground (arith, subst (λ y. user_byte dir write y ≡ true) at_start first)
    | inr e ↦
        let here : start + (x - start) ≡ x = ground arith in
        let it = subst (λ y. user_byte dir write y ≡ true) here (k (x - start) (ground arith)) in
        ground arith
  ]

-- For a range of at least one byte, from a 32-bit address on, user_ok holds just if the program
-- may access every byte of it: each lies in the user window, and its page is present, a user page
-- and, where writing is asked for, writable.
pub user_ok-Accessible :
    (dir : Directory) (start len : ℕ) (write : Bool)
    → 0 < len
    → start < 2 ^ 32
    → (user_ok dir start len write ≡ true) ↔ Accessible dir write start len
user_ok-Accessible dir start len write some_byte small = (
  (λ h i below.
      let (lo, mid, hi) = user_ok-window dir start len write small h in
      let e = sym (user_ok-inside dir start len write lo mid hi) ∙ h in
      let it =
        pages_ok-every dir write _ _ _ (ground arith) hi e (start + i) (ground arith)
          (ground arith) in
      ground arith),
  (λ k.
      let (lo, mid, hi) = inside dir start len write k some_byte in
      user_ok-inside dir start len write lo mid hi
      ∙ pages_ok-all dir write (len / 4096 + 3) _ _ hi (ground arith) (ground arith)
          (page-allows dir start len write k some_byte)),
)
