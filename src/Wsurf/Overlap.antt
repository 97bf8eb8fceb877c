-- ===== src/Wsurf/Overlap.antt =====
-- Two surfaces of the pool and the pages that show them.
use nos.Prelude.{
  ℕ, ◌+◌, ◌*◌, ◌%◌, ◌^◌, ◌≤◌, ◌<◌, ◌≡◌, ◌≢◌, refl, sym, ap, ◌∙◌, arith, true, false, ◌||◌, ◌==◌,
  ltb, pos, none, some, update, take,
}
use nos.UserMem.{Directory}
use nos.Wsurf.Range.{map_range}
use nos.Wsurf.Mapping.{frame_at, within, map_range-frame}
use native.Mathlib.Nat.{mul-le-mul}
use nos.Wsurf.Keeps.{whole-bytes, bytes-≤}
use nos.Wsurf.{
  Sys, Surf, Caller, pool_at, user_wsurf_base, surf_map_bytes, create_scan, wsurf_create,
}

map_range-shared :
    (s : Sys) (mine yours : Directory) (bytes : ℕ)
    → s.pool_base % 4096 ≡ 0
    → s.pool_base + 3 * 1920000 ≤ 2 ^ 32
    → 0 < bytes
    → bytes % 4096 ≡ 0
    → bytes ≤ 0x200000
    → frame_at (map_range mine user_wsurf_base (pool_at s 0) 1921024) (user_wsurf_base + 468 * 4096)
      ≡ frame_at (map_range yours user_wsurf_base (pool_at s 1) bytes) user_wsurf_base
map_range-shared s mine yours bytes al top some_bytes whole few =
    map_range-frame mine user_wsurf_base (pool_at s 0) 1921024 (user_wsurf_base + 468 * 4096) refl
      refl (omega arith)
    ∙ (let in_range : within user_wsurf_base bytes user_wsurf_base ≡ true = ground arith in
        rw in_range (omega arith))
    ∙ sym (
        map_range-frame yours user_wsurf_base (pool_at s 1) bytes user_wsurf_base refl whole
          (omega arith))

module _ (s : Sys) (t : Caller) (w h i : ℕ) where
  abbrev created : Surf
  created = record (s.surfs i) {
    used = true;
    alive = true;
    owner = t.id;
    server = none;
    w = w;
    h = h;
    evh = 0;
    evt = 0;
    name = take 15 t.name;
  }

  module _ (ok : (t.brk == 0 || (ltb w 1 || (ltb h 1 || (ltb 800 w || ltb 600 h)))) ≡ false)
      (found : create_scan 3 0 s.surfs t.id none ≡ some (some i)) where
    created-surfs : (wsurf_create s t (pos w) (pos h)).1.surfs ≡ update s.surfs i created
    unfolding wsurf_create
    created-surfs = rw (wsurf_create, ok, found) refl

    created-dirs :
        (wsurf_create s t (pos w) (pos h)).1.dirs
        ≡ update s.dirs t.id
            (map_range (s.dirs t.id) user_wsurf_base (pool_at s i) (surf_map_bytes created))
    unfolding wsurf_create
    created-dirs = rw (wsurf_create, ok, found) refl

    created-base : (wsurf_create s t (pos w) (pos h)).1.pool_base ≡ s.pool_base
    unfolding wsurf_create
    created-base = rw (wsurf_create, ok, found) refl

scan-first :
    (surfs : ℕ → Surf) (id : ℕ)
    → ((i : ℕ) → (surfs i).used ≡ false)
    → create_scan 3 0 surfs id none ≡ some (some 0)
unfolding create_scan
scan-first surfs id unused = rw (unused 0, unused 1, unused 2) refl

scan-second :
    (surfs : ℕ → Surf) (u : Surf) (id : ℕ)
    → u.used ≡ true
    → u.owner ≢ id
    → ((i : ℕ) → (surfs i).used ≡ false)
    → create_scan 3 0 (update surfs 0 u) id none ≡ some (some 1)
unfolding create_scan
scan-second surfs u id used other unused =
    let no : (u.owner == id) ≡ false = ground arith in rw (used, unused 1, unused 2, no) refl

-- With a pool at a page boundary and no surface in use, when one task makes a surface of 800 by
-- 600 and then another task, of another id, makes a surface of any size, the page of the first
-- task at offset 468 * 4096 of its surface and the first page of the other task's surface show
-- the same frame.
pub wsurf_create-shared :
    (s : Sys) (t1 t2 : Caller) (w h : ℕ)
    → t1.brk ≢ 0
    → t2.brk ≢ 0
    → t1.id ≢ t2.id
    → 0 < w
    → w ≤ 800
    → 0 < h
    → h ≤ 600
    → ((i : ℕ) → (s.surfs i).used ≡ false)
    → s.pool_base % 4096 ≡ 0
    → s.pool_base + 3 * 1920000 ≤ 2 ^ 32
    → frame_at
        ((wsurf_create (wsurf_create s t1 (pos 800) (pos 600)).1 t2 (pos w) (pos h)).1.dirs t1.id)
        (user_wsurf_base + 468 * 4096)
      ≡ frame_at
          ((wsurf_create (wsurf_create s t1 (pos 800) (pos 600)).1 t2 (pos w) (pos h)).1.dirs t2.id)
          user_wsurf_base
wsurf_create-shared s t1 t2 w h b1 b2 ne w1 w2 h1 h2 unused al top =
    let ok1 : (t1.brk == 0 || (ltb 800 1 || (ltb 600 1 || (ltb 800 800 || ltb 600 600)))) ≡ false =
      ground arith in
    let ok2 : (t2.brk == 0 || (ltb w 1 || (ltb h 1 || (ltb 800 w || ltb 600 h)))) ≡ false =
      ground arith in
    let first = scan-first s.surfs t1.id unused in
    let s1 = (wsurf_create s t1 (pos 800) (pos 600)).1 in
    let surfs1 : s1.surfs ≡ update s.surfs 0 (created s t1 800 600 0) =
      created-surfs s t1 800 600 0 ok1 first in
    let second : create_scan 3 0 s1.surfs t2.id none ≡ some (some 1) =
      ap (λ f. create_scan 3 0 f t2.id none) surfs1
      ∙ scan-second s.surfs (created s t1 800 600 0) t2.id refl ne unused in
    let dirs2 = created-dirs s1 t2 w h 1 ok2 second in
    let base1 = created-base s t1 800 600 0 ok1 first in
    let at1 : ((wsurf_create s1 t2 (pos w) (pos h)).1.dirs t1.id)
        ≡ map_range (s.dirs t1.id) user_wsurf_base (pool_at s 0) 1921024 =
      ap (λ d. d t1.id) dirs2
      ∙ (let no : (t2.id == t1.id) ≡ false = ground arith in
          rw no (ap (λ d. d t1.id) (created-dirs s t1 800 600 0 ok1 first) ∙ ground arith)) in
    let at2 : ((wsurf_create s1 t2 (pos w) (pos h)).1.dirs t2.id)
        ≡ map_range (s1.dirs t2.id) user_wsurf_base (pool_at s 1)
            (surf_map_bytes (created s1 t2 w h 1)) =
      ap (λ d. d t2.id) dirs2
      ∙ (let yes : (t2.id == t2.id) ≡ true = ground arith in
          rw yes (
            ap
              (λ b.
                map_range (s1.dirs t2.id) user_wsurf_base (b + 1 * 1920000)
                  (surf_map_bytes (created s1 t2 w h 1)))
              base1)) in
    ap (λ d. frame_at d (user_wsurf_base + 468 * 4096)) at1
    ∙ map_range-shared s (s.dirs t1.id) (s1.dirs t2.id) (surf_map_bytes (created s1 t2 w h 1)) al
        top (let m = mul-le-mul w1 h1 in omega (arith, m)) (whole-bytes (created s1 t2 w h 1))
        (bytes-≤ (created s1 t2 w h 1) (w2, h2))
    ∙ sym (ap (λ d. frame_at d user_wsurf_base) at2)
