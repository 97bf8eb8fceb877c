-- ===== src/Frames/Owners.antt =====
-- Pages that get frames and give them back, in any order: no frame has two owners.
use nos.Prelude.{
  ℕ, ◌*◌, ◌/◌, ◌≡◌, ◌≢◌, ◌⊎◌, refl, sym, ap, ◌∙◌, ltb, List, [], ◌∷◌, Option, none, some, Bool,
  true, false, not, if◌then◌else◌, ◌==◌, update, inl, inr, Bool-cases, Option-cases, arith, subst,
  ◌>>=◌,
}
use nos.UserMem.{Page}
use nos.Frames.{Frames, set_frame, clear_frame, first_frame, alloc_frame, free_frame}
use nos.Frames.Bitmap.{taken, set_frame-taken, clear_frame-taken, FirstFree, first_frame-FirstFree}

-- The bitmap and the page entries.
pub record World : Type 0 where
  pub map : Frames
  pub page : ℕ → Page

pub data Op : Type 0 where
  alloc : ℕ → Bool → Bool → Op
  free : ℕ → Op

-- One call on the entry at a place; `none` is the panic.
abbrev pub call : Op → World → Option World
call (alloc p is_kernel is_writeable) w = do
  r ← alloc_frame w.map (w.page p) is_kernel is_writeable
  some (record { map = r.1; page = update w.page p r.0 })
call (free p) w =
    let r = free_frame w.map (w.page p) in some (record { map = r.1; page = update w.page p r.0 })

abbrev pub calls : List Op → World → Option World
calls [] w = some w
calls (op ∷ ops) w = do v ← call op w; calls ops v

-- A frame that a page has is marked as taken, and no other page has it; 0 stands for no frame.
pub record IsSound (w : World) : Type 0 where
  pub marked : (p : ℕ) → (w.page p).frame ≢ 0 → taken w.map (w.page p).frame ≡ 1
  pub single : (p q : ℕ) → p ≢ q → (w.page p).frame ≢ 0 → (w.page p).frame ≢ (w.page q).frame

module _ (s : Frames) (page : Page) (k wr : Bool) where
  alloc_frame-held : page.frame ≢ 0 → alloc_frame s page k wr ≡ some (page, s)
  unfolding alloc_frame
  alloc_frame-held h = ground arith

  alloc_frame-panic : page.frame ≡ 0 → first_frame s ≡ none → alloc_frame s page k wr ≡ none
  unfolding alloc_frame
  alloc_frame-panic h e = ground arith

  pub alloc_frame-fresh :
      (f : ℕ)
      → page.frame ≡ 0
      → first_frame s ≡ some f
      → alloc_frame s page k wr
        ≡ some (
          record page { present = true; rw = wr; user = not k; frame = f },
          set_frame s (f * 4096),
        )
  unfolding alloc_frame
  alloc_frame-fresh f h e = ground arith

module _ (w : World) (v : IsSound w) (p : ℕ) where
  -- A page takes a frame that was free.
  fresh-IsSound :
      (f : ℕ) (pg : Page)
      → pg.frame ≡ f
      → taken w.map f ≡ 0
      → IsSound (record { map = set_frame w.map (f * 4096); page = update w.page p pg })
  fresh-IsSound f pg e z = record {
    marked = λ q nz.
        set_frame-taken w.map f (update w.page p pg q).frame
        ∙ (let old = v.marked q in ground arith);
    single = λ q r ne nz.
        let a = unheld q in let b = unheld r in let old = v.single q r ne in ground arith;
  }
    where
      unheld : (q : ℕ) → (w.page q).frame ≢ 0 → (w.page q).frame ≢ f
      unheld q nz h =
          let old = v.marked q nz in let same = ap (taken w.map) h in absurd (omega arith)

  -- A page gives its frame back.
  freed-IsSound :
      (pg : Page)
      → pg.frame ≡ 0
      → (w.page p).frame ≢ 0
      → IsSound
          (record { map = clear_frame w.map ((w.page p).frame * 4096); page = update w.page p pg })
  freed-IsSound pg e held = record {
    marked = λ q nz.
        clear_frame-taken w.map (w.page p).frame (update w.page p pg q).frame
        ∙ (let old = v.marked q in let other = v.single p q in ground arith);
    single = λ q r ne nz. let a = v.single q r ne in ground arith;
  }

  -- The entry is left as it is, or gives up a frame outside the bitmap.
  kept-IsSound :
      (pg : Page)
      → (pg.frame ≡ (w.page p).frame) ⊎ (pg.frame ≡ 0)
      → IsSound (record { map = w.map; page = update w.page p pg })
  kept-IsSound pg e = record {
    marked = λ q nz.
        let old = v.marked q in
        elim e [
          | inl same ↦ (let t = ap (taken w.map) same in ground arith)
          | inr gone ↦ ground arith
        ];
    single = λ q r ne nz.
        let a = v.single q r ne in elim e [ inl same ↦ ground arith | inr gone ↦ ground arith ];
  }

  abbrev freed : Page
  freed = record (w.page p) { frame = 0; present = false }

  free_frame-cases :
      (free_frame w.map (w.page p) ≡ (w.page p, w.map))
      ⊎ ((free_frame w.map (w.page p) ≡ (freed, w.map))
          ⊎ (((w.page p).frame ≢ 0)
              × (free_frame w.map (w.page p)
                  ≡ (freed, clear_frame w.map ((w.page p).frame * 4096)))))
  unfolding free_frame
  free_frame-cases = elim (Bool-cases ((w.page p).frame == 0)) [
    | inl e ↦ inl (rw e refl)
    | inr e ↦ elim (Bool-cases (ltb (w.page p).frame w.map.nframes)) [
      | inl f ↦ inr (inr (ground arith, rw (e, f) refl))
      | inr f ↦ inr (inl (rw (e, f) refl))
    ]
  ]

  abbrev placed : Page × Frames → World
  placed r = record { map = r.1; page = update w.page p r.0 }

  free-IsSound : IsSound (placed (free_frame w.map (w.page p)))
  free-IsSound = elim free_frame-cases [
    | inl e ↦ subst (λ r. IsSound (placed r)) (sym e) (kept-IsSound (w.page p) (inl refl))
    | inr (inl e) ↦ subst (λ r. IsSound (placed r)) (sym e) (kept-IsSound freed (inr refl))
    | inr (inr (held, e)) ↦ subst (λ r. IsSound (placed r)) (sym e) (freed-IsSound freed refl held)
  ]

  alloc-IsSound :
      (k wr : Bool) (r : Page × Frames)
      → alloc_frame w.map (w.page p) k wr ≡ some r
      → IsSound (placed r)
  alloc-IsSound k wr r e = elim (Bool-cases ((w.page p).frame == 0)) [
    | inr held ↦
        let same : r ≡ (w.page p, w.map) =
          cc (e, alloc_frame-held w.map (w.page p) k wr (ground arith)) in
        subst (λ r. IsSound (placed r)) (sym same) (kept-IsSound (w.page p) (inl refl))
    | inl none_yet ↦ elim (Option-cases (first_frame w.map)) [
      | inl missing ↦ absurd (
          let panic = alloc_frame-panic w.map (w.page p) k wr (ground arith) missing in
          cc (e, panic))
      | inr (f, first) ↦
          let (a, b, z, before) =
            subst (FirstFree w.map 0 (32 * (w.map.nframes / 32))) first
              (first_frame-FirstFree w.map) in
          let pg : Page = record (w.page p) { present = true; rw = wr; user = not k; frame = f } in
          let same : r ≡ (pg, set_frame w.map (f * 4096)) =
            cc (e, alloc_frame-fresh w.map (w.page p) k wr f (ground arith) first) in
          subst (λ r. IsSound (placed r)) (sym same) (fresh-IsSound f pg refl z)
    ]
  ]

call-IsSound : (op : Op) (w after : World) → IsSound w → call op w ≡ some after → IsSound after
call-IsSound (free p) w after v e = subst IsSound (cc e) (free-IsSound w v p)
call-IsSound (alloc p k wr) w after v e = elim (Option-cases (alloc_frame w.map (w.page p) k wr)) [
  | inl missing ↦ absurd (ground arith)
  | inr (r, got) ↦ subst IsSound (ground arith) (alloc-IsSound w v p k wr r got)
]

-- Where no two page entries have the same frame other than 0 and every frame other than 0 that an
-- entry has is marked as taken, the same holds after any sequence of alloc_frame and free_frame
-- on the entries that does not panic.
pub calls-IsSound :
    (ops : List Op) (w after : World) → IsSound w → calls ops w ≡ some after → IsSound after
calls-IsSound [] w after v e = subst IsSound (cc e) v
calls-IsSound (op ∷ ops) w after v e = elim (Option-cases (call op w)) [
  | inl missing ↦ absurd (ground arith)
  | inr (next, got) ↦ calls-IsSound ops next after (call-IsSound op w next v got) (ground arith)
]

-- For an entry without a frame, alloc_frame takes the lowest free frame of the whole words of the
-- bitmap and marks that one alone, with the flags asked for, or panics where none of them is
-- free.
pub alloc_frame-lowest :
    (s : Frames) (page : Page) (k wr : Bool)
    → page.frame ≡ 0
    → ((f : ℕ) × FirstFree s 0 (32 * (s.nframes / 32)) (some f)
        × (alloc_frame s page k wr
            ≡ some (
              record page { present = true; rw = wr; user = not k; frame = f },
              set_frame s (f * 4096),
            ))
        × ((g : ℕ) → taken (set_frame s (f * 4096)) g ≡ (if f == g then 1 else taken s g)))
      ⊎ (FirstFree s 0 (32 * (s.nframes / 32)) none × (alloc_frame s page k wr ≡ none))
alloc_frame-lowest s page k wr e = elim (Option-cases (first_frame s)) [
  | inl missing ↦ inr (
    subst (FirstFree s 0 (32 * (s.nframes / 32))) missing (first_frame-FirstFree s),
    alloc_frame-panic s page k wr e missing,
  )
  | inr (f, first) ↦ inl (
    f,
    subst (FirstFree s 0 (32 * (s.nframes / 32))) first (first_frame-FirstFree s),
    alloc_frame-fresh s page k wr f e first,
    set_frame-taken s f,
  )
]
