-- ===== src/Wsurf/Sound.antt =====
-- Who may have pages of the pool mapped: the living owner of a surface and its server.
use nos.Prelude.{
  ℕ, ◌+◌, ◌*◌, ◌≤◌, ◌<◌, ◌≡◌, ◌≢◌, ◌⊎◌, refl, sym, ap, ◌∙◌, subst, ltb, leb, some, Bool, true, ◌&&◌,
  ◌==◌, update, inl, inr, Bool-cases, arith,
}
use nos.UserMem.{Directory}
use nos.Wsurf.Mapping.{frame_at, within}
use nos.Wsurf.{
  Surf, Sys, user_wsurf_base, user_wsrv_base, slot_span, surf_map_bytes, wsurf_bytes, put_surf,
  put_dir,
}

-- The frame belongs to the pool.
abbrev pub is_pool : Sys → ℕ → Bool
is_pool s f = leb s.pool_base (f * 4096) && ltb (f * 4096) (s.pool_base + 3 * wsurf_bytes)

abbrev pub server_base : ℕ → ℕ
server_base i = user_wsrv_base + i * slot_span

-- By the surface in slot i the task may have a mapping at the address.
abbrev pub Holds : Surf → ℕ → ℕ → ℕ → Type 0
Holds u i id a =
    (u.used ≡ true)
    × (((u.alive ≡ true) × (u.owner ≡ id) × (within user_wsurf_base (surf_map_bytes u) a ≡ true))
        ⊎ ((u.server ≡ some id) × (within (server_base i) (surf_map_bytes u) a ≡ true)))

pub record IsSound (s : Sys) : Type 0 where
  pub pool_low : 0 < s.pool_base
  pub sizes : (i : ℕ) → (s.surfs i).used ≡ true → ((s.surfs i).w ≤ 800) × ((s.surfs i).h ≤ 600)
  pub held :
      (id a : ℕ)
      → is_pool s (frame_at (s.dirs id) a) ≡ true
      → (i : ℕ) × (i < 3) × Holds (s.surfs i) i id a

abbrev pub replaced : Sys → ℕ → Surf → ℕ → Directory → Sys
replaced s i u id dir = put_dir (put_surf s i u) id dir

-- A surface and the directory of a task change.
module _ (s : Sys) (v : IsSound s) (i : ℕ) (small : i < 3) (u : Surf) (id : ℕ)
    (dir : Directory) where
  abbrev after : Sys
  after = replaced s i u id dir

  self : update s.surfs i u i ≡ u
  self = ground arith

  new-Holds : (t a : ℕ) → Holds u i t a → Holds (after.surfs i) i t a
  new-Holds t a h = subst (λ k. Holds k i t a) (sym self) h

  -- What holds by the surface of another slot still does.
  moved-Holds :
      (j t a : ℕ)
      → Holds (s.surfs j) j t a
      → (Holds (s.surfs i) i t a → Holds u i t a)
      → Holds (after.surfs j) j t a
  moved-Holds j t a h keep = elim (Bool-cases (i == j)) [
    | inl e ↦
        let same : i ≡ j = ground arith in
        subst (λ k. Holds (after.surfs k) k t a) same
          (new-Holds t a (keep (subst (λ k. Holds (s.surfs k) k t a) (sym same) h)))
    | inr e ↦ rw e h
  ]

  pub moved :
      (t a : ℕ)
      → (Holds (s.surfs i) i t a → Holds u i t a)
      → is_pool s (frame_at (s.dirs t) a) ≡ true
      → (j : ℕ) × (j < 3) × Holds (after.surfs j) j t a
  moved t a keep p = let (j, lt, h) = v.held t a p in (j, lt, moved-Holds j t a h keep)

  pub replaced-IsSound :
      (u.used ≡ true → (u.w ≤ 800) × (u.h ≤ 600))
      → ((other a : ℕ) → other ≢ id → Holds (s.surfs i) i other a → Holds u i other a)
      → ((a : ℕ)
          → is_pool s (frame_at dir a) ≡ true
          → Holds u i id a
            ⊎ ((is_pool s (frame_at (s.dirs id) a) ≡ true)
                × (Holds (s.surfs i) i id a → Holds u i id a)))
      → IsSound after
  replaced-IsSound size others own = record {
    pool_low = v.pool_low;
    sizes = λ j h. elim (Bool-cases (i == j)) [
      | inl e ↦
          let now : after.surfs j ≡ u = rw e refl in
          subst (λ k. (k.w ≤ 800) × (k.h ≤ 600)) (sym now) (size (ap (λ k. k.used) (sym now) ∙ h))
      | inr e ↦
          let now : after.surfs j ≡ s.surfs j = rw e refl in
          subst (λ k. (k.w ≤ 800) × (k.h ≤ 600)) (sym now)
            (v.sizes j (ap (λ k. k.used) (sym now) ∙ h))
    ];
    held = λ t a p. elim (Bool-cases (id == t)) [
      | inl e ↦
          let same : id ≡ t = ground arith in
          let now : after.dirs t ≡ dir = rw e refl in
          subst (λ k. (j : ℕ) × (j < 3) × Holds (after.surfs j) j k a) same
            (elim (own a (ap (λ d. is_pool s (frame_at d a)) (sym now) ∙ p)) [
              | inl h ↦ (i, small, new-Holds id a h)
              | inr q ↦ moved id a (q.1) (q.0)
            ])
      | inr e ↦
          let now : after.dirs t ≡ s.dirs t = rw e refl in
          moved t a (others t a (ground arith)) (ap (λ d. is_pool s (frame_at d a)) (sym now) ∙ p)
    ];
  }
