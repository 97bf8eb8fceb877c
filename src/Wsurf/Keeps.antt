-- ===== src/Wsurf/Keeps.antt =====
-- The calls on surfaces keep the mappings of the pool sound.
use nos.Prelude.{
  ℕ, ◌+◌, ◌*◌, ◌%◌, ◌^◌, ◌≤◌, ◌<◌, ◌≡◌, ◌⊎◌, refl, sym, ap, ◌∙◌, none, some, true, false,
  if◌then◌else◌, inl, inr, Bool-cases, arith,
}
use native.Mathlib.Nat.{mul-le-mul}
use nos.Wsurf.Range.{map_range, unmap_range}
use nos.Wsurf.Mapping.{frame_at, within, map_range-frame, unmap_range-frame}
use nos.Wsurf.Sound.{IsSound, is_pool, replaced, replaced-IsSound, server_base}
use nos.Wsurf.{
  Surf, Sys, user_wsurf_base, surf_map_bytes, pool_at, drop_server, drop_owner, no_server,
}

product-≤ : (w h : ℕ) → w ≤ 800 → h ≤ 600 → w * h ≤ 480000
product-≤ w h p q = mul-le-mul p q

pub whole-bytes : (u : Surf) → surf_map_bytes u % 4096 ≡ 0
whole-bytes u = omega arith

pub bytes-≤ : (u : Surf) → (u.w ≤ 800) × (u.h ≤ 600) → surf_map_bytes u ≤ 0x200000
bytes-≤ u (p, q) = let k = product-≤ u.w u.h p q in omega arith

-- A frame of the pool was just mapped, or was there before.
mapped :
    (s : Sys) (id va phys : ℕ) (u : Surf)
    → (u.w ≤ 800) × (u.h ≤ 600)
    → (a : ℕ) → va % 4096 ≡ 0
    → va + 0x200000 ≤ 2 ^ 32
    → is_pool s (frame_at (map_range (s.dirs id) va phys (surf_map_bytes u)) a) ≡ true
    → (within va (surf_map_bytes u) a ≡ true) ⊎ (is_pool s (frame_at (s.dirs id) a) ≡ true)
mapped s id va phys u size a al top p =
    let k = bytes-≤ u size in
    let f =
      map_range-frame (s.dirs id) va phys (surf_map_bytes u) a al (whole-bytes u) (omega arith) in
    elim (Bool-cases (within va (surf_map_bytes u) a)) [
      | inl e ↦ inl e
      | inr e ↦
          let z : frame_at (map_range (s.dirs id) va phys (surf_map_bytes u)) a
              ≡ frame_at (s.dirs id) a =
            f ∙ rw e refl in
          inr (ap (is_pool s) (sym z) ∙ p)
    ]

-- A surface gives a task nothing that it did not give before, save what `u` holds.
module _ (s : Sys) (v : IsSound s) (i : ℕ) (small : i < 3) (id : ℕ) where
  abbrev old : Surf
  old = s.surfs i

  module _ (used : old.used ≡ true) where
    size : (old.w ≤ 800) × (old.h ≤ 600)
    size = v.sizes i used

    -- Unmapped addresses show no frame of the pool.
    unmapped :
        (va a : ℕ)
        → va % 4096 ≡ 0
        → va + 0x200000 ≤ 2 ^ 32
        → is_pool s (frame_at (unmap_range (s.dirs id) va (surf_map_bytes old)) a) ≡ true
        → (within va (surf_map_bytes old) a ≡ false) × (is_pool s (frame_at (s.dirs id) a) ≡ true)
    unmapped va a al top p =
        let k = bytes-≤ old size in
        let f =
          unmap_range-frame (s.dirs id) va (surf_map_bytes old) a al (whole-bytes old)
            (omega arith) in
        let low = v.pool_low in
        elim (Bool-cases (within va (surf_map_bytes old) a)) [
          | inl e ↦
              let z : frame_at (unmap_range (s.dirs id) va (surf_map_bytes old)) a ≡ 0 =
                f ∙ rw e refl in
              absurd (let q : is_pool s 0 ≡ true = ap (is_pool s) (sym z) ∙ p in ground arith)
          | inr e ↦
              let z : frame_at (unmap_range (s.dirs id) va (surf_map_bytes old)) a
                  ≡ frame_at (s.dirs id) a =
                f ∙ rw e refl in
              (e, ap (is_pool s) (sym z) ∙ p)
        ]

    serving : (t : ℕ) → old.server ≡ some t → (drop_owner old).used ≡ true
    serving t o = ap (λ k. if no_server k then false else old.used) o ∙ used

    living : old.alive ≡ true → (drop_server old).used ≡ true
    living l = rw l used

    both : {A : Type 0} → false ≡ true → A
    both e = absurd (ground arith)

    pub drop_owner-IsSound :
        old.owner ≡ id
        → IsSound (
            replaced s i
              (drop_owner old)
              id
              (unmap_range (s.dirs id) user_wsurf_base (surf_map_bytes old)))
    drop_owner-IsSound own =
        replaced-IsSound s v i small (drop_owner old) id _ (λ h. size)
          (λ other a ne h. elim h.1 [
            | inl (lives, o, w) ↦ absurd (ne (sym o ∙ own))
            | inr (o, w) ↦ (serving other o, inr (o, w))
          ])
          (λ a p.
            let (out, q) = unmapped user_wsurf_base a refl (omega arith) p in
            inr (
              q,
              λ h. elim h.1 [
                | inl (lives, o, w) ↦ both (sym out ∙ w)
                | inr (o, w) ↦ (serving id o, inr (o, w))
              ],
            ))

    pub drop_server-IsSound :
        old.server ≡ some id
        → IsSound (
            replaced s i
              (drop_server old)
              id
              (unmap_range (s.dirs id) (server_base i) (surf_map_bytes old)))
    drop_server-IsSound own =
        replaced-IsSound s v i small (drop_server old) id _ (λ h. size)
          (λ other a ne h. elim h.1 [
            | inl (lives, o, w) ↦ (living lives, inl (lives, o, w))
            | inr (o, w) ↦ let c = sym o ∙ own in absurd (ground arith)
          ])
          (λ a p.
            let (out, q) = unmapped (server_base i) a (omega arith) (omega arith) p in
            inr (
              q,
              λ h. elim h.1 [
                | inl (lives, o, w) ↦ (living lives, inl (lives, o, w))
                | inr (o, w) ↦ both (sym out ∙ w)
              ],
            ))

    pub map-IsSound :
        (old.server ≡ none) ⊎ (old.server ≡ some id)
        → IsSound (
            replaced s i
              (record old { server = some id })
              id
              (map_range (s.dirs id) (server_base i) (pool_at s i) (surf_map_bytes old)))
    map-IsSound own =
        replaced-IsSound s v i small (record old { server = some id }) id _ (λ h. size)
          (λ other a ne h. elim h.1 [
            | inl part ↦ (used, inl part)
            | inr (o, w) ↦ elim own [
              | inl e ↦ let c = sym e ∙ o in absurd (ground arith)
              | inr e ↦ let c = sym o ∙ e in absurd (ground arith)
            ]
          ])
          (λ a p.
            elim (mapped s id (server_base i) (pool_at s i) old size a (omega arith) (omega arith)
              p) [
                | inl w ↦ inl (used, inr (refl, w))
                | inr q ↦ inr (
                  q,
                  λ h. elim h.1 [
                    | inl part ↦ (used, inl part)
                    | inr (o, w) ↦ (used, inr (refl, w))
                  ],
                )
              ])

  pub create-IsSound :
      (u : Surf)
      → old.used ≡ false
      → u.used ≡ true
      → u.alive ≡ true
      → u.owner ≡ id
      → (u.w ≤ 800) × (u.h ≤ 600)
      → IsSound (
          replaced s i u id
            (map_range (s.dirs id) user_wsurf_base (pool_at s i) (surf_map_bytes u)))
  create-IsSound u free used lives own size =
      replaced-IsSound s v i small u id _ (λ h. size)
        (λ other a ne h. absurd (let b = sym free ∙ h.0 in ground arith))
        (λ a p. elim (mapped s id user_wsurf_base (pool_at s i) u size a refl (omega arith) p) [
          | inl w ↦ inl (used, inl (lives, own, w))
          | inr q ↦ inr (q, λ h. absurd (let b = sym free ∙ h.0 in ground arith))
        ])
