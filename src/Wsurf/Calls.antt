-- ===== src/Wsurf/Calls.antt =====
-- Every call on surfaces keeps the mappings of the pool sound.
use nos.Prelude.{
  ℕ, zero, suc, ◌+◌, ◌-◌, ◌%◌, ◌≤◌, ◌<◌, ◌≡◌, ◌⊎◌, refl, sym, ap, ◌∙◌, subst, ltb, leb, Option,
  none, some, Bool, true, false, not, ◌&&◌, ◌||◌, if◌then◌else◌, ◌==◌, ℤ, pos, negsuc, update, inl,
  inr, Bool-cases, arith,
}
use nos.Wsurf.Sound.{IsSound, moved}
use nos.Wsurf.Keeps.{drop_server-IsSound, map-IsSound, create-IsSound}
use nos.Wsurf.{
  Surf, Sys, Caller, Wev, put_surf, is_mouse, is_server, no_server, enqueue, size_of, create_scan,
  slot_of, wsurf_create, wsurf_event, event_loop, wsurf_send, wsurf_map, wsurf_unmap,
}

-- Only the queue of the surface changes.
abbrev requeued : Surf → (ℕ → Wev) → ℕ → ℕ → Surf
requeued u q head tail = record u { evq = q; evh = head; evt = tail }

requeued-IsSound :
    (s : Sys) (i : ℕ) (q : ℕ → Wev) (head tail : ℕ)
    → i < 3
    → IsSound s
    → IsSound (put_surf s i (requeued (s.surfs i) q head tail))
requeued-IsSound s i q head tail small v = record {
  pool_low = v.pool_low;
  sizes = λ j h. elim (Bool-cases (i == j)) [
    | inl e ↦
        let same : i ≡ j = ground arith in
        let now : update s.surfs i (requeued (s.surfs i) q head tail) j
            ≡ requeued (s.surfs i) q head tail =
          rw e refl in
        let size = v.sizes i (ap (λ k. k.used) (sym now) ∙ h) in
        (subst (λ k. k.w ≤ 800) (sym now) size.0, subst (λ k. k.h ≤ 600) (sym now) size.1)
    | inr e ↦
        let now : update s.surfs i (requeued (s.surfs i) q head tail) j ≡ s.surfs j = rw e refl in
        let size = v.sizes j (ap (λ k. k.used) (sym now) ∙ h) in
        (subst (λ k. k.w ≤ 800) (sym now) size.0, subst (λ k. k.h ≤ 600) (sym now) size.1)
  ];
  held = λ t a p. moved s v i small (requeued (s.surfs i) q head tail) t (s.dirs t) t a (λ h. h) p;
}

enqueue-requeued :
    (u : Surf) (ev : Wev)
    → enqueue u ev ≡ requeued u (enqueue u ev).evq (enqueue u ev).evh (enqueue u ev).evt
unfolding enqueue
enqueue-requeued u ev =
    let pending = (u.evh + 32 - u.evt) % 32 in
    let newest = (u.evh + 32 - 1) % 32 in
    elim (Bool-cases (is_mouse ev && (ltb 0 pending && is_mouse (u.evq newest)))) [
      | inl e ↦ rw e refl
      | inr e ↦ elim (Bool-cases (ltb pending 31)) [
        | inl f ↦ rw (e, f) refl
        | inr f ↦ rw (e, f) refl
      ]
    ]

memory-IsSound : (s : Sys) (mem : ℕ → ℕ) → IsSound s → IsSound (record s { mem = mem })
memory-IsSound s mem v = record { pool_low = v.pool_low; sizes = v.sizes; held = v.held }

-- A slot that wsurf_create finds is free.
create_scan-free :
    (n i : ℕ) (surfs : ℕ → Surf) (id : ℕ) (slot : Option ℕ)
    → ((j : ℕ) → slot ≡ some j → (j < 3) × ((surfs j).used ≡ false))
    → i + n ≤ 3
    → (j : ℕ) → create_scan n i surfs id slot ≡ some (some j)
    → (j < 3) × ((surfs j).used ≡ false)
unfolding create_scan
create_scan-free zero i surfs id slot free top j e = free j (ground arith)
create_scan-free (suc n) i surfs id slot free top j e =
    let next : Option ℕ = if no_server slot && not (surfs i).used then some i else slot in
    let still : (k : ℕ) → next ≡ some k → (k < 3) × ((surfs k).used ≡ false) = λ k h.
      elim (Bool-cases (no_server slot && not (surfs i).used)) [
        | inl f ↦
            let same : i ≡ k = let c = h in ground arith in
            (omega arith, ap (λ m. (surfs m).used) (sym same) ∙ ground arith)
        | inr f ↦ free k (sym (rw f refl) ∙ h)
      ] in
    create_scan-free n (i + 1) surfs id next still (omega arith) j (ground arith)

slot_of-used :
    (s : Sys) (slot : ℤ) (i : ℕ) → slot_of s slot ≡ some i → (i < 3) × ((s.surfs i).used ≡ true)
slot_of-used s (negsuc n) i e = absurd (ground arith)
slot_of-used s (pos n) i e = elim (Bool-cases (leb 3 n || not (s.surfs n).used)) [
  | inl f ↦ absurd (ground arith)
  | inr f ↦
      let same : n ≡ i = ground arith in
      (ground arith, ap (λ m. (s.surfs m).used) (sym same) ∙ ground arith)
]

pub is_server-some : (o : Option ℕ) (id : ℕ) → is_server o id ≡ true → o ≡ some id
is_server-some none id e = absurd (ground arith)
is_server-some (some k) id e = ap some (ground arith)

module _ (s : Sys) (v : IsSound s) (t : Caller) where
  module _ (w h : ℤ) where
    abbrev refused : Bool
    refused =
        t.brk == 0
        || (ltb (size_of w) 1
            || (ltb (size_of h) 1 || (ltb 800 (size_of w) || ltb 600 (size_of h))))

    pub wsurf_create-IsSound : IsSound (wsurf_create s t w h).1
    unfolding wsurf_create
    wsurf_create-IsSound = elim (Bool-cases refused) [
      | inl bad ↦ rw (wsurf_create, bad) v
      | inr ok ↦ by (create_scan 3 0 s.surfs t.id none) refl ok
    ]
      where
        by :
            (o : Option (Option ℕ))
            → create_scan 3 0 s.surfs t.id none ≡ o
            → refused ≡ false
            → IsSound (wsurf_create s t w h).1
        by none e ok = rw (wsurf_create, ok, e) v
        by (some none) e ok = rw (wsurf_create, ok, e) v
        by (some (some i)) e ok =
            let (small, free) =
              create_scan-free 3 0 s.surfs t.id none (λ k c. absurd (ground arith)) (omega arith) i
                e in
            let size : (size_of w ≤ 800) × (size_of h ≤ 600) = (ground arith, ground arith) in
            rw (wsurf_create, ok, e)
              (memory-IsSound _ _ (create-IsSound s v i small t.id _ free refl refl refl size))

  pub wsurf_map-IsSound : (slot : ℤ) → IsSound (wsurf_map s t slot).1
  unfolding wsurf_map
  wsurf_map-IsSound slot = by (slot_of s slot) refl
    where
      by : (o : Option ℕ) → slot_of s slot ≡ o → IsSound (wsurf_map s t slot).1
      by none e = rw (wsurf_map, e) v
      by (some i) e =
          let (small, used) = slot_of-used s slot i e in
          rw (wsurf_map, e)
            (elim (Bool-cases (
              t.brk == 0
              || (not (no_server (s.surfs i).server) && not (is_server (s.surfs i).server t.id)))) [
                | inl f ↦ rw f v
                | inr f ↦ rw f (
                    map-IsSound s v i small t.id used (mine (s.surfs i).server refl (ground arith)))
              ])
        where
          mine :
              (o : Option ℕ)
              → (s.surfs i).server ≡ o
              → (not (no_server o) && not (is_server o t.id)) ≡ false
              → ((s.surfs i).server ≡ none) ⊎ ((s.surfs i).server ≡ some t.id)
          mine none e f = inl e
          mine (some k) e f = inr (e ∙ ap some (ground arith))

  pub wsurf_unmap-IsSound : (slot : ℤ) → IsSound (wsurf_unmap s t slot).1
  unfolding wsurf_unmap
  wsurf_unmap-IsSound slot = by (slot_of s slot) refl
    where
      by : (o : Option ℕ) → slot_of s slot ≡ o → IsSound (wsurf_unmap s t slot).1
      by none e = rw (wsurf_unmap, e) v
      by (some i) e =
          let (small, used) = slot_of-used s slot i e in
          rw (wsurf_unmap, e)
            (elim (Bool-cases (not (is_server (s.surfs i).server t.id))) [
              | inl f ↦ rw f v
              | inr f ↦ rw f (
                  drop_server-IsSound s v i small t.id used
                    (is_server-some (s.surfs i).server t.id (ground arith)))
            ])

  pub wsurf_send-IsSound : (slot : ℤ) (ev : Wev) → IsSound (wsurf_send s t slot ev).1
  unfolding wsurf_send
  wsurf_send-IsSound slot ev = by (slot_of s slot) refl
    where
      by : (o : Option ℕ) → slot_of s slot ≡ o → IsSound (wsurf_send s t slot ev).1
      by none e = rw (wsurf_send, e) v
      by (some i) e =
          let (small, used) = slot_of-used s slot i e in
          let q = enqueue (s.surfs i) ev in
          rw (wsurf_send, e)
            (elim (Bool-cases (not (is_server (s.surfs i).server t.id) || not (s.surfs i).alive)) [
              | inl f ↦ rw f v
              | inr f ↦ rw f (
                  subst (λ k. IsSound (put_surf s i k)) (sym (enqueue-requeued (s.surfs i) ev))
                    (requeued-IsSound s i q.evq q.evh q.evt small v))
            ])

  event_loop-IsSound : (n i id : ℕ) → i + n ≤ 3 → IsSound (event_loop n i s id).1
  unfolding event_loop
  event_loop-IsSound zero i id top = v
  event_loop-IsSound (suc n) i id top =
      let u = s.surfs i in
      let rest = event_loop-IsSound n (i + 1) id (omega arith) in
      elim (Bool-cases (not u.used || (not (u.owner == id) || not u.alive))) [
        | inl e ↦ rw e rest
        | inr e ↦ elim (Bool-cases (u.evt == u.evh)) [
          | inl f ↦ rw (e, f) v
          | inr f ↦ rw (e, f) (requeued-IsSound s i u.evq u.evh ((u.evt + 1) % 32) (omega arith) v)
        ]
      ]

  pub wsurf_event-IsSound : IsSound (wsurf_event s t).1
  unfolding wsurf_event
  wsurf_event-IsSound = event_loop-IsSound 3 0 t.id (omega arith)
