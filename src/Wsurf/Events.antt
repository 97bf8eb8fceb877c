-- ===== src/Wsurf/Events.antt =====
-- The event queue of a surface, between the server that sends and the owner that polls.
use nos.Prelude.{
  ℕ, zero, suc, ◌+◌, ◌-◌, ◌%◌, ◌≤◌, ◌<◌, ◌≡◌, ◌≢◌, ◌⊎◌, refl, sym, ap, ◌∙◌, subst, ltb, List, [],
  ◌∷◌, ◌++◌, Option, none, some, Bool, true, false, ◌&&◌, if◌then◌else◌, ◌==◌, pos, update, length,
  inl, inr, Bool-cases, arith,
}
use nos.Ring.{next}
use nos.Ring.Fifo.{window, length-window, window-update, at, at-next}
use nos.Wsurf.{
  Wev, Surf, Sys, Caller, is_mouse, enqueue, wsurf_send, wsurf_event, event_loop, is_server,
  put_surf,
}

pub record IsValid (u : Surf) : Type 0 where
  pub evh_in : u.evh < 32
  pub evt_in : u.evt < 32

abbrev pub pending : Surf → ℕ
pending u = (u.evh + 32 - u.evt) % 32

-- Oldest first.
abbrev pub queue : Surf → List Wev
queue u = window 32 u.evq u.evt (pending u)

abbrev pub ends_in_mouse : List Wev → Bool
ends_in_mouse [] = false
ends_in_mouse (x ∷ []) = is_mouse x
ends_in_mouse (x ∷ (y ∷ q)) = ends_in_mouse (y ∷ q)

abbrev pub replace_last : List Wev → Wev → List Wev
replace_last [] ev = []
replace_last (x ∷ []) ev = ev ∷ []
replace_last (x ∷ (y ∷ q)) ev = x ∷ replace_last (y ∷ q) ev

-- A mouse event takes the place of a mouse event that is the newest; all others wait at the end, up
-- to 31.
abbrev pub push : List Wev → Wev → List Wev
push q ev =
    if is_mouse ev && ends_in_mouse q
    then replace_last q ev
    else if ltb (length q) 31
    then q ++ (ev ∷ [])
    else q

ends-snoc : (q : List Wev) (x : Wev) → ends_in_mouse (q ++ (x ∷ [])) ≡ is_mouse x
ends-snoc [] x = refl
ends-snoc (y ∷ []) x = refl
ends-snoc (y ∷ (z ∷ q)) x = ends-snoc (z ∷ q) x

replace-snoc : (q : List Wev) (x ev : Wev) → replace_last (q ++ (x ∷ [])) ev ≡ q ++ (ev ∷ [])
replace-snoc [] x ev = refl
replace-snoc (y ∷ []) x ev = refl
replace-snoc (y ∷ (z ∷ q)) x ev = ap (λ r. y ∷ r) (replace-snoc (z ∷ q) x ev)

window-snoc :
    (buf : ℕ → Wev) (n t : ℕ)
    → t < 32
    → n < 32
    → window 32 buf t (suc n) ≡ window 32 buf t n ++ (buf (at 32 t n) ∷ [])
window-snoc buf zero t ht hn = let z : at 32 t 0 ≡ t = ground arith in ap (λ k. buf k ∷ []) (sym z)
window-snoc buf (suc n) t ht hn =
    let (e, lt) = at-next 32 t n ht (omega arith) in
    ap (λ w. buf t ∷ w)
      (window-snoc buf n (next 32 t) lt (omega arith)
        ∙ ap (λ k. window 32 buf (next 32 t) n ++ (buf k ∷ [])) e)

module _ (u : Surf) (v : IsValid u) where
  abbrev newest : ℕ
  newest = (u.evh + 32 - 1) % 32

  newest-at : (m : ℕ) → pending u ≡ suc m → newest ≡ at 32 u.evt m
  newest-at m e = let a = v.evh_in in let b = v.evt_in in ground arith

  head-at : u.evh ≡ at 32 u.evt (pending u)
  head-at = let a = v.evh_in in let b = v.evt_in in ground arith

  pending-lt : pending u < 32
  pending-lt = omega arith

  queue-snoc :
      (m : ℕ) → pending u ≡ suc m → queue u ≡ window 32 u.evq u.evt m ++ (u.evq newest ∷ [])
  queue-snoc m e =
      ap (window 32 u.evq u.evt) e
      ∙ window-snoc u.evq m u.evt v.evt_in (omega arith)
      ∙ ap (λ k. window 32 u.evq u.evt m ++ (u.evq k ∷ [])) (sym (newest-at m e))

  module _ (ev : Wev) where
    abbrev replaced : Surf
    replaced = record u { evq = update u.evq newest ev }

    abbrev appended : Surf
    appended = record u { evq = update u.evq u.evh ev; evh = (u.evh + 1) % 32 }

    queue-replaced : (m : ℕ) → pending u ≡ suc m → queue replaced ≡ replace_last (queue u) ev
    queue-replaced m e =
        ap (window 32 (update u.evq newest ev) u.evt) e
        ∙ window-update 32 u.evq ev m u.evt newest v.evt_in (omega arith) (newest-at m e)
        ∙ sym (
            ap (λ q. replace_last q ev) (queue-snoc m e)
            ∙ replace-snoc (window 32 u.evq u.evt m) (u.evq newest) ev)

    pending-appended : pending u < 31 → pending appended ≡ suc (pending u)
    pending-appended h = let a = v.evh_in in let b = v.evt_in in omega arith

    queue-appended : pending u < 31 → queue appended ≡ queue u ++ (ev ∷ [])
    queue-appended h =
        ap (window 32 (update u.evq u.evh ev) u.evt) (pending-appended h)
        ∙ window-update 32 u.evq ev (pending u) u.evt u.evh v.evt_in pending-lt head-at

    ends-queue : (ltb 0 (pending u) && is_mouse (u.evq newest)) ≡ ends_in_mouse (queue u)
    ends-queue = by (pending u) refl
      where
        by :
            (n : ℕ)
            → pending u ≡ n
            → (ltb 0 (pending u) && is_mouse (u.evq newest)) ≡ ends_in_mouse (queue u)
        by zero e = rw e refl
        by (suc m) e =
            let more : ltb 0 (pending u) ≡ true = ground arith in
            rw more (
              sym (
                ap ends_in_mouse (queue-snoc m e)
                ∙ ends-snoc (window 32 u.evq u.evt m) (u.evq newest)))

    enqueue-tests : enqueue u ev ≡ (
        if is_mouse ev && (ltb 0 (pending u) && is_mouse (u.evq newest))
        then replaced
        else if ltb (pending u) 31
        then appended
        else u)
    unfolding enqueue
    enqueue-tests = refl

    enqueue-push : IsValid (enqueue u ev) × (queue (enqueue u ev) ≡ push (queue u) ev)
    enqueue-push =
        subst (λ k. IsValid k × (queue k ≡ push (queue u) ev)) (sym enqueue-tests)
          (rw ends-queue (elim (Bool-cases (is_mouse ev && ends_in_mouse (queue u))) [
            | inl e ↦
                rw e
                  (record { evh_in = v.evh_in; evt_in = v.evt_in }, some_pending (pending u) refl e)
            | inr e ↦ elim (Bool-cases (ltb (pending u) 31)) [
              | inl f ↦
                  rw (e, f)
                    (
                      record { evh_in = omega arith; evt_in = v.evt_in },
                      queue-appended (ground arith)
                          ∙ (let l = length-window 32 u.evq u.evt (pending u) in ground arith),
                    )
              | inr f ↦
                  rw (e, f) (v, (let l = length-window 32 u.evq u.evt (pending u) in ground arith))
            ]
          ]))
      where
        some_pending :
            (n : ℕ)
            → pending u ≡ n
            → (is_mouse ev && ends_in_mouse (queue u)) ≡ true
            → queue replaced ≡ replace_last (queue u) ev
        some_pending zero e h =
            let none_there : queue u ≡ [] = ap (window 32 u.evq u.evt) e in
            absurd (let k = ap ends_in_mouse none_there in ground arith)
        some_pending (suc m) e h = queue-replaced m e

-- A server that sends to a surface of its own, whose owner lives.
module _ (s : Sys) (t : Caller) (i : ℕ) where
  pub record IsServed : Type 0 where
    pub slot_in : i < 3
    pub used : (s.surfs i).used ≡ true
    pub alive : (s.surfs i).alive ≡ true
    pub served : (s.surfs i).server ≡ some t.id

  wsurf_send-put :
      (ev : Wev)
      → IsServed
      → wsurf_send s t (pos i) ev ≡ (pos 0, put_surf s i (enqueue (s.surfs i) ev))
  unfolding wsurf_send
  wsurf_send-put ev k =
      let low = k.slot_in in
      let in_use = k.used in
      let lives = k.alive in
      let serves : is_server (s.surfs i).server t.id ≡ true =
        ap (λ o. is_server o t.id) k.served ∙ ground arith in
      ground arith

  -- Where the caller is the server of a surface in use whose owner lives, and the indices of its
  -- queue are below 32, wsurf_send returns 0 and keeps them so: a mouse event takes the place of
  -- a mouse event that is the newest, any other event goes to the end of the queue unless 31 are
  -- waiting, in which case it is dropped; no other surface changes.
  pub wsurf_send-push :
      (ev : Wev)
      → IsServed
      → IsValid (s.surfs i)
      → ((wsurf_send s t (pos i) ev).0 ≡ pos 0)
        × IsValid ((wsurf_send s t (pos i) ev).1.surfs i)
        × (queue ((wsurf_send s t (pos i) ev).1.surfs i) ≡ push (queue (s.surfs i)) ev)
        × ((j : ℕ) → j ≢ i → (wsurf_send s t (pos i) ev).1.surfs j ≡ s.surfs j)
  wsurf_send-push ev k v =
      let put = wsurf_send-put ev k in
      let (valid, q) = enqueue-push (s.surfs i) v ev in
      let self : (if i == i then enqueue (s.surfs i) ev else s.surfs i) ≡ enqueue (s.surfs i) ev =
        ground arith in
      (
        ap (λ r. r.0) put,
        subst IsValid (sym (ap (λ r. r.1.surfs i) put ∙ self)) valid,
        ap queue (ap (λ r. r.1.surfs i) put ∙ self) ∙ q,
        λ j ne. ap (λ r. r.1.surfs j) put ∙ ground arith,
      )

  -- The only surface of its owner.
  pub record IsOwned : Type 0 where
    pub slot_in : i < 3
    pub used : (s.surfs i).used ≡ true
    pub alive : (s.surfs i).alive ≡ true
    pub owned : (s.surfs i).owner ≡ t.id
    pub only :
        (j : ℕ)
        → j ≢ i
        → ((s.surfs j).used && ((s.surfs j).owner == t.id && (s.surfs j).alive)) ≡ false

  abbrev polled : Option Wev × Sys
  polled = if (s.surfs i).evt == (s.surfs i).evh then (none, s) else (
    some ((s.surfs i).evq (s.surfs i).evt),
    put_surf s i (record (s.surfs i) { evt = ((s.surfs i).evt + 1) % 32 }),
  )

  event_loop-found : (n : ℕ) → IsOwned → event_loop (suc n) i s t.id ≡ polled
  unfolding event_loop
  event_loop-found n k = rw (k.used, k.alive) (let o = k.owned in ground arith)

  event_loop-skip :
      (n j : ℕ) → IsOwned → j ≢ i → event_loop (suc n) j s t.id ≡ event_loop n (j + 1) s t.id
  unfolding event_loop
  event_loop-skip n j k ne = let other = k.only j ne in ground arith

  event_loop-reach : (n j : ℕ) → IsOwned → j ≤ i → i < j + n → event_loop n j s t.id ≡ polled
  event_loop-reach zero j k lo hi = absurd (omega arith)
  event_loop-reach (suc n) j k lo hi = elim (Bool-cases (j == i)) [
    | inl e ↦
        let same : j ≡ i = ground arith in
        ap (λ m. event_loop (suc n) m s t.id) same ∙ event_loop-found n k
    | inr e ↦
        event_loop-skip n j k (ground arith)
        ∙ event_loop-reach n (j + 1) k (ground arith) (omega arith)
  ]

  -- Where a surface is the only one that the caller owns alive and the indices of its queue are
  -- below 32, wsurf_event takes the oldest event of its queue, or returns -1 and changes nothing
  -- where the queue is empty.
  pub wsurf_event-queue :
      IsOwned
      → IsValid (s.surfs i)
      → ((queue (s.surfs i) ≡ []) × (wsurf_event s t ≡ (none, s)))
        ⊎ ((ev : Wev) × ((wsurf_event s t).0 ≡ some ev)
            × (queue (s.surfs i) ≡ ev ∷ queue ((wsurf_event s t).1.surfs i)))
  unfolding wsurf_event
  wsurf_event-queue k v =
      let reach = event_loop-reach 3 0 k (omega arith) (omega (arith, k.slot_in)) in
      let u = s.surfs i in
      elim (Bool-cases (u.evt == u.evh)) [
        | inl e ↦
            let z : pending u ≡ 0 = let a = v.evh_in in ground arith in
            inl (ap (window 32 u.evq u.evt) z, reach ∙ rw e refl)
        | inr e ↦
            let got : event_loop 3 0 s t.id
                ≡ (some (u.evq u.evt), put_surf s i (record u { evt = (u.evt + 1) % 32 })) =
              reach ∙ rw e refl in
            let left : pending u ≡ suc (pending (record u { evt = (u.evt + 1) % 32 })) =
              let a = v.evh_in in let b = v.evt_in in ground arith in
            let self : (if i == i then record u { evt = (u.evt + 1) % 32 } else s.surfs i)
                ≡ record u { evt = (u.evt + 1) % 32 } =
              ground arith in
            inr (
              u.evq u.evt,
              ap (λ r. r.0) got,
              ap (window 32 u.evq u.evt) left
                  ∙ sym (ap (λ w. u.evq u.evt ∷ queue w) (ap (λ r. r.1.surfs i) got ∙ self)),
            )
      ]
