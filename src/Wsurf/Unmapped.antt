-- ===== src/Wsurf/Unmapped.antt =====
-- `wsurf_task_exit`: what a task that ends leaves of the pool in its directory.
use nos.Prelude.{
  ℕ, zero, suc, ◌+◌, ◌<◌, ◌≡◌, ◌≢◌, ◌⊎◌, refl, sym, ap, ◌∙◌, subst, Bool, true, false, not, ◌&&◌,
  List, [], ◌∷◌, if◌then◌else◌, ◌==◌, ℤ, inl, inr, Bool-cases, arith,
}
use nos.Wsurf.Sound.{IsSound, Holds, is_pool}
use nos.Wsurf.Keeps.{drop_owner-IsSound, drop_server-IsSound}
use nos.Wsurf.Calls.{
  wsurf_create-IsSound, wsurf_event-IsSound, wsurf_send-IsSound, wsurf_map-IsSound,
  wsurf_unmap-IsSound, is_server-some,
}
use nos.Wsurf.Mapping.{frame_at}
use nos.Wsurf.{
  Surf, Sys, Caller, Wev, is_server, drop_owner, drop_server, wsurf_create, wsurf_event, wsurf_send,
  wsurf_map, wsurf_unmap, exit_owner, exit_server, exit_loop, wsurf_task_exit,
}

-- The task has no part in the surface.
abbrev NoPart : Surf → ℕ → Type 0
NoPart u id = u.used ≡ true → ((u.owner == id && u.alive) ≡ false) × (is_server u.server id ≡ false)

module _ (id : ℕ) where
  abbrev round : ℕ → Sys → Sys
  round i s = if not (s.surfs i).used then s else exit_server (exit_owner s id i) id i

  -- What a round makes of its surface.
  abbrev without_owner : Surf → Surf
  without_owner u = if u.owner == id && u.alive then drop_owner u else u

  abbrev without_server : Surf → Surf
  without_server u = if is_server u.server id then drop_server u else u

  abbrev without : Surf → Surf
  without u = if not u.used then u else without_server (without_owner u)

  exit_owner-surf : (s : Sys) (i : ℕ) → (exit_owner s id i).surfs i ≡ without_owner (s.surfs i)
  unfolding exit_owner
  exit_owner-surf s i = elim (Bool-cases ((s.surfs i).owner == id && (s.surfs i).alive)) [
    | inl e ↦ rw e (ground arith)
    | inr e ↦ rw e refl
  ]

  exit_server-surf : (s : Sys) (i : ℕ) → (exit_server s id i).surfs i ≡ without_server (s.surfs i)
  unfolding exit_server
  exit_server-surf s i = elim (Bool-cases (is_server (s.surfs i).server id)) [
    | inl e ↦ rw e (ground arith)
    | inr e ↦ rw e refl
  ]

  round-surf : (s : Sys) (i : ℕ) → (round i s).surfs i ≡ without (s.surfs i)
  round-surf s i = choose (s.surfs i).used
    where
      choose :
          (b : Bool)
          → (if not b then s else exit_server (exit_owner s id i) id i).surfs i
            ≡ (if not b then s.surfs i else without_server (without_owner (s.surfs i)))
      choose true = exit_server-surf (exit_owner s id i) i ∙ ap without_server (exit_owner-surf s i)
      choose false = refl

  without_owner-used :
      (u : Surf)
      → u.used ≡ true
      → ((without_owner u).used ≡ true) ⊎ (is_server (without_owner u).server id ≡ false)
  without_owner-used u used = ground arith

  without-NoPart : (u : Surf) → NoPart (without u) id
  without-NoPart u = λ h. ground arith

  exit_owner-used :
      (s : Sys) (i : ℕ)
      → (s.surfs i).used ≡ true
      → (((exit_owner s id i).surfs i).used ≡ true)
        ⊎ (is_server ((exit_owner s id i).surfs i).server id ≡ false)
  exit_owner-used s i used =
      subst (λ u. (u.used ≡ true) ⊎ (is_server u.server id ≡ false)) (sym (exit_owner-surf s i))
        (without_owner-used (s.surfs i) used)

  exit_owner-IsSound :
      (s : Sys) (i : ℕ) → i < 3 → (s.surfs i).used ≡ true → IsSound s → IsSound (exit_owner s id i)
  unfolding exit_owner
  exit_owner-IsSound s i small used v =
      elim (Bool-cases ((s.surfs i).owner == id && (s.surfs i).alive)) [
        | inl e ↦ rw e (drop_owner-IsSound s v i small id used (ground arith))
        | inr e ↦ rw e v
      ]

  exit_server-IsSound :
      (s : Sys) (i : ℕ)
      → i < 3
      → ((s.surfs i).used ≡ true) ⊎ (is_server (s.surfs i).server id ≡ false)
      → IsSound s
      → IsSound (exit_server s id i)
  unfolding exit_server
  exit_server-IsSound s i small (inr e) v = rw e v
  exit_server-IsSound s i small (inl used) v = elim (Bool-cases (is_server (s.surfs i).server id)) [
    | inl e ↦
        rw e (drop_server-IsSound s v i small id used (is_server-some (s.surfs i).server id e))
    | inr e ↦ rw e v
  ]

  round-IsSound : (s : Sys) (i : ℕ) → i < 3 → IsSound s → IsSound (round i s)
  round-IsSound s i small v = elim (Bool-cases (s.surfs i).used) [
    | inl e ↦ rw e (
        exit_server-IsSound (exit_owner s id i) i small (exit_owner-used s i e)
          (exit_owner-IsSound s i small e v))
    | inr e ↦ rw e v
  ]

  round-others : (s : Sys) (i j : ℕ) → j ≢ i → (round i s).surfs j ≡ s.surfs j
  unfolding exit_server exit_owner
  round-others s i j ne = ground arith

  round-NoPart : (s : Sys) (i : ℕ) → NoPart ((round i s).surfs i) id
  round-NoPart s i = subst (λ u. NoPart u id) (sym (round-surf s i)) (without-NoPart (s.surfs i))

  -- The rounds before this one left the task no part.
  abbrev Parted : ℕ → Sys → Type 0
  Parted i s = (j : ℕ) → j < i → NoPart (s.surfs j) id

  round-Parted : (s : Sys) (i : ℕ) → Parted i s → Parted (i + 1) (round i s)
  round-Parted s i before j lt = elim (Bool-cases (j == i)) [
    | inl e ↦
        let same : i ≡ j = ground arith in
        subst (λ k. NoPart ((round i s).surfs k) id) same (round-NoPart s i)
    | inr e ↦
        subst (λ u. NoPart u id) (sym (round-others s i j (ground arith))) (before j (ground arith))
  ]

  exit_loop-Parted :
      (n i : ℕ) (s : Sys)
      → i + n ≡ 3
      → IsSound s
      → Parted i s
      → IsSound (exit_loop n i s id) × Parted 3 (exit_loop n i s id)
  unfolding exit_loop
  exit_loop-Parted zero i s top v before = (v, λ j lt. before j (omega arith))
  exit_loop-Parted (suc n) i s top v before =
      exit_loop-Parted n (i + 1) (round i s) (omega arith) (round-IsSound s i (omega arith) v)
        (round-Parted s i before)

  NoPart-held : (u : Surf) (i a : ℕ) → NoPart u id → Holds u i id a → ⊥
  NoPart-held u i a none_left h = elim h.1 [
    | inl (lives, o, w) ↦ let n = (none_left h.0).0 in absurd (ground arith)
    | inr (o, w) ↦
        let n = sym (ap (λ k. is_server k id) o) ∙ (none_left h.0).1 in absurd (ground arith)
  ]

  exit-IsSound :
      (s : Sys) → IsSound s → IsSound (wsurf_task_exit s id) × Parted 3 (wsurf_task_exit s id)
  unfolding wsurf_task_exit
  exit-IsSound s v = exit_loop-Parted 3 0 s refl v (λ j lt. absurd (omega arith))

  exit-unmapped :
      (s : Sys)
      → IsSound s
      → (a : ℕ)
      → is_pool (wsurf_task_exit s id) (frame_at ((wsurf_task_exit s id).dirs id) a) ≡ false
  exit-unmapped s v a =
      let (w, parted) = exit-IsSound s v in
      elim (Bool-cases
        (is_pool (wsurf_task_exit s id) (frame_at ((wsurf_task_exit s id).dirs id) a))) [
          | inl e ↦
              let (i, small, h) = w.held id a e in
              absurd (NoPart-held ((wsurf_task_exit s id).surfs i) i a (parted i small) h)
          | inr e ↦ e
        ]

-- A call that a task makes, or the end of a task.
pub data Call : Type 0 where
  create : Caller → ℤ → ℤ → Call
  event : Caller → Call
  map : Caller → ℤ → Call
  unmap : Caller → ℤ → Call
  send : Caller → ℤ → Wev → Call
  exit : ℕ → Call

abbrev after_call : Call → Sys → Sys
after_call (create t w h) s = (wsurf_create s t w h).1
after_call (event t) s = (wsurf_event s t).1
after_call (map t slot) s = (wsurf_map s t slot).1
after_call (unmap t slot) s = (wsurf_unmap s t slot).1
after_call (send t slot ev) s = (wsurf_send s t slot ev).1
after_call (exit id) s = wsurf_task_exit s id

abbrev pub after_calls : List Call → Sys → Sys
after_calls [] s = s
after_calls (c ∷ rest) s = after_calls rest (after_call c s)

call-IsSound : (c : Call) (s : Sys) → IsSound s → IsSound (after_call c s)
call-IsSound (create t w h) s v = wsurf_create-IsSound s v t w h
call-IsSound (event t) s v = wsurf_event-IsSound s v t
call-IsSound (map t slot) s v = wsurf_map-IsSound s v t slot
call-IsSound (unmap t slot) s v = wsurf_unmap-IsSound s v t slot
call-IsSound (send t slot ev) s v = wsurf_send-IsSound s v t slot ev
call-IsSound (exit id) s v = (exit-IsSound id s v).0

after_calls-IsSound : (calls : List Call) (s : Sys) → IsSound s → IsSound (after_calls calls s)
after_calls-IsSound [] s v = v
after_calls-IsSound (c ∷ rest) s v = after_calls-IsSound rest (after_call c s) (call-IsSound c s v)

-- From a state with no surface in use, with a pool above address 0 of which no directory shows a
-- frame, after any calls of wsurf_create, wsurf_event, wsurf_map, wsurf_unmap, wsurf_send and
-- wsurf_task_exit by any tasks: once wsurf_task_exit has run for a task, no page of its directory
-- shows a frame of the pool.
pub exit-no_pool :
    (s : Sys) (calls : List Call) (id a : ℕ)
    → 0 < s.pool_base
    → ((i : ℕ) → (s.surfs i).used ≡ false)
    → ((t b : ℕ) → is_pool s (frame_at (s.dirs t) b) ≡ false)
    → is_pool
        (wsurf_task_exit (after_calls calls s) id)
        (frame_at ((wsurf_task_exit (after_calls calls s) id).dirs id) a)
      ≡ false
exit-no_pool s calls id a low unused clean =
    exit-unmapped id (after_calls calls s)
      (after_calls-IsSound calls s (record {
        pool_low = low;
        sizes = λ i h. absurd (let u = unused i in ground arith);
        held = λ t b p. absurd (let c = clean t b in ground arith);
      }))
      a
