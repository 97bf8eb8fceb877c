-- ===== src/Wsurf/Tests.antt =====
-- Surfaces at concrete calls.
use nos.Prelude.{
  ℕ, ◌+◌, ◌*◌, ◌≡◌, ◌≢◌, refl, [], ◌∷◌, none, some, true, false, pos, arith, ◌⊎◌, if◌then◌else◌,
  ◌==◌, ◌&&◌,
}
use nos.UserMem.{get_page}
use nos.Wsurf.{
  create_scan, Wev, Surf, Sys, Caller, user_wsurf_base, wsurf_create, wsurf_send, wsurf_event,
  wsurf_task_exit,
}
use nos.Wsurf.Mapping.{frame_at}
use nos.Wsurf.Sound.{is_pool}
use nos.Wsurf.Events.{IsValid, queue, push, wsurf_send-push, wsurf_event-queue}
use nos.Wsurf.Unmapped.{create, map, after_calls, exit-no_pool}
use nos.Wsurf.Overlap.{wsurf_create-shared}

abbrev moved_to : ℕ → Wev
moved_to x = record { type = 2; a = x; b = 0; c = 0 }

abbrev unused : Surf
unused = record {
  used = false;
  alive = false;
  owner = 0;
  server = none;
  w = 0;
  h = 0;
  name = [];
  evq = λ k. moved_to 0;
  evh = 0;
  evt = 0;
}

abbrev idle : Sys
idle = record {
  surfs = λ i. unused;
  pool_base = 0x500000;
  mem = λ a. 0;
  dirs = λ id. record { tables = λ i. none };
}

abbrev client : Caller
client = record { id = 7; brk = 0x50000000; name = 97 ∷ [] }

abbrev server : Caller
server = record { id = 9; brk = 0x50000000; name = 98 ∷ [] }

-- A surface with one mouse event in its queue.
abbrev shown : Surf
shown = record unused {
  used = true;
  alive = true;
  owner = 7;
  server = some 9;
  w = 10;
  h = 10;
  evh = 1;
}

abbrev one_window : Sys
one_window = record idle { surfs = λ i. if i == 0 then shown else unused }

create_test : (wsurf_create idle client (pos 800) (pos 600)).0 ≡ pos 0x74000000
unfolding wsurf_create create_scan
create_test = refl

wsurf_send-push_test :
    ((wsurf_send one_window server (pos 0) (moved_to 5)).0 ≡ pos 0)
    × IsValid ((wsurf_send one_window server (pos 0) (moved_to 5)).1.surfs 0)
    × (queue ((wsurf_send one_window server (pos 0) (moved_to 5)).1.surfs 0)
        ≡ push (queue shown) (moved_to 5))
    × ((j : ℕ)
        → j ≢ 0
        → (wsurf_send one_window server (pos 0) (moved_to 5)).1.surfs j ≡ one_window.surfs j)
wsurf_send-push_test =
    wsurf_send-push one_window server 0 (moved_to 5)
      (record { slot_in = omega arith; used = refl; alive = refl; served = refl })
      (record { evh_in = omega arith; evt_in = omega arith })

others :
    (j : ℕ)
    → j ≢ 0
    → ((one_window.surfs j).used && ((one_window.surfs j).owner == 7 && (one_window.surfs j).alive))
      ≡ false
others j ne = let no : (j == 0) ≡ false = ground arith in rw no refl

wsurf_event-queue_test :
    ((queue shown ≡ []) × (wsurf_event one_window client ≡ (none, one_window)))
    ⊎ ((ev : Wev) × ((wsurf_event one_window client).0 ≡ some ev)
        × (queue shown ≡ ev ∷ queue ((wsurf_event one_window client).1.surfs 0)))
wsurf_event-queue_test =
    wsurf_event-queue one_window client 0
      (record {
        slot_in = omega arith;
        used = refl;
        alive = refl;
        owned = refl;
        only = λ j ne. others j ne;
      })
      (record { evh_in = omega arith; evt_in = omega arith })

exit-no_pool_example :
    is_pool
      (wsurf_task_exit
        (after_calls (create client (pos 100) (pos 50) ∷ (map server (pos 0) ∷ [])) idle)
        9)
      (frame_at
        ((wsurf_task_exit
            (after_calls (create client (pos 100) (pos 50) ∷ (map server (pos 0) ∷ [])) idle)
            9).dirs
          9)
        0x74400000)
    ≡ false
unfolding get_page
exit-no_pool_example =
    exit-no_pool idle (create client (pos 100) (pos 50) ∷ (map server (pos 0) ∷ [])) 9 0x74400000
      (omega arith) (λ i. refl) (λ t b. refl)

wsurf_create-shared_example :
    frame_at
      ((wsurf_create
          (wsurf_create idle client (pos 800) (pos 600)).1
          server
          (pos 10)
          (pos 10)).1.dirs
        7)
      (user_wsurf_base + 468 * 4096)
    ≡ frame_at
        ((wsurf_create
            (wsurf_create idle client (pos 800) (pos 600)).1
            server
            (pos 10)
            (pos 10)).1.dirs
          9)
        user_wsurf_base
wsurf_create-shared_example =
    wsurf_create-shared idle client server 10 10 (λ e. absurd (omega arith))
      (λ e. absurd (omega arith)) (λ e. absurd (omega arith)) (omega arith) (omega arith)
      (omega arith) (omega arith) (λ i. refl) refl (omega arith)
