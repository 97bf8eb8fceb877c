-- ===== src/Wsurf.antt =====
-- kernel/wsurf.c: window surfaces. The directories are kept by the id of the task whose they are;
-- tasks that share one are kernel threads, which get no surface and no mapping.
pub mod Range
pub mod Events
pub mod Mapping
pub mod Sound
pub mod Keeps
pub mod Calls
pub mod Unmapped
pub mod Overlap
mod Tests
use nos.Prelude.{
  ℕ, zero, suc, ◌+◌, ◌-◌, ◌*◌, ◌/◌, ◌%◌, ltb, leb, List, [], ◌∷◌, Option, none, some, Bool, true,
  false, not, ◌&&◌, ◌||◌, if◌then◌else◌, ◌==◌, ℤ, pos, negsuc, minus_one, add32, update, take,
}
use nos.Strings.{memset}
use nos.UserMem.{Directory}
use nos.Wsurf.Range.{map_range, unmap_range}

-- `WSURF_MAX_W`, `WSURF_MAX_H`, `WSURF_BYTES` and `WEVQ`
abbrev pub max_w : ℕ
max_w = 800

abbrev pub max_h : ℕ
max_h = 600

abbrev pub wsurf_bytes : ℕ
wsurf_bytes = max_w * max_h * 4

abbrev pub wevq : ℕ
wevq = 32

-- `USER_WSURF_BASE`, `USER_WSRV_BASE` and `WSURF_SLOT_SPAN`
abbrev pub user_wsurf_base : ℕ
user_wsurf_base = 0x74000000

abbrev pub user_wsrv_base : ℕ
user_wsrv_base = 0x74400000

abbrev pub slot_span : ℕ
slot_span = 0x200000

-- `struct wev`; the numbers are bit patterns.
pub record Wev : Type 0 where
  pub type : ℕ
  pub a : ℕ
  pub b : ℕ
  pub c : ℕ

-- `WEV_MOUSE`
abbrev pub is_mouse : Wev → Bool
is_mouse ev = ev.type == 2

-- `struct wsurf`; no server is -1.
pub record Surf : Type 0 where
  pub used : Bool
  pub alive : Bool
  pub owner : ℕ
  pub server : Option ℕ
  pub w : ℕ
  pub h : ℕ
  pub name : List ℕ
  pub evq : ℕ → Wev
  pub evh : ℕ
  pub evt : ℕ

-- `surfs`, memory with `pool` at `pool_base`, and the page directories.
pub record Sys : Type 0 where
  pub surfs : ℕ → Surf
  pub pool_base : ℕ
  pub mem : ℕ → ℕ
  pub dirs : ℕ → Directory

-- What the calls read of `task_current()`.
pub record Caller : Type 0 where
  pub id : ℕ
  pub brk : ℕ
  pub name : List ℕ

abbrev pub pool_at : Sys → ℕ → ℕ
pool_at s slot = s.pool_base + slot * wsurf_bytes

-- `(w * h * 4 + 0xFFF) & ~0xFFF`
abbrev pub surf_map_bytes : Surf → ℕ
surf_map_bytes s = (s.w * s.h * 4 + 4095) / 4096 * 4096

-- An `int` that is 1 at least, or 0.
abbrev pub size_of : ℤ → ℕ
size_of (pos n) = n
size_of (negsuc n) = 0

abbrev pub no_server : Option ℕ → Bool
no_server none = true
no_server (some t) = false

abbrev pub is_server : Option ℕ → ℕ → Bool
is_server none id = false
is_server (some t) id = t == id

-- The loop of `wsurf_create` over the n slots from i on: `none` is the return for a second surface,
-- else the first free slot.
unfoldable pub create_scan : ℕ → ℕ → (ℕ → Surf) → ℕ → Option ℕ → Option (Option ℕ)
create_scan zero i surfs id slot = some slot
create_scan (suc n) i surfs id slot =
    let free = if no_server slot && not (surfs i).used then some i else slot in
    let rest = create_scan n (i + 1) surfs id free in
    if (surfs i).used && ((surfs i).owner == id && (surfs i).alive) then none else rest

abbrev pub put_surf : Sys → ℕ → Surf → Sys
put_surf s slot u = record s { surfs = update s.surfs slot u }

abbrev pub put_dir : Sys → ℕ → Directory → Sys
put_dir s id dir = record s { dirs = update s.dirs id dir }

unfoldable pub wsurf_create : Sys → Caller → ℤ → ℤ → ℤ × Sys
wsurf_create s t w0 h0 =
    let w = size_of w0 in
    let h = size_of h0 in
    if t.brk == 0 || (ltb w 1 || (ltb h 1 || (ltb max_w w || ltb max_h h)))
    then (minus_one, s)
    else elim (create_scan 3 0 s.surfs t.id none) [
      | none ↦ (minus_one, s)
      | some none ↦ (minus_one, s)
      | some (some slot) ↦
          (let u : Surf = record (s.surfs slot) {
            used = true;
            alive = true;
            owner = t.id;
            server = none;
            w = w;
            h = h;
            evh = 0;
            evt = 0;
            name = take 15 t.name;
          } in
            let cleared = record (put_surf s slot u) {
              mem = memset s.mem (pool_at s slot) 0 (w * h * 4);
            } in
            (
              pos user_wsurf_base,
              put_dir cleared t.id
                  (map_range (s.dirs t.id) user_wsurf_base (pool_at s slot) (surf_map_bytes u)),
            ))
    ]

-- The loop of `wsurf_event`: the event taken, if there is one.
unfoldable pub event_loop : ℕ → ℕ → Sys → ℕ → Option Wev × Sys
event_loop zero i s id = (none, s)
event_loop (suc n) i s id =
    let rest = event_loop n (i + 1) s id in
    let u = s.surfs i in
    if not u.used || (not (u.owner == id) || not u.alive)
    then rest
    else if u.evt == u.evh
    then (none, s)
    else (some (u.evq u.evt), put_surf s i (record u { evt = (u.evt + 1) % wevq }))

-- `none` is the result -1.
unfoldable pub wsurf_event : Sys → Caller → Option Wev × Sys
wsurf_event s t = event_loop 3 0 s t.id

-- `slot < 0 || slot >= WSURF_SLOTS || !surfs[slot].used`
abbrev pub slot_of : Sys → ℤ → Option ℕ
slot_of s (negsuc n) = none
slot_of s (pos slot) = if leb 3 slot || not (s.surfs slot).used then none else some slot

-- Whether it is alive, width, height, owner and name.
unfoldable pub wsurf_stat : Sys → ℤ → Option (Bool × ℕ × ℕ × ℕ × List ℕ)
wsurf_stat s slot = elim (slot_of s slot) [
  | none ↦ none
  | some i ↦
      some ((s.surfs i).alive, (s.surfs i).w, (s.surfs i).h, (s.surfs i).owner, (s.surfs i).name)
]

unfoldable pub wsurf_map : Sys → Caller → ℤ → ℤ × Sys
wsurf_map s t slot = elim (slot_of s slot) [
  | none ↦ (minus_one, s)
  | some i ↦
      (let u = s.surfs i in
        if t.brk == 0 || (not (no_server u.server) && not (is_server u.server t.id))
        then (minus_one, s)
        else (
          pos (user_wsrv_base + i * slot_span),
          put_dir (put_surf s i (record u { server = some t.id })) t.id (
              map_range (s.dirs t.id) (user_wsrv_base + i * slot_span) (pool_at s i)
                (surf_map_bytes u)),
        ))
]

-- The queue part of `wsurf_send`.
unfoldable pub enqueue : Surf → Wev → Surf
enqueue u ev =
    let pending = (u.evh + wevq - u.evt) % wevq in
    let newest = (u.evh + wevq - 1) % wevq in
    if is_mouse ev && (ltb 0 pending && is_mouse (u.evq newest))
    then record u { evq = update u.evq newest ev }
    else if ltb pending (wevq - 1)
    then record u { evq = update u.evq u.evh ev; evh = (u.evh + 1) % wevq }
    else u

unfoldable pub wsurf_send : Sys → Caller → ℤ → Wev → ℤ × Sys
wsurf_send s t slot ev = elim (slot_of s slot) [
  | none ↦ (minus_one, s)
  | some i ↦
      (if not (is_server (s.surfs i).server t.id) || not (s.surfs i).alive
        then (minus_one, s)
        else (pos 0, put_surf s i (enqueue (s.surfs i) ev)))
]

-- The server lets go of a slot; it is free once the owner is gone, too.
abbrev pub drop_server : Surf → Surf
drop_server u = record u { server = none; used = if not u.alive then false else u.used }

abbrev pub drop_owner : Surf → Surf
drop_owner u = record u { alive = false; used = if no_server u.server then false else u.used }

unfoldable pub wsurf_unmap : Sys → Caller → ℤ → ℤ × Sys
wsurf_unmap s t slot = elim (slot_of s slot) [
  | none ↦ (minus_one, s)
  | some i ↦
      (let u = s.surfs i in
        if not (is_server u.server t.id) then (minus_one, s) else (
          pos 0,
          put_dir (put_surf s i (drop_server u)) t.id
              (unmap_range (s.dirs t.id) (user_wsrv_base + i * slot_span) (surf_map_bytes u)),
        ))
]

-- The two parts of a round of `wsurf_task_exit`; `dir` is the directory of the dying task.
unfoldable pub exit_owner : Sys → ℕ → ℕ → Sys
exit_owner s id i =
    let u = s.surfs i in
    if u.owner == id && u.alive
    then put_dir (put_surf s i (drop_owner u)) id
        (unmap_range (s.dirs id) user_wsurf_base (surf_map_bytes u))
    else s

unfoldable pub exit_server : Sys → ℕ → ℕ → Sys
exit_server s id i =
    let u = s.surfs i in
    if is_server u.server id
    then put_dir (put_surf s i (drop_server u)) id
        (unmap_range (s.dirs id) (user_wsrv_base + i * slot_span) (surf_map_bytes u))
    else s

unfoldable pub exit_loop : ℕ → ℕ → Sys → ℕ → Sys
exit_loop zero i s id = s
exit_loop (suc n) i s id =
    exit_loop n (i + 1) (if not (s.surfs i).used then s else exit_server (exit_owner s id i) id i)
      id

unfoldable pub wsurf_task_exit : Sys → ℕ → Sys
wsurf_task_exit s id = exit_loop 3 0 s id
