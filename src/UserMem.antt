-- ===== src/UserMem.antt =====
-- kernel/paging.c, what system calls use it for: the lookup of a page and the checks of pointers
-- that programs pass in. `tables` holds the page tables of the current directory, by index.
pub mod Checks
pub mod Strings
mod Tests
use nos.Prelude.{
  ℕ, zero, suc, ◌+◌, ◌-◌, ◌*◌, ◌/◌, ◌%◌, ltb, leb, min, Option, none, some, Bool, true, false, not,
  ◌&&◌, ◌||◌, if◌then◌else◌, ◌==◌, add32, sub32, update,
}

-- `struct page`
pub record Page : Type 0 where
  pub present : Bool
  pub rw : Bool
  pub user : Bool
  pub accessed : Bool
  pub dirty : Bool
  pub frame : ℕ

-- `struct page_directory`, without the physical addresses
pub record Directory : Type 0 where
  pub tables : ℕ → Option (ℕ → Page)

-- `USER_VADDR_MIN` and `USER_VADDR_MAX`
abbrev pub user_vaddr_min : ℕ
user_vaddr_min = 0x40000000

abbrev pub user_vaddr_max : ℕ
user_vaddr_max = 0x80000000

-- The entry of a table that may be missing.
abbrev pub in_table : Option (ℕ → Page) → ℕ → Option Page
in_table none k = none
in_table (some table) k = some (table k)

-- `get_page` with `make` 0
unfoldable pub get_page : ℕ → Directory → Option Page
get_page addr dir = in_table (dir.tables (addr / 4096 / 1024)) (addr / 4096 % 1024)

abbrev pub zero_page : Page
zero_page = record {
  present = false;
  rw = false;
  user = false;
  accessed = false;
  dirty = false;
  frame = 0;
}

abbrev pub table_of : Option (ℕ → Page) → ℕ → Page
table_of none = λ i. zero_page
table_of (some table) = table

abbrev pub change_entry : (ℕ → Page) → ℕ → (Page → Page) → ℕ → Page
change_entry table k change = update table k (change (table k))

abbrev pub put_table : Directory → ℕ → (ℕ → Page) → Directory
put_table dir i table = record dir { tables = update dir.tables i (some table) }

-- `get_page` with `make` 1, and a change of the entry: a table that is missing is made of zeros.
unfoldable pub with_page : ℕ → (Page → Page) → Directory → Directory
with_page addr change dir =
    let i = addr / 4096 / 1024 in
    put_table dir i (change_entry (table_of (dir.tables i)) (addr / 4096 % 1024) change)

abbrev pub change_old : Directory → ℕ → ℕ → (Page → Page) → Option (ℕ → Page) → Directory
change_old dir i k change none = dir
change_old dir i k change (some table) = put_table dir i (change_entry table k change)

-- `get_page` with `make` 0, and a change of the entry if there is one.
unfoldable pub with_old_page : ℕ → (Page → Page) → Directory → Directory
with_old_page addr change dir =
    let i = addr / 4096 / 1024 in change_old dir i (addr / 4096 % 1024) change (dir.tables i)

-- The test of one page in the loop of `user_ok`.
unfoldable pub allows : Option Page → Bool → Bool
allows none write = false
allows (some pg) write = not (not pg.present || (not pg.user || (write && not pg.rw)))

-- The loop of `user_ok`; `false` also where the rounds run out.
unfoldable pub pages_ok : ℕ → Directory → ℕ → ℕ → Bool → Bool
pages_ok zero dir a stop write = false
pages_ok (suc f) dir a stop write =
    let rest = pages_ok f dir (add32 a 4096) stop write in
    if ltb a stop then (if allows (get_page a dir) write then rest else false) else true

-- Two rounds more than there are whole pages are enough (`Checks`).
unfoldable pub user_ok : Directory → ℕ → ℕ → Bool → Bool
user_ok dir start len write =
    if ltb start user_vaddr_min
      || (leb user_vaddr_max start || ltb (sub32 user_vaddr_max start) len)
    then false
    else pages_ok (len / 4096 + 3) dir (start / 4096 * 4096) (add32 start len) write

-- The inner loop of `user_str_ok`: one of the n bytes from `a` on is 0.
unfoldable pub scan : ℕ → (ℕ → ℕ) → ℕ → Bool
scan zero mem a = false
scan (suc n) mem a = if mem a == 0 then true else scan n mem (a + 1)

-- The outer loop; `false` also where the rounds run out.
unfoldable pub str_loop : ℕ → Directory → (ℕ → ℕ) → ℕ → ℕ → Bool
str_loop zero dir mem a max = false
str_loop (suc f) dir mem a max =
    let chunk = min (4096 - a % 4096) max in
    let rest = str_loop f dir mem (add32 a chunk) (max - chunk) in
    if max == 0
    then false
    else if not (user_ok dir a chunk false)
    then false
    else if scan chunk mem a
    then true
    else rest

-- Each round takes a byte at least.
unfoldable pub user_str_ok : Directory → (ℕ → ℕ) → ℕ → ℕ → Bool
user_str_ok dir mem s max = str_loop max dir mem s max
