-- ===== src/UserMem/Tests.antt =====
-- One page that a program may write, and one behind it that it may read only.
use nos.Prelude.{ℕ, ◌≡◌, ◌↔◌, ◌==◌, none, some, true, false, if◌then◌else◌, arith}
use nos.UserMem.{Page, Directory, user_ok, user_str_ok}
use nos.UserMem.Checks.{Accessible, user_ok-Accessible}
use nos.UserMem.Strings.{Terminated, user_str_ok-Terminated}

abbrev page_at : ℕ → Page
page_at i = record {
  present = if i == 0 then true else i == 1;
  rw = i == 0;
  user = true;
  accessed = false;
  dirty = false;
  frame = i;
}

abbrev two_pages : Directory
two_pages = record { tables = λ t. if t == 256 then some page_at else none }

user_ok-Accessible_example :
    (user_ok two_pages 0x40000010 4000 true ≡ true) ↔ Accessible two_pages true 0x40000010 4000
user_ok-Accessible_example =
    user_ok-Accessible two_pages 0x40000010 4000 true (omega arith) (omega arith)

abbrev text : ℕ → ℕ
text a = if a == 0x40001004 then 0 else 65

user_str_ok-Terminated_example :
    (user_str_ok two_pages text 0x40000FF0 256 ≡ true) ↔ Terminated two_pages text 0x40000FF0 256
user_str_ok-Terminated_example = user_str_ok-Terminated two_pages text 0x40000FF0 256 (omega arith)
