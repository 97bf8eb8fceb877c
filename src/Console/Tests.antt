-- ===== src/Console/Tests.antt =====
-- Runs of the console channels, and the theorems about them at concrete inputs.
use nos.Prelude.{◌≡◌, refl, [], ◌∷◌, arith, pos, minus_one, signed32, length, true, false}
use nos.Console.{
  Table, console_alloc, alloc_from, console_valid, console_out_write, console_out_read,
}
use nos.Console.Channels.{
  TableIsValid, Call, after, after-Stays, Stays, output, write_then_read, Allocated,
  alloc-first_free,
}

abbrev idle : Table
idle i = record {
  used = false;
  pid = minus_one;
  out = record { buf = λ j. 0; head = 0; tail = 0 };
  inp = record { buf = λ j. 0; head = 0; tail = 0 };
}

idle-TableIsValid : TableIsValid idle
idle-TableIsValid i lt = record { out_ok = omega arith; in_ok = omega arith }

-- All slots in use, with empty rings.
abbrev busy : Table
busy i = record (idle i) { used = true }

busy-TableIsValid : TableIsValid busy
busy-TableIsValid i lt = record { out_ok = omega arith; in_ok = omega arith }

first_is_zero : (console_alloc idle).0 ≡ pos 0
unfolding console_alloc alloc_from
first_is_zero = refl

after-Stays_example : Stays busy (after busy (Call.out_write (pos 3) (1 ∷ 2 ∷ [])))
after-Stays_example = after-Stays busy (Call.out_write (pos 3) (1 ∷ 2 ∷ [])) busy-TableIsValid

-- A number behind the array is refused.
behind_refused : (console_out_write busy (pos 9) (1 ∷ [])).0 ≡ minus_one
unfolding console_out_write console_valid
behind_refused = refl

write_then_read_test :
    let (n, u) = console_out_write busy (pos 3) (1 ∷ 2 ∷ []) in
    let (m, got, w) = console_out_read u (pos 3) 1 in
    (n ≡ pos 2) × (got ≡ 1 ∷ []) × (m ≡ signed32 (length got)) × (output w 3 ≡ 2 ∷ [])
unfolding console_valid
write_then_read_test = write_then_read busy 3 (1 ∷ 2 ∷ []) 1 busy-TableIsValid refl

alloc-first_free_test : Allocated idle 0 8 (console_alloc idle)
alloc-first_free_test = alloc-first_free idle
