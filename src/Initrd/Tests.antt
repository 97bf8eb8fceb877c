-- ===== src/Initrd/Tests.antt =====
-- The archive at concrete bytes.
use nos.Prelude.{
  ℕ, ◌+◌, ◌-◌, ◌/◌, ◌%◌, ◌^◌, ◌≡◌, ◌<◌, refl, [], ◌∷◌, some, true, false, if◌then◌else◌, ◌==◌, ltb,
  leb, ◌&&◌, inr, arith, passes_below, passes_below_lem, min,
}
use nos.Elf.{text_at}
use nos.Initrd.{
  Header, Initrd, root, file, getsize, getsize_loop, parse, initrd_init, initrd_read,
  initrd_readdir, initrd_finddir,
}
use nos.Initrd.Archive.{initrd_read-bytes, getsize-octal}
use nos.Initrd.Names.{readdir-finddir}
use nos.Initrd.Listing.{parse-Archive}

-- One file "a" of 10 bytes at 4096.
abbrev tape : ℕ → ℕ
tape x =
    if x == 4096
    then 97
    else if leb 4220 x && ltb x 4229
    then 48
    else if x == 4229
    then 49
    else if x == 4230
    then 50
    else if leb 4608 x && ltb x 4618
    then 7
    else 0

abbrev tape_header : Header
tape_header = record { size = 10; tar_header = 4096 }

abbrev mounted : Initrd
mounted = record { headers = tape_header ∷ []; names = (97 ∷ []) ∷ []; disk = true }

tape_table : passes_below (λ k. tape (4220 + k) == 48 + 10 / 8 ^ (10 - k) % 8) 11 ≡ true
unfolding passes_below
tape_table = refl

tape_digits : (i : ℕ) → i < 11 → tape (4220 + i) ≡ 48 + 10 / 8 ^ (10 - i) % 8
tape_digits i lt =
    let h = passes_below_lem (λ k. tape (4220 + k) == 48 + 10 / 8 ^ (10 - k) % 8) tape_table lt in
    ground arith

getsize-octal_test : getsize tape 4220 ≡ 10
getsize-octal_test = getsize-octal tape 4220 10 (omega arith) tape_digits

parse-Archive_example : parse 2 tape 4096 ≡ some (tape_header ∷ [])
parse-Archive_example =
    parse-Archive (tape_header ∷ []) 2 tape 4096 (omega arith)
      ((λ e. absurd (omega arith)), refl, getsize-octal_test, omega arith, refl)

initrd_read-bytes_example :
    (after : ℕ → ℕ) × (initrd_read mounted 0 4 100 tape 9000 ≡ some (min 100 (10 - 4), after))
    × ((a : ℕ)
        → after a ≡ (
            if leb 9000 a && ltb a (9000 + min 100 (10 - 4))
            then tape (4096 + 512 + 4 + (a - 9000))
            else tape a))
initrd_read-bytes_example =
    initrd_read-bytes mounted 0 4 100 9000 tape tape_header refl (omega arith) (omega arith)
      (inr (omega arith))

listed_test : initrd_readdir mounted root 2 ≡ some (97 ∷ [], 0)
unfolding initrd_readdir
listed_test = refl

init_test : initrd_init 2 tape 4096 ≡ some (record mounted { disk = false })
unfolding initrd_init parse getsize getsize_loop text_at
init_test = refl

readdir-finddir_test : initrd_finddir mounted root (97 ∷ []) ≡ some (file 0)
readdir-finddir_test =
    readdir-finddir mounted 2 0 (97 ∷ []) listed_test (λ e. absurd (ground arith))
      (λ e. absurd (ground arith)) (λ j lt. absurd (omega arith))
