-- ===== src/Files/Counts.antt =====
-- How many descriptors refer to an end of a pipe.
use nos.Prelude.{
  ℕ, zero, suc, ◌+◌, ◌*◌, ◌≤◌, ◌<◌, ◌≡◌, List, [], ◌∷◌, ◌++◌, length, All, Bool, ◌&&◌,
  if◌then◌else◌, ◌==◌, get_or, set, arith,
}
use nos.Files.{File, World, no_file, fd_type, file_of, put_file, fd_pipe_r, fd_pipe_w}

-- 1 for the end of the pipe at p, of the writers or of the readers.
abbrev pub ends : ℕ → Bool → File → ℕ
ends p writable f =
    if fd_type f.type == (if writable then fd_pipe_w else fd_pipe_r) && f.pipe == p then 1 else 0

abbrev pub count : ℕ → Bool → List File → ℕ
count p writable [] = 0
count p writable (f ∷ fs) = ends p writable f + count p writable fs

abbrev pub total : ℕ → Bool → List (List File) → ℕ
total p writable [] = 0
total p writable (table ∷ tables) = count p writable table + total p writable tables

-- Each table has eight files.
abbrev pub Eights : List (List File) → Type 0
Eights ts = All (λ table. length table ≡ 8) ts

module _ (p : ℕ) (b : Bool) where
  pub count-append : (xs ys : List File) → count p b (xs ++ ys) ≡ count p b xs + count p b ys
  count-append [] ys = omega arith
  count-append (x ∷ xs) ys = omega (arith, count-append xs ys)

  pub total-append : (xs ys : List (List File)) → total p b (xs ++ ys) ≡ total p b xs + total p b ys
  total-append [] ys = omega arith
  total-append (x ∷ xs) ys = omega (arith, total-append xs ys)

  ends-≤ : (f : File) → ends p b f ≤ 1
  ends-≤ f = ground arith

  count-≤ : (fs : List File) → count p b fs ≤ length fs
  count-≤ [] = omega arith
  count-≤ (f ∷ fs) = omega (arith, ends-≤ f, count-≤ fs)

  pub total-≤ : (ts : List (List File)) → Eights ts → total p b ts ≤ 8 * length ts
  total-≤ [] h = omega arith
  total-≤ (t ∷ ts) (e, h) = omega (arith, e, count-≤ t, total-≤ ts h)

  -- A write moves one file out of the table and one in.
  count-set :
      (fs : List File) (i : ℕ) (f : File)
      → i < length fs
      → count p b (set fs i f) + ends p b (get_or fs i no_file) ≡ count p b fs + ends p b f
  count-set [] i f lt = absurd (omega arith)
  count-set (g ∷ fs) zero f lt = omega arith
  count-set (g ∷ fs) (suc i) f lt = omega (arith, count-set fs i f (omega arith))

  total-set :
      (ts : List (List File)) (t : ℕ) (table : List File)
      → t < length ts
      → total p b (set ts t table) + count p b (get_or ts t []) ≡ total p b ts + count p b table
  total-set [] t table lt = absurd (omega arith)
  total-set (x ∷ ts) zero table lt = omega arith
  total-set (x ∷ ts) (suc t) table lt = omega (arith, total-set ts t table (omega arith))

  count-get : (fs : List File) (i : ℕ) → ends p b (get_or fs i no_file) ≤ count p b fs
  count-get [] i = ground arith
  count-get (g ∷ fs) zero = omega arith
  count-get (g ∷ fs) (suc i) = omega (arith, count-get fs i)

  total-get : (ts : List (List File)) (t : ℕ) → count p b (get_or ts t []) ≤ total p b ts
  total-get [] t = omega arith
  total-get (x ∷ ts) zero = omega arith
  total-get (x ∷ ts) (suc t) = omega (arith, total-get ts t)

  pub total-file : (w : World) (t fd : ℕ) → ends p b (file_of w t fd) ≤ total p b w.tables
  total-file w t fd = omega (arith, count-get (get_or w.tables t []) fd, total-get w.tables t)

  pub total-put :
      (w : World) (t fd : ℕ) (f : File)
      → t < length w.tables
      → fd < length (get_or w.tables t [])
      → total p b (put_file w t fd f).tables + ends p b (file_of w t fd)
        ≡ total p b w.tables + ends p b f
  total-put w t fd f lt small = omega (
    arith,
    count-set (get_or w.tables t []) fd f small,
    total-set w.tables t (set (get_or w.tables t []) fd f) lt,
    total-get w.tables t,
  )

pub set-Eights :
    (ts : List (List File)) (t : ℕ) (table : List File)
    → length table ≡ 8
    → Eights ts
    → Eights (set ts t table)
set-Eights [] t table h all = tt
set-Eights (x ∷ ts) zero table h (a, all) = (h, all)
set-Eights (x ∷ ts) (suc t) table h (a, all) = (a, set-Eights ts t table h all)

pub append-Eights : (xs ys : List (List File)) → Eights xs → Eights ys → Eights (xs ++ ys)
append-Eights [] ys a b = b
append-Eights (x ∷ xs) ys (h, a) b = (h, append-Eights xs ys a b)

pub get_or-eight :
    (ts : List (List File)) (t : ℕ) → t < length ts → Eights ts → length (get_or ts t []) ≡ 8
get_or-eight [] t lt all = absurd (omega arith)
get_or-eight (x ∷ ts) zero lt (h, all) = h
get_or-eight (x ∷ ts) (suc t) lt (h, all) = get_or-eight ts t (omega arith) all
