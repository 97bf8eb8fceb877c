-- ===== src/Files/Closing.antt =====
-- Files that are closed, one or all of a task.
use nos.Prelude.{
  ℕ, ◌+◌, ◌*◌, ◌^◌, ◌≤◌, ◌<◌, ◌≡◌, refl, sym, ap, ◌∙◌, subst, List, [], ◌∷◌, length, Bool, ◌==◌,
  get_or, set, arith, inl, inr, Bool-cases, Option, none, some, ◌>>=◌, length-set, Option-cases,
}
use nos.Files.{
  File, World, file_of, put_file, is_end, fd_type, fd_socket, file_release, file_close,
  cleared_file,
}
use nos.Files.Counts.{count, total-≤, Eights, set-Eights, get_or-eight}
use nos.Files.Hand.{Held, Small, release-Held, put-Held, plain-Held}

pub record IsAccounted (w : World) : Type 0 where
  pub eight : Eights w.tables
  pub held : Held w []

-- The number of tables that keeps the counts small.
abbrev pub Few : World → ℕ → Type 0
Few w n = 8 * (length w.tables + n) + 16 < 2 ^ 32

-- A call comes back with sound counts and no more than n new tables.
abbrev pub Good : World → ℕ → Option World → Type 0
Good w n o =
    (u : World) × (o ≡ some u)
    × IsAccounted u
    × ((length w.tables ≤ length u.tables) × (length u.tables ≤ length w.tables + n))

pub count-length : (p : ℕ) (b : Bool) (fs : List File) → count p b fs ≤ length fs
count-length p b [] = omega arith
count-length p b (f ∷ fs) = let rest = count-length p b fs in ground arith

pub Few-Small :
    (w : World) (hand : List File) → Eights w.tables → Few w 0 → length hand ≤ 4 → Small w hand
Few-Small w hand eight few short p b =
    omega (arith, total-≤ p b w.tables eight, count-length p b hand)

abbrev retabled : List (List File) → Option World → Option World
retabled ts none = none
retabled ts (some u) = some (record u { tables = ts })

release-tables :
    (w : World) (f : File) (ts : List (List File))
    → file_release (record w { tables = ts }) f ≡ retabled ts (file_release w f)
unfolding file_release
release-tables w f ts = elim (Bool-cases (is_end f)) [
  | inl e ↦ elim (Option-cases (w.pipes f.pipe)) [
    | inl g ↦ rw (e, g) refl
    | inr (q, g) ↦ rw (e, g) refl
  ]
  | inr e ↦ elim (Bool-cases (fd_type f.type == fd_socket)) [
    | inl k ↦ rw (e, k) refl
    | inr k ↦ rw (e, k) refl
  ]
]

release-same : (w u : World) (f : File) → file_release w f ≡ some u → u.tables ≡ w.tables
release-same w u f e =
    let r = sym e ∙ release-tables w f w.tables ∙ ap (retabled w.tables) e in tables_of r
  where
    tables_of : some u ≡ some (record u { tables = w.tables }) → u.tables ≡ w.tables
    tables_of e = ap (λ o. elim o [ none ↦ [] | some x ↦ x.tables ]) e

module _ (w : World) (v : IsAccounted w) (few : Few w 0) (t : ℕ) (there : t < length w.tables) where
  -- The slots of the task are eight.
  pub slots : length (get_or w.tables t []) ≡ 8
  slots = get_or-eight w.tables t there v.eight

  module _ (fd : ℕ) (small : fd < 8) where
    abbrev old : File
    old = file_of w t fd

    abbrev emptied : World
    emptied = put_file w t fd (cleared_file old)

    put-Eights : (f : File) → Eights (put_file w t fd f).tables
    put-Eights f =
        set-Eights w.tables t (set (get_or w.tables t []) fd f)
          (length-set (get_or w.tables t []) fd f ∙ slots) v.eight

    emptied-Held : Held emptied (old ∷ [])
    emptied-Held =
        put-Held w t fd (cleared_file old) [] there (omega (arith, slots))
          (plain-Held w (cleared_file old) [] refl v.held)

    pub file_close-Good : Good w 0 (file_close w t fd)
    unfolding file_close
    file_close-Good =
        let l : length emptied.tables ≡ length w.tables = length-set w.tables t _ in
        let (x, e, tabs, held) = release-Held emptied old [] emptied-Held (
          Few-Small emptied (old ∷ []) (put-Eights (cleared_file old)) (omega (arith, l, few))
            (omega arith)) in
        let r = sym e ∙ release-tables w old emptied.tables in
        elim (Option-cases (file_release w old)) [
          | inl g ↦ absurd (let c = r ∙ ap (retabled emptied.tables) g in ground arith)
          | inr (u, g) ↦
              let same = release-same w u old g in
              let x_is : record u { tables = emptied.tables } ≡ x = cc (r, g) in
              (
                x,
                rw g (
                    ap some (
                      ap
                        (λ ts. record u {
                          tables = set ts t (set (get_or ts t []) fd (cleared_file old));
                        })
                        same
                      ∙ x_is)),
                record {
                  eight = subst Eights (sym tabs) (put-Eights (cleared_file old));
                  held = held;
                },
                omega (arith, ap length tabs, l),
              )
        ]

-- What comes back with no new table goes on with the same bounds.
pub Good-bind :
    (w : World) (n : ℕ) (o : Option World) (f : World → Option World)
    → Good w 0 o
    → ((u : World) → IsAccounted u → length u.tables ≡ length w.tables → Good u n (f u))
    → Good w n (o >>= f)
Good-bind w n o f (u, e, v, l) next =
    let (x, g, y, k) = next u v (omega arith) in (x, ap (λ m. m >>= f) e ∙ g, y, omega arith)
