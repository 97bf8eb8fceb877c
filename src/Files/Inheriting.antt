-- ===== src/Files/Inheriting.antt =====
-- Files that a new task inherits.
use nos.Prelude.{
  ℕ, ◌+◌, ◌≤◌, ◌<◌, ◌≡◌, refl, sym, ap, ◌∙◌, subst, ltb, List, [], ◌∷◌, ◌++◌, length, Bool, true,
  false, ◌==◌, arith, inl, inr, Bool-cases, Option, none, some, ℤ, pos, negsuc, length-append,
  Option-cases, All, add32,
}
use nos.Console.{Table, console_alloc}
use nos.Files.{
  task_max_files, fd_none, File, World, file_of, is_end, five_free, addref_all, spawn_files,
  exec_files, sys_exec, sys_exec2, sys_execc, mapped_file, mapped_all, channel_file, is_minus,
}
use nos.Files.Counts.{count, total, total-file, total-append, count-append, append-Eights, Eights}
use nos.Files.Hand.{own_ends, Held, Fits, all_ends, addref-Held, moved-Fits}
use nos.Files.Closing.{IsAccounted, Good, Few, Few-Small}

-- The pipe of an end is one that some descriptor already refers to.
abbrev pub Backed : World → File → Type 0
Backed w f = is_end f ≡ true → 0 < total f.pipe false w.tables + total f.pipe true w.tables

pub file_of-Backed : (w : World) (t fd : ℕ) → Backed w (file_of w t fd)
file_of-Backed w t fd e =
    let f = file_of w t fd in
    let a = total-file f.pipe false w t fd in
    let b = total-file f.pipe true w t fd in
    elim (own_ends f e) [ inl (x, y, z) ↦ omega arith | inr (x, y, z) ↦ omega arith ]

tables-Backed : (w u : World) (f : File) → u.tables ≡ w.tables → Backed w f → Backed u f
tables-Backed w u f e b h =
    let k = b h in subst (λ ts. 0 < total f.pipe false ts + total f.pipe true ts) (sym e) k

addref_all-Held :
    (fs : List File) (w : World) (hand : List File)
    → Eights w.tables
    → Few w 0
    → length fs + length hand ≤ 3
    → All (Backed w) fs
    → Held w hand
    → (u : World) × (addref_all fs w ≡ some u)
      × (u.tables ≡ w.tables)
      × ((p : ℕ)
          → Fits
              (u.pipes p)
              (all_ends w hand p false + count p false fs)
              (all_ends w hand p true + count p true fs))
unfolding addref_all
addref_all-Held [] w hand eight few short backed h =
    (w, refl, refl, λ p. moved-Fits (w.pipes p) _ _ _ _ (omega arith) (omega arith) (h p))
addref_all-Held (f ∷ fs) w hand eight few short (b, backed) h =
    let small = Few-Small w hand eight few (omega arith) in
    let (x, e, tabs, held) = addref-Held w f hand h small (λ k. let c = b k in omega arith) in
    let few2 : Few x 0 = omega (arith, few, ap length tabs) in
    let (u, g, tabs2, fits) =
      addref_all-Held fs x (f ∷ hand) (subst Eights (sym tabs) eight) few2 (omega arith)
        (backed_in x tabs fs backed) held in
    (
      u,
      rw e g,
      tabs2 ∙ tabs,
      λ p.
          moved-Fits (u.pipes p) _ _ _ _ (omega (arith, ap (total p false) tabs))
            (omega (arith, ap (total p true) tabs)) (fits p),
    )
  where
    backed_in :
        (x : World) → x.tables ≡ w.tables → (gs : List File) → All (Backed w) gs → All (Backed x) gs
    backed_in x tabs [] all = tt
    backed_in x tabs (g ∷ gs) (c, all) = (tables-Backed w x g tabs c, backed_in x tabs gs all)

count-five_free : (p : ℕ) (b : Bool) → count p b five_free ≡ 0
count-five_free p true = refl
count-five_free p false = refl

-- A new table whose files have been counted.
module _ (w u : World) (v : IsAccounted w) (tabs : u.tables ≡ w.tables) (stdio : List File)
    (three : length stdio ≡ 3)
    (fits : (p : ℕ)
      → Fits
          (u.pipes p)
          (all_ends w [] p false + count p false stdio)
          (all_ends w [] p true + count p true stdio)) where
  abbrev spawned : World
  spawned = record u {
    tables = u.tables ++ ((stdio ++ five_free) ∷ []);
    next_pid = add32 u.next_pid 1;
  }

  spawned-total :
      (p : ℕ) (b : Bool) → total p b spawned.tables ≡ total p b w.tables + count p b stdio
  spawned-total p b = omega (
    arith,
    total-append p b u.tables ((stdio ++ five_free) ∷ []),
    count-append p b stdio five_free,
    count-five_free p b,
    ap (total p b) tabs,
  )

  spawned-Good : Good w 1 (some spawned)
  spawned-Good = (
    spawned,
    refl,
    record {
      eight =
          append-Eights u.tables ((stdio ++ five_free) ∷ []) (subst Eights (sym tabs) v.eight)
            (length-append stdio five_free ∙ omega (arith, three), tt);
      held = λ p.
          moved-Fits (u.pipes p) _ _ _ _ (omega (arith, spawned-total p false))
            (omega (arith, spawned-total p true)) (fits p);
    },
    omega (arith, length-append u.tables ((stdio ++ five_free) ∷ []), ap length tabs),
  )

abbrev pub after : Option (ℤ × World) → Option World
after none = none
after (some r) = some r.1

module _ (w : World) (v : IsAccounted w) (few : Few w 0) where
  exec_files-Good :
      (loads : Bool) (stdio : List File)
      → length stdio ≡ 3
      → All (Backed w) stdio
      → Good w 1 (after (exec_files w loads stdio))
  unfolding exec_files spawn_files
  exec_files-Good false stdio three backed = (w, refl, v, omega arith)
  exec_files-Good true stdio three backed =
      let (u, e, tabs, fits) =
        addref_all-Held stdio w [] v.eight few (omega (arith, three)) backed v.held in
      rw e (spawned-Good w u v tabs stdio three fits)

  pub sys_exec-Good : (t : ℕ) (loads : Bool) → Good w 1 (after (sys_exec w t loads))
  unfolding sys_exec
  sys_exec-Good t loads =
      exec_files-Good loads _ refl
        (file_of-Backed w t 0, (file_of-Backed w t 1, (file_of-Backed w t 2, tt)))

  mapped-slot :
      (t i : ℕ) (fd : ℤ) (f : File) → mapped_file w t i fd ≡ some f → (k : ℕ) × (file_of w t k ≡ f)
  mapped-slot t i (negsuc n) f e = (i, cc e)
  mapped-slot t i (pos fd) f e = elim (Bool-cases (ltb fd task_max_files)) [
    | inl h ↦ elim (Bool-cases ((file_of w t fd).type == fd_none)) [
      | inl g ↦ absurd (
          let gone : mapped_file w t i (pos fd) ≡ none = rw (mapped_file, h, g) refl in
          let c = sym gone ∙ e in ground arith)
      | inr g ↦ (
        fd,
        let c : some (file_of w t fd) ≡ some f = sym (rw (mapped_file, h, g) refl) ∙ e in cc c,
      )
    ]
    | inr h ↦ absurd (
        let gone : mapped_file w t i (pos fd) ≡ none = rw (mapped_file, h) refl in
        let c = sym gone ∙ e in ground arith)
  ]

  mapped-Backed : (t i : ℕ) (fd : ℤ) (f : File) → mapped_file w t i fd ≡ some f → Backed w f
  mapped-Backed t i fd f e =
      let (k, same) = mapped-slot t i fd f e in subst (Backed w) same (file_of-Backed w t k)

  pub sys_exec2-Good :
      (t : ℕ) (ok : Bool) (a b c : ℤ) (loads : Bool)
      → Good w 1 (after (sys_exec2 w t ok a b c loads))
  unfolding sys_exec2
  sys_exec2-Good t false a b c loads = (w, refl, v, omega arith)
  sys_exec2-Good t true a b c loads = elim (Option-cases (mapped_file w t 0 a)) [
    | inl e ↦ rw (mapped_all, e) (w, refl, v, omega arith)
    | inr (f, e) ↦ elim (Option-cases (mapped_file w t 1 b)) [
      | inl g ↦ rw (mapped_all, e, g) (w, refl, v, omega arith)
      | inr (f2, g) ↦ elim (Option-cases (mapped_file w t 2 c)) [
        | inl h ↦ rw (mapped_all, e, g, h) (w, refl, v, omega arith)
        | inr (f3, h) ↦
            rw (mapped_all, e, g, h)
              (exec_files-Good loads (f ∷ (f2 ∷ (f3 ∷ []))) refl (
                mapped-Backed t 0 a f e,
                (mapped-Backed t 1 b f2 g, (mapped-Backed t 2 c f3 h, tt)),
              ))
      ]
    ]
  ]

-- Consoles play no part in the counts.
consoled :
    (w : World) (consoles : Table) → IsAccounted w → IsAccounted (record w { consoles = consoles })
consoled w consoles v = record { eight = v.eight; held = v.held }

module _ (w : World) (v : IsAccounted w) (few : Few w 0) (garbage : File) where
  abbrev allotted : World
  allotted = record w { consoles = (console_alloc w.consoles).1 }

  abbrev channels : List File
  channels = let f = channel_file garbage (console_alloc w.consoles).0 in f ∷ (f ∷ (f ∷ []))

  pub sys_execc-Good : (ok loads : Bool) → Good w 1 (after (sys_execc w ok loads garbage))
  unfolding sys_execc
  sys_execc-Good false loads = (w, refl, v, omega arith)
  sys_execc-Good true loads = elim (Bool-cases (is_minus (console_alloc w.consoles).0)) [
    | inl e ↦ rw e (allotted, refl, consoled w (console_alloc w.consoles).1 v, omega arith)
    | inr e ↦
        let plain : Backed allotted (channel_file garbage (console_alloc w.consoles).0) =
          λ h. absurd (ground arith) in
        let (u, got, y, l) =
          exec_files-Good allotted (consoled w (console_alloc w.consoles).1 v) few loads channels
            refl (plain, (plain, (plain, tt))) in
        elim (Option-cases (exec_files allotted loads channels)) [
          | inl g ↦ absurd (let c = ap after (sym g) ∙ got in ground arith)
          | inr (r, g) ↦
              let same : r.1 ≡ u = let c = ap after (sym g) ∙ got in cc c in
              let z : IsAccounted r.1 = subst IsAccounted (sym same) y in
              elim (Bool-cases (is_minus r.0)) [
                | inl k ↦
                    rw (e, g, k)
                      (_, refl, consoled r.1 _ z, omega (arith, ap (λ x. length x.tables) same))
                | inr k ↦
                    rw (e, g, k)
                      (_, refl, consoled r.1 _ z, omega (arith, ap (λ x. length x.tables) same))
              ]
        ]
  ]
