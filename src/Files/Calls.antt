-- ===== src/Files/Calls.antt =====
-- Any tasks, making any calls on files in any order.
use nos.Prelude.{
  ℕ, zero, suc, ◌+◌, ◌*◌, ◌^◌, ◌<◌, ◌≡◌, refl, sym, ap, ◌∙◌, subst, List, [], length, Bool, true,
  false, if◌then◌else◌, ◌==◌, arith, inl, inr, Bool-cases, Option, none, some, ℤ, pos, negsuc, ltb,
  update,
}
use nos.Pipe.{Pipe, read_pass, write_pass}
use nos.Tcp.Table.{Socks}
use nos.Files.Hand.{Fits, Fits-live, all_ends}
use nos.Files.{
  is_end, task_max_files, fd_none, File, World, file_of, file_close, close_loop, close_all_files,
  sys_close, sys_pipe, sys_exec, sys_exec2, sys_execc, sys_connect, read_end, write_end, fd_type,
  fd_pipe_r, fd_pipe_w,
}
use nos.Files.Closing.{IsAccounted, Good, Good-bind, Few, file_close-Good}
use nos.Files.Installing.{sys_pipe-Good, sys_connect-Good}
use nos.Files.Inheriting.{file_of-Backed, after, sys_exec-Good, sys_exec2-Good, sys_execc-Good}

module _ (w : World) (v : IsAccounted w) (few : Few w 0) (t : ℕ) (there : t < length w.tables) where
  sys_close-Good : (fd : ℤ) → Good w 0 (after (sys_close w t fd))
  unfolding sys_close
  sys_close-Good (negsuc n) = (w, refl, v, omega arith)
  sys_close-Good (pos fd) = elim (Bool-cases (ltb fd task_max_files)) [
    | inl h ↦ elim (Bool-cases ((file_of w t fd).type == fd_none)) [
      | inl g ↦ rw (sys_close, h, g) (w, refl, v, omega arith)
      | inr g ↦
          let (u, e, y, l) = file_close-Good w v few t there fd (ground arith) in
          rw (sys_close, h, g, e) (u, refl, y, l)
    ]
    | inr h ↦ rw (sys_close, h) (w, refl, v, omega arith)
  ]

close_loop-Good :
    (n i : ℕ) (w : World)
    → IsAccounted w
    → Few w 0
    → (t : ℕ) → t < length w.tables
    → i + n ≡ 8
    → Good w 0 (close_loop n i w t)
unfolding close_loop
close_loop-Good zero i w v few t there top = (w, refl, v, omega arith)
close_loop-Good (suc n) i w v few t there top =
    Good-bind w 0 (if (file_of w t i).type == fd_none then some w else file_close w t i)
      (λ u. close_loop n (i + 1) u t)
      (elim (Bool-cases ((file_of w t i).type == fd_none)) [
        | inl g ↦ rw g (w, refl, v, omega arith)
        | inr g ↦ rw g (file_close-Good w v few t there i (omega arith))
      ])
      (λ u y l.
        close_loop-Good n (i + 1) u y (omega (arith, few, l)) t (omega (arith, l)) (omega arith))

read_pass-readers : (q : Pipe) (len : ℕ) → (read_pass q len).1.readers ≡ q.readers
unfolding read_pass
read_pass-readers q len = ground arith

read_pass-writers : (q : Pipe) (len : ℕ) → (read_pass q len).1.writers ≡ q.writers
unfolding read_pass
read_pass-writers q len = ground arith

write_pass-readers : (q : Pipe) (bytes : List ℕ) → (write_pass q bytes).1.readers ≡ q.readers
unfolding write_pass
write_pass-readers q bytes = ground arith

write_pass-writers : (q : Pipe) (bytes : List ℕ) → (write_pass q bytes).1.writers ≡ q.writers
unfolding write_pass
write_pass-writers q bytes = ground arith

module _ (w : World) (v : IsAccounted w) (few : Few w 0) where
  exit-Good : (t : ℕ) → t < length w.tables → Good w 0 (close_all_files w t)
  unfolding close_all_files
  exit-Good t there = close_loop-Good 8 0 w v few t there refl

  -- A pass changes the bytes of a pipe alone.
  ring-Good :
      (p : ℕ) (q r : Pipe)
      → w.pipes p ≡ some q
      → r.readers ≡ q.readers
      → r.writers ≡ q.writers
      → Good w 0 (some (record w { pipes = update w.pipes p (some r) }))
  ring-Good p q r there a b = (_, refl, record { eight = v.eight; held = kept }, omega arith)
    where
      kept :
          (k : ℕ)
          → Fits (update w.pipes p (some r) k) (all_ends w [] k false) (all_ends w [] k true)
      kept k = elim (Bool-cases (p == k)) [
        | inl e ↦
            let same : p ≡ k = ground arith in
            let now : update w.pipes p (some r) k ≡ some r = rw e refl in
            let (x, y, z) =
              subst (λ o. Fits o (all_ends w [] k false) (all_ends w [] k true))
                (ap w.pipes (sym same) ∙ there) (v.held k) in
            subst (λ o. Fits o (all_ends w [] k false) (all_ends w [] k true)) (sym now)
              (a ∙ x, b ∙ y, z)
        | inr e ↦
            let now : update w.pipes p (some r) k ≡ w.pipes k = rw e refl in
            subst (λ o. Fits o (all_ends w [] k false) (all_ends w [] k true)) (sym now) (v.held k)
      ]

  -- The end that a descriptor refers to has its pipe.
  end_there :
      (t fd : ℕ)
      → is_end (file_of w t fd) ≡ true
      → (q : Pipe) × (w.pipes (file_of w t fd).pipe ≡ some q)
  end_there t fd e =
      let f = file_of w t fd in
      let some_end = file_of-Backed w t fd e in
      Fits-live (w.pipes f.pipe) _ _ (v.held f.pipe) (omega arith)

  read_end-Good : (t fd len : ℕ) → Good w 0 (read_end w t fd len)
  unfolding read_end
  read_end-Good t fd len = elim (Bool-cases (fd_type (file_of w t fd).type == fd_pipe_r)) [
    | inl e ↦
        let (q, there) = end_there t fd (ground arith) in
        rw (e, there)
          (ring-Good (file_of w t fd).pipe q (read_pass q len).1 there (read_pass-readers q len)
            (read_pass-writers q len))
    | inr e ↦ rw e (w, refl, v, omega arith)
  ]

  write_end-Good : (t fd : ℕ) (bytes : List ℕ) → Good w 0 (write_end w t fd bytes)
  unfolding write_end
  write_end-Good t fd bytes = elim (Bool-cases (fd_type (file_of w t fd).type == fd_pipe_w)) [
    | inl e ↦
        let (q, there) = end_there t fd (ground arith) in
        rw (e, there)
          (ring-Good (file_of w t fd).pipe q (write_pass q bytes).1 there
            (write_pass-readers q bytes) (write_pass-writers q bytes))
    | inr e ↦ rw e (w, refl, v, omega arith)
  ]

-- A call of the task at a place of the list. `kmalloc` gives a pipe memory that no pipe is in.
pub data Step (w : World) : Option World → Type 0 where
  close : (t : ℕ) (fd : ℤ) → t < length w.tables → Step w (after (sys_close w t fd))
  pipe :
      (t : ℕ) (ok : Bool) (p : ℕ) (garbage : ℕ → ℕ)
      → t < length w.tables
      → w.pipes p ≡ none
      → Step w (some (sys_pipe w t ok p garbage).1)
  connect :
      (t : ℕ) (s : ℤ) (socks : Socks)
      → t < length w.tables
      → Step w (some (sys_connect w t s socks).1)
  exec : (t : ℕ) (loads : Bool) → Step w (after (sys_exec w t loads))
  exec2 :
      (t : ℕ) (ok : Bool) (a b c : ℤ) (loads : Bool) → Step w (after (sys_exec2 w t ok a b c loads))
  execc : (ok loads : Bool) (garbage : File) → Step w (after (sys_execc w ok loads garbage))
  read : (t fd len : ℕ) → Step w (read_end w t fd len)
  write : (t fd : ℕ) (bytes : List ℕ) → Step w (write_end w t fd bytes)
  exit : (t : ℕ) → t < length w.tables → Step w (close_all_files w t)

pub data Steps (w : World) : ℕ → Option World → Type 0 where
  done : Steps w zero (some w)
  more : (n : ℕ) (u : World) (o : Option World) → Steps w n (some u) → Step u o → Steps w (suc n) o

wider : (w : World) (o : Option World) → Good w 0 o → Good w 1 o
wider w o (u, e, y, l) = (u, e, y, omega arith)

one-Good : (w : World) (o : Option World) → Step w o → IsAccounted w → Few w 0 → Good w 1 o
one-Good w o (close t fd there) v few = wider w _ (sys_close-Good w v few t there fd)
one-Good w o (pipe t ok p garbage there fresh) v few =
    wider w _ (sys_pipe-Good w v few t there ok p garbage fresh)
one-Good w o (connect t s socks there) v few = wider w _ (sys_connect-Good w v few t there s socks)
one-Good w o (exec t loads) v few = sys_exec-Good w v few t loads
one-Good w o (exec2 t ok a b c loads) v few = sys_exec2-Good w v few t ok a b c loads
one-Good w o (execc ok loads garbage) v few = sys_execc-Good w v few garbage ok loads
one-Good w o (read t fd len) v few = wider w _ (read_end-Good w v few t fd len)
one-Good w o (write t fd bytes) v few = wider w _ (write_end-Good w v few t fd bytes)
one-Good w o (exit t there) v few = wider w _ (exit-Good w v few t there)

run-Good :
    (w : World) (n : ℕ) (o : Option World) → Steps w n o → IsAccounted w → Few w n → Good w n o
run-Good w n o done v few = (w, refl, v, omega arith)
run-Good w n o (more m u p steps step) v few =
    let (x, e, y, l) = run-Good w m (some u) steps v (omega (arith, few)) in
    let same : x ≡ u = cc e in
    let (z, g, a, k) =
      one-Good u p step (subst IsAccounted same y)
        (omega (arith, few, l, ap (λ k. length k.tables) same)) in
    (z, g, a, omega (arith, k, l, ap (λ k. length k.tables) same))

-- Where every table has eight files, the readers and the writers of each pipe in memory are the
-- descriptors that refer to its ends, with one at least, and no descriptor refers to another
-- address: after n calls of close, pipe, connect, exec, exec2, execc, exit, or of one pass of
-- read or write on a pipe, by tasks of the list and in any order, this holds again and no call
-- used a pipe that was freed, provided that connect gives any table of sockets, that a new pipe
-- gets memory without a pipe, and that eight times the sum of the tables and n, and 16, is below
-- 2 ^ 32.
pub run-IsAccounted :
    (n : ℕ) (w : World) (o : Option World)
    → Steps w n o
    → IsAccounted w
    → 8 * (length w.tables + n) + 16 < 2 ^ 32
    → (u : World) × (o ≡ some u) × IsAccounted u
run-IsAccounted n w o steps v few = let (u, e, y, l) = run-Good w n o steps v few in (u, e, y)
