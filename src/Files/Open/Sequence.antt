-- ===== src/Files/Open/Sequence.antt =====
-- Reads in a row of a file that was opened.
use nos.Prelude.{
  ℕ, zero, suc, ◌+◌, ◌-◌, ◌^◌, ◌≤◌, ◌<◌, ◌≡◌, refl, sym, ap, ◌∙◌, List, [], ◌∷◌, ◌++◌, length,
  Option, none, some, Bool, false, not, ◌||◌, ◌==◌, leb, ◌>>=◌, get_or, set, arith, inl, inr,
  Bool-cases, Option-cases, ℤ, pos, minus_one, signed32, add32, take, drop, subst, min, length-take,
  length-drop, drop-add, take-nil, drop-all, length-set,
}
use nos.Vfs.{vfs_resolve}
use nos.Files.{File, World, file_of, put_file, new_fd, fd_file, fd_type}
use nos.Files.Installing.{free_slot-found, get_or-set_same}
use nos.Files.Open.{Driver, opened_file, sys_open, vfs_read, read_file, has_flag, fd_writeonly}
use nos.Files.Open.Access.{file_of-put}

-- Calls of `sys_read` with these lengths, and the bytes of all.
abbrev pub reads : {S : Type 0} → Driver S → S → World → ℕ → ℕ → List ℕ → Option (List ℕ × World)
reads d s w t fd [] = some ([], w)
reads d s w t fd (len ∷ lens) = do
  r ← read_file d s w t fd len
  q ← reads d s r.1 t fd lens
  some (r.0.1 ++ q.0, q.1)

abbrev pub sum : List ℕ → ℕ
sum [] = 0
sum (n ∷ ns) = n + sum ns

take-two : (m n : ℕ) (xs : List ℕ) → take m xs ++ take n (drop m xs) ≡ take (m + n) xs
take-two zero n xs = let e : n ≡ zero + n = omega arith in ap (λ k. take k xs) e
take-two (suc m) n [] = take-nil n ∙ sym (take-nil (suc m + n))
take-two (suc m) n (x ∷ xs) =
    ap (◌∷◌ x) (take-two m n xs)
    ∙ (let e : suc (m + n) ≡ suc m + n = omega arith in ap (λ k. take k (x ∷ xs)) e)

-- The bytes that a run of calls gave.
abbrev pub bytes_of : Option (List ℕ × World) → Option (List ℕ)
bytes_of o = do r ← o; some r.0

then_bytes :
    (got ys : List ℕ) (o : Option (List ℕ × World))
    → bytes_of o ≡ some ys
    → bytes_of (do q ← o; some (got ++ q.0, q.1)) ≡ some (got ++ ys)
then_bytes got ys none e = absurd (cc e)
then_bytes got ys (some q) e = let same : q.0 ≡ ys = cc e in ap (λ zs. some (got ++ zs)) same

drop-min : (n : ℕ) (xs : List ℕ) → drop (min n (length xs)) xs ≡ drop n xs
drop-min n xs = elim (Bool-cases (leb n (length xs))) [
  | inl e ↦ let same : min n (length xs) ≡ n = ground arith in ap (λ k. drop k xs) same
  | inr e ↦
      let same : min n (length xs) ≡ length xs = ground arith in
      ap (λ k. drop k xs) same
      ∙ drop-all (length xs) xs (omega arith)
      ∙ sym (drop-all n xs (ground arith))
]

module _ {S : Type 0} (d : Driver S) (s : S) (t fd node : ℕ) (get : ℕ → ℕ → List ℕ)
    (content : List ℕ) (reader : d.read s node ≡ some get)
    (law : (off len : ℕ) → get off len ≡ take len (drop off content))
    (short : length content < 2 ^ 32) where
  abbrev AtOffset : World → ℕ → File → Type 0
  AtOffset w off f =
      (file_of w t fd ≡ f)
      × (fd_type f.type ≡ fd_file)
      × (has_flag f.type fd_writeonly ≡ false)
      × (f.node ≡ node)
      × (f.offset ≡ off)

  read-take : (off len : ℕ) → vfs_read d s node off len ≡ take len (drop off content)
  unfolding vfs_read
  read-take off len = rw (vfs_read, reader) (law off len)

  -- One read takes the bytes from the offset on.
  read-bytes :
      (w : World) (f : File) (off len : ℕ)
      → AtOffset w off f
      → read_file d s w t fd len ≡ (
          let got = take len (drop off content) in
          some (
            (signed32 (length got), got),
            put_file w t fd (record f { offset = add32 off (length got) }),
          ))
  unfolding read_file
  read-bytes w f off len (a, b, c, g, h) = rw (read_file, a, b, c, g, h, read-take off len) refl

  pub reads-content :
      (lens : List ℕ) (w : World) (f : File) (off : ℕ)
      → AtOffset w off f
      → off ≤ length content
      → t < length w.tables
      → fd < length (get_or w.tables t [])
      → bytes_of (reads d s w t fd lens) ≡ some (take (sum lens) (drop off content))
  reads-content [] w f off at small there slot = refl
  reads-content (len ∷ lens) w f off (a, b, c, g, h) small there slot =
      let got = take len (drop off content) in
      let u = put_file w t fd (record f { offset = add32 off (length got) }) in
      let count : length got ≡ min len (length content - off) =
        length-take len (drop off content) ∙ ap (min len) (length-drop off content) in
      let next : add32 off (length got) ≡ off + length got = omega (arith, count, small, short) in
      let behind : drop (off + length got) content ≡ drop len (drop off content) =
        drop-add off (length got) content
        ∙ ap (λ k. drop k (drop off content)) (length-take len (drop off content))
        ∙ drop-min len (drop off content) in
      let table = set (get_or w.tables t []) fd (record f { offset = add32 off (length got) }) in
      let eight : length (get_or u.tables t []) ≡ length (get_or w.tables t []) =
        ap length (get_or-set_same w.tables t table there)
        ∙ length-set (get_or w.tables t []) fd (record f { offset = add32 off (length got) }) in
      let rest =
        reads-content lens u (record f { offset = add32 off (length got) }) (off + length got)
          (file_of-put w t fd _ there slot, b, c, g, next) (omega (arith, count, small))
          (omega (arith, there, length-set w.tables t table)) (omega (arith, eight, slot)) in
      rw (read-bytes w f off len (a, b, c, g, h)) (
        then_bytes got (take (sum lens) (drop (off + length got) content)) (reads d s u t fd lens)
          rest
        ∙ ap (λ xs. some (got ++ take (sum lens) xs)) behind
        ∙ ap some (take-two len (sum lens) (drop off content)))

both : (k fd : ℕ) (x u : World) → ◌≡◌ {A = ℤ × World} (pos k, x) (pos fd, u) → (k ≡ fd) × (x ≡ u)
both k fd x u e = (let place : pos k ≡ pos fd = ap (λ r. r.0) e in cc place, ap (λ r. r.1) e)

-- The file that `sys_open` put into the table.
sys_open-put :
    {S : Type 0} (d : Driver S) (s : S) (w u : World) (t fd : ℕ) (path_ok : Bool) (path : List ℕ)
    → sys_open d s w t path_ok path ≡ (pos fd, u)
    → (fd < 8)
      × (u ≡ put_file w t fd (opened_file (file_of w t fd) fd_file (vfs_resolve (d.tree s) path)))
unfolding sys_open
sys_open-put d s w u t fd path_ok path e =
    elim (Bool-cases (not path_ok || vfs_resolve (d.tree s) path == 0)) [
      | inl g ↦
          let clash : (minus_one, w) ≡ (pos fd, u) = sym (rw (sys_open, g) refl) ∙ e in
          absurd (cc (ap (λ r. r.0) clash))
      | inr g ↦ elim (Option-cases (new_fd w t)) [
        | inl f ↦
            let clash : (minus_one, w) ≡ (pos fd, u) = sym (rw (sys_open, g, f) refl) ∙ e in
            absurd (cc (ap (λ r. r.0) clash))
        | inr (k, f) ↦
            let node = vfs_resolve (d.tree s) path in
            let (same, put) =
              both k fd (put_file w t k (opened_file (file_of w t k) fd_file node)) u
                (sym (rw (sys_open, g, f) refl) ∙ e) in
            let (a, b, c) = free_slot-found 5 3 (get_or w.tables t []) k f in
            (
              omega arith,
              subst (λ j. u ≡ put_file w t j (opened_file (file_of w t j) fd_file node)) same
                  (sym put),
            )
      ]
    ]

-- Where sys_open returned a descriptor to a task of the list, whose table has eight files, and
-- the node reads as a content below 2 ^ 32 bytes: reads of any lengths in a row give, put
-- together, as many bytes of the content from its start as the lengths add up to, or all of it.
pub open-reads :
    {S : Type 0} (d : Driver S) (s : S) (w u : World) (t fd : ℕ) (path_ok : Bool)
    (path lens content : List ℕ) (get : ℕ → ℕ → List ℕ)
    → sys_open d s w t path_ok path ≡ (pos fd, u)
    → d.read s (vfs_resolve (d.tree s) path) ≡ some get
    → ((off len : ℕ) → get off len ≡ take len (drop off content))
    → length content < 2 ^ 32
    → t < length w.tables
    → length (get_or w.tables t []) ≡ 8
    → bytes_of (reads d s u t fd lens) ≡ some (take (sum lens) content)
open-reads d s w u t fd path_ok path lens content get e reader law short there eight =
    let (slot, same) = sys_open-put d s w u t fd path_ok path e in
    let f = opened_file (file_of w t fd) fd_file (vfs_resolve (d.tree s) path) in
    let put = file_of-put w t fd f there (omega (arith, eight, slot)) in
    let table = set (get_or w.tables t []) fd f in
    let size : length (get_or (put_file w t fd f).tables t []) ≡ 8 =
      ap length (get_or-set_same w.tables t table there)
      ∙ length-set (get_or w.tables t []) fd f
      ∙ eight in
    subst (λ v. bytes_of (reads d s v t fd lens) ≡ some (take (sum lens) content)) (sym same)
      (reads-content d s t fd (vfs_resolve (d.tree s) path) get content reader law short lens
        (put_file w t fd f) f 0 (put, refl, refl, refl, refl) (omega arith)
        (omega (arith, there, length-set w.tables t table)) (omega (arith, size, slot)))
