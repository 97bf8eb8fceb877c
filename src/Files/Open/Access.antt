-- ===== src/Files/Open/Access.antt =====
-- What an open call leaves, whether it fails or not, and what its descriptor may do.
use nos.Prelude.{
  ℕ, zero, suc, ◌≤◌, ◌<◌, ◌≡◌, ◌⊎◌, refl, sym, ap, ◌∙◌, List, [], ◌∷◌, length, some, Bool, true,
  false, not, ◌||◌, if◌then◌else◌, ◌==◌, get_or, set, arith, inl, inr, Bool-cases, Option-cases, ℤ,
  pos, minus_one, signed32, add32, take, subst, ◌≢◌,
}
use nos.Files.{File, World, no_file, file_of, put_file, new_fd, fd_file, fd_type}
use nos.Files.Installing.{free_slot-found, get_or-set_same}
use nos.Files.Open.{
  Driver, kind, fs_file, has_flag, bad_flags, is_nil, opened_file, open_type, o_wronly, o_trunc,
  find_or_create, sys_openmode, vfs_truncate, vfs_read, vfs_write, read_file, write_file,
  fd_writable, fd_writeonly, is_null,
}

module _ {S : Type 0} (d : Driver S) (s : S) (w : World) (t : ℕ) (path_ok : Bool) (path : List ℕ)
    (flags : ℕ) where
  -- The file that a call opens.
  abbrev pub Opens : ℕ → ℤ → S → World → Type 0
  Opens fd r s2 u =
      (r ≡ pos fd)
      × ((3 ≤ fd) × (fd < 8) × ((file_of w t fd).type ≡ 0))
      × (let (node, s1) = find_or_create d s (take 127 path) flags in
          (node ≢ 0)
          × (kind d s1 node ≡ fs_file)
          × ((if has_flag flags o_trunc then vfs_truncate d s1 node else (true, s1)) ≡ (true, s2))
          × (u ≡ put_file w t fd (opened_file (file_of w t fd) (open_type flags) node)))

  abbrev pub Fails : ℤ → S → World → Type 0
  Fails r s2 u =
      (r ≡ minus_one)
      × (u ≡ w)
      × ((s2 ≡ s)
          ⊎ ((path_ok ≡ true) × (bad_flags flags ≡ false) × ((fd : ℕ) × (new_fd w t ≡ some fd))))

  slot_free : (fd : ℕ) → new_fd w t ≡ some fd → (3 ≤ fd) × (fd < 8) × ((file_of w t fd).type ≡ 0)
  slot_free fd e = free_slot-found 5 3 (get_or w.tables t []) fd e

  abbrev found : ℕ × S
  found = find_or_create d s (take 127 path) flags

  abbrev cut : Bool × S
  cut = if has_flag flags o_trunc then vfs_truncate d found.1 found.0 else (true, found.1)

  cut-true : not cut.0 ≡ false → cut ≡ (true, cut.1)
  cut-true h = let e : cut.0 ≡ true = ground arith in ap (λ b. (b, cut.1)) e

  abbrev no_file_at : Bool
  no_file_at = found.0 == 0 || not (kind d found.1 found.0 == fs_file)

  -- sys_openmode either returns a descriptor from 3 to 7 that was free, for a node that is a
  -- regular file, which was truncated with success where O_TRUNC is set, and writes the new file
  -- into the place of the descriptor alone; or it returns -1 and changes no descriptor, and then
  -- what the filesystem keeps is as it was unless the path and the flags passed their tests and a
  -- descriptor was free.
  pub openmode-outcome :
      let (r, s2, u) = sys_openmode d s w t path_ok path flags in
      ((fd : ℕ) × Opens fd r s2 u) ⊎ Fails r s2 u
  unfolding sys_openmode
  openmode-outcome =
      elim (Bool-cases (not path_ok || (bad_flags flags || is_nil (take 127 path)))) [
        | inl e ↦ rw (sys_openmode, e) (inr (refl, refl, inl refl))
        | inr e ↦ elim (Option-cases (new_fd w t)) [
          | inl f ↦ rw (sys_openmode, e, f) (inr (refl, refl, inl refl))
          | inr (fd, f) ↦ elim (Bool-cases (no_file_at)) [
            | inl g ↦
                rw (sys_openmode, e, f, g)
                  (inr (refl, refl, inr (ground arith, ground arith, (fd, refl))))
            | inr g ↦ elim (Bool-cases (not cut.0)) [
              | inl h ↦
                  rw (sys_openmode, e, f, g, h)
                    (inr (refl, refl, inr (ground arith, ground arith, (fd, refl))))
              | inr h ↦
                  rw (sys_openmode, e, f, g, h)
                    (inl (
                      fd,
                      (
                        refl,
                        slot_free fd f,
                        ((λ z. absurd (ground arith)), ground arith, cut-true h, refl),
                      ),
                    ))
            ]
          ]
        ]
      ]

get_or-set_file :
    (fs : List File) (i : ℕ) (f : File) → i < length fs → get_or (set fs i f) i no_file ≡ f
get_or-set_file [] i f lt = absurd (omega arith)
get_or-set_file (g ∷ fs) zero f lt = refl
get_or-set_file (g ∷ fs) (suc i) f lt = get_or-set_file fs i f (omega arith)

-- The file that was put.
pub file_of-put :
    (w : World) (t fd : ℕ) (f : File)
    → t < length w.tables
    → fd < length (get_or w.tables t [])
    → file_of (put_file w t fd f) t fd ≡ f
file_of-put w t fd f there small =
    ap (λ table. get_or table fd no_file)
      (get_or-set_same w.tables t (set (get_or w.tables t []) fd f) there)
    ∙ get_or-set_file (get_or w.tables t []) fd f small

-- The bits of a descriptor's type.
bits :
    (flags : ℕ)
    → (fd_type (open_type flags) ≡ fd_file)
      × (has_flag (open_type flags) fd_writeonly ≡ has_flag flags o_wronly)
      × (has_flag (open_type flags) fd_writable ≡ has_flag flags 3)
bits flags = elim (Bool-cases (has_flag flags 3)) [
  | inl e ↦ elim (Bool-cases (has_flag flags o_wronly)) [
    | inl f ↦ rw (e, f) (refl, refl, refl)
    | inr f ↦ rw (e, f) (refl, refl, refl)
  ]
  | inr e ↦ elim (Bool-cases (has_flag flags o_wronly)) [
    | inl f ↦ rw (e, f) (refl, refl, refl)
    | inr f ↦ rw (e, f) (refl, refl, refl)
  ]
]

module _ {S : Type 0} (d : Driver S) (s3 : S) (u : World) (t fd : ℕ) (flags node : ℕ)
    (old : File) where
  -- The descriptor's file is one that was just opened.
  read-opened :
      (len : ℕ)
      → file_of u t fd ≡ opened_file old (open_type flags) node
      → read_file d s3 u t fd len ≡ (
          let got = vfs_read d s3 node 0 len in
          if has_flag flags o_wronly
          then some ((minus_one, []), u)
          else some (
            (signed32 (length got), got),
            put_file u t fd
                (record (opened_file old (open_type flags) node) { offset = add32 0 (length got) }),
          ))
  unfolding read_file
  read-opened len e = let (a, b, c) = bits flags in rw (read_file, e, a, b) refl

  write-opened :
      (bytes : List ℕ)
      → file_of u t fd ≡ opened_file old (open_type flags) node
      → write_file d s3 u t fd bytes ≡ (
          let (put, s4) = vfs_write d s3 node 0 bytes in
          if not (has_flag flags 3) || (node == 0 || is_null (d.write s3 node))
          then some (minus_one, s3, u)
          else some (
            signed32 put,
            s4,
            put_file u t fd
                (record (opened_file old (open_type flags) node) { offset = add32 0 put }),
          ))
  unfolding write_file
  write-opened bytes e = let (a, b, c) = bits flags in rw (write_file, e, a, c) refl

-- What the call put into the table.
opened_here :
    {S : Type 0} (d : Driver S) (s s2 : S) (w u : World) (t fd : ℕ) (path_ok : Bool) (path : List ℕ)
    (flags : ℕ)
    → sys_openmode d s w t path_ok path flags ≡ (pos fd, s2, u)
    → t < length w.tables
    → length (get_or w.tables t []) ≡ 8
    → file_of u t fd
      ≡ opened_file (file_of w t fd) (open_type flags) (find_or_create d s (take 127 path) flags).0
opened_here d s s2 w u t fd path_ok path flags e there eight =
    elim (openmode-outcome d s w t path_ok path flags) [
      | inl (k, (a, (b, c, g), (x, y, z, h))) ↦
          let same : fd ≡ k = cc (a, ap (λ r. r.0) e) in
          let f =
            opened_file (file_of w t k) (open_type flags)
              (find_or_create d s (take 127 path) flags).0 in
          let put : file_of u t k ≡ f =
            ap (λ v. file_of v t k) (sym (ap (λ r. r.2) e) ∙ h)
            ∙ file_of-put w t k f there (omega (arith, eight, c)) in
          subst
            (λ j.
              file_of u t j
              ≡ opened_file (file_of w t j) (open_type flags)
                  (find_or_create d s (take 127 path) flags).0)
            (sym same) put
      | inr (a, b, c) ↦
          let clash : pos fd ≡ minus_one = sym (ap (λ r. r.0) e) ∙ a in absurd (cc clash)
    ]

-- Where sys_openmode returned a descriptor to a task of the list, whose table has eight files: a
-- read of the descriptor is refused just if O_WRONLY is set and else takes its bytes from the
-- start of the node, and a write is refused just if the access is O_RDONLY or the node cannot be
-- written, and else puts its bytes at the start; the offset moves by as many bytes.
pub openmode-access :
    {S : Type 0} (d : Driver S) (s s2 s3 : S) (w u : World) (t fd : ℕ) (path_ok : Bool)
    (path bytes : List ℕ) (flags len : ℕ)
    → sys_openmode d s w t path_ok path flags ≡ (pos fd, s2, u)
    → t < length w.tables
    → length (get_or w.tables t []) ≡ 8
    → (let node = (find_or_create d s (take 127 path) flags).0 in
        let old = file_of w t fd in
        (read_file d s3 u t fd len ≡ (
          let got = vfs_read d s3 node 0 len in
          if has_flag flags o_wronly
          then some ((minus_one, []), u)
          else some (
            (signed32 (length got), got),
            put_file u t fd
                (record (opened_file old (open_type flags) node) { offset = add32 0 (length got) }),
          )))
        × (write_file d s3 u t fd bytes ≡ (
            let (put, s4) = vfs_write d s3 node 0 bytes in
            if not (has_flag flags 3) || (node == 0 || is_null (d.write s3 node))
            then some (minus_one, s3, u)
            else some (
              signed32 put,
              s4,
              put_file u t fd
                  (record (opened_file old (open_type flags) node) { offset = add32 0 put }),
            ))))
openmode-access d s s2 s3 w u t fd path_ok path bytes flags len e there eight =
    let here = opened_here d s s2 w u t fd path_ok path flags e there eight in
    let node = (find_or_create d s (take 127 path) flags).0 in
    (
      read-opened d s3 u t fd flags node (file_of w t fd) len here,
      write-opened d s3 u t fd flags node (file_of w t fd) bytes here,
    )
