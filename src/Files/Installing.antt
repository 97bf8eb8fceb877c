-- ===== src/Files/Installing.antt =====
-- Files that get a descriptor: ends of a new pipe, plain files and sockets.
use nos.Prelude.{
  ℕ, zero, suc, ◌+◌, ◌-◌, ◌≤◌, ◌<◌, ◌≡◌, ◌≢◌, refl, sym, ap, ◌∙◌, subst, List, [], ◌∷◌, length,
  Bool, true, false, ◌==◌, get_or, set, arith, inl, inr, Bool-cases, none, some, ℤ, length-set,
  Option-cases, update,
}
use nos.Pipe.{pipe_create}
use nos.Tcp.Table.{Socks}
use nos.Files.{
  File, World, no_file, file_of, put_file, is_end, fd_pipe_r, fd_pipe_w, free_slot, new_fd,
  pipe_end, sys_pipe, sys_connect, is_minus, fd_socket,
}
use nos.Files.Counts.{set-Eights}
use nos.Files.Hand.{Held, Fits, all_ends, put-Held, plain-Held, unplain-Held, moved-Fits}
use nos.Files.Closing.{IsAccounted, Good, Few, slots}

pub free_slot-found :
    (n i : ℕ) (table : List File) (k : ℕ)
    → free_slot n i table ≡ some k
    → (i ≤ k) × (k < i + n) × ((get_or table k no_file).type ≡ 0)
unfolding free_slot
free_slot-found zero i table k e = absurd (ground arith)
free_slot-found (suc n) i table k e = elim (Bool-cases ((get_or table i no_file).type == 0)) [
  | inl h ↦
      let here : some i ≡ some k = sym (rw h refl) ∙ e in
      let same : i ≡ k = cc here in
      (omega arith, omega arith, subst (λ j. (get_or table j no_file).type ≡ 0) same (ground arith))
  | inr h ↦
      let (a, b, c) = free_slot-found n (i + 1) table k (sym (rw h refl) ∙ e) in
      (omega arith, omega arith, c)
]

-- A free slot holds no end.
free-plain : (f : File) → f.type ≡ 0 → is_end f ≡ false
free-plain f e = ground arith

module _ (w : World) (hand : List File) (t fd : ℕ) (f : File) (there : t < length w.tables)
    (small : fd < length (get_or w.tables t [])) where
  -- A file in hand goes into a free slot.
  pub install-Held : (file_of w t fd).type ≡ 0 → Held w (f ∷ hand) → Held (put_file w t fd f) hand
  install-Held free h =
      unplain-Held (put_file w t fd f) (file_of w t fd) hand (free-plain (file_of w t fd) free)
        (put-Held w t fd f hand there small h)

module _ (w : World) (v : IsAccounted w) (few : Few w 0) (t : ℕ) (there : t < length w.tables) where
  -- A plain file goes into a free slot.
  pub install-Good :
      (fd : ℕ) (f : File)
      → fd < 8
      → (file_of w t fd).type ≡ 0
      → is_end f ≡ false
      → Good w 0 (some (put_file w t fd f))
  install-Good fd f lt free plain =
      let eight = slots w v few t there in
      (
        put_file w t fd f,
        refl,
        record {
          eight =
              set-Eights w.tables t (set (get_or w.tables t []) fd f)
                (length-set (get_or w.tables t []) fd f ∙ eight) v.eight;
          held =
              install-Held w [] t fd f there (omega (arith, eight)) free
                (plain-Held w f [] plain v.held);
        },
        omega (arith, length-set w.tables t (set (get_or w.tables t []) fd f)),
      )

get_or-set_other :
    (fs : List File) (i j : ℕ) (f : File)
    → i ≢ j
    → get_or (set fs i f) j no_file ≡ get_or fs j no_file
get_or-set_other [] i j f ne = refl
get_or-set_other (g ∷ fs) zero zero f ne = absurd (ne refl)
get_or-set_other (g ∷ fs) zero (suc j) f ne = refl
get_or-set_other (g ∷ fs) (suc i) zero f ne = refl
get_or-set_other (g ∷ fs) (suc i) (suc j) f ne = get_or-set_other fs i j f (λ e. ne (ap suc e))

pub get_or-set_same :
    (ts : List (List File)) (t : ℕ) (table : List File)
    → t < length ts
    → get_or (set ts t table) t [] ≡ table
get_or-set_same [] t table lt = absurd (omega arith)
get_or-set_same (x ∷ ts) zero table lt = refl
get_or-set_same (x ∷ ts) (suc t) table lt = get_or-set_same ts t table (omega arith)

module _ (w : World) (p : ℕ) (garbage : ℕ → ℕ) (f g : File) where
  abbrev made : World
  made = record w { pipes = update w.pipes p (some (pipe_create garbage)) }

  -- A new pipe comes with its two ends.
  made-Held :
      w.pipes p ≡ none
      → Held w []
      → Held made (pipe_end f fd_pipe_r p ∷ (pipe_end g fd_pipe_w p ∷ []))
  unfolding pipe_create
  made-Held fresh h k = elim (Bool-cases (p == k)) [
    | inl e ↦
        let same : p ≡ k = ground arith in
        let before =
          subst (λ o. Fits o (all_ends w [] p false) (all_ends w [] p true)) fresh (h p) in
        subst
          (λ j.
            Fits (made.pipes j)
              (all_ends made (pipe_end f fd_pipe_r p ∷ (pipe_end g fd_pipe_w p ∷ [])) j false)
              (all_ends made (pipe_end f fd_pipe_r p ∷ (pipe_end g fd_pipe_w p ∷ [])) j true))
          same
          (let self : update w.pipes p (some (pipe_create garbage)) p ≡ some (pipe_create garbage) =
              ground arith in
            subst
              (λ o.
                Fits o
                  (all_ends made (pipe_end f fd_pipe_r p ∷ (pipe_end g fd_pipe_w p ∷ [])) p false)
                  (all_ends made (pipe_end f fd_pipe_r p ∷ (pipe_end g fd_pipe_w p ∷ [])) p true))
              (sym self) (ground (arith, before), ground (arith, before), ground (arith, before)))
    | inr e ↦
        let now : made.pipes k ≡ w.pipes k = rw e refl in
        subst
          (λ o.
            Fits o (all_ends made (pipe_end f fd_pipe_r p ∷ (pipe_end g fd_pipe_w p ∷ [])) k false)
              (all_ends made (pipe_end f fd_pipe_r p ∷ (pipe_end g fd_pipe_w p ∷ [])) k true))
          (sym now) (moved-Fits (w.pipes k) _ _ _ _ (ground arith) (ground arith) (h k))
  ]

module _ (w : World) (v : IsAccounted w) (few : Few w 0) (t : ℕ) (there : t < length w.tables) where
  eight_slots : length (get_or w.tables t []) ≡ 8
  eight_slots = slots w v few t there

  module _ (p : ℕ) (garbage : ℕ → ℕ) (fresh : w.pipes p ≡ none) (rfd wfd : ℕ) (apart : rfd < wfd)
      (small : wfd < 8) (free_r : (file_of w t rfd).type ≡ 0)
      (free_w : (file_of w t wfd).type ≡ 0) where
    abbrev reader : File
    reader = pipe_end (file_of w t rfd) fd_pipe_r p

    abbrev writer : File
    writer = pipe_end (file_of w t wfd) fd_pipe_w p

    abbrev half : World
    half = put_file (made w p garbage (file_of w t rfd) (file_of w t wfd)) t rfd reader

    abbrev piped : World
    piped = put_file half t wfd writer

    half_length : length half.tables ≡ length w.tables
    half_length = length-set w.tables t (set (get_or w.tables t []) rfd reader)

    half_table : get_or half.tables t [] ≡ set (get_or w.tables t []) rfd reader
    half_table = get_or-set_same w.tables t (set (get_or w.tables t []) rfd reader) there

    half_slots : length (get_or half.tables t []) ≡ 8
    half_slots = ap length half_table ∙ length-set (get_or w.tables t []) rfd reader ∙ eight_slots

    half_free : (file_of half t wfd).type ≡ 0
    half_free =
        ap (λ table. (get_or table wfd no_file).type) half_table
        ∙ ap (λ f. f.type)
            (get_or-set_other (get_or w.tables t []) rfd wfd reader (λ e. absurd (omega arith)))
        ∙ free_w

    pipe-Good : Good w 0 (some piped)
    pipe-Good =
        let l = half_length in
        let k = length-set half.tables t (set (get_or half.tables t []) wfd writer) in
        let first =
          install-Held (made w p garbage (file_of w t rfd) (file_of w t wfd)) (writer ∷ []) t rfd
            reader there (omega (arith, eight_slots)) free_r
            (made-Held w p garbage (file_of w t rfd) (file_of w t wfd) fresh v.held) in
        let second =
          install-Held half [] t wfd writer (omega (arith, l)) (omega (arith, half_slots)) half_free
            first in
        (
          piped,
          refl,
          record {
            eight =
                set-Eights half.tables t (set (get_or half.tables t []) wfd writer)
                  (length-set (get_or half.tables t []) wfd writer ∙ half_slots)
                  (set-Eights w.tables t (set (get_or w.tables t []) rfd reader)
                    (length-set (get_or w.tables t []) rfd reader ∙ eight_slots) v.eight);
            held = second;
          },
          omega (arith, l, k),
        )

  same-Good : Good w 0 (some w)
  same-Good = (w, refl, v, omega arith)

  pub sys_pipe-Good :
      (ok : Bool) (p : ℕ) (garbage : ℕ → ℕ)
      → w.pipes p ≡ none
      → Good w 0 (some (sys_pipe w t ok p garbage).1)
  unfolding sys_pipe
  sys_pipe-Good false p garbage fresh = same-Good
  sys_pipe-Good true p garbage fresh = elim (Option-cases (new_fd w t)) [
    | inl e ↦ rw e same-Good
    | inr (rfd, e) ↦ elim (Option-cases (free_slot (7 - rfd) (rfd + 1) (get_or w.tables t []))) [
      | inl g ↦ rw (e, g) same-Good
      | inr (wfd, g) ↦
          let (a, b, c) = free_slot-found 5 3 (get_or w.tables t []) rfd e in
          let (x, y, z) = free_slot-found (7 - rfd) (rfd + 1) (get_or w.tables t []) wfd g in
          rw (e, g) (pipe-Good p garbage fresh rfd wfd (omega arith) (omega arith) c z)
    ]
  ]

  -- Sockets and consoles play no part in the counts.
  pub sys_connect-Good : (s : ℤ) (socks : Socks) → Good w 0 (some (sys_connect w t s socks).1)
  unfolding sys_connect
  sys_connect-Good s socks = elim (Option-cases (new_fd w t)) [
    | inl e ↦ rw (sys_connect, e) same-Good
    | inr (fd, e) ↦
        let (a, b, c) = free_slot-found 5 3 (get_or w.tables t []) fd e in
        let u : World = record w { socks = socks } in
        elim (Bool-cases (is_minus s)) [
          | inl g ↦
              rw (sys_connect, e, g)
                (u, refl, record { eight = v.eight; held = v.held }, omega arith)
          | inr g ↦
              rw (sys_connect, e, g)
                (install-Good u (record { eight = v.eight; held = v.held }) few t there fd
                  (record (file_of w t fd) { type = fd_socket; sock = s }) (omega arith) c refl)
        ]
  ]
