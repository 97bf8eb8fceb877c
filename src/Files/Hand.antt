-- ===== src/Files/Hand.antt =====
-- The counts of a pipe against the descriptors in the tables and those that the kernel has in hand.
use nos.Prelude.{
  ℕ, ◌+◌, ◌^◌, ◌<◌, ◌≡◌, ◌⊎◌, refl, sym, subst, List, [], ◌∷◌, length, Bool, true, false, ◌&&◌,
  if◌then◌else◌, ◌==◌, get_or, arith, inl, inr, Bool-cases, Option, none, some, update, sub32,
}
use nos.Pipe.{Pipe, pipe_addref, pipe_release}
use nos.Tcp.Table.{tcp_addref, tcp_release}
use nos.Files.{
  File, World, fd_type, file_of, put_file, is_end, is_writer, file_addref, file_release, fd_socket,
}
use nos.Files.Counts.{ends, count, total, total-put}

-- A pipe in memory has the counts r and n of readers and writers, not both 0; without a pipe they
-- are 0.
abbrev pub Fits : Option Pipe → ℕ → ℕ → Type 0
Fits none r n = (r ≡ 0) × (n ≡ 0)
Fits (some q) r n = (q.readers ≡ r) × (q.writers ≡ n) × (0 < r + n)

abbrev pub all_ends : World → List File → ℕ → Bool → ℕ
all_ends w hand p b = total p b w.tables + count p b hand

abbrev pub Held : World → List File → Type 0
Held w hand = (p : ℕ) → Fits (w.pipes p) (all_ends w hand p false) (all_ends w hand p true)

-- One end more, or one less, at its pipe.
addref-Fits :
    (q : Pipe) (f : File) (r n : ℕ)
    → is_end f ≡ true
    → r + 1 < 2 ^ 32
    → n + 1 < 2 ^ 32
    → Fits (some q) r n
    → Fits (some (pipe_addref q (is_writer f))) (ends f.pipe false f + r) (ends f.pipe true f + n)
unfolding pipe_addref
addref-Fits q f r n e small1 small2 (a, b, c) = (ground arith, ground arith, ground arith)

-- The two ends of a file that is one.
pub own_ends :
    (f : File)
    → is_end f ≡ true
    → ((is_writer f ≡ true) × (ends f.pipe false f ≡ 0) × (ends f.pipe true f ≡ 1))
      ⊎ ((is_writer f ≡ false) × (ends f.pipe false f ≡ 1) × (ends f.pipe true f ≡ 0))
own_ends f e = elim (Bool-cases (is_writer f)) [
  | inl h ↦ inl (h, ground arith, ground arith)
  | inr h ↦ inr (h, ground arith, ground arith)
]

-- A pipe that loses an end is freed just where nothing is left.
left-Fits :
    (q : Pipe) (r n : ℕ)
    → q.readers ≡ r
    → q.writers ≡ n
    → Fits (if q.readers == 0 && q.writers == 0 then none else some q) r n
left-Fits q r n a b = elim (Bool-cases (q.readers == 0 && q.writers == 0)) [
  | inl h ↦ rw h (ground arith, ground arith)
  | inr h ↦ rw h (a, b, ground arith)
]

release-Fits :
    (q : Pipe) (f : File) (r n : ℕ)
    → is_end f ≡ true
    → ends f.pipe false f + r < 2 ^ 32
    → ends f.pipe true f + n < 2 ^ 32
    → Fits (some q) (ends f.pipe false f + r) (ends f.pipe true f + n)
    → Fits (pipe_release q (is_writer f)) r n
unfolding pipe_release
release-Fits q f r n e small1 small2 (a, b, c) = elim (own_ends f e) [
  | inl (w, h, k) ↦
      rw w (left-Fits (record q { writers = sub32 q.writers 1 }) r n (omega arith) (omega arith))
  | inr (w, h, k) ↦
      rw w (left-Fits (record q { readers = sub32 q.readers 1 }) r n (omega arith) (omega arith))
]

other_ends : (f : File) (p : ℕ) (b : Bool) → (f.pipe == p) ≡ false → ends p b f ≡ 0
other_ends f p b e = ground arith

no_ends : (f : File) (p : ℕ) (b : Bool) → is_end f ≡ false → ends p b f ≡ 0
no_ends f p true e = ground arith
no_ends f p false e = ground arith

-- The counts stay small enough for an int.
abbrev pub Small : World → List File → Type 0
Small w hand = (p : ℕ) (b : Bool) → all_ends w hand p b + 1 < 2 ^ 32

abbrev Live : World → List File → File → Type 0
Live w hand f = is_end f ≡ true → 0 < all_ends w hand f.pipe false + all_ends w hand f.pipe true

pub moved-Fits : (o : Option Pipe) (a b c d : ℕ) → a ≡ c → b ≡ d → Fits o a b → Fits o c d
moved-Fits o a b c d e f h = subst (λ x. Fits o x d) e (subst (λ y. Fits o a y) f h)

-- A file that is no end, in hand or not.
pub plain-Held :
    (w : World) (f : File) (hand : List File) → is_end f ≡ false → Held w hand → Held w (f ∷ hand)
plain-Held w f hand e h p =
    let a = no_ends f p false e in
    let b = no_ends f p true e in moved-Fits (w.pipes p) _ _ _ _ (omega arith) (omega arith) (h p)

pub unplain-Held :
    (w : World) (f : File) (hand : List File) → is_end f ≡ false → Held w (f ∷ hand) → Held w hand
unplain-Held w f hand e h p =
    let a = no_ends f p false e in
    let b = no_ends f p true e in moved-Fits (w.pipes p) _ _ _ _ (omega arith) (omega arith) (h p)

-- The pipe of a file changes, and no other.
module _ (w : World) (f : File) (hand : List File) (o : Option Pipe) where
  abbrev piped : World
  piped = record w { pipes = update w.pipes f.pipe o }

  more-Held :
      Held w hand
      → Fits o
          (ends f.pipe false f + all_ends w hand f.pipe false)
          (ends f.pipe true f + all_ends w hand f.pipe true)
      → Held piped (f ∷ hand)
  more-Held h new p = elim (Bool-cases (f.pipe == p)) [
    | inl e ↦
        let same : f.pipe ≡ p = ground arith in
        subst
          (λ k. Fits (piped.pipes k) (all_ends w (f ∷ hand) k false) (all_ends w (f ∷ hand) k true))
          same
          (let self : update w.pipes f.pipe o f.pipe ≡ o = ground arith in
            subst
              (λ k. Fits k (all_ends w (f ∷ hand) f.pipe false) (all_ends w (f ∷ hand) f.pipe true))
              (sym self) (moved-Fits o _ _ _ _ (omega arith) (omega arith) new))
    | inr e ↦
        let a = other_ends f p false e in
        let b = other_ends f p true e in
        let now : update w.pipes f.pipe o p ≡ w.pipes p = rw e refl in
        subst (λ k. Fits k (all_ends w (f ∷ hand) p false) (all_ends w (f ∷ hand) p true)) (sym now)
          (moved-Fits (w.pipes p) _ _ _ _ (omega arith) (omega arith) (h p))
  ]

  fewer-Held :
      Held w (f ∷ hand)
      → Fits o (all_ends w hand f.pipe false) (all_ends w hand f.pipe true)
      → Held piped hand
  fewer-Held h new p = elim (Bool-cases (f.pipe == p)) [
    | inl e ↦
        let same : f.pipe ≡ p = ground arith in
        subst (λ k. Fits (piped.pipes k) (all_ends w hand k false) (all_ends w hand k true)) same
          (let self : update w.pipes f.pipe o f.pipe ≡ o = ground arith in
            subst (λ k. Fits k (all_ends w hand f.pipe false) (all_ends w hand f.pipe true))
              (sym self) new)
    | inr e ↦
        let a = other_ends f p false e in
        let b = other_ends f p true e in
        let now : update w.pipes f.pipe o p ≡ w.pipes p = rw e refl in
        subst (λ k. Fits k (all_ends w hand p false) (all_ends w hand p true)) (sym now)
          (moved-Fits (w.pipes p) _ _ _ _ (omega arith) (omega arith) (h p))
  ]

pub Fits-live : (o : Option Pipe) (r n : ℕ) → Fits o r n → 0 < r + n → (q : Pipe) × (o ≡ some q)
Fits-live none r n (a, b) h = absurd (omega arith)
Fits-live (some q) r n h k = (q, refl)

pub addref-Held :
    (w : World) (f : File) (hand : List File)
    → Held w hand
    → Small w hand
    → Live w hand f
    → (u : World) × (file_addref w f ≡ some u) × (u.tables ≡ w.tables) × Held u (f ∷ hand)
unfolding file_addref
addref-Held w f hand h small alive = elim (Bool-cases (is_end f)) [
  | inl e ↦
      let (q, there) = Fits-live (w.pipes f.pipe) _ _ (h f.pipe) (alive e) in
      let fits =
        subst (λ o. Fits o (all_ends w hand f.pipe false) (all_ends w hand f.pipe true)) there
          (h f.pipe) in
      let new = addref-Fits q f _ _ e (small f.pipe false) (small f.pipe true) fits in
      (
        piped w f hand (some (pipe_addref q (is_writer f))),
        rw (e, there) refl,
        refl,
        more-Held w f hand _ h new,
      )
  | inr e ↦ elim (Bool-cases (fd_type f.type == fd_socket)) [
    | inl k ↦ (
      record w { socks = tcp_addref w.socks f.sock },
      rw (e, k) refl,
      refl,
      plain-Held w f hand e h,
    )
    | inr k ↦ (w, rw (e, k) refl, refl, plain-Held w f hand e h)
  ]
]

pub release-Held :
    (w : World) (f : File) (hand : List File)
    → Held w (f ∷ hand)
    → Small w (f ∷ hand)
    → (u : World) × (file_release w f ≡ some u) × (u.tables ≡ w.tables) × Held u hand
unfolding file_release
release-Held w f hand h small = elim (Bool-cases (is_end f)) [
  | inl e ↦
      let some_end = own_ends f e in
      let (q, there) =
        Fits-live (w.pipes f.pipe) _ _ (h f.pipe)
          (elim some_end [ inl (a, b, c) ↦ omega arith | inr (a, b, c) ↦ omega arith ]) in
      let fits =
        subst (λ o. Fits o (all_ends w (f ∷ hand) f.pipe false) (all_ends w (f ∷ hand) f.pipe true))
          there (h f.pipe) in
      let new =
        release-Fits q f (all_ends w hand f.pipe false) (all_ends w hand f.pipe true) e
          (omega (arith, small f.pipe false)) (omega (arith, small f.pipe true))
          (moved-Fits (some q) _ _ _ _ (omega arith) (omega arith) fits) in
      (
        piped w f hand (pipe_release q (is_writer f)),
        rw (e, there) refl,
        refl,
        fewer-Held w f hand _ h new,
      )
  | inr e ↦ elim (Bool-cases (fd_type f.type == fd_socket)) [
    | inl k ↦ (
      record w { socks = (tcp_release w.socks f.sock w.ticks).0 },
      rw (e, k) refl,
      refl,
      unplain-Held w f hand e h,
    )
    | inr k ↦ (w, rw (e, k) refl, refl, unplain-Held w f hand e h)
  ]
]

-- A file goes from a slot into the hand, and back.
module _ (w : World) (t fd : ℕ) (f : File) (hand : List File) (there : t < length w.tables)
    (small : fd < length (get_or w.tables t [])) where
  pub put-Held : Held w (f ∷ hand) → Held (put_file w t fd f) (file_of w t fd ∷ hand)
  put-Held h p =
      let a = total-put p false w t fd f there small in
      let b = total-put p true w t fd f there small in
      moved-Fits (w.pipes p) _ _ _ _ (omega arith) (omega arith) (h p)
