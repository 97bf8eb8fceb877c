-- ===== src/Ring/Fifo.antt =====
-- A ring of `sz` slots is a first-in first-out queue of at most `sz - 1` bytes.
use nos.Prelude.{
  ℕ, zero, suc, ◌+◌, ◌-◌, ◌%◌, ◌<◌, min, ◌≡◌, refl, ap, ◌∙◌, ◌≢◌, ◌↔◌, inl, inr, List, [], ◌∷◌,
  ◌++◌, append-nil, append_assoc, arith, update, length, take, drop, leb, if◌then◌else◌, ◌==◌,
  Bool-cases, true, false,
}
use native.Mathlib.Nat.{mod-eq_of_lt}
use nos.Ring.{Ring, next, put_all, get_upto}

pub record IsValid (sz : ℕ) (r : Ring) : Type 0 where
  pub head_in : r.head < sz
  pub tail_in : r.tail < sz

-- The number of bytes in the ring.
abbrev pub used : ℕ → Ring → ℕ
used sz r = if leb r.tail r.head then r.head - r.tail else r.head + sz - r.tail

-- The `n` slots from index `t` on, going round at `sz`.
abbrev pub window : {A : Type 0} → ℕ → (ℕ → A) → ℕ → ℕ → List A
window sz buf t zero = []
window sz buf t (suc n) = buf t ∷ window sz buf (next sz t) n

-- Oldest first.
abbrev pub contents : ℕ → Ring → List ℕ
contents sz r = window sz r.buf r.tail (used sz r)

pub length-window : {A : Type 0} (sz : ℕ) (buf : ℕ → A) (t n : ℕ) → length (window sz buf t n) ≡ n
length-window sz buf t zero = refl
length-window sz buf t (suc n) = ap suc (length-window sz buf (next sz t) n)

pub length-contents : (sz : ℕ) (r : Ring) → length (contents sz r) ≡ used sz r
length-contents sz r = length-window sz r.buf r.tail (used sz r)

pub next_lem : (sz i : ℕ) → i < sz → next sz i ≡ (if i + 1 == sz then 0 else i + 1)
next_lem sz i h = elim (Bool-cases (i + 1 == sz)) [
  | inl e ↦ rw e (wrap (i + 1) sz (ground arith))
  | inr e ↦ rw e (mod-eq_of_lt (ground arith))
]
  where
    wrap : (a b : ℕ) → a ≡ b → a % b ≡ 0
    wrap a b e = grind arith

pub used_lt : (sz : ℕ) (r : Ring) → IsValid sz r → used sz r < sz
used_lt sz r v = ground arith

-- The index `n` steps after `t`.
abbrev pub at : ℕ → ℕ → ℕ → ℕ
at sz t n = if leb sz (t + n) then t + n - sz else t + n

pub at-next :
    (sz t n : ℕ) → t < sz → n + 1 < sz → (at sz (next sz t) n ≡ at sz t (suc n)) × (next sz t < sz)
at-next sz t n ht hn = ground (arith, next_lem sz t ht)

-- What is written just past a window extends it.
pub window-update :
    {A : Type 0} (sz : ℕ) (buf : ℕ → A) (x : A) (n t h : ℕ)
    → t < sz
    → n < sz
    → h ≡ at sz t n
    → window sz (update buf h x) t (suc n) ≡ window sz buf t n ++ (x ∷ [])
window-update sz buf x zero t h ht hn e = ground arith
window-update sz buf x (suc n) t h ht hn e = ground (
  arith,
  at-next sz t n ht (omega arith),
  window-update sz buf x n (next sz t) h (at-next sz t n ht (omega arith)).1 (omega arith)
      (ground (arith, at-next sz t n ht (omega arith))),
)

-- One more byte in the ring: where it goes, and when there is no room.
used-push :
    (sz : ℕ) (r : Ring) (b : ℕ → ℕ)
    → IsValid sz r
    → next sz r.head ≢ r.tail
    → used sz (record r { buf = b; head = next sz r.head }) ≡ suc (used sz r)
used-push sz r b v ne = ground (arith, next_lem sz r.head v.head_in)

full_iff : (sz : ℕ) (r : Ring) → IsValid sz r → (next sz r.head ≡ r.tail) ↔ (used sz r + 1 ≡ sz)
full_iff sz r v = ground (arith, next_lem sz r.head v.head_in)

contents-push :
    (sz : ℕ) (r : Ring) (x : ℕ)
    → IsValid sz r
    → next sz r.head ≢ r.tail
    → contents sz (record r { buf = update r.buf r.head x; head = next sz r.head })
      ≡ contents sz r ++ (x ∷ [])
contents-push sz r x v ne =
    rw (used-push sz r (update r.buf r.head x) v ne)
      (window-update sz r.buf x (used sz r) r.tail r.head v.tail_in (used_lt sz r v) (ground arith))

-- What the writing loop has done when it ends.
pub record Wrote (sz : ℕ) (r : Ring) (xs : List ℕ) (out : ℕ × Ring) : Type 0 where
  pub valid : IsValid sz out.1
  pub count : out.0 ≡ min (length xs) (sz - 1 - used sz r)
  pub bytes : contents sz out.1 ≡ contents sz r ++ take out.0 xs
  pub tail_kept : out.1.tail ≡ r.tail

put-full :
    (sz : ℕ) (r : Ring) (x : ℕ) (xs : List ℕ)
    → (next sz r.head == r.tail) ≡ true
    → put_all sz r (x ∷ xs) ≡ (0, r)
unfolding put_all
put-full sz r x xs e = rw e

put-room :
    (sz : ℕ) (r : Ring) (x : ℕ) (xs : List ℕ)
    → (next sz r.head == r.tail) ≡ false
    → let rest = put_all sz (record r { buf = update r.buf r.head x; head = next sz r.head }) xs in
      put_all sz r (x ∷ xs) ≡ (suc rest.0, rest.1)
unfolding put_all
put-room sz r x xs e = rw e

pub put_all-Wrote :
    (sz : ℕ) (xs : List ℕ) (r : Ring) → IsValid sz r → Wrote sz r xs (put_all sz r xs)
unfolding put_all
put_all-Wrote sz [] r v = record {
  valid = v;
  count = omega arith;
  bytes = rw append-nil;
  tail_kept = refl;
}
put_all-Wrote sz (x ∷ xs) r v = elim (Bool-cases (next sz r.head == r.tail)) [
  | inl e ↦ rw (put-full sz r x xs e) (record {
    valid = v;
    count = omega (arith, (full_iff sz r v).0 (ground arith));
    bytes = rw append-nil;
    tail_kept = refl;
  })
  | inr e ↦
      let ne : next sz r.head ≢ r.tail = ground arith in
      let r' : Ring = record r { buf = update r.buf r.head x; head = next sz r.head } in
      let v' : IsValid sz r' = record { head_in = omega (arith, v.head_in); tail_in = v.tail_in } in
      let ih = put_all-Wrote sz xs r' v' in
      rw (put-room sz r x xs e) (record {
        valid = ih.valid;
        count =
            omega (arith, ih.count, used-push sz r (update r.buf r.head x) v ne, used_lt sz r' v');
        bytes =
            ih.bytes
            ∙ ap (λ c. c ++ take (put_all sz r' xs).0 xs) (contents-push sz r x v ne)
            ∙ append_assoc (contents sz r) (x ∷ []) _;
        tail_kept = ih.tail_kept;
      })
]

-- What the reading loop has done when it ends.
pub record Took (sz len : ℕ) (r : Ring) (out : List ℕ × Ring) : Type 0 where
  pub valid : IsValid sz out.1
  pub bytes : out.0 ≡ take len (contents sz r)
  pub rest : contents sz out.1 ≡ drop len (contents sz r)
  pub head_kept : out.1.head ≡ r.head

-- The oldest byte, and the rest of the ring.
contents-pop :
    (sz : ℕ) (r : Ring)
    → IsValid sz r
    → r.tail ≢ r.head
    → contents sz r ≡ r.buf r.tail ∷ contents sz (record r { tail = next sz r.tail })
contents-pop sz r v ne = ap (window sz r.buf r.tail) step
  where
    step : used sz r ≡ suc (used sz (record r { tail = next sz r.tail }))
    step = ground (arith, next_lem sz r.tail v.tail_in)

contents-empty : (sz : ℕ) (r : Ring) → r.tail ≡ r.head → contents sz r ≡ []
contents-empty sz r e = let z : used sz r ≡ 0 = ground arith in ap (window sz r.buf r.tail) z

get-empty : (sz len : ℕ) (r : Ring) → (r.tail == r.head) ≡ true → get_upto sz (suc len) r ≡ ([], r)
unfolding get_upto
get-empty sz len r e = rw e

get-some :
    (sz len : ℕ) (r : Ring)
    → (r.tail == r.head) ≡ false
    → let rest = get_upto sz len (record r { tail = next sz r.tail }) in
      get_upto sz (suc len) r ≡ (r.buf r.tail ∷ rest.0, rest.1)
unfolding get_upto
get-some sz len r e = rw e

pub get_upto-Took : (sz len : ℕ) (r : Ring) → IsValid sz r → Took sz len r (get_upto sz len r)
unfolding get_upto
get_upto-Took sz zero r v = record { valid = v; bytes = refl; rest = refl; head_kept = refl }
get_upto-Took sz (suc len) r v = elim (Bool-cases (r.tail == r.head)) [
  | inl e ↦
      let nil = contents-empty sz r (ground arith) in
      rw (get-empty sz len r e)
        (record { valid = v; bytes = rw nil; rest = rw nil; head_kept = refl })
  | inr e ↦
      let r' : Ring = record r { tail = next sz r.tail } in
      let v' : IsValid sz r' = record { head_in = v.head_in; tail_in = omega (arith, v.tail_in) } in
      let ih = get_upto-Took sz len r' v' in
      let pop = contents-pop sz r v (ground arith) in
      rw (get-some sz len r e) (record {
        valid = ih.valid;
        bytes = rw pop (ap (◌∷◌ (r.buf r.tail)) ih.bytes);
        rest = rw pop ih.rest;
        head_kept = ih.head_kept;
      })
]
