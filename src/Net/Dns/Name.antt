-- ===== src/Net/Dns/Name.antt =====
-- The name that `dns_send_query` encodes is one that `dns_skip_name` steps over.
use nos.Prelude.{
  ℕ, zero, suc, ◌+◌, ◌≤◌, ◌<◌, ◌≡◌, refl, ap, ◌∙◌, inl, inr, List, [], ◌∷◌, ◌++◌, append_assoc,
  Option, none, some, Bool, true, false, ◌||◌, Bool-cases, arith, ltb, length, drop, get_elem?,
  bit_and, ◌==◌, if◌then◌else◌, ◌>>=◌, get_elem?-drop, drop-add, drop-append_self, lt_of_drop,
  length-append, length-drop, subst, not, passes_below, passes_below_lem,
}
use nos.Net.Dns.{skip_loop, dns_skip_name, labels}

-- A sequence of labels, each behind its length.
pub data Wire : List ℕ → Type 0 where
  one : (l : List ℕ) → 0 < length l → length l < 64 → Wire (length l ∷ l)
  more :
      (l rest : List ℕ) → 0 < length l → length l < 64 → Wire rest → Wire (length l ∷ (l ++ rest))

closed_label :
    (cur : List ℕ) (o : Option (List ℕ)) (w : List ℕ)
    → (if length cur == 0 || ltb 63 (length cur) then none else o) ≡ some w
    → (0 < length cur) × (length cur < 64) × (o ≡ some w)
closed_label cur o w h = elim (Bool-cases (length cur == 0 || ltb 63 (length cur))) [
  | inl e ↦ absurd (cc (subst (λ b. (if b then none else o) ≡ some w) e h))
  | inr e ↦ (ground arith, ground arith, subst (λ b. (if b then none else o) ≡ some w) e h)
]

joined :
    (cur : List ℕ) (o : Option (List ℕ)) (w : List ℕ)
    → (do rest ← o; some (length cur ∷ (cur ++ rest))) ≡ some w
    → (rest : List ℕ) × (o ≡ some rest) × (length cur ∷ (cur ++ rest) ≡ w)
joined cur none w h = absurd (cc)
joined cur (some rest) w h = (rest, refl, cc)

labels-Wire : (cur name : List ℕ) (w : List ℕ) → labels cur name ≡ some w → Wire w
unfolding labels
labels-Wire cur [] w h =
    let (pos, small, e) = closed_label cur (some (length cur ∷ cur)) w h in
    subst Wire (cc) (Wire.one cur pos small)
labels-Wire cur (c ∷ name) w h = elim (Bool-cases (c == b'.')) [
  | inl dot ↦
      let (pos, small, e) = closed_label cur _ w (rw dot at h) in
      let (rest, r, eq) = joined cur (labels [] name) w e in
      subst Wire eq (Wire.more cur rest pos small (labels-Wire [] name rest r))
  | inr plain ↦ labels-Wire (cur ++ (c ∷ [])) name w (rw plain at h)
]

low_table : passes_below (λ l. not (bit_and l 0xC0 == 0xC0)) 64 ≡ true
unfolding passes_below
low_table = refl

-- The length of a label is no compression pointer.
no_pointer : (l : ℕ) → l < 64 → (bit_and l 0xC0 == 0xC0) ≡ false
no_pointer l h = flip _ (passes_below_lem _ low_table h)
  where
    flip : (b : Bool) → not b ≡ true → b ≡ false
    flip true e = absurd (cc)
    flip false e = refl

-- One round of the loop at a label.
skip_label :
    (f : ℕ) (p : List ℕ) (off l : ℕ)
    → off < length p
    → get_elem? p off ≡ some l
    → 0 < l
    → l < 64
    → skip_loop (suc f) p off ≡ skip_loop f p (off + 1 + l)
unfolding skip_loop
skip_label f p off l inside e pos small =
    let t : ltb off (length p) ≡ true = ground arith in
    let z : (l == 0) ≡ false = ground arith in rw (t, e, z, no_pointer l small)

skip_root :
    (f : ℕ) (p : List ℕ) (off : ℕ)
    → off < length p
    → get_elem? p off ≡ some 0
    → skip_loop (suc f) p off ≡ some (off + 1)
unfolding skip_loop
skip_root f p off inside e = let t : ltb off (length p) ≡ true = ground arith in rw (t, e)

first_byte :
    (p : List ℕ) (off x : ℕ) (r : List ℕ)
    → drop off p ≡ x ∷ r
    → (off < length p) × (get_elem? p off ≡ some x)
first_byte p off x r e =
    (lt_of_drop off p x r e, get_elem?-drop p off ∙ ap (λ (l : List ℕ). get_elem? l 0) e)

after_label :
    (p l r : List ℕ) (off : ℕ) → drop off p ≡ length l ∷ (l ++ r) → drop (off + 1 + length l) p ≡ r
after_label p l r off e =
    let s : off + 1 + length l ≡ off + suc (length l) = omega arith in
    ap (λ k. drop k p) s
    ∙ drop-add off (suc (length l)) p
    ∙ ap (drop (suc (length l))) e
    ∙ drop-append_self l r

at_root :
    (f : ℕ) (p rest : List ℕ) (off : ℕ)
    → drop off p ≡ 0 ∷ rest
    → length p ≤ off + f
    → skip_loop f p off ≡ some (off + 1)
at_root zero p rest off e h = absurd (omega (arith, lt_of_drop off p 0 rest e))
at_root (suc f) p rest off e h =
    let (inside, here) = first_byte p off 0 rest e in skip_root f p off inside here

-- One label of the name, and then what the rest of the loop gives.
label_then :
    (f : ℕ) (p l r : List ℕ) (off end : ℕ)
    → 0 < length l
    → length l < 64
    → drop off p ≡ length l ∷ (l ++ r)
    → skip_loop f p (off + 1 + length l) ≡ some end
    → skip_loop (suc f) p off ≡ some end
label_then f p l r off end pos small e later =
    let (inside, here) = first_byte p off (length l) (l ++ r) e in
    skip_label f p off (length l) inside here pos small ∙ later

-- The bytes from `off` on are a name, its root label and what follows.
skip-Wire :
    (f : ℕ) {w : List ℕ} (name : Wire w) (p rest : List ℕ) (off : ℕ)
    → drop off p ≡ w ++ (0 ∷ rest)
    → length p ≤ off + f
    → skip_loop f p off ≡ some (off + length w + 1)
skip-Wire zero {w} name p rest off e h =
    absurd (omega (arith, ap length e, length-drop off p, length-append w (0 ∷ rest)))
skip-Wire (suc f) (Wire.one l pos small) p rest off e h =
    let s : off + 1 + length l + 1 ≡ off + suc (length l) + 1 = omega arith in
    label_then f p l (0 ∷ rest) off _ pos small e
      (at_root f p rest _ (after_label p l (0 ∷ rest) off e) (omega arith) ∙ ap some s)
skip-Wire (suc f) (Wire.more l w pos small name) p rest off e h =
    let e' : drop off p ≡ length l ∷ (l ++ (w ++ (0 ∷ rest))) =
      e ∙ ap (◌∷◌ (length l)) (append_assoc l w (0 ∷ rest)) in
    let s : off + 1 + length l + length w + 1 ≡ off + suc (length (l ++ w)) + 1 =
      omega (arith, length-append l w) in
    label_then f p l (w ++ (0 ∷ rest)) off _ pos small e' (
      skip-Wire f name p rest _ (after_label p l (w ++ (0 ∷ rest)) off e') (omega arith)
      ∙ ap some s)

-- Where a packet holds the encoded form of a host name and a root label, dns_skip_name returns
-- the offset just behind the root label.
pub skip_name-labels :
    (name w p rest : List ℕ) (off : ℕ)
    → labels [] name ≡ some w
    → drop off p ≡ w ++ (0 ∷ rest)
    → dns_skip_name p off ≡ some (off + length w + 1)
unfolding dns_skip_name
skip_name-labels name w p rest off h e =
    skip-Wire (length p) (labels-Wire [] name w h) p rest off e (omega arith)
