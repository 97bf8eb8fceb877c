-- ===== src/Console/Channels.antt =====
-- Channels stay sound and apart, and each is a queue in both directions.
use nos.Prelude.{
  ℕ, zero, suc, ◌+◌, ◌-◌, ◌<◌, ◌≤◌, min, ◌≡◌, refl, ap, ◌∙◌, ◌⊎◌, inl, inr, List, ◌++◌, Bool, true,
  false, Bool-cases, arith, ltb, ◌==◌, ◌&&◌, if◌then◌else◌, ℤ, pos, negsuc, minus_one, signed32,
  length, take, drop, update,
}
use nos.Ring.{Ring, next, put_all}
use nos.Ring.Fifo
use nos.Ring.Fifo.{contents, put_all-Wrote, get_upto-Took, used, length-contents}
use nos.Console.{
  Console, Table, out_sz, in_sz, nconsole, console_valid, console_alloc, alloc_from, console_free,
  console_set_pid, console_out_write, console_out_read, console_in_write, console_in_getc, opened,
  index,
}

pub record IsValid (c : Console) : Type 0 where
  pub out_ok : Fifo.IsValid out_sz c.out
  pub in_ok : Fifo.IsValid in_sz c.inp

-- Every channel of the array has its indices in bounds, also a free one.
abbrev pub TableIsValid : Table → Type 0
TableIsValid t = (i : ℕ) → i < nconsole → IsValid (t i)

-- One call.
pub data Call : Type 0 where
  alloc : Call
  free : ℤ → Call
  set_pid : ℤ → ℤ → Call
  out_write in_write : ℤ → List ℕ → Call
  out_read : ℤ → ℕ → Call
  in_getc : ℤ → Call

abbrev pub after : Table → Call → Table
after t alloc = (console_alloc t).1
after t (free cid) = console_free t cid
after t (set_pid cid pid) = console_set_pid t cid pid
after t (out_write cid bytes) = (console_out_write t cid bytes).1
after t (in_write cid bytes) = (console_in_write t cid bytes).1
after t (out_read cid len) = (console_out_read t cid len).2
after t (in_getc cid) = (console_in_getc t cid).1

-- The table after a call: its channels are valid, and nothing behind the array has changed.
abbrev pub Stays : Table → Table → Type 0
Stays t u = TableIsValid u × ((i : ℕ) → nconsole ≤ i → u i ≡ t i)

update-Stays :
    (t : Table) (i : ℕ) (c : Console)
    → i < nconsole
    → TableIsValid t
    → IsValid c
    → Stays t (update t i c)
update-Stays t i c small v w = (
  (λ j lt. elim (Bool-cases (i == j)) [ inl e ↦ rw e w | inr e ↦ rw e (v j lt) ]),
  (λ j high. let other : (i == j) ≡ false = ground arith in rw other refl),
)

valid-low : (t : Table) (cid : ℤ) → console_valid t cid ≡ true → index cid < nconsole
unfolding console_valid
valid-low t (pos i) e = ground arith
valid-low t (negsuc n) e = absurd (cc e)

alloc_from-Stays :
    (n i : ℕ) (t : Table) → n + i ≤ nconsole → TableIsValid t → Stays t (alloc_from n i t).1
unfolding alloc_from
alloc_from-Stays zero i t small v = (v, λ j high. refl)
alloc_from-Stays (suc n) i t small v = elim (Bool-cases (t i).used) [
  | inl e ↦ rw e (alloc_from-Stays n (i + 1) t (omega arith) v)
  | inr e ↦ rw e (
      update-Stays t i (opened (t i)) (omega arith) v
        (record { out_ok = omega arith; in_ok = omega arith }))
]

-- A call that writes a channel if its number passes the test.
guarded {ℓ} :
    {X : Type ℓ} (t : Table) (cid : ℤ) (table : X → Table) (x y : X)
    → (index cid < nconsole → Stays t (table x))
    → Stays t (table y)
    → Stays t (table (if console_valid t cid then x else y))
guarded t cid table x y v w = elim (Bool-cases (console_valid t cid)) [
  | inl e ↦ rw e (v (valid-low t cid e))
  | inr e ↦ rw e w
]

module _ (t : Table) (i : ℕ) (v : TableIsValid t) where
  with_out :
      (r : Ring)
      → (i < nconsole → Fifo.IsValid out_sz r)
      → i < nconsole
      → Stays t (update t i (record (t i) { out = r }))
  with_out r w small =
      update-Stays t i _ small v (record { out_ok = w small; in_ok = (v i small).in_ok })

  with_in :
      (r : Ring)
      → (i < nconsole → Fifo.IsValid in_sz r)
      → i < nconsole
      → Stays t (update t i (record (t i) { inp = r }))
  with_in r w small =
      update-Stays t i _ small v (record { out_ok = (v i small).out_ok; in_ok = w small })

  same_rings :
      (used : Bool) (pid : ℤ)
      → i < nconsole
      → Stays t (update t i (record (t i) { used = used; pid = pid }))
  same_rings used pid small =
      update-Stays t i _ small v (record { out_ok = (v i small).out_ok; in_ok = (v i small).in_ok })

  unchanged : Stays t t
  unchanged = (v, λ j high. refl)

  getc-IsValid :
      i < nconsole → Fifo.IsValid in_sz (record (t i).inp { tail = next in_sz (t i).inp.tail })
  getc-IsValid small = record { head_in = (v i small).in_ok.head_in; tail_in = omega arith }

getc-Stays : (t : Table) (cid : ℤ) → TableIsValid t → Stays t (console_in_getc t cid).1
unfolding console_in_getc
getc-Stays t cid v = elim (Bool-cases (console_valid t cid)) [
  | inl e ↦ rw e (elim (Bool-cases ((t (index cid)).inp.tail == (t (index cid)).inp.head)) [
    | inl d ↦ rw d (unchanged t (index cid) v)
    | inr d ↦ rw d (with_in t (index cid) v _ (getc-IsValid t (index cid) v) (valid-low t cid e))
  ])
  | inr e ↦ rw e (unchanged t (index cid) v)
]

-- Where the eight channels have the indices of their rings in bounds, they still do after any
-- call with any channel number, and nothing behind the array of the channels has changed.
pub after-Stays : (t : Table) (call : Call) → TableIsValid t → Stays t (after t call)
unfolding console_alloc console_free console_set_pid console_out_write console_out_read
    console_in_write
after-Stays t alloc v = alloc_from-Stays nconsole 0 t (omega arith) v
after-Stays t (free cid) v =
    guarded t cid (λ u. u) _ t (same_rings t (index cid) v false (t (index cid)).pid)
      (unchanged t 0 v)
after-Stays t (set_pid cid pid) v =
    guarded t cid (λ u. u) _ t (same_rings t (index cid) v (t (index cid)).used pid)
      (unchanged t 0 v)
after-Stays t (out_write cid bytes) v =
    guarded {X = ℤ × Table} t cid (λ r. r.1) _ _
      (with_out t (index cid) v _
        (λ small. (put_all-Wrote out_sz bytes _ (v (index cid) small).out_ok).valid))
      (unchanged t 0 v)
after-Stays t (in_write cid bytes) v =
    guarded {X = ℤ × Table} t cid (λ r. r.1) _ _
      (with_in t (index cid) v _
        (λ small. (put_all-Wrote in_sz bytes _ (v (index cid) small).in_ok).valid))
      (unchanged t 0 v)
after-Stays t (out_read cid len) v =
    guarded {X = ℤ × List ℕ × Table} t cid (λ r. r.2) _ _
      (with_out t (index cid) v _
        (λ small. (get_upto-Took out_sz len _ (v (index cid) small).out_ok).valid))
      (unchanged t 0 v)
after-Stays t (in_getc cid) v = getc-Stays t cid v

-- What a channel's owner can still drain, and what its task can still get.
abbrev pub output : Table → ℕ → List ℕ
output t i = contents out_sz (t i).out

abbrev pub input : Table → ℕ → List ℕ
input t i = contents in_sz (t i).inp

abbrev pub fits : Table → ℕ → List ℕ → ℕ
fits t i bytes = min (length bytes) (out_sz - 1 - length (output t i))

update_self : (t : Table) (i : ℕ) (c : Console) → update t i c i ≡ c
update_self t i c = let e : (i == i) ≡ true = ground arith in rw e

still_valid :
    (t : Table) (i : ℕ) (c : Console)
    → c.used ≡ (t i).used
    → console_valid (update t i c) (pos i) ≡ console_valid t (pos i)
unfolding console_valid
still_valid t i c e =
    ap (λ b. ltb i nconsole && b) (ap (λ (d : Console). d.used) (update_self t i c) ∙ e)

write-queue :
    (t : Table) (i : ℕ) (bytes : List ℕ)
    → TableIsValid t
    → console_valid t (pos i) ≡ true
    → let (n, u) = console_out_write t (pos i) bytes in
      (n ≡ signed32 (fits t i bytes))
      × (output u i ≡ output t i ++ take (fits t i bytes) bytes)
      × (console_valid u (pos i) ≡ true)
unfolding console_out_write
write-queue t i bytes v h =
    let wrote = put_all-Wrote out_sz bytes (t i).out (v i (valid-low t (pos i) h)).out_ok in
    let count : (put_all out_sz (t i).out bytes).0 ≡ fits t i bytes =
      rw (length-contents out_sz (t i).out) wrote.count in
    rw h (
      ap signed32 count,
      ap (λ c. contents out_sz c.out) (update_self t i _)
          ∙ wrote.bytes
          ∙ ap (λ k. output t i ++ take k bytes) count,
      still_valid t i _ refl ∙ h,
    )

read-queue :
    (t : Table) (i len : ℕ)
    → TableIsValid t
    → console_valid t (pos i) ≡ true
    → let (m, got, w) = console_out_read t (pos i) len in
      (got ≡ take len (output t i))
      × (m ≡ signed32 (length got))
      × (output w i ≡ drop len (output t i))
unfolding console_out_read
read-queue t i len v h =
    let took = get_upto-Took out_sz len (t i).out (v i (valid-low t (pos i) h)).out_ok in
    rw h (
      took.bytes,
      refl,
      ap (λ (c : Console). contents out_sz c.out) (update_self t i _) ∙ took.rest,
    )

-- On a valid channel a write appends the bytes that fit and reports their number, and a read then
-- gets the oldest bytes of both, in order; what is read is gone.
pub write_then_read :
    (t : Table) (i : ℕ) (bytes : List ℕ) (len : ℕ)
    → TableIsValid t
    → console_valid t (pos i) ≡ true
    → let (n, u) = console_out_write t (pos i) bytes in
      let (m, got, w) = console_out_read u (pos i) len in
      let all = output t i ++ take (fits t i bytes) bytes in
      (n ≡ signed32 (fits t i bytes))
      × (got ≡ take len all)
      × (m ≡ signed32 (length got))
      × (output w i ≡ drop len all)
write_then_read t i bytes len v h =
    let (count, stored, h') = write-queue t i bytes v h in
    let u = (console_out_write t (pos i) bytes).1 in
    let (got, m, rest) = read-queue u i len (after-Stays t (out_write (pos i) bytes) v).0 h' in
    (count, got ∙ ap (take len) stored, m, rest ∙ ap (drop len) stored)

-- The `n` slots from `i` on are in use.
abbrev pub AllUsed : Table → ℕ → ℕ → Type 0
AllUsed t i zero = Unit
AllUsed t i (suc n) = ((t i).used ≡ true) × AllUsed t (i + 1) n

-- What a scan of the `n` slots from `i` on may give.
abbrev pub Allocated : Table → ℕ → ℕ → ℤ × Table → Type 0
Allocated t i n out =
    ((d : ℕ) × (d < n)
      × AllUsed t i d
      × ((t (i + d)).used ≡ false)
      × (out.0 ≡ pos (i + d))
      × (out.1 ≡ update t (i + d) (opened (t (i + d)))))
    ⊎ (AllUsed t i n × (out.0 ≡ minus_one) × (out.1 ≡ t))

scan-Allocated : (n i : ℕ) (t : Table) → Allocated t i n (alloc_from n i t)
unfolding alloc_from
scan-Allocated zero i t = inr (tt, refl, refl)
scan-Allocated (suc n) i t = elim (Bool-cases (t i).used) [
  | inl e ↦ rw e (elim (scan-Allocated n (i + 1) t) [
    | inl (d, below, before, here, r, u) ↦
        let s : i + 1 + d ≡ i + suc d = omega arith in
        inl (suc d, omega arith, (e, before), rw (← s) here, rw (← s) r, rw (← s) u)
    | inr (all, r, u) ↦ inr ((refl, all), r, u)
  ])
  | inr e ↦
      let s : i + 0 ≡ i = omega arith in inl (0, omega arith, tt, rw s e, rw (e, s), rw (e, s))
]

-- `console_alloc` hands out the first free slot of the eight, reset and in use, and touches no
-- other; if all eight are in use it returns -1 and changes nothing.
pub alloc-first_free : (t : Table) → Allocated t 0 8 (console_alloc t)
unfolding console_alloc
alloc-first_free t = scan-Allocated 8 0 t
