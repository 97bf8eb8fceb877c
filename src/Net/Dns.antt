-- ===== src/Net/Dns.antt =====
-- The DNS client of kernel/net.c: the question that it sends and the answer that it parses. `none`
-- as the result of a parsing step is a read behind the end of the packet.
pub mod Safe
pub mod Name
mod Tests
use nos.Prelude.{
  ℕ, zero, suc, ◌+◌, ◌*◌, ◌/◌, ◌%◌, ltb, leb, List, [], ◌∷◌, ◌++◌, Option, none, some, Bool, true,
  false, not, ◌&&◌, ◌||◌, if◌then◌else◌, ◌==◌, length, get_elem?, bit_and, ◌>>=◌,
}
use nos.Net.{be16}

-- `dnsq`
pub record Dnsq : Type 0 where
  pub busy : Bool
  pub done : Bool
  pub id : ℕ
  pub port : ℕ
  pub addr : ℕ

-- The offset past the name, or 0. The loop moves up by 1 at least in each round, so that as many
-- rounds as there are bytes behind `off` are enough (`Safe.skip_name-Succeeds`).
unfoldable pub skip_loop : ℕ → List ℕ → ℕ → Option ℕ
skip_loop zero p off = if ltb off (length p) then none else some 0
skip_loop (suc f) p off =
    if ltb off (length p)
    then (do
      l ← get_elem? p off
      let rest = skip_loop f p (off + 1 + l)
      if l == 0 then some (off + 1) else if bit_and l 0xC0 == 0xC0 then some (off + 2) else rest)
    else some 0

unfoldable pub dns_skip_name : List ℕ → ℕ → Option ℕ
unfolding skip_loop
dns_skip_name p off = skip_loop (length p) p off

-- The loop over the questions: the offset behind them, or the `return` on a malformed one.
unfoldable pub questions : ℕ → List ℕ → ℕ → Option (Option ℕ)
questions zero p off = some (some off)
questions (suc n) p off = do
  next ← dns_skip_name p off
  let rest = questions n p (next + 4)
  if next == 0 || ltb (length p) (next + 4) then some none else rest

-- `memcpy` of four bytes into a `uint32_t`
unfoldable pub word_at : List ℕ → ℕ → Option ℕ
word_at p i = do
  a ← get_elem? p i
  b ← get_elem? p (i + 1)
  c ← get_elem? p (i + 2)
  d ← get_elem? p (i + 3)
  some (a + 256 * b + 65536 * c + 16777216 * d)

-- The loop over the answers.
unfoldable pub answers : ℕ → Dnsq → List ℕ → ℕ → Option Dnsq
answers zero q p off = some q
answers (suc n) q p off = do
  next ← dns_skip_name p off
  if next == 0 || ltb (length p) (next + 10) then some q else do
    type ← be16 p next
    rdlen ← be16 p (next + 8)
    let rest = answers n q p (next + 10 + rdlen)
    if ltb (length p) (next + 10 + rdlen)
        then some q
        else if type == 1 && rdlen == 4
        then (do a ← word_at p (next + 10); some (record q { addr = a; done = true }))
        else rest

unfoldable pub dns_input : Dnsq → List ℕ → Option Dnsq
dns_input q p = if ltb (length p) 12 || not q.busy || q.done then some q else do
  id ← be16 p 0
  flags ← be16 p 2
  qdcount ← be16 p 4
  ancount ← be16 p 6
  if not (id == q.id) || bit_and flags 0x8000 == 0 then some q else do
    r ← questions qdcount p 12
    elim r [ none ↦ some q | some off ↦ answers ancount q p off ]

-- The loop of `dns_send_query` over the name and its closing 0: `cur` is the label so far, from
-- `start` on. `none` is `return -1` on a label that is empty or too long.
unfoldable pub labels : List ℕ → List ℕ → Option (List ℕ)
labels cur [] = if length cur == 0 || ltb 63 (length cur) then none else some (length cur ∷ cur)
labels cur (c ∷ name) =
    let more = labels (cur ++ (c ∷ [])) name in
    let closed = (do rest ← labels [] name; some (length cur ∷ (cur ++ rest))) in
    if c == b'.' then (if length cur == 0 || ltb 63 (length cur) then none else closed) else more

-- The question: header, name, root label, type A and class IN.
unfoldable pub dns_query : List ℕ → ℕ → Option (List ℕ)
unfolding labels
dns_query name id = if length name == 0 || ltb 128 (length name) then none else do
  wire ← labels [] name
  some (
      (id / 256 ∷ id % 256 ∷ 1 ∷ 0 ∷ 0 ∷ 1 ∷ 0 ∷ 0 ∷ 0 ∷ 0 ∷ 0 ∷ 0 ∷ [])
      ++ (wire ++ (0 ∷ 0 ∷ 1 ∷ 0 ∷ 1 ∷ [])))
