-- ===== src/Net/Dns/Safe.antt =====
-- The DNS parser reads inside the packet only, and ends, whatever the packet holds.
use nos.Prelude.{
  ℕ, zero, suc, ◌+◌, ◌≤◌, ◌<◌, refl, List, Option, none, some, not, ◌&&◌, ◌||◌, arith, ltb, length,
  bit_and, ◌==◌, Succeeds, bind-Succeeds, if-Succeeds, get_elem?-Succeeds,
}
use nos.Net.{be16}
use nos.Net.Dns.{Dnsq, skip_loop, dns_skip_name, questions, answers, word_at, dns_input}

be16-Succeeds : (p : List ℕ) (i : ℕ) → i + 1 < length p → Succeeds (be16 p i)
unfolding be16
be16-Succeeds p i h =
    bind-Succeeds _ _ (get_elem?-Succeeds p i (omega arith))
      λ a _. bind-Succeeds _ _ (get_elem?-Succeeds p (i + 1) h) λ b _. (_, refl)

word_at-Succeeds : (p : List ℕ) (i : ℕ) → i + 3 < length p → Succeeds (word_at p i)
unfolding word_at
word_at-Succeeds p i h = bind-Succeeds _ _ (get_elem?-Succeeds p i (omega arith)) λ a _.
    bind-Succeeds _ _ (get_elem?-Succeeds p (i + 1) (omega arith)) λ b _.
      bind-Succeeds _ _ (get_elem?-Succeeds p (i + 2) (omega arith))
        λ c _. bind-Succeeds _ _ (get_elem?-Succeeds p (i + 3) h) λ d _. (_, refl)

skip_loop-Succeeds :
    (f : ℕ) (p : List ℕ) (off : ℕ) → length p ≤ off + f → Succeeds (skip_loop f p off)
unfolding skip_loop
skip_loop-Succeeds zero p off h =
    if-Succeeds (ltb off (length p)) _ _ (λ e. absurd (ground arith)) (λ e. (0, refl))
skip_loop-Succeeds (suc f) p off h =
    if-Succeeds (ltb off (length p)) _ _
      (λ e. bind-Succeeds _ _ (get_elem?-Succeeds p off (ground arith)) λ l _.
        if-Succeeds (l == 0) _ _ (λ _. (_, refl))
          (λ _.
            if-Succeeds (bit_and l 0xC0 == 0xC0) _ _ (λ _. (_, refl))
              (λ _. skip_loop-Succeeds f p (off + 1 + l) (omega arith))))
      (λ e. (0, refl))

skip_name-Succeeds : (p : List ℕ) (off : ℕ) → Succeeds (dns_skip_name p off)
unfolding dns_skip_name
skip_name-Succeeds p off = skip_loop-Succeeds (length p) p off (omega arith)

questions-Succeeds : (n : ℕ) (p : List ℕ) (off : ℕ) → Succeeds (questions n p off)
unfolding questions
questions-Succeeds zero p off = (_, refl)
questions-Succeeds (suc n) p off = bind-Succeeds _ _ (skip_name-Succeeds p off) λ next _.
    if-Succeeds (next == 0 || ltb (length p) (next + 4)) _ _ (λ _. (_, refl))
      (λ _. questions-Succeeds n p (next + 4))

answers-Succeeds : (n : ℕ) (q : Dnsq) (p : List ℕ) (off : ℕ) → Succeeds (answers n q p off)
unfolding answers
answers-Succeeds zero q p off = (_, refl)
answers-Succeeds (suc n) q p off = bind-Succeeds _ _ (skip_name-Succeeds p off) λ next _.
    if-Succeeds (next == 0 || ltb (length p) (next + 10)) _ _ (λ _. (_, refl))
      λ room. bind-Succeeds _ _ (be16-Succeeds p next (ground arith)) λ type _.
        bind-Succeeds _ _ (be16-Succeeds p (next + 8) (ground arith)) λ rdlen _.
          if-Succeeds (ltb (length p) (next + 10 + rdlen)) _ _ (λ _. (_, refl))
            λ fits.
              if-Succeeds (type == 1 && rdlen == 4) _ _
                (λ four.
                  bind-Succeeds _ _ (word_at-Succeeds p (next + 10) (ground arith))
                    λ a _. (_, refl))
                (λ _. answers-Succeeds n q p (next + 10 + rdlen))

-- No packet makes the parser of DNS answers read a byte behind the end of the packet, and it ends
-- on every packet.
pub dns_input-Succeeds : (q : Dnsq) (p : List ℕ) → Succeeds (dns_input q p)
unfolding dns_input
dns_input-Succeeds q p =
    if-Succeeds (ltb (length p) 12 || not q.busy || q.done) _ _ (λ _. (_, refl))
      λ long. bind-Succeeds _ _ (be16-Succeeds p 0 (ground arith)) λ id _.
        bind-Succeeds _ _ (be16-Succeeds p 2 (ground arith)) λ flags _.
          bind-Succeeds _ _ (be16-Succeeds p 4 (ground arith)) λ qdcount _.
            bind-Succeeds _ _ (be16-Succeeds p 6 (ground arith)) λ ancount _.
              if-Succeeds (not (id == q.id) || bit_and flags 0x8000 == 0) _ _ (λ _. (_, refl))
                λ _. bind-Succeeds _ _ (questions-Succeeds qdcount p 12) λ r _. behind r q p ancount
  where
    behind :
        (r : Option ℕ) (q : Dnsq) (p : List ℕ) (n : ℕ)
        → Succeeds (elim r [ none ↦ some q | some off ↦ answers n q p off ])
    behind none q p n = (q, refl)
    behind (some off) q p n = answers-Succeeds n q p off
