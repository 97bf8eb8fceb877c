-- ===== src/Tcp/Close.antt =====
-- Dispatch to sockets, references and the end of a connection.
use nos.Prelude.{
  ℕ, zero, suc, ◌+◌, ◌/◌, ◌*◌, ◌<◌, ◌≤◌, ◌^◌, ◌≡◌, ◌≢◌, ◌⊎◌, ap, Option-cases, refl, ◌∙◌, sym, inl,
  inr, List, [], true, false, ◌||◌, Bool-cases, arith, ltb, ◌==◌, pos, add32, length, drop, get_or,
  none, some, subst,
}
use mathlib.Core.Bool.{false≢true}
use nos.Tcp.{
  State, Sock, Header, has, fin_bit, ack_bit, rst_bit, is_established, handle, on_segment, on_ack,
  on_data, on_fin, on_linger, ring_put, rx_sz,
}
use nos.Ring.{put_all}
use nos.Ring.Fifo
use nos.Ring.Fifo.{put_all-Wrote, used}
use nos.Tcp.Window.{in_flight}
use nos.Tcp.Table.{
  Socks, mine, is_free, find_sock, parse, tcp_input, sock_get, tcp_addref, tcp_release, close_sock,
}

-- The segment is for a socket in use: it comes from the socket's peer, and its first four bytes are
-- the ports of both, the peer's first and each with its high byte first.
abbrev pub Addressed : ℕ → List ℕ → Sock → Type 0
Addressed src seg ts =
    (ts.state ≢ State.free)
    × (ts.rip ≡ src)
    × (ts.rport ≡ get_or seg 0 0 * 256 + get_or seg 1 0)
    × (ts.lport ≡ get_or seg 2 0 * 256 + get_or seg 3 0)

mine-Addressed :
    (src : ℕ) (seg : List ℕ) (ts : Sock) → mine src (parse seg) ts ≡ true → Addressed src seg ts
unfolding parse
mine-Addressed src seg ts e =
    (in_use ts.state (ground arith), ground arith, ground arith, ground arith)
  where
    in_use : (st : State) → is_free st ≡ false → st ≢ State.free
    in_use st e h = let clash : true ≡ false = ap is_free (sym h) ∙ e in absurd (cc clash)

Addressed-mine :
    (src : ℕ) (seg : List ℕ) (ts : Sock) → Addressed src seg ts → mine src (parse seg) ts ≡ true
unfolding parse
Addressed-mine src seg ts (a, b, c, d) = let used = in_use ts.state a in ground arith
  where
    in_use : (st : State) → st ≢ State.free → is_free st ≡ false
    in_use State.free h = absurd (h refl)
    in_use State.syn_sent h = refl
    in_use State.established h = refl
    in_use State.linger h = refl

-- The header in the first 20 bytes, most significant byte first, and the place of the data.
abbrev pub header_of : List ℕ → Header
header_of seg =
    let at = λ (i : ℕ). get_or seg i 0 in
    record {
      sport = at 0 * 256 + at 1;
      dport = at 2 * 256 + at 3;
      seq = at 4 * 16777216 + at 5 * 65536 + at 6 * 256 + at 7;
      ack = at 8 * 16777216 + at 9 * 65536 + at 10 * 256 + at 11;
      flags = at 13;
    }

abbrev pub data_at : List ℕ → ℕ
data_at seg = get_or seg 12 0 / 16 * 4

parse-header : (seg : List ℕ) → parse seg ≡ header_of seg
unfolding parse
parse-header seg =
    let h = header_of seg in
    let x : (parse seg).seq ≡ h.seq = omega arith in
    let y : (parse seg).ack ≡ h.ack = omega arith in
    ap (λ k. record (parse seg) { seq = k }) x ∙ ap (λ k. record h { ack = k }) y

-- Slot j gets nothing: the segment is too short or its header is, or the slot does not exist, or
-- is not the one addressed, or comes behind another that is.
abbrev pub Ignored : Socks → ℕ → List ℕ → ℕ → Type 0
Ignored s src seg j =
    (length seg < 20)
    ⊎ (data_at seg < 20)
    ⊎ (length seg < data_at seg)
    ⊎ (4 ≤ j)
    ⊎ (¬ Addressed src seg (s j))
    ⊎ ((k : ℕ) × (k < j) × Addressed src seg (s k))

-- Slot j takes the segment: it is the first of the four that are addressed.
abbrev pub Delivered : Socks → ℕ → List ℕ → ℕ → Type 0
Delivered s src seg j =
    (20 ≤ data_at seg)
    × (data_at seg ≤ length seg)
    × (j < 4)
    × Addressed src seg (s j)
    × ((k : ℕ) → k < j → ¬ Addressed src seg (s k))

find_sock-first :
    (n i : ℕ) (s : Socks) (src : ℕ) (th : Header) (k : ℕ)
    → find_sock n i s src th ≡ some k
    → (k < i + n)
      × (mine src th (s k) ≡ true)
      × ((m : ℕ) → i ≤ m → m < k → mine src th (s m) ≡ false)
unfolding find_sock
find_sock-first zero i s src th k e = absurd (cc e)
find_sock-first (suc n) i s src th k e = elim (Bool-cases (mine src th (s i))) [
  | inl m ↦
      let found : some i ≡ some k = sym (rw m refl) ∙ e in
      let same : i ≡ k = cc found in
      (
        omega arith,
        subst (λ q. mine src th (s q) ≡ true) same m,
        (λ q low high. absurd (omega arith)),
      )
  | inr m ↦
      let (a, b, c) = find_sock-first n (i + 1) s src th k (sym (rw m refl) ∙ e) in
      (
        omega arith,
        b,
        (λ q low high. elim (Bool-cases (i == q)) [
          | inl same ↦
              let here : i ≡ q = ground arith in subst (λ r. mine src th (s r) ≡ false) here m
          | inr other ↦ c q (ground arith) high
        ]),
      )
]

find_sock-none :
    (n i : ℕ) (s : Socks) (src : ℕ) (th : Header)
    → find_sock n i s src th ≡ none
    → (m : ℕ) → i ≤ m
    → m < i + n
    → mine src th (s m) ≡ false
unfolding find_sock
find_sock-none zero i s src th e m low high = absurd (omega arith)
find_sock-none (suc n) i s src th e m low high = elim (Bool-cases (mine src th (s i))) [
  | inl h ↦ let found : some i ≡ none = sym (rw h refl) ∙ e in absurd (cc found)
  | inr h ↦ elim (Bool-cases (i == m)) [
    | inl same ↦ let here : i ≡ m = ground arith in subst (λ r. mine src th (s r) ≡ false) here h
    | inr other ↦
        find_sock-none n (i + 1) s src th (sym (rw h refl) ∙ e) m (ground arith) (omega arith)
  ]
]

module _ (s : Socks) (src : ℕ) (seg : List ℕ) where
  not_mine : (k : ℕ) → mine src (parse seg) (s k) ≡ false → ¬ Addressed src seg (s k)
  not_mine k e h = false≢true (sym e ∙ Addressed-mine src seg (s k) h)

  nobody : (j : ℕ) → find_sock 4 0 s src (parse seg) ≡ none → Ignored s src seg j
  nobody j g = elim (Bool-cases (ltb j 4)) [
    | inl low ↦ inr (
        inr (
          inr (
            inr (
              inl (
                not_mine j
                  (find_sock-none 4 0 s src (parse seg) g j (omega arith) (ground arith)))))))
    | inr high ↦ inr (inr (inr (inl (ground arith))))
  ]

  behind :
      (j k : ℕ) → find_sock 4 0 s src (parse seg) ≡ some k → (k == j) ≡ false → Ignored s src seg j
  behind j k g other =
      let (a, b, c) = find_sock-first 4 0 s src (parse seg) k g in
      elim (Bool-cases (ltb k j)) [
        | inl after ↦ inr (inr (inr (inr (inr (k, ground arith, mine-Addressed src seg (s k) b)))))
        | inr before ↦ inr (inr (inr (inr (inl (not_mine j (c j (omega arith) (ground arith)))))))
      ]

  chosen :
      (k : ℕ)
      → find_sock 4 0 s src (parse seg) ≡ some k
      → (ltb (data_at seg) 20 || ltb (length seg) (data_at seg)) ≡ false
      → Delivered s src seg k
  chosen k g f =
      let (a, b, c) = find_sock-first 4 0 s src (parse seg) k g in
      (
        ground arith,
        ground arith,
        omega arith,
        mine-Addressed src seg (s k) b,
        λ m low. not_mine m (c m (omega arith) low),
      )

  found :
      (j k : ℕ)
      → find_sock 4 0 s src (parse seg) ≡ some k
      → ltb (length seg) 20 ≡ false
      → (ltb (data_at seg) 20 || ltb (length seg) (data_at seg)) ≡ false
      → (((tcp_input s src seg).0 j ≡ s j) × Ignored s src seg j)
        ⊎ (((tcp_input s src seg).0 j ≡ (handle (s j) (header_of seg) (drop (data_at seg) seg)).0)
            × Delivered s src seg j)
  unfolding tcp_input
  found j k g e f = elim (Bool-cases (k == j)) [
    | inl h ↦
        let same : k ≡ j = ground arith in
        let data_bytes = drop (data_at seg) seg in
        inr (
          rw (tcp_input, e, f, g, h)
              (ap (λ q. (handle (s q) (parse seg) data_bytes).0) same
                ∙ ap (λ th. (handle (s j) th data_bytes).0) (parse-header seg)),
          subst (Delivered s src seg) same (chosen k g f),
        )
    | inr h ↦ inl (rw (tcp_input, e, f, g, h) refl, behind j k g h)
  ]

  -- For any segment and any slot: either the slot is as it was, and the segment is shorter than
  -- 20 bytes, or its header length is below 20 or beyond its end, or the slot is none of the
  -- four, or the segment is not for it, or it is for an earlier slot too; or none of these holds,
  -- and the slot has what handle makes of it with the fields of the header, high byte first, and
  -- the bytes behind the header. A segment is for a socket that is not free if it comes from the
  -- address of the peer and has the port of the peer in its first two bytes and that of the
  -- socket in the next two.
  pub tcp_input-outcome :
      (j : ℕ)
      → (((tcp_input s src seg).0 j ≡ s j) × Ignored s src seg j)
        ⊎ (((tcp_input s src seg).0 j ≡ (handle (s j) (header_of seg) (drop (data_at seg) seg)).0)
            × Delivered s src seg j)
  unfolding tcp_input
  tcp_input-outcome j = elim (Bool-cases (ltb (length seg) 20)) [
    | inl e ↦ rw (tcp_input, e) (inl (refl, inl (ground arith)))
    | inr e ↦ elim (Bool-cases (ltb (data_at seg) 20 || ltb (length seg) (data_at seg))) [
      | inl f ↦
          rw (tcp_input, e, f)
            (inl (
              refl,
              elim (Bool-cases (ltb (data_at seg) 20)) [
                | inl g ↦ inr (inl (ground arith))
                | inr g ↦ inr (inr (inl (ground arith)))
              ],
            ))
      | inr f ↦ elim (Option-cases (find_sock 4 0 s src (parse seg))) [
        | inl g ↦ rw (tcp_input, e, f, g) (inl (refl, nobody j g))
        | inr (k, g) ↦ found j k g e f
      ]
    ]
  ]

-- An extra reference to a live socket and its release leave every socket as it was, and send
-- nothing.
pub release-addref :
    (s : Socks) (i : ℕ) (now j : ℕ)
    → i < 4
    → is_free (s i).state ≡ false
    → 0 < (s i).refs
    → (s i).refs + 1 < 2 ^ 31
    → let (u, out) = tcp_release (tcp_addref s (pos i)) (pos i) now in (u j ≡ s j) × (out ≡ [])
unfolding tcp_release tcp_addref sock_get
release-addref s i now j lt up pos_refs small = ground arith

-- Where a socket is established, neither reset nor past a FIN of either side, with 32-bit
-- sequence numbers and fewer than 2 ^ 31 - 1 bytes in flight, and is released for the last time:
-- a segment with ACK and FIN and without RST that acknowledges all that was sent, the FIN
-- included, and starts at the next byte that is expected frees the slot, if its data, which may
-- be none, fits into the ring, whose indices are in bounds.
pub teardown :
    (ts : Sock) (now : ℕ) (th : Header) (payload : List ℕ)
    → is_established ts.state ≡ true
    → ts.reset ≡ false
    → ts.fin_sent ≡ false
    → ts.peer_fin ≡ false
    → ts.snd_nxt < 2 ^ 32
    → ts.snd_una < 2 ^ 32
    → in_flight ts + 1 < 2 ^ 31
    → has th.flags rst_bit ≡ false
    → has th.flags ack_bit ≡ true
    → has th.flags fin_bit ≡ true
    → th.ack ≡ add32 ts.snd_nxt 1
    → th.seq ≡ ts.rcv_nxt
    → th.seq < 2 ^ 32
    → Fifo.IsValid rx_sz ts.rx
    → length payload + used rx_sz ts.rx < rx_sz
    → (handle (close_sock ts now).0 th payload).0.state ≡ State.free
unfolding close_sock handle on_segment on_ack on_data on_fin on_linger ring_put
teardown ts now th payload est nr nf np nb ub fl rst ack fin a q qb ok room =
    let count : (put_all rx_sz ts.rx payload).0 ≡ length payload =
      (put_all-Wrote rx_sz payload ts.rx ok).count ∙ omega arith in
    ground arith
