-- ===== src/Tcp/Table.antt =====
-- The table of sockets: finding the socket of a segment, references, release, and the part of
-- `tcp_connect` that picks a slot.
use nos.Prelude.{
  ℕ, zero, suc, ◌+◌, ◌*◌, ◌/◌, ◌%◌, ltb, leb, List, [], ◌∷◌, Bool, true, false, not, ◌&&◌, ◌||◌,
  if◌then◌else◌, ◌==◌, ℤ, pos, negsuc, add32, sub32, length, drop, get_or, update, Option, none,
  some, bit_or,
}
use nos.Tcp.{State, Sock, Header, Reply, handle, is_established, is_linger, fin_bit, ack_bit}

-- `socks`; `TCP_SOCKS` is 4.
abbrev pub Socks : Type 0
Socks = ℕ → Sock

abbrev pub is_free : State → Bool
is_free State.free = true
is_free _ = false

abbrev be16_at : List ℕ → ℕ → ℕ
be16_at p i = get_or p i 0 * 256 + get_or p (i + 1) 0

abbrev be32_at : List ℕ → ℕ → ℕ
be32_at p i = be16_at p i * 65536 + be16_at p (i + 2)

-- The fields of the first 20 bytes, which are there (`tcp_input` tests the length).
unfoldable pub parse : List ℕ → Header
parse seg = record {
  sport = be16_at seg 0;
  dport = be16_at seg 2;
  seq = be32_at seg 4;
  ack = be32_at seg 8;
  flags = get_or seg 13 0;
}

abbrev pub mine : ℕ → Header → Sock → Bool
mine src th ts =
    not (is_free ts.state) && (ts.rip == src && (ts.rport == th.sport && ts.lport == th.dport))

-- The first socket from `i` on, of `n`, that the segment belongs to.
unfoldable pub find_sock : ℕ → ℕ → Socks → ℕ → Header → Option ℕ
find_sock zero i s src th = none
find_sock (suc n) i s src th =
    let rest = find_sock n (i + 1) s src th in if mine src th (s i) then some i else rest

unfoldable pub tcp_input : Socks → ℕ → List ℕ → Socks × List Reply
unfolding find_sock parse
tcp_input s src seg =
    let doff = get_or seg 12 0 / 16 * 4 in
    let th = parse seg in
    if ltb (length seg) 20
    then (s, [])
    else if ltb doff 20 || ltb (length seg) doff
    then (s, [])
    else elim (find_sock 4 0 s src th) [
      | none ↦ (s, [])
      | some i ↦ (let (u, out) = handle (s i) th (drop doff seg) in (update s i u, out))
    ]

-- `none` for a handle that is out of range or of a free slot.
unfoldable pub sock_get : Socks → ℤ → Option ℕ
sock_get s (negsuc n) = none
sock_get s (pos i) = if leb 4 i || is_free (s i).state then none else some i

unfoldable pub tcp_addref : Socks → ℤ → Socks
tcp_addref s h = elim (sock_get s h) [
  | none ↦ s
  | some i ↦ update s i (record (s i) { refs = add32 (s i).refs 1 })
]

-- A count is positive as an `int`.
abbrev pub refs_left : ℕ → Bool
refs_left n = ltb 0 n && ltb n 0x80000000

-- The socket at its last release, and the FIN that is sent.
unfoldable pub close_sock : Sock → ℕ → Sock × List Reply
close_sock ts now =
    if is_established ts.state && (not ts.reset && not ts.fin_sent)
    then (
      record ts {
        snd_nxt = add32 ts.snd_nxt 1;
        fin_sent = true;
        state = State.linger;
        close_ticks = now;
      },
      record { fl = bit_or fin_bit ack_bit; at = ts.snd_nxt } ∷ [],
    )
    else (record ts { state = State.free }, [])

unfoldable pub tcp_release : Socks → ℤ → ℕ → Socks × List Reply
unfolding close_sock
tcp_release s h now = elim (sock_get s h) [
  | none ↦ (s, [])
  | some i ↦
      (let ts = record (s i) { refs = sub32 (s i).refs 1 } in
        let (u, out) = close_sock ts now in
        if refs_left ts.refs then (update s i ts, []) else (update s i u, out))
]

-- `TCP_LINGER_TICKS`, twice `PIT_HZ`
abbrev pub linger_ticks : ℕ
linger_ticks = 400

-- A socket that lingers for too long is free.
unfoldable pub reclaim : Sock → ℕ → Sock
reclaim ts now =
    if is_linger ts.state && ltb linger_ticks (sub32 now ts.close_ticks)
    then record ts { state = State.free }
    else ts

-- The scan of `tcp_connect` over `n` slots from `i` on: all are looked at, the first free one is kept.
unfoldable pub pick : ℕ → ℕ → Socks → ℕ → Option ℕ → Option ℕ × Socks
pick zero i s now idx = (idx, s)
pick (suc n) i s now idx =
    let u = reclaim (s i) now in
    pick n (i + 1) (update s i u) now
      (elim idx [ none ↦ (if is_free u.state then some i else none) | some j ↦ some j ])

-- The control fields of a new connection; the ring's bytes stay.
unfoldable pub fresh_sock : Sock → ℕ → ℕ → ℕ → ℕ → ℕ → Sock
fresh_sock old idx ip port now next_port =
    let iss = bit_or (now * 256 % 4294967296) (idx * 16) in
    record {
      state = State.syn_sent;
      refs = 1;
      rip = ip;
      rport = port;
      lport = bit_or 0xD000 (next_port % 4096);
      snd_nxt = add32 iss 1;
      snd_una = iss;
      rcv_nxt = 0;
      peer_fin = false;
      reset = false;
      fin_sent = false;
      close_ticks = 0;
      rx = record old.rx { head = 0; tail = 0 };
    }

-- `tcp_connect` up to the first SYN: the slot, or `none` for `return -1`.
unfoldable pub open_slot : Socks → ℕ → ℕ → ℕ → ℕ → Option ℕ × Socks
unfolding pick reclaim fresh_sock
open_slot s ip port now next_port =
    let (idx, t) = pick 4 0 s now none in
    elim idx [
      | none ↦ (none, t)
      | some i ↦ (some i, update t i (fresh_sock (t i) i ip port now next_port))
    ]
