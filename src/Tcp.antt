-- ===== src/Tcp.antt =====
-- kernel/tcp.c: the socket, the segments that it sends and what an arriving segment does to it.
-- An `int` used as a flag is a `Bool`; `refs` is the bit pattern of the C int.
pub mod Table
pub mod Stream
pub mod Delivery
pub mod Window
pub mod Close
mod Tests
use nos.Prelude.{
  ℕ, ◌+◌, ◌-◌, ◌*◌, ◌/◌, ◌%◌, ◌^◌, ltb, leb, List, [], ◌∷◌, ◌++◌, Bool, true, false, not, ◌&&◌,
  ◌||◌, if◌then◌else◌, ◌==◌, ℤ, pos, minus_one, is_pos, is_neg, signed32, add32, sub32, length,
  bit_and, Option, none, some,
}
use nos.Ring.{Ring, put_all, get_upto}

-- `enum tcp_state`
pub data State : Type 0 where
  free syn_sent established linger : State

-- `TCP_RXBUF`
abbrev pub rx_sz : ℕ
rx_sz = 16384

-- `struct tcp_sock`
pub record Sock : Type 0 where
  pub state : State
  pub refs : ℕ
  pub rip : ℕ
  pub rport : ℕ
  pub lport : ℕ
  pub snd_nxt : ℕ
  pub snd_una : ℕ
  pub rcv_nxt : ℕ
  pub peer_fin : Bool
  pub reset : Bool
  pub fin_sent : Bool
  pub close_ticks : ℕ
  pub rx : Ring

-- The fields of an arriving `struct tcp_hdr` that `tcp_input` reads, in host order.
pub record Header : Type 0 where
  pub sport : ℕ
  pub dport : ℕ
  pub seq : ℕ
  pub ack : ℕ
  pub flags : ℕ

-- A call of `tcp_output` without data.
pub record Reply : Type 0 where
  pub fl : ℕ
  pub at : ℕ

-- `TCP_FIN`, `TCP_SYN`, `TCP_RST` and `TCP_ACK`
abbrev pub fin_bit : ℕ
fin_bit = 0x01

abbrev pub syn_bit : ℕ
syn_bit = 0x02

abbrev pub rst_bit : ℕ
rst_bit = 0x04

abbrev pub ack_bit : ℕ
ack_bit = 0x10

abbrev pub has : ℕ → ℕ → Bool
has flags bit = not (bit_and flags bit == 0)

abbrev pub is_linger : State → Bool
is_linger State.linger = true
is_linger _ = false

abbrev pub is_syn_sent : State → Bool
is_syn_sent State.syn_sent = true
is_syn_sent _ = false

-- `(int32_t)(a - b)`
abbrev pub seq_diff : ℕ → ℕ → ℤ
seq_diff a b = signed32 (sub32 a b)

unfoldable pub ring_put : Sock → List ℕ → ℕ × Sock
ring_put ts p = let (n, r) = put_all rx_sz ts.rx p in (n, record ts { rx = r })

-- An acknowledgement of something new.
unfoldable pub on_ack : Sock → Header → Sock
on_ack ts th =
    if has th.flags ack_bit
      && is_pos (seq_diff th.ack ts.snd_una)
      && not (is_pos (seq_diff th.ack ts.snd_nxt))
    then record ts { snd_una = th.ack }
    else ts

-- In-order data goes into the ring.
unfoldable pub on_data : Sock → Header → List ℕ → Sock
on_data ts th payload =
    let (n, u) = ring_put ts payload in
    if ltb 0 (length payload) && th.seq == ts.rcv_nxt
    then record u { rcv_nxt = add32 u.rcv_nxt n }
    else ts

-- A FIN counts once every byte before it is consumed.
unfoldable pub on_fin : Sock → Header → ℕ → Sock
on_fin ts th plen =
    if has th.flags fin_bit && (not ts.peer_fin && add32 th.seq plen == ts.rcv_nxt)
    then record ts { rcv_nxt = add32 ts.rcv_nxt 1; peer_fin = true }
    else ts

unfoldable pub on_linger : Sock → Sock
on_linger ts =
    if is_linger ts.state && ts.peer_fin && not (is_neg (seq_diff ts.snd_una ts.snd_nxt))
    then record ts { state = State.free }
    else ts

-- A segment on a connection that is neither reset by it nor in its handshake.
unfoldable pub on_segment : Sock → Header → List ℕ → Sock
on_segment ts th payload = on_fin (on_data (on_ack ts th) th payload) th (length payload)

unfoldable pub on_reset : Sock → Sock
on_reset ts = record ts {
  reset = true;
  state = if is_linger ts.state then State.free else ts.state;
}

unfoldable pub on_handshake : Sock → Header → Sock × List Reply
on_handshake ts th =
    if bit_and th.flags 0x12 == 0x12 && th.ack == ts.snd_nxt
    then (
      record ts { rcv_nxt = add32 th.seq 1; snd_una = th.ack; state = State.established },
      record { fl = ack_bit; at = ts.snd_nxt } ∷ [],
    )
    else (ts, [])

-- `tcp_input` from the point on where the socket is known.
unfoldable pub handle : Sock → Header → List ℕ → Sock × List Reply
handle ts th payload =
    if has th.flags rst_bit
    then (on_reset ts, [])
    else if is_syn_sent ts.state
    then on_handshake ts th
    else (let u = on_segment ts th payload in
        (
          on_linger u,
          if ltb 0 (length payload) || has th.flags fin_bit
              then record { fl = ack_bit; at = u.snd_nxt } ∷ []
              else [],
        ))

abbrev is_established : State → Bool
is_established State.established = true
is_established _ = false

-- One round of `for (;;)` in `tcp_recv` for `len > 0`: the result with the bytes put into `buf` and
-- the acknowledgement sent, or a wait.
unfoldable pub recv_pass : Sock → ℕ → Option (ℤ × List ℕ × List Reply) × Sock
recv_pass ts len =
    let (bytes, r) = get_upto rx_sz len ts.rx in
    let u = record ts { rx = r } in
    if ltb 0 (length bytes)
    then (some (pos (length bytes), bytes, record { fl = ack_bit; at = ts.snd_nxt } ∷ []), u)
    else if ts.peer_fin
    then (some (pos 0, [], []), u)
    else if ts.reset || not (is_established ts.state)
    then (some (minus_one, [], []), u)
    else (none, u)
