-- ===== src/Tcp/Window.antt =====
-- The send window: acknowledgements move `snd_una` forward and never past `snd_nxt`; the window that
-- is advertised is the room in the ring.
use nos.Prelude.{
  ℕ, ◌+◌, ◌-◌, ◌%◌, ◌≤◌, ◌<◌, ◌^◌, ◌≡◌, refl, ◌∙◌, inl, inr, List, Bool, true, false, not, ◌&&◌,
  Bool-cases, arith, ltb, ◌==◌, if◌then◌else◌, sub32, length, is_pos, bit_and,
}
use nos.Ring.Fifo
use nos.Ring.Fifo.{used}
use nos.Tcp.{
  Sock, Header, rx_sz, is_syn_sent, has, rst_bit, handle, on_reset, on_handshake, on_segment,
  on_linger, on_fin, on_data, on_ack, ring_put, ack_bit, seq_diff,
}

-- The bytes in flight, in sequence space.
abbrev pub in_flight : Sock → ℕ
in_flight ts = sub32 ts.snd_nxt ts.snd_una

acked_part :
    (una nxt ack : ℕ)
    → nxt < 2 ^ 32
    → una < 2 ^ 32
    → ack < 2 ^ 32
    → sub32 nxt una < 2 ^ 31
    → is_pos (seq_diff ack una) ≡ true
    → is_pos (seq_diff ack nxt) ≡ false
    → sub32 nxt ack ≤ sub32 nxt una
acked_part una nxt ack a b c small p q = ground arith

-- The sending half of a socket.
Sends : Sock → Sock → Type 0
Sends ts u = (in_flight u ≤ in_flight ts) × (u.snd_nxt ≡ ts.snd_nxt)

on_ack-Sends :
    (ts : Sock) (th : Header)
    → ts.snd_nxt < 2 ^ 32
    → ts.snd_una < 2 ^ 32
    → th.ack < 2 ^ 32
    → in_flight ts < 2 ^ 31
    → Sends ts (on_ack ts th)
unfolding on_ack Sends
on_ack-Sends ts th a b c small =
    elim (Bool-cases (
      has th.flags ack_bit
      && is_pos (seq_diff th.ack ts.snd_una)
      && not (is_pos (seq_diff th.ack ts.snd_nxt)))) [
        | inl e ↦
            let (p, q) = both _ _ _ e in
            rw e (acked_part ts.snd_una ts.snd_nxt th.ack a b c small p q, refl)
        | inr e ↦ rw e (omega arith, refl)
      ]
  where
    both : (x y z : Bool) → (x && y && not z) ≡ true → (y ≡ true) × (z ≡ false)
    both x y z e = ground arith

rest_of_segment :
    (ts : Sock) (th : Header) (payload : List ℕ)
    → let u = on_linger (on_fin (on_data ts th payload) th (length payload)) in
      (u.snd_una ≡ ts.snd_una) × (u.snd_nxt ≡ ts.snd_nxt)
unfolding on_linger on_fin on_data ring_put
rest_of_segment ts th payload = ground arith

handshake_window :
    (ts : Sock) (th : Header)
    → ts.snd_nxt < 2 ^ 32
    → let u = (on_handshake ts th).0 in (in_flight u ≤ in_flight ts) × (u.snd_nxt ≡ ts.snd_nxt)
unfolding on_handshake
handshake_window ts th a =
    elim (Bool-cases (bit_and th.flags 0x12 == 0x12 && th.ack == ts.snd_nxt)) [
      | inl e ↦ rw e (zero_left th.ack (ground arith), refl)
      | inr e ↦ rw e (omega arith, refl)
    ]
  where
    zero_left : (k : ℕ) → k ≡ ts.snd_nxt → sub32 ts.snd_nxt k ≤ in_flight ts
    zero_left k e = omega arith

-- Whatever segment arrives, in whatever state: the number of bytes in flight does not grow, and
-- snd_nxt stays, so that no acknowledgement is taken for bytes that were never sent (fewer than 2
-- ^ 31 bytes being in flight).
pub handle_window :
    (ts : Sock) (th : Header) (payload : List ℕ)
    → ts.snd_nxt < 2 ^ 32
    → ts.snd_una < 2 ^ 32
    → th.ack < 2 ^ 32
    → in_flight ts < 2 ^ 31
    → let u = (handle ts th payload).0 in (in_flight u ≤ in_flight ts) × (u.snd_nxt ≡ ts.snd_nxt)
unfolding handle on_reset on_segment Sends
handle_window ts th payload a b c small = elim (Bool-cases (has th.flags rst_bit)) [
  | inl e ↦ rw e (omega arith, refl)
  | inr e ↦ elim (Bool-cases (is_syn_sent ts.state)) [
    | inl y ↦ rw (e, y) (handshake_window ts th a)
    | inr n ↦
        let (una, nxt) = rest_of_segment (on_ack ts th) th payload in
        let s = on_ack-Sends ts th a b c small in rw (e, n) (rw (una, nxt) s.0, nxt ∙ s.1)
  ]
]

-- The window that a segment advertises, `tcp_window`.
unfoldable pub tcp_window : Sock → ℕ
tcp_window ts =
    let inside = (sub32 ts.rx.head ts.rx.tail + rx_sz) % 2 ^ 32 % rx_sz in
    let space = rx_sz - 1 - inside in if ltb 65535 space then 65535 else space

-- The advertised window is exactly the room that is left in the ring.
pub window_room :
    (ts : Sock) → Fifo.IsValid rx_sz ts.rx → tcp_window ts + used rx_sz ts.rx ≡ rx_sz - 1
unfolding tcp_window
window_room ts v = ground arith
