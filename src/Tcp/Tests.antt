-- ===== src/Tcp/Tests.antt =====
-- Runs of a connection, and the theorems about it at concrete inputs.
use nos.Prelude.{◌⊎◌, ℕ, ◌+◌, ◌-◌, ◌≡◌, refl, ◌≤◌, List, [], ◌∷◌, arith, false, pos}
use nos.Ring.Fifo.{used}
use nos.Tcp.{State, Sock, Header, rx_sz, handle}
use nos.Tcp.Delivery.{Event}
use nos.Tcp.Window.{in_flight, handle_window, tcp_window, window_room}
use nos.Tcp.Table.{Socks, tcp_input, tcp_addref, tcp_release, close_sock}
use nos.Tcp.Close.{tcp_input-outcome, Ignored, Delivered, header_of, release-addref, teardown}

-- An established connection that has sent up to 1000 and expects the peer's number 500.
abbrev sock : Sock
sock = record {
  state = State.established;
  refs = 1;
  rip = 7;
  rport = 80;
  lport = 0xD001;
  snd_nxt = 1000;
  snd_una = 990;
  rcv_nxt = 500;
  peer_fin = false;
  reset = false;
  fin_sent = false;
  close_ticks = 0;
  rx = record { buf = λ i. 0; head = 0; tail = 0 };
}

abbrev segment : ℕ → ℕ → Header
segment seq flags = record { sport = 80; dport = 0xD001; seq = seq; ack = 1000; flags = flags }

abbrev peer_stream : List ℕ
peer_stream = 10 ∷ 20 ∷ 30 ∷ []

-- The end of the stream arrives first, and counts only when it comes again.
abbrev events : List Event
events =
    Event.arrives (segment 502 0x11) (30 ∷ [])
    ∷ Event.arrives (segment 500 0x10) (10 ∷ 20 ∷ [])
    ∷ Event.reads 1
    ∷ Event.arrives (segment 502 0x11) (30 ∷ [])
    ∷ []

handle_window_test :
    let u = (handle sock (segment 500 0x10) []).0 in (in_flight u ≤ 10) × (u.snd_nxt ≡ 1000)
handle_window_test =
    handle_window sock (segment 500 0x10) [] (omega arith) (omega arith) (omega arith) (omega arith)

window_room_test : tcp_window sock + used rx_sz sock.rx ≡ rx_sz - 1
window_room_test = window_room sock (omega arith)

abbrev socks : Socks
socks i = sock

-- An acknowledgement from the peer, which slot 0 takes.
abbrev pure_ack : List ℕ
pure_ack =
    0 ∷ 80 ∷ 208 ∷ 1 ∷ 0 ∷ 0 ∷ 1 ∷ 244 ∷ 0 ∷ 0 ∷ 3 ∷ 232 ∷ 80 ∷ 16 ∷ 0 ∷ 0 ∷ 0 ∷ 0 ∷ 0 ∷ 0 ∷ []

tcp_input-outcome_example :
    (((tcp_input socks 7 pure_ack).0 0 ≡ sock) × Ignored socks 7 pure_ack 0)
    ⊎ (((tcp_input socks 7 pure_ack).0 0 ≡ (handle sock (header_of pure_ack) []).0)
        × Delivered socks 7 pure_ack 0)
tcp_input-outcome_example = tcp_input-outcome socks 7 pure_ack 0

release-addref_test :
    let (u, out) = tcp_release (tcp_addref socks (pos 1)) (pos 1) 33 in (u 1 ≡ sock) × (out ≡ [])
release-addref_test = release-addref socks 1 33 1 (omega arith) refl (omega arith) (omega arith)

-- The last segment carries a byte.
teardown_example :
    (handle (close_sock sock 33).0 (record (segment 500 0x11) { ack = 1001 }) (9 ∷ [])).0.state
    ≡ State.free
teardown_example =
    teardown sock 33 (record (segment 500 0x11) { ack = 1001 }) (9 ∷ []) refl refl refl refl
      (omega arith) (omega arith) (omega arith) refl refl refl refl refl (omega arith)
      (record { head_in = omega arith; tail_in = omega arith }) (omega arith)
