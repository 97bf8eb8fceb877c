-- ===== src/Tcp/Delivery.antt =====
-- Runs of a connection: segments arrive and the task reads, in any order.
use nos.Prelude.{ℕ, ◌≡◌, List, [], ◌∷◌, ◌++◌, Option, none, some, false, ℤ}
use nos.Ring.Fifo
use nos.Tcp.{Sock, Header, Reply, is_syn_sent, handle, recv_pass}
use nos.Tcp.Stream.{Follows, Carries}

abbrev bytes_of : Option (ℤ × List ℕ × List Reply) → List ℕ
bytes_of none = []
bytes_of (some (n, bytes, replies)) = bytes

pub data Event : Type 0 where
  arrives : Header → List ℕ → Event
  reads : ℕ → Event

-- The socket, and what the task has received.
abbrev pub apply : Sock × List ℕ → Event → Sock × List ℕ
apply (ts, got) (arrives th payload) = ((handle ts th payload).0, got)
apply (ts, got) (reads len) = ((recv_pass ts len).1, got ++ bytes_of (recv_pass ts len).0)

pub run : Sock × List ℕ → List Event → Sock × List ℕ
run s [] = s
run s (e ∷ es) = run (apply s e) es

-- An arriving segment is one of the peer's.
abbrev pub Genuine : ℕ → List ℕ → Event → Type 0
Genuine base stream (arrives th payload) = Carries base stream th payload
Genuine base stream (reads len) = Unit

record Sound (base : ℕ) (stream : List ℕ) (s : Sock × List ℕ) : Type 0 where
  follows : Follows base stream s.1 s.0
  past_handshake : is_syn_sent s.0.state ≡ false
