-- ===== src/Tcp/Stream.antt =====
-- The bytes that a connection delivers are the peer's stream, in order and each once, whatever
-- segments of it arrive, in whatever order and however often.
use nos.Prelude.{
  ℕ, zero, suc, ◌+◌, ◌%◌, ◌≤◌, ◌<◌, ◌^◌, ◌≡◌, refl, ap, ◌∙◌, sym, subst, inl, inr, List, [], ◌∷◌,
  ◌++◌, append_assoc, Bool, true, false, not, ◌&&◌, Bool-cases, arith, ltb, ◌==◌, if◌then◌else◌,
  add32, length, take, drop,
}
use nos.Ring.{put_all}
use nos.Ring.Fifo
use nos.Ring.Fifo.{contents, put_all-Wrote}
use nos.Tcp.{
  Sock, Header, rx_sz, has, fin_bit, ring_put, on_ack, on_data, on_fin, on_linger, on_segment,
  handle, rst_bit, on_reset, is_syn_sent,
}

-- What waits in the ring.
abbrev pub waiting : Sock → List ℕ
waiting ts = contents rx_sz ts.rx

abbrev pub counted : Bool → ℕ
counted true = 1
counted false = 0

-- A socket that has received `got` and still holds `waiting`: together these begin the peer's stream
-- `stream`, whose first byte has sequence number `base`; the next number that is expected follows
-- them, and the FIN if that has come, which only happens at the end of the stream.
pub record Follows (base : ℕ) (stream got : List ℕ) (ts : Sock) : Type 0 where
  pub ring_ok : Fifo.IsValid rx_sz ts.rx
  pub so_far : ℕ
  pub fits : so_far ≤ length stream
  pub prefix : got ++ waiting ts ≡ take so_far stream
  pub expects : ts.rcv_nxt ≡ (base + (so_far + counted ts.peer_fin)) % 2 ^ 32
  pub ended : (if ts.peer_fin then so_far else length stream) ≡ length stream

-- A segment of the peer's: it holds the bytes of the stream from `from` on, and a FIN only behind
-- the last.
pub record Carries (base : ℕ) (stream : List ℕ) (th : Header) (payload : List ℕ) : Type 0 where
  pub from : ℕ
  pub inside : from + length payload ≤ length stream
  pub numbered : th.seq ≡ (base + from) % 2 ^ 32
  pub bytes : payload ≡ take (length payload) (drop from stream)
  pub fin_last :
      (if has th.flags fin_bit then from + length payload else length stream) ≡ length stream

take-nil : (n : ℕ) → take n (let l : List ℕ = [] in l) ≡ []
take-nil zero = refl
take-nil (suc n) = refl

take-add : (m n : ℕ) (l : List ℕ) → take m l ++ take n (drop m l) ≡ take (m + n) l
take-add zero n l = ap (λ j. take j l) (omega arith)
take-add (suc m) n [] = rw (take-nil n, take-nil (suc m + n))
take-add (suc m) n (x ∷ l) =
    let e : suc m + n ≡ suc (m + n) = omega arith in rw e (ap (◌∷◌ x) (take-add m n l))

take-take : (n m : ℕ) (l : List ℕ) → n ≤ m → take n (take m l) ≡ take n l
take-take zero m l h = refl
take-take (suc n) zero l h = absurd (omega arith)
take-take (suc n) (suc m) [] h = refl
take-take (suc n) (suc m) (x ∷ l) h = ap (◌∷◌ x) (take-take n m l (omega arith))

-- What the ring takes of a payload that stands at the end of what came before.
extend :
    (so_far n : ℕ) (before payload stream : List ℕ)
    → before ≡ take so_far stream
    → payload ≡ take (length payload) (drop so_far stream)
    → n ≤ length payload
    → before ++ take n payload ≡ take (so_far + n) stream
extend so_far n before payload stream b p h =
    ap (λ l. l ++ take n payload) b
    ∙ ap (λ l. take so_far stream ++ l) (ap (take n) p ∙ take-take n (length payload) _ h)
    ∙ take-add so_far n stream

-- The receiving half of a socket.
same_receiver :
    (base : ℕ) (stream got : List ℕ) (ts u : Sock)
    → u.rx ≡ ts.rx
    → u.rcv_nxt ≡ ts.rcv_nxt
    → u.peer_fin ≡ ts.peer_fin
    → Follows base stream got ts
    → Follows base stream got u
same_receiver base stream got ts u rx nxt fin f = record {
  ring_ok = rw rx f.ring_ok;
  so_far = f.so_far;
  fits = f.fits;
  prefix = rw rx f.prefix;
  expects = rw (nxt, fin) f.expects;
  ended = rw fin f.ended;
}

on_ack_receiver :
    (ts : Sock) (th : Header)
    → let u = on_ack ts th in (u.rx ≡ ts.rx) × (u.rcv_nxt ≡ ts.rcv_nxt) × (u.peer_fin ≡ ts.peer_fin)
unfolding on_ack
on_ack_receiver ts th = ground arith

on_linger_receiver :
    (ts : Sock)
    → let u = on_linger ts in (u.rx ≡ ts.rx) × (u.rcv_nxt ≡ ts.rcv_nxt) × (u.peer_fin ≡ ts.peer_fin)
unfolding on_linger
on_linger_receiver ts = ground arith

-- Data at the expected number begins where the stream was left.
same_place :
    (base from so_far fin end : ℕ)
    → from ≤ end
    → so_far + fin ≤ end + 1
    → end + 1 < 2 ^ 32
    → (base + from) % 2 ^ 32 ≡ (base + (so_far + fin)) % 2 ^ 32
    → from ≡ so_far + fin
same_place base from so_far fin end a b c e = omega arith

data_skipped :
    (ts : Sock) (th : Header) (payload : List ℕ)
    → (ltb 0 (length payload) && th.seq == ts.rcv_nxt) ≡ false
    → on_data ts th payload ≡ ts
unfolding on_data
data_skipped ts th payload e = rw e

data_taken :
    (ts : Sock) (th : Header) (payload : List ℕ)
    → (ltb 0 (length payload) && th.seq == ts.rcv_nxt) ≡ true
    → let (n, r) = put_all rx_sz ts.rx payload in
      on_data ts th payload ≡ record ts { rx = r; rcv_nxt = add32 ts.rcv_nxt n }
unfolding on_data ring_put
data_taken ts th payload e = rw e

three :
    (a b : Bool) (x y : ℕ) → (a && (not b && x == y)) ≡ true → (a ≡ true) × (b ≡ false) × (x ≡ y)
three a b x y e = ground arith

module _ (base : ℕ) (stream got : List ℕ) (bound : length stream + 1 < 2 ^ 32) where
  -- Data is taken only at the end of what came before, and never behind a FIN.
  in_place :
      (ts : Sock) (th : Header) (payload : List ℕ)
      → (f : Follows base stream got ts) → (c : Carries base stream th payload) → 0 < length payload
      → th.seq ≡ ts.rcv_nxt
      → (c.from ≡ f.so_far) × (ts.peer_fin ≡ false)
  in_place ts th payload f c pos e = elim (Bool-cases ts.peer_fin) [
    | inl fin ↦
        let whole : f.so_far ≡ length stream =
          subst (λ b. (if b then f.so_far else length stream) ≡ length stream) fin f.ended in
        let at : (base + c.from) % 2 ^ 32 ≡ (base + (f.so_far + 1)) % 2 ^ 32 =
          subst (λ b. (base + c.from) % 2 ^ 32 ≡ (base + (f.so_far + counted b)) % 2 ^ 32) fin
            meet in
        absurd (
          omega (
            arith,
            same_place base c.from f.so_far 1 (length stream) (omega (arith, c.inside))
                (omega arith) bound at,
            c.inside,
          ))
    | inr more ↦
        let at : (base + c.from) % 2 ^ 32 ≡ (base + (f.so_far + 0)) % 2 ^ 32 =
          subst (λ b. (base + c.from) % 2 ^ 32 ≡ (base + (f.so_far + counted b)) % 2 ^ 32) more
            meet in
        (
          omega (
            arith,
            same_place base c.from f.so_far 0 (length stream) (omega (arith, c.inside))
                (omega (arith, f.fits)) bound at,
          ),
          more,
        )
  ]
    where
      meet : (base + c.from) % 2 ^ 32 ≡ (base + (f.so_far + counted ts.peer_fin)) % 2 ^ 32
      meet = sym c.numbered ∙ e ∙ f.expects

  on_data-Follows :
      (ts : Sock) (th : Header) (payload : List ℕ)
      → Follows base stream got ts
      → Carries base stream th payload
      → Follows base stream got (on_data ts th payload)
  on_data-Follows ts th payload f c =
      elim (Bool-cases (ltb 0 (length payload) && th.seq == ts.rcv_nxt)) [
        | inr e ↦ rw (data_skipped ts th payload e) f
        | inl e ↦
            let (place, more) = in_place ts th payload f c (ground arith) (ground arith) in
            let wrote = put_all-Wrote rx_sz payload ts.rx f.ring_ok in
            let n = (put_all rx_sz ts.rx payload).0 in
            rw (data_taken ts th payload e) (record {
              ring_ok = wrote.valid;
              so_far = f.so_far + n;
              fits = omega (arith, wrote.count, c.inside, place, f.fits);
              prefix =
                  ap (◌++◌ got) wrote.bytes
                  ∙ sym (append_assoc got (waiting ts) (take n payload))
                  ∙ extend f.so_far n (got ++ waiting ts) payload stream f.prefix
                      (subst (λ k. payload ≡ take (length payload) (drop k stream)) place c.bytes)
                      (omega (arith, wrote.count));
              expects =
                  let now : ts.rcv_nxt ≡ (base + (f.so_far + 0)) % 2 ^ 32 =
                    subst (λ b. ts.rcv_nxt ≡ (base + (f.so_far + counted b)) % 2 ^ 32) more
                      f.expects in
                  rw more (omega arith);
              ended = rw more refl;
            })
      ]

  fin_ignored :
      (ts : Sock) (th : Header) (plen : ℕ)
      → (has th.flags fin_bit && (not ts.peer_fin && add32 th.seq plen == ts.rcv_nxt)) ≡ false
      → on_fin ts th plen ≡ ts
  unfolding on_fin
  fin_ignored ts th plen e = rw e

  fin_counted :
      (ts : Sock) (th : Header) (plen : ℕ)
      → (has th.flags fin_bit && (not ts.peer_fin && add32 th.seq plen == ts.rcv_nxt)) ≡ true
      → on_fin ts th plen ≡ record ts { rcv_nxt = add32 ts.rcv_nxt 1; peer_fin = true }
  unfolding on_fin
  fin_counted ts th plen e = rw e

  -- The FIN is counted only when all of the stream is there.
  all_there :
      (ts : Sock) (th : Header) (payload : List ℕ)
      → (f : Follows base stream got ts) → (c : Carries base stream th payload)
      → has th.flags fin_bit ≡ true
      → ts.peer_fin ≡ false
      → add32 th.seq (length payload) ≡ ts.rcv_nxt
      → f.so_far ≡ length stream
  all_there ts th payload f c fin more e =
      let last : c.from + length payload ≡ length stream =
        subst (λ b. (if b then c.from + length payload else length stream) ≡ length stream) fin
          c.fin_last in
      let now : ts.rcv_nxt ≡ (base + (f.so_far + 0)) % 2 ^ 32 =
        subst (λ b. ts.rcv_nxt ≡ (base + (f.so_far + counted b)) % 2 ^ 32) more f.expects in
      omega (arith, c.numbered, f.fits)

  on_fin-Follows :
      (ts : Sock) (th : Header) (payload : List ℕ)
      → Follows base stream got ts
      → Carries base stream th payload
      → Follows base stream got (on_fin ts th (length payload))
  on_fin-Follows ts th payload f c =
      elim (Bool-cases (
        has th.flags fin_bit && (not ts.peer_fin && add32 th.seq (length payload) == ts.rcv_nxt))) [
          | inr e ↦ rw (fin_ignored ts th (length payload) e) f
          | inl e ↦
              let (fin, more, at) = three _ _ _ _ e in
              let whole = all_there ts th payload f c fin more at in
              let now : ts.rcv_nxt ≡ (base + (f.so_far + 0)) % 2 ^ 32 =
                subst (λ b. ts.rcv_nxt ≡ (base + (f.so_far + counted b)) % 2 ^ 32) more f.expects in
              rw (fin_counted ts th (length payload) e) (record {
                ring_ok = f.ring_ok;
                so_far = f.so_far;
                fits = f.fits;
                prefix = f.prefix;
                expects = omega arith;
                ended = whole;
              })
        ]

  -- `handle` keeps the account for every segment of the peer's stream.
  pub handle-Follows :
      (ts : Sock) (th : Header) (payload : List ℕ)
      → is_syn_sent ts.state ≡ false
      → Follows base stream got ts
      → Carries base stream th payload
      → Follows base stream got (handle ts th payload).0
  unfolding handle on_reset on_segment
  handle-Follows ts th payload up f c = elim (Bool-cases (has th.flags rst_bit)) [
    | inl e ↦ rw e (same_receiver base stream got ts _ refl refl refl f)
    | inr e ↦
        let (rx, nxt, fin) = on_ack_receiver ts th in
        let a = same_receiver base stream got ts (on_ack ts th) rx nxt fin f in
        let d = on_data-Follows (on_ack ts th) th payload a c in
        let u = on_fin-Follows (on_data (on_ack ts th) th payload) th payload d c in
        let (rx', nxt', fin') =
          on_linger_receiver (on_fin (on_data (on_ack ts th) th payload) th (length payload)) in
        rw (e, up) (same_receiver base stream got _ _ rx' nxt' fin' u)
  ]
