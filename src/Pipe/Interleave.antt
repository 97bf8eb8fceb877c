-- ===== src/Pipe/Interleave.antt =====
-- Readers, writers and the tasks that open and close ends, in any order of their passes; and a
-- blocked `pipe_write` that readers drain.
use nos.Prelude.{
  ℕ, ◌-◌, ◌≤◌, ◌<◌, ◌≡◌, refl, ◌≢◌, ap, ◌∙◌, sym, inl, inr, List, [], ◌∷◌, ◌++◌, Option, none, some,
  Bool, false, Bool-cases, arith, ltb, ◌==◌, if◌then◌else◌, ℤ, pos, signed32, length, take, drop,
  All, length-drop, take-append-drop, append_assoc, append-nil,
}
use nos.Pipe.{
  Pipe, pipe_create, pipe_addref, pipe_release, read_pass, write_pass, write_loop, pipe_write,
}
use nos.Pipe.Passes.{IsValid, stored, read_pass-queue, write_pass-queue, length-stored, room_for}

-- A pipe, with all bytes that writers have put in and all that readers have got so far.
pub record World : Type 0 where
  pub pipe : Pipe
  pub written : List ℕ
  pub received : List ℕ

abbrev bytes_of : Option (ℤ × List ℕ) → List ℕ
bytes_of none = []
bytes_of (some (n, bytes)) = bytes

-- What a writing pass took of `todo`.
abbrev accepted : List ℕ → Option (List ℕ) → List ℕ
accepted todo none = []
accepted todo (some rest) = take (length todo - length rest) todo

pub data Step : World → World → Type 0 where
  reads :
      (w : World) (len : ℕ)
      → Step w (record w {
        pipe = (read_pass w.pipe len).1;
        received = w.received ++ bytes_of (read_pass w.pipe len).0;
      })
  writes :
      (w : World) (todo : List ℕ)
      → Step w (record w {
        pipe = (write_pass w.pipe todo).1;
        written = w.written ++ accepted todo (write_pass w.pipe todo).0;
      })
  opens : (w : World) (writable : Bool) → Step w (record w { pipe = pipe_addref w.pipe writable })
  closes :
      (w : World) (writable : Bool) (q : Pipe)
      → pipe_release w.pipe writable ≡ some q
      → Step w (record w { pipe = q })

pub data Reach (s : World) : World → Type 0 where
  here : Reach s s
  next : {t u : World} → Reach s t → Step t u → Reach s u

pub record InOrder (w : World) : Type 0 where
  pub valid : IsValid w.pipe
  pub order : w.written ≡ w.received ++ stored w.pipe

got_bytes :
    (t : List ℕ) (writers : ℕ)
    → bytes_of (
        if ltb 0 (length t)
        then some (pos (length t), t)
        else if writers == 0
        then some (pos 0, [])
        else none)
      ≡ t
got_bytes [] writers = ground arith
got_bytes (x ∷ xs) writers = ground arith

read_bytes :
    (p : Pipe) (len : ℕ)
    → IsValid p
    → bytes_of (read_pass p len).0 ++ stored (read_pass p len).1 ≡ stored p
read_bytes p len v =
    let (_, result, rest, _, _) = read_pass-queue p len v in
    rw (result, rest, got_bytes (take len (stored p)) p.writers) (take-append-drop len (stored p))

-- What a writing pass did not leave to go is what fits.
accepted-drop :
    (k : ℕ) (todo : List ℕ) → k ≤ length todo → accepted todo (some (drop k todo)) ≡ take k todo
accepted-drop k todo h =
    let e : length todo - length (drop k todo) ≡ k = omega (arith, length-drop k todo) in
    ap (λ n. take n todo) e

write_bytes :
    (p : Pipe) (todo : List ℕ)
    → IsValid p
    → stored (write_pass p todo).1 ≡ stored p ++ accepted todo (write_pass p todo).0
write_bytes p todo v =
    let (_, result, rest, _, _) = write_pass-queue p todo v in
    elim (Bool-cases (p.readers == 0)) [
      | inl e ↦ rw (rest, result, e) (sym (append-nil _))
      | inr e ↦
          rw (rest, result, e)
            (ap (◌++◌ (stored p))
              (sym (accepted-drop (room_for (stored p) todo) todo (omega arith))))
    ]

addref-ring : (p : Pipe) (writable : Bool) → (pipe_addref p writable).ring ≡ p.ring
unfolding pipe_addref
addref-ring p writable = ground arith

release-ring : (p q : Pipe) (writable : Bool) → pipe_release p writable ≡ some q → q.ring ≡ p.ring
unfolding pipe_release
release-ring p q writable e = ground arith

same_ring :
    (w : World) (q : Pipe) → q.ring ≡ w.pipe.ring → InOrder w → InOrder (record w { pipe = q })
same_ring w q e h = record {
  valid = record { ring_ok = rw e h.valid.ring_ok };
  order = rw e h.order;
}

-- Every step keeps the ring in bounds and the bytes in order.
Step-InOrder : {s t : World} → Step s t → InOrder s → InOrder t
Step-InOrder (reads w len) h = record {
  valid = (read_pass-queue w.pipe len h.valid).0;
  order =
      h.order
      ∙ ap (◌++◌ w.received) (sym (read_bytes w.pipe len h.valid))
      ∙ sym (append_assoc w.received _ _);
}
Step-InOrder (writes w todo) h = record {
  valid = (write_pass-queue w.pipe todo h.valid).0;
  order =
      ap (λ l. l ++ accepted todo (write_pass w.pipe todo).0) h.order
      ∙ append_assoc w.received _ _
      ∙ ap (◌++◌ w.received) (sym (write_bytes w.pipe todo h.valid));
}
Step-InOrder (opens w writable) h = same_ring w _ (addref-ring w.pipe writable) h
Step-InOrder (closes w writable q e) h = same_ring w q (release-ring w.pipe q writable e) h

abbrev fresh : (ℕ → ℕ) → World
fresh garbage = record { pipe = pipe_create garbage; written = []; received = [] }

fresh-InOrder : (garbage : ℕ → ℕ) → InOrder (fresh garbage)
unfolding pipe_create
fresh-InOrder garbage = record { valid = record { ring_ok = omega arith }; order = refl }

Reach-InOrder : {s w : World} → InOrder s → Reach s w → InOrder w
Reach-InOrder h here = h
Reach-InOrder h (next r st) = Step-InOrder st (Reach-InOrder h r)

-- From a new pipe on, whatever the order in which tasks read, write, open and close its ends: the
-- bytes received, followed by those still in the pipe, are the bytes written, in order, and fewer
-- than 512 are on their way.
pub pipe_in_order :
    (garbage : ℕ → ℕ) (w : World)
    → Reach (fresh garbage) w
    → (w.written ≡ w.received ++ stored w.pipe) × (length (stored w.pipe) < 512)
pipe_in_order garbage w r =
    let h = Reach-InOrder (fresh-InOrder garbage) r in (h.order, length-stored w.pipe h.valid)

-- What the others do during a `task_switch` leaves a sound pipe with a reader, and makes room.
abbrev pub Drains : (Pipe → Pipe) → Type 0
Drains others =
    (p : Pipe)
    → IsValid p
    → p.readers ≢ 0
    → IsValid (others p) × ((others p).readers ≢ 0) × (length (stored (others p)) < 511)

-- One pass after a drain takes a byte at least.
progress :
    (p : Pipe) (todo : List ℕ)
    → IsValid p
    → p.readers ≢ 0
    → length (stored p) < 511
    → 0 < length todo
    → (rest : List ℕ) × (q : Pipe) × (write_pass p todo ≡ (some rest, q))
      × (length rest < length todo)
      × IsValid q
      × (q.readers ≢ 0)
progress p todo v r room h =
    let (v', result, _, readers', _) = write_pass-queue p todo v in
    let k = room_for (stored p) todo in
    let e : (p.readers == 0) ≡ false = ground arith in
    let went : (write_pass p todo).0 ≡ some (drop k todo) = rw (result, e) in
    (
      drop k todo,
      (write_pass p todo).1,
      (λ i. (went i, (write_pass p todo).1)),
      omega (arith, length-drop k todo),
      v',
      (λ z. r (sym readers' ∙ z)),
    )

drained :
    (schedule : List (Pipe → Pipe)) (len : ℕ) (p : Pipe) (todo : List ℕ)
    → All Drains schedule
    → IsValid p
    → p.readers ≢ 0
    → length todo ≤ length schedule
    → (q : Pipe) × (write_loop schedule len (some todo, p) ≡ (some (signed32 len), q))
unfolding write_loop
drained [] len p [] d v r h = (p, refl)
drained [] len p (x ∷ xs) d v r h = absurd (omega arith)
drained (others ∷ later) len p [] d v r h = (p, refl)
drained (others ∷ later) len p (x ∷ xs) d v r h =
    let (v', r', room) = d.0 p v r in
    let (rest, q, e, shorter, vq, rq) = progress (others p) (x ∷ xs) v' r' room (omega arith) in
    let (end, ends) = drained later len q rest d.1 vq rq (omega arith) in
    (end, ap (write_loop later len) e ∙ ends)

-- While a reader remains, a write of any length to a sound pipe ends with its full length, as
-- soon as the others have been switched to as often as there are bytes and made room for one byte
-- each time.
pub write_drained :
    (schedule : List (Pipe → Pipe)) (p : Pipe) (bytes : List ℕ)
    → All Drains schedule
    → IsValid p
    → p.readers ≢ 0
    → length bytes ≤ length schedule
    → (q : Pipe) × (pipe_write schedule p bytes ≡ (some (signed32 (length bytes)), q))
unfolding pipe_write
write_drained schedule p [] d v r h = (p, refl)
write_drained schedule p (x ∷ xs) d v r h =
    let (v', result, _, readers', _) = write_pass-queue p (x ∷ xs) v in
    let k = room_for (stored p) (x ∷ xs) in
    let e : (p.readers == 0) ≡ false = ground arith in
    let went : (write_pass p (x ∷ xs)).0 ≡ some (drop k (x ∷ xs)) = rw (result, e) in
    let q = (write_pass p (x ∷ xs)).1 in
    let (end, ends) =
      drained schedule (length (x ∷ xs)) q (drop k (x ∷ xs)) d v' (λ z. r (sym readers' ∙ z))
        (omega (arith, length-drop k (x ∷ xs))) in
    let first : write_pass p (x ∷ xs) ≡ (some (drop k (x ∷ xs)), q) = λ i. (went i, q) in
    (end, ap (write_loop schedule (length (x ∷ xs))) first ∙ ends)
