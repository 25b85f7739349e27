-- ===== src/Pipe/Loops.antt =====
-- The loops of pipewrite() and piperead() of xv6-public/pipe.c, and how the calls end.
use os_11740_assignment.Base.{
  ℕ, zero, suc, ◌+◌, ◌%◌, ◌≤◌, ◌≡◌, refl, ◌∙◌, sym, arith, Bool, true, false, ◌==◌, ◌&&◌, List, [],
  ◌∷◌, ◌++◌, append-nil, append_assoc, subst, length, length-append, take, drop, if◌then◌else◌,
  ne→==_false,
}
use os_11740_assignment.Base.Run.{ok}
use os_11740_assignment.Mmu.{u32}
use os_11740_assignment.Pipe.{
  Channel, Write, Pipe, pipesize, nread_channel, nwrite_channel, put_byte, write_loop, wrote,
  write_fails, write_sleeps, read_loop, piperead, read_bytes,
}
use os_11740_assignment.Pipe.Ring.{Holds, is_full, is_empty, put_byte-Holds, get_byte-Holds}

-- The bytes are all that differs.
abbrev pub SameEnds : Pipe → Pipe → Type 0
SameEnds p t =
    (t.locked ≡ p.locked)
    × (t.readopen ≡ p.readopen)
    × (t.writeopen ≡ p.writeopen)
    × (t.woken ≡ p.woken)

-- The pipe once the bytes are in it.
pub put_bytes : List ℕ → Pipe → Pipe
put_bytes [] p = p
put_bytes (c ∷ cs) p = put_bytes cs (put_byte c p)

pub put_bytes-SameEnds : (cs : List ℕ) (p : Pipe) → SameEnds p (put_bytes cs p)
unfolding put_bytes
put_bytes-SameEnds [] p = (refl, refl, refl, refl)
put_bytes-SameEnds (c ∷ cs) p = put_bytes-SameEnds cs (put_byte c p)

pub put_bytes-Holds :
    (cs : List ℕ) {q : List ℕ} {p : Pipe}
    → Holds q p
    → length q + length cs ≤ pipesize
    → Holds (q ++ cs) (put_bytes cs p)
unfolding put_bytes
put_bytes-Holds [] {q} {p} h room = subst (λ l. Holds l p) (sym (append-nil q)) h
put_bytes-Holds (c ∷ cs) {q} {p} h room =
    subst (λ l. Holds l (put_bytes cs (put_byte c p))) (append_assoc q (c ∷ []) cs)
      (put_bytes-Holds cs (put_byte-Holds h c (omega arith))
        (omega (arith, length-append q (c ∷ []))))

-- Bytes for which there is room are written without a pause.
pub write_loop-append :
    (killed : Bool) (n : ℕ) (cs later : List ℕ) {q : List ℕ} {p : Pipe}
    → Holds q p
    → length q + length cs ≤ pipesize
    → write_loop killed n (cs ++ later) p ≡ write_loop killed n later (put_bytes cs p)
unfolding write_loop put_bytes
write_loop-append killed n [] later h room = refl
write_loop-append killed n (c ∷ cs) later {q} {p} h room =
    let spare : (p.nwrite == u32 (p.nread + pipesize)) ≡ false =
      is_full h ∙ ne→==_false (length q) pipesize (omega arith) in
    rw spare (
      write_loop-append killed n cs later (put_byte-Holds h c (omega arith))
        (omega (arith, length-append q (c ∷ []))))

-- One round of the loop that reads.
pub read_loop-suc :
    (n : ℕ) (p : Pipe) {t : Pipe} {c : ℕ} {cs : List ℕ}
    → (p.nread == p.nwrite) ≡ false
    → p.bytes (p.nread % pipesize) ≡ c
    → read_loop n (record p { nread = u32 (p.nread + 1) }) ≡ ok cs t
    → read_loop (suc n) p ≡ ok (c ∷ cs) t
unfolding read_loop
read_loop-suc n p e f g = ground (arith, e, f, g)

-- Reading takes the oldest bytes, as many as there are and no more than `n`.
pub read_loop-Holds :
    (n : ℕ) (q : List ℕ) (p : Pipe)
    → Holds q p
    → (t : Pipe) × (read_loop n p ≡ ok (take n q) t) × Holds (drop n q) t × SameEnds p t
unfolding read_loop
read_loop-Holds zero q p h = (p, refl, h, (refl, refl, refl, refl))
read_loop-Holds (suc n) [] p h = (p, rw (is_empty h) refl, h, (refl, refl, refl, refl))
read_loop-Holds (suc n) (c ∷ q) p h =
    let got = get_byte-Holds h in
    let rest = read_loop-Holds n q (record p { nread = u32 (p.nread + 1) }) got.1 in
    (
      rest.0,
      read_loop-suc n p (is_empty h ∙ ne→==_false (suc (length q)) 0 (omega arith)) got.0 rest.1,
      rest.2,
      rest.3,
    )

-- A writer that finds the pipe full: it fails where the read end is closed or the process was killed,
-- and sleeps otherwise.
abbrev pub blocked : Bool → Bool → List ℕ → Write
blocked readopen killed cs =
    if readopen then (if killed then write_fails else write_sleeps cs) else write_fails

abbrev pub woken_by : Bool → Bool → List Channel → List Channel
woken_by readopen killed woken =
    if readopen then (if killed then woken else nread_channel ∷ woken) else woken

-- The last byte is in.
pub wrote_all :
    {u : Pipe} {woken : List Channel} (killed : Bool) (n : ℕ)
    → u.locked ≡ true
    → u.woken ≡ woken
    → write_loop killed n [] u
      ≡ ok (wrote n) (record u { locked = false; woken = nread_channel ∷ woken })
unfolding write_loop
wrote_all killed n e f = ground (arith, e, f)

-- The first byte that does not fit.
pub wrote_some :
    {u : Pipe} {readopen : Bool} {woken : List Channel} (killed : Bool) (n c : ℕ) (cs : List ℕ)
    → u.locked ≡ true
    → u.readopen ≡ readopen
    → u.woken ≡ woken
    → (u.nwrite == u32 (u.nread + pipesize)) ≡ true
    → write_loop killed n (c ∷ cs) u
      ≡ ok
          (blocked readopen killed (c ∷ cs))
          (record u { locked = false; woken = woken_by readopen killed woken })
unfolding write_loop
wrote_some killed n c cs e f g full = ground (arith, e, f, g, full)

-- Neither the lock nor the wake-ups matter to what is in the pipe.
pub relabel-Holds :
    {q : List ℕ} {p : Pipe} {locked : Bool} {woken : List Channel}
    → Holds q p
    → Holds q (record p { locked = locked; woken = woken })
relabel-Holds h = record {
  small_read = h.small_read;
  small_write = h.small_write;
  fits = h.fits;
  queue = h.queue;
}

-- A call that has returned or sleeps leaves the lock free and the ends as they were.
pub record Leaves (q : List ℕ) (woken : List Channel) (p t : Pipe) : Type 0 where
  pub held : Holds q t
  pub unlocked : t.locked ≡ false
  pub readopen : t.readopen ≡ p.readopen
  pub writeopen : t.writeopen ≡ p.writeopen
  pub woke : t.woken ≡ woken

abbrev pub locking : Pipe → Pipe
locking p = record p { locked = true }

-- The pipe `u` after release() and the wake-ups `woken`.
pub leaving :
    {q : List ℕ} {p u : Pipe} {woken : List Channel}
    → Holds q u
    → SameEnds (locking p) u
    → Leaves q woken p (record u { locked = false; woken = woken })
leaving h same = record {
  held = relabel-Holds h;
  unlocked = refl;
  readopen = same.1;
  writeopen = same.2;
  woke = refl;
}

pub read_done :
    (p : Pipe) {u : Pipe} {cs : List ℕ} (killed : Bool) (n : ℕ)
    → p.locked ≡ false
    → ((p.nread == p.nwrite) && p.writeopen) ≡ false
    → read_loop n (locking p) ≡ ok cs u
    → u.locked ≡ true
    → u.woken ≡ p.woken
    → piperead killed n p
      ≡ ok (read_bytes cs) (record u { locked = false; woken = nwrite_channel ∷ p.woken })
unfolding piperead
read_done p killed n free e r l w = rw (free, e, r, l, w) refl
