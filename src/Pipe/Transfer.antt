-- ===== src/Pipe/Transfer.antt =====
-- pipewrite() and piperead() of xv6-public/pipe.c as operations on the queue of bytes in the pipe.
use os_11740_assignment.Base.{
  ℕ, suc, ◌+◌, ◌≤◌, ◌≡◌, refl, ◌∙◌, ap, sym, arith, Bool, true, false, ◌==◌, ◌&&◌, List, [], ◌∷◌,
  ◌++◌, append-nil, subst, length, length-append, take, drop, if◌then◌else◌, ne→==_false, eq→==,
}
use os_11740_assignment.Base.Run.{ok, and_then, and_then-ok, panic, ◌>>◌}
use os_11740_assignment.Pipe.{
  Pipe, pipesize, nread_channel, nwrite_channel, write_loop, pipewrite, wrote, piperead, read_bytes,
  read_fails, read_sleeps,
}
use os_11740_assignment.Pipe.Ring.{Holds, is_full, is_empty}
use os_11740_assignment.Pipe.Loops.{
  put_bytes-SameEnds, put_bytes-Holds, write_loop-append, read_loop-Holds, wrote_all, wrote_some,
  relabel-Holds, leaving, read_done, put_bytes, blocked, woken_by, Leaves, locking,
}

module _ {q : List ℕ} {p : Pipe} (h : Holds q p) (free : p.locked ≡ false) (killed : Bool) where
  -- pipewrite() of bytes for which the pipe has room: it returns their number without sleeping,
  -- whether or not the read end is open; the bytes stand behind those in the pipe, and the readers
  -- are woken.
  pub pipewrite-room :
      (cs : List ℕ)
      → length q + length cs ≤ pipesize
      → (t : Pipe) × (pipewrite killed cs p ≡ ok (wrote (length cs)) t)
        × Leaves (q ++ cs) (nread_channel ∷ p.woken) p t
  unfolding pipewrite
  pipewrite-room cs room =
      let same = put_bytes-SameEnds cs (locking p) in
      (
        record (put_bytes cs (locking p)) { locked = false; woken = nread_channel ∷ p.woken },
        ap
              (λ b.
                and_then (if b then panic else ok tt (locking p))
                  (λ _. write_loop killed (length cs) cs))
              free
            ∙ ap (λ l. write_loop killed (length cs) l (locking p)) (sym (append-nil cs))
            ∙ write_loop-append killed (length cs) cs [] (relabel-Holds h) room
            ∙ wrote_all killed (length cs) same.0 same.3,
        leaving (put_bytes-Holds cs (relabel-Holds h) room) same,
      )

  -- pipewrite() of more bytes than there is room for: the pipe is filled, behind the bytes in it;
  -- then the call fails if the read end is closed or the process was killed, and otherwise wakes
  -- the readers and sleeps with exactly the bytes that did not fit.
  pub pipewrite-full :
      (now : List ℕ) (c : ℕ) (later : List ℕ)
      → length q + length now ≡ pipesize
      → (t : Pipe) × (pipewrite killed (now ++ (c ∷ later)) p
          ≡ ok (blocked p.readopen killed (c ∷ later)) t)
        × Leaves (q ++ now) (woken_by p.readopen killed p.woken) p t
  unfolding pipewrite
  pipewrite-full now c later full =
      let same = put_bytes-SameEnds now (locking p) in
      let filled = put_bytes-Holds now (relabel-Holds h) (omega arith) in
      (
        record (put_bytes now (locking p)) {
          locked = false;
          woken = woken_by p.readopen killed p.woken;
        },
        ap
              (λ b.
                and_then (if b then panic else ok tt (locking p))
                  (λ _. write_loop killed (length (now ++ (c ∷ later))) (now ++ (c ∷ later))))
              free
            ∙ write_loop-append killed (length (now ++ (c ∷ later))) now (c ∷ later)
                (relabel-Holds h) (omega arith)
            ∙ wrote_some killed (length (now ++ (c ∷ later))) c later same.0 same.1 same.3 (
                is_full filled
                ∙ eq→== (length (q ++ now)) pipesize (omega (full, length-append q now, arith))),
        leaving filled same,
      )

  -- piperead() where there are bytes, or the write end is closed: it returns the oldest bytes, in
  -- order, as many as there are and no more than `n`; the rest stays, and the writers are woken.
  pub piperead-some :
      (n : ℕ)
      → ((length q == 0) && p.writeopen) ≡ false
      → (t : Pipe) × (piperead killed n p ≡ ok (read_bytes (take n q)) t)
        × Leaves (drop n q) (nwrite_channel ∷ p.woken) p t
  unfolding piperead
  piperead-some n some_there =
      let r = read_loop-Holds n q (locking p) (relabel-Holds h) in
      (
        record r.0 { locked = false; woken = nwrite_channel ∷ p.woken },
        read_done p killed n free (ap (λ b. b && p.writeopen) (is_empty h) ∙ some_there) r.1 r.3.0
            r.3.3,
        leaving r.2 r.3,
      )

  -- piperead() of an empty pipe whose write end is open: nothing changes; the call fails if the
  -- process was killed, and sleeps otherwise.
  pub piperead-none :
      (n : ℕ)
      → q ≡ []
      → p.writeopen ≡ true
      → piperead killed n p
        ≡ ok (if killed then read_fails else read_sleeps) (record p { locked = false })
  unfolding piperead
  piperead-none n none opened =
      let empty = is_empty h ∙ ap (λ l. length l == 0) none in ground (arith, free, opened, empty)

take_all : (cs : List ℕ) → take (length cs) cs ≡ cs
take_all [] = refl
take_all (c ∷ cs) = ap (λ l. c ∷ l) (take_all cs)

drop_all : (cs : List ℕ) → drop (length cs) cs ≡ []
drop_all [] = refl
drop_all (c ∷ cs) = drop_all cs

-- What is written into an empty pipe of which both ends are free to use is what is read: at least
-- one byte and at most PIPESIZE, wherever in the ring, and whichever way the counters have wrapped.
pub piperead-pipewrite :
    {p : Pipe} (killed killed' : Bool) (c : ℕ) (cs : List ℕ)
    → Holds [] p
    → p.locked ≡ false
    → length (c ∷ cs) ≤ pipesize
    → (t : Pipe) × ((pipewrite killed (c ∷ cs) >> piperead killed' (length (c ∷ cs))) p
        ≡ ok (read_bytes (c ∷ cs)) t)
      × Holds [] t
      × (t.locked ≡ false)
piperead-pipewrite killed killed' c cs h free fits =
    let w = pipewrite-room h free killed (c ∷ cs) (omega (fits, arith)) in
    let r =
      piperead-some w.2.held w.2.unlocked killed' (length (c ∷ cs))
        (ap (λ b. b && w.0.writeopen) (ne→==_false (suc (length cs)) 0 (omega arith))) in
    (
      r.0,
      and_then-ok (piperead killed' (length (c ∷ cs))) w.1
          ∙ r.1
          ∙ ap (λ l. ok (read_bytes l) r.0) (take_all (c ∷ cs)),
      subst (λ l. Holds l r.0) (drop_all (c ∷ cs)) r.2.held,
      r.2.unlocked,
    )
