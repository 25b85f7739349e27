-- ===== src/Pipe/Tests.antt =====
-- The theorems of pipe.c at concrete pipes, among them one whose counters are about to wrap.
use os_11740_assignment.Base.{ℕ, ◌≡◌, refl, arith, true, false, [], ◌∷◌, ◌++◌}
use os_11740_assignment.Base.Run.{ok, ◌>>◌}
use os_11740_assignment.Pipe.{Pipe, nread_channel, pipewrite, piperead, write_sleeps, read_bytes}
use os_11740_assignment.Pipe.Ring.{contents, Holds, length-contents}
use os_11740_assignment.Pipe.Loops.{Leaves}
use os_11740_assignment.Pipe.Transfer.{pipewrite-full, piperead-pipewrite}

abbrev at : ℕ → ℕ → Pipe
at r w = record {
  bytes = λ i. i;
  nread = r;
  nwrite = w;
  readopen = true;
  writeopen = true;
  locked = false;
  woken = [];
}

-- An empty pipe at the last position before the counters wrap, one with two bytes, and a full one.
abbrev empty : Pipe
empty = at 0xffffffff 0xffffffff

abbrev two : Pipe
two = at 3 5

abbrev full : Pipe
full = at 0 512

empty-Holds : Holds [] empty
unfolding contents
empty-Holds = record {
  small_read = omega arith;
  small_write = omega arith;
  fits = omega arith;
  queue = refl;
}

two-Holds : Holds (3 ∷ 4 ∷ []) two
unfolding contents
two-Holds = record {
  small_read = omega arith;
  small_write = omega arith;
  fits = omega arith;
  queue = refl;
}

full-Holds : Holds (contents (λ i. i) 0 512) full
full-Holds = record {
  small_read = omega arith;
  small_write = omega arith;
  fits = omega arith;
  queue = refl;
}

pipewrite-full_example :
    (t : Pipe) × (pipewrite false (7 ∷ []) full ≡ ok (write_sleeps (7 ∷ [])) t)
    × Leaves (contents (λ i. i) 0 512 ++ []) (nread_channel ∷ []) full t
pipewrite-full_example =
    pipewrite-full full-Holds refl false [] 7 [] (omega (arith, length-contents (λ i. i) 0 512))

piperead-pipewrite_example :
    (t : Pipe) × ((pipewrite false (7 ∷ 8 ∷ []) >> piperead false 2) empty
      ≡ ok (read_bytes (7 ∷ 8 ∷ [])) t)
    × Holds [] t
    × (t.locked ≡ false)
piperead-pipewrite_example =
    piperead-pipewrite false false 7 (8 ∷ []) empty-Holds refl (omega arith)
