-- ===== src/Bcache/Tests.antt =====
-- The theorem about bread() on a list of two buffers, of which buffer 0 holds block 5 and is free, and the
-- other operations of bio.c on it.
use os_11740_assignment.Base.{
  ◌+◌, ◌≡◌, refl, sym, subst, ==_iff, arith, false, [], ◌∷◌, ◌==◌, if◌then◌else◌,
}
use os_11740_assignment.Base.Run.{ok, panic, ◌>>◌, ◌>>=◌}
use os_11740_assignment.Bcache.{
  Bcache, nbuf, find_cached, find_free, unlink, init_order, bget, bget_found, bget_free, iderw,
  bread, bwrite, brelse, binit,
}
use os_11740_assignment.Bcache.Transparent.{IsCache}
use os_11740_assignment.Bcache.Transparent.Reads.{Reads, bread-Reads}

-- Byte 0 of block `b` of the disk is 100 + b.
abbrev two : Bcache
two = record {
  buf = λ i. record {
    valid = i == 0;
    dirty = false;
    dev = 1;
    blockno = if i == 0 then 5 else 6;
    locked = false;
    pid = 0;
    refcnt = 0;
    bytes = λ x. if i == 0 then 105 else 0;
  };
  order = 1 ∷ 0 ∷ [];
  disk = λ b x. 100 + b;
  disksize = 1000;
  woken = [];
}

two-IsCache : IsCache two
two-IsCache = record {
  unique = λ b i j li lj hi hj. ground (arith, li, lj, hi, hj);
  synced = λ i li free valid.
      subst (λ k. (two.buf k).bytes ≡ two.disk (two.buf k).blockno) (sym ((==_iff i 0).0 valid))
        refl;
  backed = λ i li e. absurd (ground (arith, e));
}

bread-Reads_example : Reads 3 7 two (bread 3 1 7 two)
bread-Reads_example = bread-Reads 3 7 two two-IsCache (omega arith) (λ i. omega arith)

-- The least recently used buffer is recycled for block 7, and the read bytes are those of the disk.
recycles : (t : Bcache) × (bread 3 1 7 two ≡ ok 0 t) × ((t.buf 0).bytes 0 ≡ 107)
unfolding bread bget bget_found bget_free find_cached find_free iderw
recycles = (_, refl, refl)

-- What bwrite() writes is on the disk, and brelse() makes the buffer the most recently used.
writes_back :
    (t : Bcache) × ((bread 3 1 5 >>= λ b. bwrite 3 b >> brelse 3 b) two ≡ ok tt t)
    × (t.order ≡ 0 ∷ 1 ∷ [])
    × (t.disk 5 0 ≡ 105)
unfolding bread bget bget_found find_cached iderw bwrite brelse unlink
writes_back = (_, refl, refl, refl)

-- A process that does not hold the buffer may not release it.
not_held : (bread 3 1 5 >>= λ b. brelse 4 b) two ≡ panic
unfolding bread bget bget_found find_cached brelse
not_held = refl

binit_order : (t : Bcache) × (binit two ≡ ok tt t) × (t.order ≡ init_order nbuf)
unfolding binit
binit_order = (_, refl, refl)
