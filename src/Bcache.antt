-- ===== src/Bcache.antt =====
-- The buffer cache of xv6-public/bio.c over the disk in memory of memide.c. `bcache.lock` is held around
-- the scans and changes of the list and left out; the list through prev and next is the list of the
-- buffers, the most recently used first.
pub mod Scan
pub mod Transparent
mod Tests
use os_11740_assignment.Base.{
  ℕ, zero, suc, ◌+◌, ◌-◌, ◌*◌, ◌^◌, Bool, true, false, not, ◌&&◌, ◌==◌, ◌!=◌, leb, Option, none,
  some, List, [], ◌∷◌, if◌then◌else◌, update,
}
use os_11740_assignment.Base.Run.{Cmd, pure, panics, blocks, get, modify, when, ◌>>=◌, ◌>>◌}
use os_11740_assignment.Mmu.{u32}
use os_11740_assignment.Log.{maxopblocks}

-- NBUF
abbrev pub nbuf : ℕ
nbuf = maxopblocks * 3

-- `struct buf`, with the flags B_VALID and B_DIRTY and the sleep lock with its holder.
pub record Buf : Type 0 where
  pub valid : Bool
  pub dirty : Bool
  pub dev : ℕ
  pub blockno : ℕ
  pub locked : Bool
  pub pid : ℕ
  pub refcnt : ℕ
  pub bytes : ℕ → ℕ

-- `bcache`, and `memdisk` with its size in blocks.
pub record Bcache : Type 0 where
  pub buf : ℕ → Buf
  pub order : List ℕ
  pub disk : ℕ → ℕ → ℕ
  pub disksize : ℕ
  pub woken : List ℕ

abbrev pub set_buf : ℕ → (Buf → Buf) → Cmd Bcache (Unit {0})
set_buf i f = modify (λ s. record s { buf = update s.buf i (f (s.buf i)) })

-- b->next->prev = b->prev; b->prev->next = b->next
unfoldable pub unlink : ℕ → List ℕ → List ℕ
unlink b [] = []
unlink b (i ∷ l) = let rest = unlink b l in if i == b then l else i ∷ rest

-- The list that binit() makes of the buffers below `k`.
unfoldable pub init_order : ℕ → List ℕ
init_order zero = []
init_order (suc k) = k ∷ init_order k

unfoldable pub binit : Cmd Bcache (Unit {0})
binit = modify (λ s. record s {
  buf = λ i. record (s.buf i) { locked = false; pid = 0 };
  order = init_order nbuf;
})

-- The buffer holds the block.
abbrev pub is_block : ℕ → ℕ → Buf → Bool
is_block dev blockno b = (b.dev == dev) && (b.blockno == blockno)

-- b->refcnt == 0 && (b->flags & B_DIRTY) == 0
abbrev pub is_free : Buf → Bool
is_free b = (b.refcnt == 0) && not b.dirty

-- The first buffer of the list that holds the block, and the last one that is free.
unfoldable pub find_cached : ℕ → ℕ → (ℕ → Buf) → List ℕ → Option ℕ
find_cached dev blockno f [] = none
find_cached dev blockno f (i ∷ l) =
    let rest = find_cached dev blockno f l in if is_block dev blockno (f i) then some i else rest

unfoldable pub find_free : (ℕ → Buf) → List ℕ → Option ℕ
find_free f [] = none
find_free f (i ∷ l) =
    let rest = find_free f l in
    elim rest [ some j ↦ some j | none ↦ if is_free (f i) then some i else none ]

abbrev pub cached_again : Buf → Buf
cached_again b = record b { refcnt = u32 (b.refcnt + 1) }

abbrev pub recycled : ℕ → ℕ → Buf → Buf
recycled dev blockno b = record b {
  dev = dev;
  blockno = blockno;
  valid = false;
  dirty = false;
  refcnt = 1;
}

-- Process `pid` runs the code.
module _ (pid : ℕ) where
  abbrev pub acquiresleep : ℕ → Cmd Bcache (Unit {0})
  acquiresleep i = do
    s ← get
    if (s.buf i).locked then blocks else set_buf i (λ b. record b { locked = true; pid = pid })

  abbrev pub holdingsleep : Buf → Bool
  holdingsleep b = b.locked && (b.pid == pid)

  -- What is left to do when the block is not cached.
  unfoldable pub bget_free : ℕ → ℕ → Option ℕ → Cmd Bcache ℕ
  bget_free dev blockno none = panics
  bget_free dev blockno (some i) = do set_buf i (recycled dev blockno); acquiresleep i; pure i

  unfoldable pub bget_found : ℕ → ℕ → Option ℕ → Cmd Bcache ℕ
  bget_found dev blockno (some i) = do set_buf i cached_again; acquiresleep i; pure i
  bget_found dev blockno none = do s ← get; bget_free dev blockno (find_free s.buf s.order)

  unfoldable pub bget : ℕ → ℕ → Cmd Bcache ℕ
  bget dev blockno = do s ← get; bget_found dev blockno (find_cached dev blockno s.buf s.order)

  -- iderw() of memide.c
  abbrev pub write_out : ℕ → Bcache → Bcache
  write_out i s = record s {
    buf = update s.buf i (record (s.buf i) { dirty = false; valid = true });
    disk = update s.disk (s.buf i).blockno (s.buf i).bytes;
  }

  abbrev pub read_in : ℕ → Bcache → Bcache
  read_in i s = record s {
    buf = update s.buf i (record (s.buf i) { bytes = s.disk (s.buf i).blockno; valid = true });
  }

  unfoldable pub iderw : ℕ → Cmd Bcache (Unit {0})
  iderw i = do
    s ← get
    if not (holdingsleep (s.buf i))
        then panics
        else (if (s.buf i).valid && not (s.buf i).dirty
            then panics
            else (if (s.buf i).dev != 1
                then panics
                else (if leb s.disksize (s.buf i).blockno
                    then panics
                    else (if (s.buf i).dirty then modify (write_out i) else modify (read_in i)))))

  unfoldable pub bread : ℕ → ℕ → Cmd Bcache ℕ
  bread dev blockno = do b ← bget dev blockno; s ← get; when (not (s.buf b).valid) (iderw b); pure b

  unfoldable pub bwrite : ℕ → Cmd Bcache (Unit {0})
  bwrite i = do
    s ← get
    if holdingsleep (s.buf i)
        then (do set_buf i (λ b. record b { dirty = true }); iderw i)
        else panics

  -- Move the buffer to the front of the list.
  abbrev pub move_front : ℕ → Bcache → Bcache
  move_front i s = record s { order = i ∷ unlink i s.order }

  unfoldable pub brelse : ℕ → Cmd Bcache (Unit {0})
  brelse i = do
    s ← get
    if holdingsleep (s.buf i)
        then (do
          set_buf i (λ b. record b { locked = false; pid = 0 })
          modify (λ t. record t { woken = i ∷ t.woken })
          set_buf i (λ b. record b { refcnt = u32 (b.refcnt + 2 ^ 32 - 1) })
          u ← get
          when ((u.buf i).refcnt == 0) (modify (move_front i)))
        else panics
