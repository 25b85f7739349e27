-- ===== src/Bcache/Transparent/Reads.antt =====
-- Every outcome of bread() of xv6-public/bio.c.
use os_11740_assignment.Base.{
  ℕ, ◌+◌, ◌^◌, ◌<◌, ◌≡◌, inl, inr, refl, sym, subst, ap, ◌∙◌, arith, true, false, not, Bool-cases,
  Option, none, some, if◌then◌else◌, update, update_self,
}
use os_11740_assignment.Base.Run.{
  Run, Cmd, ok, panic, fault, waits, out_of_fuel, get, pure, when, and_then, ◌>>=◌, ◌>>◌,
}
use os_11740_assignment.Bcache.{
  Buf, Bcache, is_block, is_free, find_cached, find_free, cached_again, recycled, holdingsleep,
  set_buf, acquiresleep, bget, bget_found, bget_free, iderw, read_in, bread,
}
use os_11740_assignment.Bcache.Scan.{Listed, Finds, Frees, find_cached-Finds, find_free-Frees}
use os_11740_assignment.Bcache.Transparent.{
  content, content-at, content-absent, IsCache, Changes, block_number, IsFor, Holds,
  Changes-IsCache, Changes-content,
}

module _ (pid b : ℕ) (s : Bcache) where
  -- Every outcome: the buffer, locked by the process, has the content of the block, the cache is as it
  -- should be, and no block reads otherwise than before; or another process has the buffer locked; or no
  -- buffer is free.
  abbrev pub Reads : Run Bcache ℕ → Type 0
  Reads (ok i t) =
      ((t.buf i).bytes ≡ content s b)
      × (holdingsleep pid (t.buf i) ≡ true)
      × IsCache t
      × ((d : ℕ) → content t d ≡ content s d)
  Reads panic = (i : ℕ) → Listed i s.order → is_free (s.buf i) ≡ false
  Reads fault = ⊥
  Reads waits = (i : ℕ) × Listed i s.order × ((s.buf i).locked ≡ true)
  Reads out_of_fuel = ⊥

-- What bread() does with the buffer that bget() returns.
abbrev then_read : ℕ → ℕ → Cmd Bcache ℕ
then_read pid i = do s ← get; when (not (s.buf i).valid) (iderw pid i); pure i

-- The buffer is locked by the process, for a block of the disk.
record Ready (pid b i : ℕ) (s : Bcache) : Type 0 where
  locked : (s.buf i).locked ≡ true
  holder : (s.buf i).pid ≡ pid
  dev : (s.buf i).dev ≡ 1
  blockno : (s.buf i).blockno ≡ b
  inside : b < s.disksize
  backed : (s.buf i).dirty ≡ true → (s.buf i).valid ≡ true

then_read-Changes :
    (pid b i : ℕ) (s : Bcache)
    → Ready pid b i s
    → (t : Bcache) × (then_read pid i s ≡ ok i t)
      × Changes i s t
      × (is_block 1 b (t.buf i) ≡ true)
      × ((t.buf i).valid ≡ true)
      × ((t.buf i).bytes ≡ (if (s.buf i).valid then (s.buf i).bytes else s.disk b))
      × (is_free (t.buf i) ≡ is_free (s.buf i))
      × (holdingsleep pid (t.buf i) ≡ true)
unfolding iderw
then_read-Changes pid b i s r = elim (Bool-cases (s.buf i).valid) [
  | inl valid ↦ (
    s,
    rw valid refl,
    record { order = refl; disk = refl; buf = λ j ne. refl },
    ground (arith, r.dev, r.blockno),
    valid,
    rw valid refl,
    refl,
    ground (arith, r.locked, r.holder),
  )
  | inr stale ↦
      let clean : (s.buf i).dirty ≡ false = ground (arith, stale, r.backed) in
      (
        read_in pid i s,
        ground (arith, stale, clean, r.locked, r.holder, r.dev, r.blockno, r.inside),
        record { order = refl; disk = refl; buf = λ j ne. ground (arith, ne) },
        ground (arith, r.dev, r.blockno),
        ground arith,
        ap (λ (u : Buf). u.bytes) (update_self s.buf i _)
            ∙ ap s.disk r.blockno
            ∙ ap (λ v. if v then (s.buf i).bytes else s.disk b) (sym stale),
        ground arith,
        ground (arith, r.locked, r.holder),
      )
]

is_block_dev : (b : ℕ) (u : Buf) → is_block 1 b u ≡ true → u.dev ≡ 1
is_block_dev b u h = ground (arith, h)

Changes-trans : (i : ℕ) (s t u : Bcache) → Changes i s t → Changes i t u → Changes i s u
Changes-trans i s t u a b = record {
  order = b.order ∙ a.order;
  disk = b.disk ∙ a.disk;
  buf = λ j ne. b.buf j ne ∙ a.buf j ne;
}

module _ (pid b : ℕ) (s : Bcache) where
  -- bget() has changed buffer `i` by `f` and locked it.
  abbrev got : (Buf → Buf) → ℕ → Bcache
  got f i = record s {
    buf =
        update (update s.buf i (f (s.buf i))) i
          (record (update s.buf i (f (s.buf i)) i) { locked = true; pid = pid });
  }

  got-at :
      (f : Buf → Buf) (i : ℕ) → (got f i).buf i ≡ record (f (s.buf i)) { locked = true; pid = pid }
  got-at f i =
      update_self (update s.buf i (f (s.buf i))) i
        (record (update s.buf i (f (s.buf i)) i) { locked = true; pid = pid })
      ∙ ap (λ (u : Buf). record u { locked = true; pid = pid }) (update_self s.buf i (f (s.buf i)))

  got-Changes : (f : Buf → Buf) (i : ℕ) → Changes i s (got f i)
  got-Changes f i = record { order = refl; disk = refl; buf = λ j ne. ground (arith, ne) }

  -- The end of bget(), with `f` what it changes in buffer `i`.
  abbrev ends : (Buf → Buf) → ℕ → Cmd Bcache ℕ
  ends f i = do set_buf i f; acquiresleep pid i; pure i

  ends-got : (f : Buf → Buf) (i : ℕ) → (f (s.buf i)).locked ≡ false → ends f i s ≡ ok i (got f i)
  ends-got f i e = ground (arith, e)

  ends-waits : (f : Buf → Buf) (i : ℕ) → (f (s.buf i)).locked ≡ true → ends f i s ≡ waits
  ends-waits f i e = ground (arith, e)

  module _ (c : IsCache s) (inside : b < s.disksize) where
    then_read-Reads :
        (f : Buf → Buf) (i : ℕ)
        → Listed i s.order
        → IsFor b i s
        → (f (s.buf i)).dev ≡ 1
        → (f (s.buf i)).blockno ≡ b
        → ((f (s.buf i)).dirty ≡ true → (f (s.buf i)).valid ≡ true)
        → is_free (f (s.buf i)) ≡ false
        → (if (f (s.buf i)).valid then (f (s.buf i)).bytes else s.disk b) ≡ content s b
        → Reads pid b s (then_read pid i (got f i))
    then_read-Reads f i listed old dev blockno backed used shown =
        let u = got f i in
        let e = got-at f i in
        let r = then_read-Changes pid b i u (record {
          locked = ap (λ (x : Buf). x.locked) e;
          holder = ap (λ (x : Buf). x.pid) e;
          dev = ap (λ (x : Buf). x.dev) e ∙ dev;
          blockno = ap (λ (x : Buf). x.blockno) e ∙ blockno;
          inside = inside;
          backed =
              λ h. ap (λ (x : Buf). x.valid) e ∙ backed (sym (ap (λ (x : Buf). x.dirty) e) ∙ h);
        }) in
        let t = r.0 in
        let changes = Changes-trans i s u t (got-Changes f i) r.2 in
        let bytes = r.5 ∙ ap (λ (x : Buf). if x.valid then x.bytes else s.disk b) e ∙ shown in
        let holds : Holds b i s t = record {
          block = r.3;
          valid = r.4;
          bytes = bytes;
          used = r.6 ∙ ap is_free e ∙ used;
        } in
        subst (Reads pid b s) (sym r.1) (
          bytes,
          r.7,
          Changes-IsCache b i s t c listed old changes holds,
          Changes-content b i s t c listed old changes holds,
        )

    the_waiting : (i : ℕ) → Listed i s.order → (s.buf i).locked ≡ true → Reads pid b s waits
    the_waiting i listed held = (i, listed, held)

    bget_free-Reads :
        (r : Option ℕ)
        → ((j : ℕ) → Listed j s.order → is_block 1 b (s.buf j) ≡ false)
        → Frees s.buf s.order r
        → Reads pid b s (and_then (bget_free pid 1 b r s) (then_read pid))
    unfolding bget_free
    bget_free-Reads none absent none_free = none_free
    bget_free-Reads (some i) absent (listed, free) = elim (Bool-cases (s.buf i).locked) [
      | inl held ↦
          subst (λ r. Reads pid b s (and_then r (then_read pid)))
            (sym (ends-waits (recycled 1 b) i held)) (the_waiting i listed held)
      | inr unlocked ↦
          subst (λ r. Reads pid b s (and_then r (then_read pid)))
            (sym (ends-got (recycled 1 b) i unlocked))
            (then_read-Reads (recycled 1 b) i listed (inr (absent, free)) refl refl
              (λ e. absurd (ground (arith, e))) (ground arith) (sym (content-absent s b absent)))
    ]

    bget_found-Reads :
        (r : Option ℕ)
        → ((i : ℕ) → (s.buf i).refcnt + 1 < 2 ^ 32)
        → Finds 1 b s.buf s.order r
        → Reads pid b s (and_then (bget_found pid 1 b r s) (then_read pid))
    unfolding bget_found
    bget_found-Reads none small absent =
        bget_free-Reads (find_free s.buf s.order) absent (find_free-Frees s.buf s.order)
    bget_found-Reads (some i) small (listed, block) = elim (Bool-cases (s.buf i).locked) [
      | inl held ↦
          subst (λ r. Reads pid b s (and_then r (then_read pid)))
            (sym (ends-waits cached_again i held)) (the_waiting i listed held)
      | inr unlocked ↦
          subst (λ r. Reads pid b s (and_then r (then_read pid)))
            (sym (ends-got cached_again i unlocked))
            (then_read-Reads cached_again i listed (inl block) (is_block_dev b (s.buf i) block)
              (block_number b (s.buf i) block) (c.backed i listed) (ground (arith, small i))
              (sym (content-at s b i c listed block)))
    ]

    -- bread() of a block of the disk, by a well-formed cache whose counts do not overflow: it returns a
    -- buffer that the process has locked, with the content of the block, keeps the cache well-formed and
    -- changes what no block reads as; or it waits for a buffer that is locked; or it panics, when no buffer
    -- is free.
    pub bread-Reads : ((i : ℕ) → (s.buf i).refcnt + 1 < 2 ^ 32) → Reads pid b s (bread pid 1 b s)
    unfolding bread bget
    bread-Reads small =
        bget_found-Reads (find_cached 1 b s.buf s.order) small (find_cached-Finds 1 b s.buf s.order)
