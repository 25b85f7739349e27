-- ===== src/Fs/Content/RoundTrip.antt =====
-- writei() and then readi() of xv6-public/fs.c, over the allocated blocks of a file.
use os_11740_assignment.Base.{
  ℕ, zero, suc, ◌+◌, ◌-◌, ◌*◌, ◌/◌, ◌%◌, ◌≤◌, ◌<◌, ◌≡◌, ◌≢◌, ◌⊎◌, refl, sym, ap, ◌∙◌, arith, some,
  List, [], ◌∷◌, length, take, drop, get_or, length-take, length-drop, ne→==_false, min,
}
use os_11740_assignment.Base.Run.{ok}
use os_11740_assignment.Fs.{Superblock, Inode, Fs, bsize, maxfile, t_dev}
use os_11740_assignment.Fs.Content.{Devsw, chunk, put_bytes, write_loop, writei, readi}
use os_11740_assignment.Fs.Content.Mapped.{
  IsMapped, bmap-mapped, byte, file_bytes, readi-file_bytes, file_bytes-get_or,
}
use os_11740_assignment.Fs.Content.Written.{
  Layout, overlay, stored, stored-Layout, byte-stored, overlay-overlay,
}

-- `t` is `s` with the bytes `src` in the file from `off` on.
pub record Wrote (ip n off : ℕ) (src : List ℕ) (s t : Fs) : Type 0 where
  pub layout : Layout t ip n
  pub inode : t.inode ≡ s.inode
  pub bytes : (x : ℕ) → x < n * bsize → byte t ip x ≡ overlay (byte s ip) off src x

module _ (sb : Superblock) (devsw : Devsw) (ip n : ℕ) where
  write_loop-suc :
      (k off : ℕ) (src : List ℕ) (s : Fs) (h : Layout s ip n)
      → 0 < length src
      → IsMapped s ip (off / bsize)
      → write_loop sb devsw (suc k) ip off src s
        ≡ write_loop sb devsw k ip
            (off + chunk off (length src))
            (drop (chunk off (length src)) src)
            (stored ip n s h
              (off / bsize)
              (put_bytes (off % bsize) (take (chunk off (length src)) src)))
  unfolding write_loop
  write_loop-suc k off src s h some_left m =
      rw (ne→==_false (length src) 0 (omega arith), bmap-mapped sb s ip (off / bsize) m) refl

  write_loop-nil : (k off : ℕ) (s : Fs) → write_loop sb devsw (suc k) ip off [] s ≡ ok off s
  unfolding write_loop
  write_loop-nil k off s = refl

  write_loop-Wrote :
      (k off : ℕ) (src : List ℕ) (s : Fs)
      → Layout s ip n
      → length src < k
      → off + length src ≤ n * bsize
      → (t : Fs) × (write_loop sb devsw k ip off src s ≡ ok (off + length src) t)
        × Wrote ip n off src s t
  write_loop-Wrote zero off src s h lt fits = absurd (omega arith)
  write_loop-Wrote (suc k) off [] s h lt fits = (
    s,
    write_loop-nil k off s ∙ ap (λ e. ok e s) (omega arith),
    record { layout = h; inode = refl; bytes = λ x lx. ground arith },
  )
  write_loop-Wrote (suc k) off (c ∷ cs) s h lt fits =
      let src = c ∷ cs in
      let m = chunk off (length src) in
      let small : m ≤ length src = ground arith in
      let one_block : off % bsize + m ≤ bsize = ground arith in
      let some_left : 0 < m = ground arith in
      let size = length-take m src small in
      let left = length-drop m src in
      let inside : off / bsize < n = omega arith in
      let s' = stored ip n s h (off / bsize) (put_bytes (off % bsize) (take m src)) in
      let r =
        write_loop-Wrote k (off + m) (drop m src) s'
          (stored-Layout ip n s h (off / bsize) (put_bytes (off % bsize) (take m src)) inside)
          (omega (arith, left, some_left, small)) (omega (arith, left, small)) in
      (
        r.0,
        write_loop-suc k off src s h (omega arith) (h.there (off / bsize) inside)
            ∙ r.1
            ∙ ap (λ e. ok e r.0) (omega (arith, left, small)),
        record {
          layout = r.2.layout;
          inode = r.2.inode;
          bytes = λ x lx.
              r.2.bytes x lx
              ∙ ground (
                arith,
                byte-stored ip n s h off (take m src) x inside (omega (arith, size, one_block))
                    (omega (arith, lx)),
                overlay-overlay (byte s ip) off m src x small,
                left,
                size,
              );
        },
      )

  -- Where all that is written lies inside the file, writei() stores it and nothing else happens.
  pub writei-Wrote :
      (off : ℕ) (src : List ℕ) (s : Fs)
      → Layout s ip n
      → (s.inode ip).type ≢ t_dev
      → (s.inode ip).size ≤ n * bsize
      → n ≤ maxfile
      → off + length src ≤ (s.inode ip).size
      → (t : Fs) × (writei sb devsw ip off src s ≡ ok (some (length src)) t)
        × Wrote ip n off src s t
  unfolding writei
  writei-Wrote off src s h file size small fits =
      let r = write_loop-Wrote (length src + 1) off src s h (omega arith) (omega arith) in
      let kept : (r.0.inode ip).size ≡ (s.inode ip).size =
        ap (λ (i : ℕ → Inode). (i ip).size) r.2.inode in
      (r.0, ground (arith, r.1, kept), r.2)

module _ (sb : Superblock) (devsw : Devsw) (ip n : ℕ) where
  -- To write `src` at `off` inside a file of at most `n` blocks, which are there, apart from each other
  -- and from the block of block numbers, succeeds. After it, to read as many bytes at `off` returns
  -- `src`, every other byte of those blocks is as before, and so is the inode.
  pub readi-writei :
      (off : ℕ) (src : List ℕ) (s : Fs)
      → Layout s ip n
      → (s.inode ip).type ≢ t_dev
      → (s.inode ip).size ≤ n * bsize
      → n ≤ maxfile
      → off + length src ≤ (s.inode ip).size
      → (t : Fs) × (writei sb devsw ip off src s ≡ ok (some (length src)) t)
        × (readi sb devsw ip off (length src) t ≡ ok (some src) t)
        × ((x : ℕ) → x < n * bsize → (x < off) ⊎ (off + length src ≤ x) → byte t ip x ≡ byte s ip x)
        × (t.inode ≡ s.inode)
  readi-writei off src s h file size small fits =
      let w = writei-Wrote sb devsw ip n off src s h file size small fits in
      let t = w.0 in
      let wrote = w.2 in
      let type : (t.inode ip).type ≡ (s.inode ip).type =
        ap (λ (i : ℕ → Inode). (i ip).type) wrote.inode in
      let end : (t.inode ip).size ≡ (s.inode ip).size =
        ap (λ (i : ℕ → Inode). (i ip).size) wrote.inode in
      let all : min (length src) ((t.inode ip).size - off) ≡ length src =
        omega (arith, end, fits) in
      let read =
        readi-file_bytes sb devsw t ip off (length src) (λ e. file (sym type ∙ e))
          (omega (arith, end, fits)) (omega (arith, size, small, fits))
          (λ x lo hi. wrote.layout.there (x / bsize) (omega (arith, all, size, fits))) in
      (
        t,
        w.1,
        read
            ∙ ap (λ k. ok (some (file_bytes t ip off k)) t) all
            ∙ ap (λ l. ok (some l) t)
                (file_bytes-get_or t ip off src (λ i lt.
                  wrote.bytes (off + i) (omega (arith, size, fits)) ∙ inside off src i lt)),
        λ x lx out. wrote.bytes x lx ∙ ground (arith, out),
        wrote.inode,
      )
    where
      inside :
          (off : ℕ) (src : List ℕ) (i : ℕ)
          → i < length src
          → overlay (byte s ip) off src (off + i) ≡ get_or src i 0
      inside off src i lt = ground arith
