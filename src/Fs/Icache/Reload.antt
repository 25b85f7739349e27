-- ===== src/Fs/Icache/Reload.antt =====
-- iupdate() and ilock() of xv6-public/fs.c: the inode cache writes through.
use os_11740_assignment.Base.{
  ℕ, ◌≤◌, ◌≡◌, ◌≢◌, sym, ap, ◌∙◌, arith, true, false, update, update_self, ne→==_false, subst,
}
use os_11740_assignment.Base.Run.{ok, ◌>>◌}
use os_11740_assignment.Kalloc.{is_positive}
use os_11740_assignment.Log.{absorb}
use os_11740_assignment.Fs.{Superblock, Inode, Fs, ndirect, iblock}
use os_11740_assignment.Fs.Words.{get16}
use os_11740_assignment.Fs.Dinode.{place, put_dinode, get_dinode, iupdate}
use os_11740_assignment.Fs.Dinode.Stored.{IsStorable, get-put_dinode}
use os_11740_assignment.Fs.Icache.{load_inode, ilock}

-- The two entries agree in what the disk keeps of an inode.
pub record SameDisk (n m : Inode) : Type 0 where
  pub type : m.type ≡ n.type
  pub major : m.major ≡ n.major
  pub minor : m.minor ≡ n.minor
  pub nlink : m.nlink ≡ n.nlink
  pub size : m.size ≡ n.size
  pub addrs : (i : ℕ) → i ≤ ndirect → m.addrs i ≡ n.addrs i

SameDisk-loaded :
    (n m : Inode) (d : ℕ → ℕ) (o : ℕ)
    → IsStorable n
    → SameDisk n (record (get_dinode o (put_dinode o n d) m) { valid = true })
SameDisk-loaded n m d o st =
    let g = get-put_dinode n st o d in
    record { type = g.0; major = g.1; minor = g.2; nlink = g.3; size = g.4; addrs = g.5 }

module _ (sb : Superblock) where
  -- The entry when its fields are read from the bytes `d`.
  abbrev pub loaded : (ℕ → ℕ) → Inode → Inode
  loaded d m = record (get_dinode (place m.inum) d m) { valid = true }

  load_inode-loaded :
      (s : Fs) (e : ℕ)
      → get16 (s.block (iblock sb (s.inode e).inum)) (place (s.inode e).inum) ≢ 0
      → load_inode sb e s
        ≡ ok tt (record s {
          inode = update s.inode e (loaded (s.block (iblock sb (s.inode e).inum)) (s.inode e));
        })
  unfolding load_inode
  load_inode-loaded s e typed = ground (arith, ne→==_false _ 0 typed)

  -- acquiresleep() of the entry's lock.
  abbrev locking : ℕ → Fs → Fs
  locking e s = record s { inode = update s.inode e (record (s.inode e) { held = true }) }

  ilock-load_inode :
      (s : Fs) (e : ℕ)
      → is_positive (s.inode e).ref ≡ true
      → (s.inode e).held ≡ false
      → (s.inode e).valid ≡ false
      → ilock sb e s ≡ load_inode sb e (locking e s)
  unfolding ilock
  ilock-load_inode s e ref held valid = ground (arith, ref, held, valid)

  module _ (s : Fs) (ip e : ℕ) (st : IsStorable (s.inode ip)) where
    abbrev stored : ℕ → ℕ
    stored =
        put_dinode (place (s.inode ip).inum) (s.inode ip) (s.block (iblock sb (s.inode ip).inum))

    -- The file system when the entry `ip` has been written.
    abbrev written : Fs
    written = record s {
      block = update s.block (iblock sb (s.inode ip).inum) stored;
      logged = absorb (iblock sb (s.inode ip).inum) s.logged;
    }

    -- What is then read into an entry.
    abbrev reread : Inode → Inode
    reread m = loaded (written.block (iblock sb m.inum)) m

    SameDisk-reread : (m : Inode) → m.inum ≡ (s.inode ip).inum → SameDisk (s.inode ip) (reread m)
    SameDisk-reread m same =
        subst (SameDisk (s.inode ip))
          (sym (
            ap (λ i. record (get_dinode (place i) (written.block (iblock sb i)) m) { valid = true })
              same
            ∙ ap (λ d. record (get_dinode (place (s.inode ip).inum) d m) { valid = true })
                (update_self s.block (iblock sb (s.inode ip).inum) stored)))
          (SameDisk-loaded (s.inode ip) m (s.block (iblock sb (s.inode ip).inum))
            (place (s.inode ip).inum) st)

    -- ilock() of an unread entry for an inode that iupdate() has just written succeeds and gives the
    -- entry the type, numbers, link count, size and block numbers that were written.
    pub ilock-iupdate :
        (s.inode ip).type ≢ 0
        → (s.inode e).inum ≡ (s.inode ip).inum
        → is_positive (s.inode e).ref ≡ true
        → (s.inode e).held ≡ false
        → (s.inode e).valid ≡ false
        → (u : Fs) × ((iupdate sb ip >> ilock sb e) s ≡ ok tt u) × SameDisk (s.inode ip) (u.inode e)
    unfolding iupdate
    ilock-iupdate typed same ref held valid =
        let m = record (s.inode e) { held = true } in
        let here : (locking e written).inode e ≡ m = update_self s.inode e m in
        let sd =
          subst (λ z. SameDisk (s.inode ip) (reread z)) (sym here) (SameDisk-reread m same) in
        (
          record (locking e written) {
            inode = update (locking e written).inode e (reread ((locking e written).inode e));
          },
          ilock-load_inode written e ref held valid
              ∙ load_inode-loaded (locking e written) e (λ z. typed (sym sd.type ∙ z)),
          subst (SameDisk (s.inode ip))
              (sym (update_self (locking e written).inode e (reread ((locking e written).inode e))))
              sd,
        )
