-- ===== src/Fs/Tests.antt =====
-- The theorems of fs.c on a small disk: the blocks below 21 are in use, and inode 3 is a file of 1000
-- bytes in the blocks 30 and 31.
use os_11740_assignment.Base.{
  ℕ, ◌+◌, ◌*◌, ◌^◌, ltb, ◌≤◌, ◌<◌, ◌≡◌, ◌≢◌, ◌⊎◌, refl, ap, arith, true, false, ◌==◌, List, [], ◌∷◌,
  some, none, if◌then◌else◌,
}
use os_11740_assignment.Base.Run.{ok, ◌>>◌}
use os_11740_assignment.Fs.{Superblock, Inode, Fs, bsize, t_file, bblock}
use os_11740_assignment.Fs.Bitmap.{test_bit, find_bit, balloc_loop, balloc, bfree}
use os_11740_assignment.Fs.Bitmap.Alloc.{in_use, taken, Allocates, balloc-Allocates}
use os_11740_assignment.Fs.Bitmap.Free.{IsReserved, bfree-balloc}
use os_11740_assignment.Fs.Dinode.{iupdate}
use os_11740_assignment.Fs.Dinode.Stored.{IsStorable}
use os_11740_assignment.Fs.Icache.{is_for, iget_loop, iget, ilock}
use os_11740_assignment.Fs.Icache.Reload.{SameDisk, ilock-iupdate}
use os_11740_assignment.Fs.Icache.Found.{referenced, with_inode}
use os_11740_assignment.Fs.Icache.Unique.{IsUnique, iget-IsUnique}
use os_11740_assignment.Fs.Content.{Devsw, writei, readi}
use os_11740_assignment.Fs.Content.Mapped.{byte}
use os_11740_assignment.Fs.Content.Written.{Layout}
use os_11740_assignment.Fs.Content.RoundTrip.{readi-writei}
use os_11740_assignment.Fs.FilePath.{skipelem}
use os_11740_assignment.Fs.FilePath.Elements.{Takes, skipelem-Takes}

abbrev super : Superblock
super = record {
  size = 100;
  nblocks = 70;
  ninodes = 32;
  nlog = 10;
  logstart = 2;
  inodestart = 12;
  bmapstart = 20;
}

abbrev bitmap : ℕ → ℕ
bitmap o = if o == 0 then 255 else (if o == 1 then 255 else (if o == 2 then 31 else 0))

-- An entry of the inode cache that is not in use, and those of the inode 3.
abbrev free_entry : Inode
free_entry = record {
  dev = 1;
  inum = 0;
  ref = 0;
  held = false;
  valid = false;
  type = 0;
  major = 0;
  minor = 0;
  nlink = 0;
  size = 0;
  addrs = λ i. 0;
}

abbrev file_entry : Inode
file_entry = record {
  dev = 1;
  inum = 3;
  ref = 1;
  held = false;
  valid = true;
  type = t_file;
  major = 0;
  minor = 0;
  nlink = 1;
  size = 1000;
  addrs = λ i. if ltb i 13 then 30 + i else 0;
}

abbrev unread_entry : Inode
unread_entry = record free_entry { inum = 3; ref = 1 }

-- The cache holds the inode 3 once; `reread` has a second, unread entry for it.
abbrev disk : Fs
disk = record {
  block = λ b. if b == 20 then bitmap else (λ o. 0);
  logged = [];
  inode = λ i. if i == 0 then file_entry else free_entry;
}

abbrev reread : Fs
reread = record disk { inode = λ i. if i == 0 then file_entry else unread_entry }

abbrev no_devices : Devsw
no_devices = record { read = λ m. none; write = λ m. none }

balloc-Allocates_example : Allocates super 0 disk (balloc super disk)
balloc-Allocates_example = balloc-Allocates super disk

balloc_disk : balloc super disk ≡ ok 21 (taken super 21 disk)
unfolding balloc balloc_loop find_bit test_bit
balloc_disk = refl

disk-IsReserved : IsReserved super disk
unfolding test_bit
disk-IsReserved y lt = let e : bblock super y ≡ 20 = omega arith in ap (in_use super disk) e

bfree-balloc_example :
    (u : Fs) × (bfree super 21 (taken super 21 disk) ≡ ok tt u)
    × ((b : ℕ) → b ≢ 21 → (o : ℕ) → u.block b o ≡ disk.block b o)
bfree-balloc_example = bfree-balloc super disk disk-IsReserved balloc_disk

file-IsStorable : IsStorable file_entry
file-IsStorable = record {
  type = omega arith;
  major = omega arith;
  minor = omega arith;
  nlink = omega arith;
  size = omega arith;
  addrs = λ i. ground arith;
}

ilock-iupdate_example :
    (u : Fs) × ((iupdate super 0 >> ilock super 1) reread ≡ ok tt u)
    × SameDisk file_entry (u.inode 1)
ilock-iupdate_example =
    ilock-iupdate super reread 0 1 file-IsStorable (λ e. absurd (ground arith)) refl refl refl refl

disk-IsUnique : IsUnique disk
disk-IsUnique dev inum i j li lj hi hj = ground arith

small : (j : ℕ) → (disk.inode j).ref + 1 < 2 ^ 31
small j = ground arith

iget_disk : iget 1 3 disk ≡ ok 0 (with_inode 0 referenced disk)
unfolding iget iget_loop
iget_disk = refl

iget-IsUnique_example :
    IsUnique (with_inode 0 referenced disk)
    × (is_for 1 3 ((with_inode 0 referenced disk).inode 0) ≡ true)
iget-IsUnique_example = iget-IsUnique 1 3 disk disk-IsUnique small iget_disk

disk-Layout : Layout disk 0 2
disk-Layout = record {
  there = λ b lt. record {
    below = omega arith;
    there = λ e. absurd (ground arith);
    indirect = λ h. absurd (omega arith);
  };
  plain = λ b lt e. absurd (ground arith);
  apart = λ b c lb lc e. ground arith;
}

-- Four bytes across the end of the first block.
readi-writei_example :
    (t : Fs) × (writei super no_devices 0 510 (1 ∷ 2 ∷ 3 ∷ 4 ∷ []) disk ≡ ok (some 4) t)
    × (readi super no_devices 0 510 4 t ≡ ok (some (1 ∷ 2 ∷ 3 ∷ 4 ∷ [])) t)
    × ((x : ℕ) → x < 2 * bsize → (x < 510) ⊎ (514 ≤ x) → byte t 0 x ≡ byte disk 0 x)
    × (t.inode ≡ disk.inode)
readi-writei_example =
    readi-writei super no_devices 0 2 510 (1 ∷ 2 ∷ 3 ∷ 4 ∷ []) disk disk-Layout
      (λ e. absurd (ground arith)) (omega arith) (omega arith) (omega arith)

-- "//usr/bin"
abbrev path : List ℕ
path = b'/' ∷ b'/' ∷ b'u' ∷ b's' ∷ b'r' ∷ b'/' ∷ b'b' ∷ b'i' ∷ b'n' ∷ []

skipelem-Takes_example : Takes path (skipelem path)
skipelem-Takes_example = skipelem-Takes path
