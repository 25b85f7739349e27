-- ===== src/Sysfile/Tests.antt =====
-- create() and unlink on a disk with an empty root directory.
use os_11740_assignment.Base.{
  ℕ, ◌≡◌, ◌≢◌, length, refl, true, false, List, [], ◌∷◌, some, none, ◌==◌, if◌then◌else◌,
}
use os_11740_assignment.Base.Run.{ok, out_of_fuel, pure, blocks, ◌>>=◌, ◌>>◌}
use os_11740_assignment.Fs.{Superblock, Inode, Fs, t_dir, t_file}
use os_11740_assignment.Bytes.{strncmp}
use os_11740_assignment.Fs.Bitmap.{test_bit, set_bit, find_bit, balloc_loop, balloc}
use os_11740_assignment.Fs.Dinode.{put_addrs, put_dinode, iupdate}
use os_11740_assignment.Fs.Bmap.{bmap_direct, bmap}
use os_11740_assignment.Fs.Icache.{
  iget_empty, iget_loop, iget, idup, iunlock, load_inode, ilock, iput, iunlockput, ialloc_loop,
  ialloc,
}
use os_11740_assignment.Fs.Content.{
  Devsw, get_bytes, put_bytes, read_loop, readi, write_loop, writei,
}
use os_11740_assignment.Fs.Dir.{pad_name, read_dirent, lookup_loop, dirlookup, empty_loop, dirlink}
use os_11740_assignment.Fs.FilePath.{
  skip_slashes, split_elem, skipelem, namex_loop, namex, nameiparent,
}
use os_11740_assignment.Sysfile.{
  create, create_new, create_old, sys_link, sys_unlink, unlink_found, unlink_entry, dot,
}
use os_11740_assignment.Base.Ends.{Keeps-pure, Keeps-blocks}
use os_11740_assignment.Fs.Ends.{Any-order}
use os_11740_assignment.Fs.Ends.Inodes.{IsQuiet}
use os_11740_assignment.Sysfile.Nodes.{sys_mkdir, sys_mknod, sys_chdir, open_inode}
use os_11740_assignment.Sysfile.Ends.{calls_end}

abbrev super : Superblock
super = record {
  size = 100;
  nblocks = 70;
  ninodes = 32;
  nlog = 10;
  logstart = 2;
  inodestart = 12;
  bmapstart = 20;
}

abbrev root : Inode
root = record {
  dev = 1;
  inum = 1;
  ref = 1;
  held = false;
  valid = true;
  type = t_dir;
  major = 0;
  minor = 0;
  nlink = 1;
  size = 0;
  addrs = λ i. 0;
}

-- The directory that the process is in is the root. Its inode is not free on the disk, and the blocks
-- below 16 are in use.
abbrev disk : Fs
disk = record {
  block = λ b o.
      if b == 12
      then (if o == 64 then 1 else 0)
      else (if b == 20 then (if o == 0 then 255 else (if o == 1 then 255 else 0)) else 0);
  logged = [];
  inode = λ i. if i == 0 then root else record root { inum = 0; ref = 0; valid = false };
}

abbrev no_devices : Devsw
no_devices = record { read = λ m. none; write = λ m. none }

-- Neither . nor .. can be unlinked.
dot_kept : (t : Fs) × (sys_unlink super no_devices 0 dot disk ≡ ok false t)
unfolding sys_unlink nameiparent namex idup namex_loop skipelem skip_slashes split_elem ilock
    load_inode iunlock iunlockput iput strncmp dirlookup lookup_loop read_dirent readi read_loop
    get_bytes bmap bmap_direct iget iget_loop iget_empty
dot_kept = (_, refl)

-- A file that is not there cannot be unlinked; one that create() has made can.
abbrev name : List ℕ
name = b'a' ∷ []

not_there : (t : Fs) × (sys_unlink super no_devices 0 name disk ≡ ok false t)
unfolding sys_unlink nameiparent namex idup namex_loop skipelem skip_slashes split_elem ilock
    load_inode iunlock iunlockput iput strncmp dirlookup lookup_loop read_dirent readi read_loop
    get_bytes bmap bmap_direct iget iget_loop iget_empty
not_there = (_, refl)

made : (t : Fs) × (create super no_devices 0 name t_file 0 0 disk ≡ ok (some 1) t)
unfolding create nameiparent namex idup namex_loop skipelem skip_slashes split_elem ilock load_inode
    iunlock iunlockput iput strncmp dirlookup lookup_loop read_dirent readi read_loop get_bytes bmap
    bmap_direct iget iget_loop iget_empty create_new create_old ialloc ialloc_loop iupdate
    put_dinode put_addrs dirlink empty_loop writei write_loop put_bytes balloc balloc_loop find_bit
    test_bit set_bit pad_name
made = (_, refl)

made_and_unlinked :
    (t : Fs) × ((create super no_devices 0 name t_file 0 0 >>= λ r.
    iunlock 1 >> sys_unlink super no_devices 0 name)
        disk
      ≡ ok true t)
unfolding create nameiparent namex idup namex_loop skipelem skip_slashes split_elem ilock load_inode
    iunlock iunlockput iput strncmp dirlookup lookup_loop read_dirent readi read_loop get_bytes bmap
    bmap_direct iget iget_loop iget_empty create_new create_old ialloc ialloc_loop iupdate
    put_dinode put_addrs dirlink empty_loop writei write_loop put_bytes balloc balloc_loop find_bit
    test_bit set_bit pad_name sys_unlink unlink_found unlink_entry
made_and_unlinked = (_, refl)

-- Every device waits when it is read, and takes all that is written.
abbrev slow_devices : Devsw
slow_devices = record {
  read = λ m. some (λ ip n. blocks);
  write = λ m. some (λ ip src. pure (some (length src)));
}

slow_devices-IsQuiet : IsQuiet slow_devices
slow_devices-IsQuiet = record {
  read = λ m ip n. Keeps-blocks;
  write = λ m ip src. Keeps-pure Any-order (some (length src));
}

calls_end_example :
    (create super slow_devices 0 name t_file 0 0 disk ≢ out_of_fuel)
    × (sys_link super slow_devices 0 name dot disk ≢ out_of_fuel)
    × (sys_unlink super slow_devices 0 name disk ≢ out_of_fuel)
    × (sys_mkdir super slow_devices 0 name disk ≢ out_of_fuel)
    × (sys_mknod super slow_devices 0 name 0 0 disk ≢ out_of_fuel)
    × (sys_chdir super slow_devices 0 name disk ≢ out_of_fuel)
    × (open_inode super slow_devices 0 name 0x201 disk ≢ out_of_fuel)
calls_end_example =
    calls_end super slow_devices slow_devices-IsQuiet 0 disk name dot t_file 0 0 0x201
