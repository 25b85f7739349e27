-- ===== src/Sysfile/Ends.antt =====
-- create(), sys_link() and sys_unlink() of xv6-public/sysfile.c, and namei() of xv6-public/fs.c, end.
use os_11740_assignment.Base.{
  ℕ, zero, suc, ◌+◌, ◌*◌, ◌/◌, ◌%◌, ◌^◌, ◌≢◌, refl, arith, true, false, ◌||◌, ◌==◌, ◌!=◌, Option,
  none, some, if◌then◌else◌, List, [],
}
use os_11740_assignment.Base.Run.{out_of_fuel, pure}
use os_11740_assignment.Base.Ends.{
  Ends, returns, Keeps, Keeps-pure, Keeps-get, Ends-map, Ends-test, Ends-ne-out_of_fuel,
  Keeps-panics,
}
use os_11740_assignment.Fs.{Superblock, Fs, t_dir, t_file, t_dev}
use os_11740_assignment.Fs.Dinode.{iupdate}
use os_11740_assignment.Fs.Content.{Devsw}
use os_11740_assignment.Fs.Dir.{namecmp, dirent_size, de_inum, dirent}
use os_11740_assignment.Fs.FilePath.{namei, nameiparent}
use os_11740_assignment.Fs.Ends.{
  Sizes, Any, Any-order, Any-Sizes, any_rules, Any-bind, Any-if, Any-option, set_inode-Any,
  iupdate-Sizes,
}
use os_11740_assignment.Fs.Ends.Inodes.{
  IsQuiet, ilock-Any, iunlock-Any, iput-Any, iunlockput-Any, ialloc-Any, writei-Any,
}
use os_11740_assignment.Fs.Ends.Names.{IsEnough, round_ends, dirlookup-Any, dirlink-Any, namex-Any}
use os_11740_assignment.Sysfile.Nodes.{
  creates, give_back, sys_mkdir, sys_mknod, sys_chdir, open_inode,
}
use os_11740_assignment.Sysfile.{
  link_more, dot, dots, make_dots, create_new, create_old, create, link_bad, link_name, sys_link,
  empty_from, isdirempty, unlink_entry, unlink_found, sys_unlink,
}

module _ (sb : Superblock) (devsw : Devsw) (quiet : IsQuiet devsw) where
  iupdate-Any : (ip : ℕ) → Keeps Any (iupdate sb ip)
  iupdate-Any ip = Any-Sizes (iupdate-Sizes sb ip)

  module _ (cwd : ℕ) where
    make_dots-Any : (dp ip : ℕ) → Keeps Any (make_dots sb devsw cwd dp ip)
    unfolding make_dots
    make_dots-Any dp ip = search (any_rules, iupdate-Any, dirlink-Any sb devsw quiet) depth 24

    create_new-Any :
        (dp : ℕ) (name : List ℕ) (type major minor : ℕ)
        → Keeps Any (create_new sb devsw cwd dp name type major minor)
    unfolding create_new
    create_new-Any dp name type major minor =
        search
          (
            any_rules,
            ialloc-Any,
            ilock-Any,
            iupdate-Any,
            make_dots-Any,
            dirlink-Any sb devsw quiet,
            iunlockput-Any,
          )
          depth 30

    create_old-Any : (dp ip type : ℕ) → Keeps Any (create_old sb devsw cwd dp ip type)
    unfolding create_old
    create_old-Any dp ip type = search (any_rules, iunlockput-Any, ilock-Any) depth 20

    link_bad-Any : (ip : ℕ) → Keeps Any (link_bad sb devsw cwd ip)
    unfolding link_bad
    link_bad-Any ip = search (any_rules, iunlockput-Any, ilock-Any, iupdate-Any) depth 20

    link_name-Any : (ip dp : ℕ) (name : List ℕ) → Keeps Any (link_name sb devsw cwd ip dp name)
    unfolding link_name
    link_name-Any ip dp name =
        search
          (any_rules, iunlockput-Any, ilock-Any, iput-Any, link_bad-Any, dirlink-Any sb devsw quiet)
          depth 24

    unlink_entry-Any : (dp ip off : ℕ) → Keeps Any (unlink_entry sb devsw cwd dp ip off)
    unfolding unlink_entry
    unlink_entry-Any dp ip off = Any-bind (writei-Any sb devsw quiet dp off (dirent [] 0)) (λ r.
        Any-option r Keeps-panics (λ n.
          Any-if (n == dirent_size) (search (any_rules, iupdate-Any, iunlockput-Any) depth 30)
            Keeps-panics))

    empty_from_ends :
        (k dp off : ℕ) (s : Fs)
        → IsEnough k dp off s
        → Ends (Sizes s) (empty_from sb devsw cwd k dp off s)
    unfolding empty_from
    empty_from_ends zero dp off s h = absurd (omega (arith, h.0))
    empty_from_ends (suc k) dp off s h =
        round_ends sb devsw quiet k dp off
          (λ de.
            if de_inum de != 0
            then pure false
            else empty_from sb devsw cwd k dp (off + dirent_size))
          true s h
          (λ de t g.
            Ends-test (de_inum de != 0) (pure false)
              (empty_from sb devsw cwd k dp (off + dirent_size)) t (λ _. returns (λ i. refl))
              (λ _. empty_from_ends k dp (off + dirent_size) t g))

    isdirempty-Any : (dp : ℕ) → Keeps Any (isdirempty sb devsw cwd dp)
    unfolding isdirempty
    isdirempty-Any dp = record {
      at = λ s.
          Ends-map
            (empty_from_ends ((s.inode dp).size / dirent_size + 2) dp (2 * dirent_size) s
              (ground arith))
            (λ t p. tt);
    }

    unlink_found-Any : (dp ip off : ℕ) → Keeps Any (unlink_found sb devsw cwd dp ip off)
    unfolding unlink_found
    unlink_found-Any dp ip off =
        search (any_rules, ilock-Any, isdirempty-Any, unlink_entry-Any, iunlockput-Any) depth 24

    namei-Any : (path : List ℕ) → Keeps Any (namei sb devsw cwd path)
    unfolding namei
    namei-Any path = namex-Any sb devsw quiet false cwd path

    nameiparent-Any : (path : List ℕ) → Keeps Any (nameiparent sb devsw cwd path)
    unfolding nameiparent
    nameiparent-Any path = namex-Any sb devsw quiet true cwd path

    create-Any :
        (path : List ℕ) (type major minor : ℕ)
        → Keeps Any (create sb devsw cwd path type major minor)
    unfolding create
    create-Any path type major minor = Any-bind (nameiparent-Any path) (λ parent.
        Any-option parent (Keeps-pure Any-order none) (λ (dp, name).
          Any-bind (ilock-Any sb dp) (λ _. Any-bind (dirlookup-Any sb devsw quiet dp name) (λ found.
            Any-option found (create_new-Any dp name type major minor)
              (λ (ip, _). create_old-Any dp ip type)))))

    sys_link-Any : (old new : List ℕ) → Keeps Any (sys_link sb devsw cwd old new)
    unfolding sys_link
    sys_link-Any old new = Any-bind (namei-Any old) (λ found.
        Any-option found (Keeps-pure Any-order false) (λ (ip, _). Any-bind (ilock-Any sb ip) (λ _.
          Any-bind (Keeps-get Any-order) (λ s.
            Any-if ((s.inode ip).type == t_dir) (search (any_rules, iunlockput-Any)) (
              Any-bind (set_inode-Any ip link_more) (λ _. Any-bind (iupdate-Any ip) (λ _.
                Any-bind (iunlock-Any ip) (λ _. Any-bind (nameiparent-Any new) (λ parent.
                  Any-option parent (link_bad-Any ip)
                    (λ (dp, name). link_name-Any ip dp name))))))))))

    sys_unlink-Any : (path : List ℕ) → Keeps Any (sys_unlink sb devsw cwd path)
    unfolding sys_unlink
    sys_unlink-Any path = Any-bind (nameiparent-Any path) (λ parent.
        Any-option parent (Keeps-pure Any-order false) (λ (dp, name).
          Any-bind (ilock-Any sb dp) (λ _.
            Any-if ((namecmp name dot == 0) || (namecmp name dots == 0))
              (search (any_rules, iunlockput-Any))
              (Any-bind (dirlookup-Any sb devsw quiet dp name) (λ found.
                Any-option found (search (any_rules, iunlockput-Any))
                  (λ (ip, off). unlink_found-Any dp ip off))))))

    give_back-Any : (made : Option ℕ) → Keeps Any (give_back sb devsw cwd made)
    unfolding give_back
    give_back-Any none = Keeps-pure Any-order false
    give_back-Any (some ip) = search (any_rules, iunlockput-Any)

    sys_mkdir-Any : (path : List ℕ) → Keeps Any (sys_mkdir sb devsw cwd path)
    unfolding sys_mkdir
    sys_mkdir-Any path = Any-bind (create-Any path t_dir 0 0) give_back-Any

    sys_mknod-Any :
        (path : List ℕ) (major minor : ℕ) → Keeps Any (sys_mknod sb devsw cwd path major minor)
    unfolding sys_mknod
    sys_mknod-Any path major minor =
        Any-bind (create-Any path t_dev (major % 2 ^ 16) (minor % 2 ^ 16)) give_back-Any

    sys_chdir-Any : (path : List ℕ) → Keeps Any (sys_chdir sb devsw cwd path)
    unfolding sys_chdir
    sys_chdir-Any path = Any-bind (namei-Any path) (λ found.
        Any-option found (Keeps-pure Any-order none) (λ (ip, _).
          search (any_rules, ilock-Any, iunlock-Any, iput-Any, iunlockput-Any) depth 20))

    open_inode-Any : (path : List ℕ) (omode : ℕ) → Keeps Any (open_inode sb devsw cwd path omode)
    unfolding open_inode
    open_inode-Any path omode = Any-if (creates omode) (create-Any path t_file 0 0) (
        Any-bind (namei-Any path) (λ found.
          Any-option found (Keeps-pure Any-order none)
            (λ (ip, _). search (any_rules, ilock-Any, iunlockput-Any) depth 20)))

    -- Whatever the state of the file system, create() and the calls link, unlink, mkdir, mknod and chdir
    -- end, and so does the part of open that finds or makes the inode: they return, panic or wait for a
    -- lock, and no loop of them goes on for ever. The condition is that the functions of the devices end,
    -- and that those which read keep the sizes of the inodes.
    pub calls_end :
        (s : Fs) (path new : List ℕ) (type major minor omode : ℕ)
        → (create sb devsw cwd path type major minor s ≢ out_of_fuel)
          × (sys_link sb devsw cwd path new s ≢ out_of_fuel)
          × (sys_unlink sb devsw cwd path s ≢ out_of_fuel)
          × (sys_mkdir sb devsw cwd path s ≢ out_of_fuel)
          × (sys_mknod sb devsw cwd path major minor s ≢ out_of_fuel)
          × (sys_chdir sb devsw cwd path s ≢ out_of_fuel)
          × (open_inode sb devsw cwd path omode s ≢ out_of_fuel)
    calls_end s path new type major minor omode = (
      Ends-ne-out_of_fuel ((create-Any path type major minor).at s),
      Ends-ne-out_of_fuel ((sys_link-Any path new).at s),
      Ends-ne-out_of_fuel ((sys_unlink-Any path).at s),
      Ends-ne-out_of_fuel ((sys_mkdir-Any path).at s),
      Ends-ne-out_of_fuel ((sys_mknod-Any path major minor).at s),
      Ends-ne-out_of_fuel ((sys_chdir-Any path).at s),
      Ends-ne-out_of_fuel ((open_inode-Any path omode).at s),
    )
