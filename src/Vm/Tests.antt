-- ===== src/Vm/Tests.antt =====
-- Page tables of a parent and a child, and the theorems of vm.c at them.
use os_11740_assignment.Base.{ℕ, ◌≡◌, refl, true, false, [], ◌∷◌, arith, if◌then◌else◌, ◌==◌, ◌||◌}
use os_11740_assignment.Base.Run.{ok}
use os_11740_assignment.Mmu.{npdentries}
use os_11740_assignment.Vm.Count.{countpp, count_entries}
use os_11740_assignment.Vm.Count.Tally.{countpp-tally, tally_tables}
use os_11740_assignment.Kalloc.{Kmem, frame}
use os_11740_assignment.Kalloc.Inv.{IsKmem}
use os_11740_assignment.Vm.Walk.{slot}
use os_11740_assignment.Vm.Cow.{cow_handler, resumes}
use os_11740_assignment.Vm.Cow.Faults.{IsMapped, Unshared, cow_handler-shared}
use os_11740_assignment.Vm.Cow.Pair.{AreApart, Parted, cow_handler-Parted}
use os_11740_assignment.Vm.Fork.{share}
use os_11740_assignment.Vm.Fork.Sharing.{IsRoom, IsShared, share_lem}

abbrev kernel_end : ℕ
kernel_end = 0x80100000

-- The parent's directory is frame 0x600, with a table in frame 0x601. Its page 0 is frame 0x401, which
-- it shares with the child, and pages 1 and 2 are frames 0x402 and 0x403, which are its own. The child's
-- directory is frame 0x700, with a table in frame 0x701 that has the shared page as page 5. Frame 0x400
-- is free.
abbrev words : ℕ → ℕ → ℕ
words f i =
    if f == 0x600
    then (if i == 0 then 0x601007 else 0)
    else (if f == 0x601
        then (if i == 0
            then 0x401005
            else (if i == 1 then 0x402007 else (if i == 2 then 0x403001 else 0)))
        else (if f == 0x700
            then (if i == 0 then 0x701007 else 0)
            else (if f == 0x701 then (if i == 5 then 0x401005 else 0) else 0)))

abbrev counts : ℕ → ℕ
counts f =
    if f == 0x401
    then 2
    else (if (f == 0x402) || ((f == 0x403) || ((f == 0x601) || ((f == 0x700) || (f == 0x701))))
        then 1
        else 0)

abbrev machine : Kmem
machine = record {
  mem = words;
  freelist = 0x80400000;
  freecnt = 1;
  refc_cnt = counts;
  use_lock = true;
  locked = false;
}

machine-IsKmem : IsKmem kernel_end (0x80400000 ∷ []) machine
machine-IsKmem = ground arith

-- A fault at address 12, in page 0.
IsMapped-shared : IsMapped machine 0x80600000 12 0x401005
IsMapped-shared = record {
  table = refl;
  entry = refl;
  present = refl;
  word = omega arith;
  counted = omega arith;
}

-- A fault of the child in the same page.
IsMapped-child : IsMapped machine 0x80700000 0x5004 0x401005
IsMapped-child = record {
  table = refl;
  entry = refl;
  present = refl;
  word = omega arith;
  counted = omega arith;
}

room : IsRoom machine (slot 0x601 1) 0x80700000 0x1000
room = record {
  aligned = refl;
  word = omega arith;
  table = refl;
  empty = refl;
  apart = omega arith;
  apart' = omega arith;
}

cow_handler-shared_example :
    (t : Kmem) × (cow_handler 0x80600000 12 machine ≡ ok resumes t)
    × Unshared kernel_end (slot 0x601 0) 0x401005 0x80400000 [] machine t
cow_handler-shared_example =
    cow_handler-shared IsMapped-shared machine-IsKmem (omega arith) (omega arith) (omega arith)

AreApart-shared : AreApart machine (slot 0x601 0) (slot 0x701 5) 0x700 0x401
AreApart-shared = record {
  tables = omega arith;
  directory = omega arith;
  page = omega arith;
  page' = omega arith;
  used = omega arith;
  used' = omega arith;
  used_directory = omega arith;
}

cow_handler-Parted_example :
    (t u : Kmem) × (cow_handler 0x80600000 12 machine ≡ ok resumes t)
    × (cow_handler 0x80700000 0x5004 t ≡ ok resumes u)
    × Parted kernel_end (slot 0x601 0) (slot 0x701 5) 0x401005 0x401005 0x80400000 [] machine u
cow_handler-Parted_example =
    cow_handler-Parted IsMapped-shared IsMapped-child refl AreApart-shared machine-IsKmem refl

share_lem_example :
    (t : Kmem) × (share (slot 0x601 1) 0x1000 0x80700000 machine ≡ ok true t)
    × IsShared (slot 0x601 1) (slot 0x701 1) 0x402007 machine t
share_lem_example = share_lem room refl refl (omega arith) (omega arith) refl (omega arith)

countpp-tally_example :
    countpp machine (record { sz = 0x3000; pgdir = 0x80600000 })
    ≡ tally_tables machine 0x3000 (frame 0x80600000) npdentries 0
countpp-tally_example =
    countpp-tally machine (record { sz = 0x3000; pgdir = 0x80600000 }) (omega arith)

-- The three entries of the table, as the inner loop counts them.
count_of_three : (count_entries machine 0x3000 0x601 0 8 0 0) ≡ (3, true)
unfolding count_entries
count_of_three = refl
