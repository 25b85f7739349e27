-- ===== src/Syscall/Tests.antt =====
-- The argument checks on a process with 100 bytes, whose stack pointer is 60.
use os_11740_assignment.Base.{
  ◌≡◌, ◌≤◌, ◌<◌, ◌+◌, ◌^◌, ◌↔◌, refl, arith, ◌==◌, some, none, if◌then◌else◌,
}
use os_11740_assignment.Syscall.{Task, fetchint, string_loop, fetchstr, argint, argptr, argstr}
use os_11740_assignment.Syscall.Checks.{Ends, fetchstr-Ends, argptr_iff}

-- The argument 0 is the pointer 90, where a string of two characters stands.
abbrev task : Task
task = record {
  mem = λ x. if x == 64 then 90 else (if x == 90 then 65 else (if x == 91 then 66 else 0));
  sz = 100;
  esp = 60;
}

fetchstr-Ends_example : Ends task 90 90 (fetchstr task 90)
fetchstr-Ends_example = fetchstr-Ends task 90

argptr_iff_example :
    (argptr task 0 10 ≡ some 90)
    ↔ ((argint task 0 ≡ some 90) × (10 < 2 ^ 31) × (90 < 100) × (90 + 10 ≤ 100))
argptr_iff_example = argptr_iff task 0 10 90 (omega arith)

argptr_in : argptr task 0 10 ≡ some 90
unfolding argptr argint fetchint
argptr_in = refl

argptr_out : argptr task 0 11 ≡ none
unfolding argptr argint fetchint
argptr_out = refl

argstr_found : argstr task 0 ≡ some (90, 2)
unfolding argstr argint fetchint fetchstr string_loop
argstr_found = refl
