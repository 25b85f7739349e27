-- ===== src/Bytes/Tests.antt =====
-- The theorems of string.c at a small memory.
use os_11740_assignment.Base.{◌≡◌, refl, ◌==◌, if◌then◌else◌}
use os_11740_assignment.Bytes.{Memory, memmove, safestrcpy, safe_loop}
use os_11740_assignment.Bytes.Move.{memmove-copied}

-- The text "AB" at address 10.
abbrev memory : Memory
memory x = if x == 10 then 65 else (if x == 11 then 66 else 0)

-- A move by one byte up, over its own source.
memmove-copied_example : memmove memory 11 10 3 12 ≡ 66
memmove-copied_example = memmove-copied memory 11 10 3 12

-- It is cut off behind the first byte.
cut_off : (safestrcpy memory 0 10 2 0 ≡ 65) × (safestrcpy memory 0 10 2 1 ≡ 0)
unfolding safestrcpy safe_loop
cut_off = (refl, refl)
