-- ===== src/Bytes.antt =====
-- xv6-public/string.c: the routines on bytes in memory. A pointer is an address, and no range runs over
-- the end of the address space.
pub mod Move
pub mod Strings
mod Tests
use os_11740_assignment.Base.{
  ℕ, zero, suc, ◌+◌, ◌-◌, ◌^◌, Bool, true, false, ◌&&◌, ◌==◌, ltb, if◌then◌else◌, update,
}
use os_11740_assignment.Mmu.{u32}

abbrev pub Memory : Type 0
Memory = ℕ → ℕ

-- The two loops of memmove(). The pointers of the one that goes down stand behind the next byte.
unfoldable pub move_down : ℕ → Memory → ℕ → ℕ → Memory
move_down zero m d s = m
move_down (suc n) m d s = move_down n (update m (d - 1) (m (s - 1))) (d - 1) (s - 1)

unfoldable pub move_up : ℕ → Memory → ℕ → ℕ → Memory
move_up zero m d s = m
move_up (suc n) m d s = move_up n (update m d (m s)) (d + 1) (s + 1)

unfoldable pub memmove : Memory → ℕ → ℕ → ℕ → Memory
memmove m dst src n =
    if ltb src dst && ltb dst (src + n)
    then move_down n m (dst + n) (src + n)
    else move_up n m dst src

-- The C `int` that the difference of two bytes is, as a bit pattern.
abbrev pub difference : ℕ → ℕ → ℕ
difference a b = u32 (a + 2 ^ 32 - b)

unfoldable pub memcmp : Memory → ℕ → ℕ → ℕ → ℕ
memcmp m s1 s2 zero = 0
memcmp m s1 s2 (suc n) =
    let rest = memcmp m (s1 + 1) (s2 + 1) n in
    if m s1 == m s2 then rest else difference (m s1) (m s2)

unfoldable pub strncmp : Memory → ℕ → ℕ → ℕ → ℕ
strncmp m p q zero = 0
strncmp m p q (suc n) =
    let rest = strncmp m (p + 1) (q + 1) n in
    if m p == 0
    then difference (m p) (m q)
    else (if m p == m q then rest else difference (m p) (m q))

-- The second loop of strncpy(), for the `n` bytes that are left.
unfoldable pub pad : ℕ → Memory → ℕ → Memory
pad zero m s = m
pad (suc n) m s = pad n (update m s 0) (s + 1)

unfoldable pub strncpy : ℕ → Memory → ℕ → ℕ → Memory
strncpy zero m s t = m
strncpy (suc n) m s t =
    let rest = strncpy n (update m s (m t)) (s + 1) (t + 1) in
    if m t == 0 then pad n (update m s (m t)) (s + 1) else rest

-- The loop of safestrcpy() for at most `k` bytes, and the byte behind it.
unfoldable pub safe_loop : ℕ → Memory → ℕ → ℕ → Memory
safe_loop zero m s t = update m s 0
safe_loop (suc k) m s t =
    let rest = safe_loop k (update m s (m t)) (s + 1) (t + 1) in
    if m t == 0 then update (update m s (m t)) (s + 1) 0 else rest

unfoldable pub safestrcpy : Memory → ℕ → ℕ → ℕ → Memory
safestrcpy m s t n = if n == 0 then m else safe_loop (n - 1) m s t
