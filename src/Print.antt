-- ===== src/Print.antt =====
-- cprintf() of xv6-public/console.c and printf() of xv6-public/printf.c: the characters that they print
-- for a format, which is the list of its characters before the terminating 0, and for the words of their
-- further arguments. `none` is a write past the end of a buffer. And atoi() of xv6-public/ulib.c.
pub mod Digits
pub mod Numerals
pub mod Formats
pub mod Prints
pub mod Cprintf
mod Tests
use os_11740_assignment.Base.{
  ℕ, zero, suc, ◌+◌, ◌-◌, ◌*◌, ◌/◌, ◌%◌, ◌^◌, Bool, true, false, ◌&&◌, ◌||◌, ◌==◌, ltb, leb, Option,
  none, some, List, [], ◌∷◌, ◌++◌, length, if◌then◌else◌,
}
use os_11740_assignment.Mmu.{u32}
use os_11740_assignment.Console.Screen.{rev_onto}

-- sizeof(buf)
abbrev pub buf_size : ℕ
buf_size = 16

abbrev pub digit_lower : ℕ → ℕ
digit_lower d = if ltb d 10 then b'0' + d else b'a' + (d - 10)

abbrev pub digit_upper : ℕ → ℕ
digit_upper d = if ltb d 10 then b'0' + d else b'A' + (d - 10)

abbrev pub cons_to : ℕ → Option (List ℕ) → Option (List ℕ)
cons_to c none = none
cons_to c (some cs) = some (c ∷ cs)

abbrev pub append_to : Option (List ℕ) → Option (List ℕ) → Option (List ℕ)
append_to none out = none
append_to (some cs) none = none
append_to (some cs) (some ds) = some (cs ++ ds)

-- buf[i++] = '-'
abbrev pub add_minus : Bool → List ℕ → Option (List ℕ)
add_minus neg buf =
    if neg
    then (if ltb (length buf) buf_size then some (buf ++ (b'-' ∷ [])) else none)
    else some buf

-- The buffer from its last character to the first.
abbrev pub backwards : Option (List ℕ) → Option (List ℕ)
backwards none = none
backwards (some buf) = some (rev_onto buf [])

abbrev pub minus_and_back : Bool → Option (List ℕ) → Option (List ℕ)
minus_and_back neg none = none
minus_and_back neg (some buf) = backwards (add_minus neg buf)

module _ (digit : ℕ → ℕ) where
  -- The loop over the digits of `x`, the lowest one first, with the room that is left in the buffer.
  unfoldable pub digit_loop : ℕ → ℕ → ℕ → Option (List ℕ)
  digit_loop base zero x = none
  digit_loop base (suc k) x =
      let rest = digit_loop base k (x / base) in
      if x / base == 0 then some (digit (x % base) ∷ []) else cons_to (digit (x % base)) rest

  -- `xx` is the bit pattern of an int.
  unfoldable pub printint : ℕ → ℕ → Bool → Option (List ℕ)
  printint xx base sign =
      let neg = sign && leb (2 ^ 31) xx in
      minus_and_back neg (digit_loop base buf_size (if neg then u32 (2 ^ 32 - xx) else xx))

abbrev pub null_string : List ℕ
null_string = b'(' ∷ b'n' ∷ b'u' ∷ b'l' ∷ b'l' ∷ b')' ∷ []

-- `arg n` is the word of argument `n`, and `str p` the characters of the string at `p`.
module _ (arg : ℕ → ℕ) (str : ℕ → List ℕ) where
  abbrev pub string_at : ℕ → List ℕ
  string_at p = if p == 0 then null_string else str p

  -- What cprintf() prints for %c, and the number of arguments it takes.
  unfoldable pub kernel_directive : ℕ → ℕ → Option (List ℕ) × ℕ
  kernel_directive c n =
      if c == b'd'
      then (printint digit_lower (arg n) 10 true, 1)
      else (if (c == b'x') || (c == b'p')
          then (printint digit_lower (arg n) 16 false, 1)
          else (if c == b's'
              then (some (string_at (arg n)), 1)
              else (if c == b'%' then (some (b'%' ∷ []), 0) else (some (b'%' ∷ c ∷ []), 0))))

  -- The loop of cprintf() from argument `n` on.
  unfoldable pub kernel_loop : List ℕ → ℕ → Option (List ℕ)
  kernel_loop [] n = some []
  kernel_loop (c ∷ []) n = if c == b'%' then some [] else some (c ∷ [])
  kernel_loop (c ∷ d ∷ fmt) n =
      let plain = kernel_loop (d ∷ fmt) n in
      let taken = kernel_directive d n in
      let rest = kernel_loop fmt (n + taken.1) in
      if c == b'%' then append_to taken.0 rest else cons_to c plain

  -- What printf() prints for %c, and the number of arguments it takes.
  unfoldable pub user_directive : ℕ → ℕ → Option (List ℕ) × ℕ
  user_directive c n =
      if c == b'd'
      then (printint digit_upper (arg n) 10 true, 1)
      else (if (c == b'x') || (c == b'p')
          then (printint digit_upper (arg n) 16 false, 1)
          else (if c == b's'
              then (some (string_at (arg n)), 1)
              else (if c == b'c'
                  then (some (arg n % 256 ∷ []), 1)
                  else (if c == b'%' then (some (c ∷ []), 0) else (some (b'%' ∷ c ∷ []), 0)))))

  -- The loop of printf() from argument `n` on, with the state: whether a % came before.
  unfoldable pub user_loop : Bool → List ℕ → ℕ → Option (List ℕ)
  user_loop state [] n = some []
  user_loop false (c ∷ fmt) n =
      let percent = user_loop true fmt n in
      let plain = user_loop false fmt n in if c == b'%' then percent else cons_to c plain
  user_loop true (c ∷ fmt) n =
      let taken = user_directive c n in append_to taken.0 (user_loop false fmt (n + taken.1))

-- The loop of atoi(), from the number `n` that is read so far.
unfoldable pub atoi_loop : ℕ → List ℕ → ℕ
atoi_loop n [] = n
atoi_loop n (c ∷ cs) =
    let more = atoi_loop (u32 (n * 10 + c + 2 ^ 32 - b'0')) cs in
    if leb b'0' c && leb c b'9' then more else n

unfoldable pub atoi : List ℕ → ℕ
atoi s = atoi_loop 0 s
