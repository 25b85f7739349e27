-- ===== src/Print/Tests.antt =====
-- Formats and numbers.
use os_11740_assignment.Base.{
  ℕ, ◌<◌, ◌^◌, ◌≡◌, refl, arith, true, false, ◌==◌, some, List, [], ◌∷◌, ◌++◌, if◌then◌else◌,
}
use os_11740_assignment.Base.Run.{ok}
use os_11740_assignment.Console.{Console}
use os_11740_assignment.Console.Screen.{Writes}
use os_11740_assignment.Console.Tests.{idle, idle-IsRunning}
use os_11740_assignment.Print.{
  digit_lower, digit_upper, digit_loop, printint, kernel_directive, kernel_loop, user_directive,
  user_loop, atoi_loop, atoi,
}
use os_11740_assignment.Print.Digits.{atoi-printint}
use os_11740_assignment.Print.Prints.{Prints}
use os_11740_assignment.Print.Cprintf.{cprintf, cprintf-Writes}

-- "x=%d %%%x"
abbrev format : List ℕ
format = b'x' ∷ b'=' ∷ b'%' ∷ b'd' ∷ b' ' ∷ b'%' ∷ b'%' ∷ b'%' ∷ b'x' ∷ []

-- "%s %d"
abbrev shared_format : List ℕ
shared_format = b'%' ∷ b's' ∷ b' ' ∷ b'%' ∷ b'd' ∷ []

-- The first argument is -12, the others are 255.
abbrev args : ℕ → ℕ
args n = if n == 0 then 4294967284 else 255

words : (i : ℕ) → args i < 2 ^ 32
words i = ground arith

abbrev text : ℕ → List ℕ
text p = b'o' ∷ b'k' ∷ []

kernel_prints :
    kernel_loop args text format 0
    ≡ some (b'x' ∷ b'=' ∷ b'-' ∷ b'1' ∷ b'2' ∷ b' ' ∷ b'%' ∷ b'f' ∷ b'f' ∷ [])
unfolding kernel_loop kernel_directive printint digit_loop
kernel_prints = refl

user_prints :
    user_loop args text false format 0
    ≡ some (b'x' ∷ b'=' ∷ b'-' ∷ b'1' ∷ b'2' ∷ b' ' ∷ b'%' ∷ b'F' ∷ b'F' ∷ [])
unfolding user_loop user_directive printint digit_loop
user_prints = refl

number_read : atoi (b'4' ∷ b'0' ∷ b'7' ∷ b'x' ∷ b'1' ∷ []) ≡ 407
unfolding atoi atoi_loop
number_read = refl

atoi-printint_example :
    (cs : List ℕ) × (printint digit_lower 407 10 true ≡ some cs)
    × (printint digit_upper 407 10 true ≡ some cs)
    × (atoi (cs ++ (b' ' ∷ [])) ≡ 407)
atoi-printint_example = atoi-printint 407 true b' ' [] (omega arith) refl

cprintf-Writes_example :
    (cs : List ℕ) × Prints args text format 0 cs
    × (t : Console) × (cprintf args text true (some format) idle ≡ ok tt t)
    × Writes cs idle t
cprintf-Writes_example = cprintf-Writes args text format idle words idle-IsRunning refl
