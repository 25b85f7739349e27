-- ===== src/Fs/Words.antt =====
-- Shorts and 32-bit words in the bytes of a block, the low byte first.
use os_11740_assignment.Base.{ℕ, ◌+◌, ◌*◌, ◌/◌, ◌%◌, ◌^◌, ◌≤◌, ◌<◌, ◌≡◌, ◌⊎◌, arith, update}

abbrev pub get16 : (ℕ → ℕ) → ℕ → ℕ
get16 d o = d o + 256 * d (o + 1)

abbrev pub put16 : ℕ → ℕ → (ℕ → ℕ) → ℕ → ℕ
put16 o v d = update (update d o (v % 256)) (o + 1) (v / 256 % 256)

abbrev pub get32 : (ℕ → ℕ) → ℕ → ℕ
get32 d o = get16 d o + 65536 * get16 d (o + 2)

abbrev pub put32 : ℕ → ℕ → (ℕ → ℕ) → ℕ → ℕ
put32 o v d = put16 (o + 2) (v / 65536) (put16 o v d)

pub get16-put16 : (d : ℕ → ℕ) (o v : ℕ) → v < 2 ^ 16 → get16 (put16 o v d) o ≡ v
get16-put16 d o v small = ground arith

pub get32-put32 : (d : ℕ → ℕ) (o v : ℕ) → v < 2 ^ 32 → get32 (put32 o v d) o ≡ v
get32-put32 d o v small = ground arith

pub get16-put16_ne :
    (d : ℕ → ℕ) (o v p : ℕ) → (p + 2 ≤ o) ⊎ (o + 2 ≤ p) → get16 (put16 o v d) p ≡ get16 d p
get16-put16_ne d o v p apart = ground arith

pub get16-put32_ne :
    (d : ℕ → ℕ) (o v p : ℕ) → (p + 2 ≤ o) ⊎ (o + 4 ≤ p) → get16 (put32 o v d) p ≡ get16 d p
get16-put32_ne d o v p apart = ground arith

pub get32-put16_ne :
    (d : ℕ → ℕ) (o v p : ℕ) → (p + 4 ≤ o) ⊎ (o + 2 ≤ p) → get32 (put16 o v d) p ≡ get32 d p
get32-put16_ne d o v p apart = ground arith

pub get32-put32_ne :
    (d : ℕ → ℕ) (o v p : ℕ) → (p + 4 ≤ o) ⊎ (o + 4 ≤ p) → get32 (put32 o v d) p ≡ get32 d p
get32-put32_ne d o v p apart = ground arith
