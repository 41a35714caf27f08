-- ===== src/Maadapter/Frame/Bits.antt =====
-- The bits of a frame's header, and exclusive or, which undoes itself.
use Prim.Native.Nat.{digits, differ, bit_and, bit_or, bit_xor, bit_xor-bitwise}
use native.Mathlib.Decide.{ℕ_discrete}
use ma_dlna.Base.{
  false, if◌then◌else◌, ℕ, zero, suc, ◌+◌, ◌*◌, ◌/◌, ◌%◌, ◌≤◌, ◌<◌, ◌≡◌, refl, Bool, true, ◌&&◌,
  ◌==◌, arith,
}

-- A test at all numbers below `n`, by evaluation.
passes : (ℕ → Bool) → ℕ → Bool
passes test zero = true
passes test (suc n) = let below = passes test n in if test n then below else false

passes-below : (test : ℕ → Bool) (n k : ℕ) → k < n → passes test n ≡ true → test k ≡ true
unfolding passes
passes-below test zero k small all = absurd (omega arith)
passes-below test (suc n) k small all = elim (ℕ_discrete k n) [
  | yes last ↦ rw last (ground (arith, all))
  | no earlier ↦ passes-below test n k (omega arith) (ground (arith, all))
]

opcode_table :
    passes (λ o. bit_and (bit_or 0x80 o) 0x0f == o && bit_and (bit_or 0x80 o) 0x80 == 128) 16 ≡ true
unfolding passes
opcode_table = refl

pub opcode_bits :
    (o : ℕ) → o < 16 → (bit_and (bit_or 0x80 o) 0x0f ≡ o) × (bit_and (bit_or 0x80 o) 0x80 ≡ 128)
opcode_bits o h = ground (arith, passes-below _ 16 o h opcode_table)

length_table :
    passes (λ n. bit_and (bit_or 0x80 n) 0x7f == n && bit_and (bit_or 0x80 n) 0x80 == 128) 128
    ≡ true
unfolding passes
length_table = refl

pub length_bits :
    (n : ℕ) → n < 128 → (bit_and (bit_or 0x80 n) 0x7f ≡ n) × (bit_and (bit_or 0x80 n) 0x80 ≡ 128)
length_bits n h = ground (arith, passes-below _ 128 n h length_table)

-- Exclusive or goes by a count of digits: any count from the first number on serves.
count_serves :
    (x y k l : ℕ) → x ≤ k → k ≤ l → digits (λ d. d) differ k x y ≡ digits (λ d. d) differ l x y
count_serves x y zero zero below more = refl
count_serves zero y zero (suc l) below more = refl
count_serves zero y (suc k) (suc l) below more = refl
count_serves (suc x) y zero (suc l) below more = absurd (omega arith)
count_serves x y (suc k) zero below more = absurd (omega arith)
count_serves (suc x) y (suc k) (suc l) below more =
    let halves = count_serves (suc x / 2) (y / 2) k l (omega arith) (omega arith) in
    omega (arith, halves)

-- the lowest digit, and the others
bit_xor_step : (x y : ℕ) → bit_xor x y ≡ bit_xor (x / 2) (y / 2) * 2 + differ (x % 2) (y % 2)
bit_xor_step zero y = omega (arith, bit_xor-bitwise zero y, bit_xor-bitwise zero (y / 2))
bit_xor_step (suc x) y =
    let all = bit_xor-bitwise (suc x) y in
    let rest = bit_xor-bitwise (suc x / 2) (y / 2) in
    omega
      (arith, count_serves (suc x / 2) (y / 2) (suc x / 2) x (omega arith) (omega arith), all, rest)

differ_lem : (d e : ℕ) → d < 2 → e < 2 → (differ d e < 2) × (differ (differ d e) e ≡ d)
differ_lem zero zero p q = omega arith
differ_lem zero (suc zero) p q = omega arith
differ_lem (suc zero) zero p q = omega arith
differ_lem (suc zero) (suc zero) p q = omega arith
differ_lem (suc (suc d)) e p q = absurd (omega arith)
differ_lem d (suc (suc e)) p q = absurd (omega arith)

bit_xor_twice_below : (n x m : ℕ) → x ≤ n → m ≤ n → bit_xor (bit_xor x m) m ≡ x
bit_xor_twice_below zero zero zero p q = refl
bit_xor_twice_below zero (suc x) m p q = absurd (omega arith)
bit_xor_twice_below zero zero (suc m) p q = absurd (omega arith)
bit_xor_twice_below (suc n) x m p q =
    let ih = bit_xor_twice_below n (x / 2) (m / 2) (omega arith) (omega arith) in
    let low = differ_lem (x % 2) (m % 2) (omega arith) (omega arith) in
    let half : bit_xor x m / 2 ≡ bit_xor (x / 2) (m / 2) = omega (arith, bit_xor_step x m) in
    let bit : bit_xor x m % 2 ≡ differ (x % 2) (m % 2) = omega (arith, bit_xor_step x m) in
    rw (bit_xor_step (bit_xor x m) m, half, bit, ih, low.1) (omega arith)

pub bit_xor_twice : (x m : ℕ) → bit_xor (bit_xor x m) m ≡ x
bit_xor_twice x m = bit_xor_twice_below (x + m) x m (omega arith) (omega arith)
