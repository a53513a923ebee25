-- ===== src/Base/Words.antt =====
-- Go's int at 64 bits, by its two's complement pattern: addition wraps, and the order is signed.
use Prim.Native.Nat.{◌*◌, ◌/◌, ℕ, ◌+◌, ◌-◌, ◌%◌, ◌^◌}
use mathlib.Core.Bool.{Bool}
use scutedb.Base.Test.{ltb, if◌then◌else◌}

abbrev pub add_int : ℕ → ℕ → ℕ
add_int a b = (a + b) % 2 ^ 64

-- Patterns in the order of the numbers that they stand for.
abbrev pub int_rank : ℕ → ℕ
int_rank v = if ltb v (2 ^ 63) then v + 2 ^ 63 else v - 2 ^ 63

abbrev pub ltb_int : ℕ → ℕ → Bool
ltb_int a b = ltb (int_rank a) (int_rank b)

abbrev pub sub_int : ℕ → ℕ → ℕ
sub_int a b = (a + (2 ^ 64 - b)) % 2 ^ 64

abbrev pub mul_int : ℕ → ℕ → ℕ
mul_int a b = a * b % 2 ^ 64

abbrev pub neg_int : ℕ → ℕ
neg_int a = (2 ^ 64 - a) % 2 ^ 64

abbrev pub abs_int : ℕ → ℕ
abs_int a = if ltb a (2 ^ 63) then a else 2 ^ 64 - a

-- Go's `/` and `%`, which round towards zero.
abbrev pub quot_int : ℕ → ℕ → ℕ
quot_int a b =
    let q = abs_int a / abs_int b in
    if ltb a (2 ^ 63)
    then if ltb b (2 ^ 63) then q else neg_int q
    else if ltb b (2 ^ 63)
    then neg_int q
    else q

abbrev pub rem_int : ℕ → ℕ → ℕ
rem_int a b = let r = abs_int a % abs_int b in if ltb a (2 ^ 63) then r else neg_int r
