-- ===== src/Nullbits/Logic.antt =====
-- internal/nullbits/logic.go: TRUE, FALSE and UNKNOWN.
-- A Bool3 is a byte, and every byte above 2 stands for UNKNOWN too.
use scutedb.Base.{◌^◌}
use scutedb.Base.{
  refl, ℕ, ◌-◌, ◌≤◌, ◌<◌, ◌≡◌, min, max, arith, Bool, true, false, ◌||◌, Option, none, some,
}
use scutedb.Base.{ltb, ◌==◌, if◌then◌else◌, ltb_int}

abbrev pub Bool3 : Type 0
Bool3 = ℕ

abbrev pub false3 : Bool3
false3 = 0

abbrev pub true3 : Bool3
true3 = 1

abbrev pub unknown3 : Bool3
unknown3 = 2

abbrev pub norm : Bool3 → Bool3
norm b = if ltb unknown3 b then unknown3 else b

unfoldable pub not3 : Bool3 → Bool3
not3 b = if norm b == true3 then false3 else if norm b == false3 then true3 else unknown3

unfoldable pub and3 : Bool3 → Bool3 → Bool3
and3 b o =
    if norm b == false3 || norm o == false3
    then false3
    else if norm b == unknown3 || norm o == unknown3
    then unknown3
    else true3

unfoldable pub or3 : Bool3 → Bool3 → Bool3
or3 b o =
    if norm b == true3 || norm o == true3
    then true3
    else if norm b == unknown3 || norm o == unknown3
    then unknown3
    else false3

unfoldable pub is_true : Bool3 → Bool
is_true b = norm b == true3

abbrev pub from_bool : Bool → Bool3
from_bool v = if v then true3 else false3

-- A *int64: `none` is nil, and a number its two's complement pattern.
unfoldable pub equal_int64 : Option ℕ → Option ℕ → Bool3
equal_int64 none b = unknown3
equal_int64 (some x) none = unknown3
equal_int64 (some x) (some y) = from_bool (x == y)

unfoldable pub less_int64 : Option ℕ → Option ℕ → Bool3
less_int64 none b = unknown3
less_int64 (some x) none = unknown3
less_int64 (some x) (some y) = from_bool (ltb_int x y)

unfoldable pub is_null_int64 : Option ℕ → Bool3
is_null_int64 none = from_bool true
is_null_int64 (some x) = from_bool false

abbrev pub FitsInt64 : Option ℕ → Type 0
FitsInt64 none = Unit {0}
FitsInt64 (some x) = x < 2 ^ 64

-- FALSE below UNKNOWN below TRUE.
abbrev pub truth : Bool3 → ℕ
truth b = if b == false3 then 0 else if b == true3 then 2 else 1

-- With FALSE below UNKNOWN below TRUE, And is the minimum, Or the maximum and Not the reversal of
-- that order, for all bytes, and what And, Or and Not return is one of the three values.
pub kleene_lem :
    (b o : Bool3)
    → (truth (and3 b o) ≡ min (truth b) (truth o))
      × (truth (or3 b o) ≡ max (truth b) (truth o))
      × (truth (not3 b) ≡ 2 - truth b)
      × (and3 b o ≤ unknown3)
      × (or3 b o ≤ unknown3)
      × (not3 b ≤ unknown3)
unfolding and3 or3 not3
kleene_lem b o =
    (ground arith, ground arith, ground arith, ground arith, ground arith, ground arith)

-- What a comparison that comes out as `v` on numbers comes out as on these.
abbrev pub unless_null : Option ℕ → Option ℕ → Bool3 → Bool3
unless_null a b v = if is_true (or3 (is_null_int64 a) (is_null_int64 b)) then unknown3 else v

-- Of two int64s, each given or null, one of `a < b`, `a == b` and `b < a` is TRUE and no two are
-- where both are given; where one is null each of the three is UNKNOWN.
pub compare_int64_lem :
    (a b : Option ℕ)
    → FitsInt64 a
    → FitsInt64 b
    → (or3 (less_int64 a b) (or3 (equal_int64 a b) (less_int64 b a)) ≡ unless_null a b true3)
      × (and3 (less_int64 a b) (equal_int64 a b) ≡ unless_null a b false3)
      × (and3 (equal_int64 a b) (less_int64 b a) ≡ unless_null a b false3)
      × (and3 (less_int64 a b) (less_int64 b a) ≡ unless_null a b false3)
unfolding less_int64 equal_int64 is_null_int64 is_true or3 and3
compare_int64_lem none none ha hb = (refl, refl, refl, refl)
compare_int64_lem none (some y) ha hb = (refl, refl, refl, refl)
compare_int64_lem (some x) none ha hb = (refl, refl, refl, refl)
compare_int64_lem (some x) (some y) ha hb = (ground arith, ground arith, ground arith, ground arith)
