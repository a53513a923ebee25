-- ===== src/Nullbits/Bitmap.antt =====
-- internal/nullbits/nullbits.go: one bit for each field, in bytes, lowest bit first.
use scutedb.Base.{ℕ, zero, suc, ◌+◌, ◌*◌, ◌/◌, ◌%◌, ◌^◌, bit_and, bit_or, bit_xor}
use scutedb.Base.{Bool, true, false, not, ◌&&◌, ltb, ◌==◌, if◌then◌else◌}
use scutedb.Base.{List, length, get_or, set, replicate}
use scutedb.Base.Int.{ℤ, pos, negsuc}

abbrev pub Bitmap : Type 0
Bitmap = List ℕ

-- For counts up to 2^63 - 8: with more, the source's sum would wrap around.
abbrev pub size : ℤ → ℕ
size (negsuc n) = 0
size (pos n) = (n + 7) / 8

abbrev pub new : ℤ → Bitmap
new fields = replicate (size fields) 0

abbrev pub fields : Bitmap → ℕ
fields b = length b * 8

-- `1 << (uint(i) % 8)` at a byte, and `&^` at a byte.
abbrev pub bit_at : ℕ → ℕ
bit_at i = 2 ^ (i % 8)

abbrev pub and_not : ℕ → ℕ → ℕ
and_not x m = bit_and x (bit_xor m 255)

unfoldable pub set_null : Bitmap → ℤ → Bitmap
set_null b (negsuc n) = b
set_null b (pos i) =
    if ltb i (fields b) then set b (i / 8) (bit_or (get_or b (i / 8) 0) (bit_at i)) else b

unfoldable pub set_present : Bitmap → ℤ → Bitmap
set_present b (negsuc n) = b
set_present b (pos i) =
    if ltb i (fields b) then set b (i / 8) (and_not (get_or b (i / 8) 0) (bit_at i)) else b

unfoldable pub is_null : Bitmap → ℤ → Bool
is_null b (negsuc n) = false
is_null b (pos i) =
    if ltb i (fields b) then not (bit_and (get_or b (i / 8) 0) (bit_at i) == 0) else false

-- `for i := 0; i < fields && i < b.Fields(); i++`, from `i` on.
unfoldable pub any_loop : Bitmap → ℕ → ℕ → ℕ → Bool
any_loop b n zero i = false
any_loop b n (suc fuel) i =
    let rest = any_loop b n fuel (i + 1) in
    if ltb i n && ltb i (fields b) then (if is_null b (pos i) then true else rest) else false

unfoldable pub any : Bitmap → ℤ → Bool
any b (negsuc n) = false
any b (pos n) = any_loop b n n 0

unfoldable pub count_loop : Bitmap → ℕ → ℕ → ℕ → ℕ → ℕ
count_loop b n zero i c = c
count_loop b n (suc fuel) i c =
    let rest = count_loop b n fuel (i + 1) in
    if ltb i n && ltb i (fields b) then rest (if is_null b (pos i) then c + 1 else c) else c

unfoldable pub count : Bitmap → ℤ → ℕ
count b (negsuc n) = 0
count b (pos n) = count_loop b n n 0 0
