-- ===== src/Nullbits/Tests.antt =====
-- The theorems on bitmaps and on three-valued logic at concrete inputs.
use scutedb.Base.{◌-◌, ◌≤◌, ◌≡◌, arith, min, max, [], ◌∷◌, length, true, false, ltb, if◌then◌else◌}
use scutedb.Base.Int.{pos}
use scutedb.Nullbits.Logic.{and3, or3, not3, truth, unknown3, kleene_lem}
use scutedb.Nullbits.Bitmap.{Bitmap, is_null, set_null, set_present, count, any}
use scutedb.Nullbits.Laws.{marks_field, nulls, first_fields, is_null-set_null, count_lem}

-- 7 is no Bool3 that the package makes, and counts as UNKNOWN.
kleene_lem_example :
    (truth (and3 1 7) ≡ min (truth 1) (truth 7))
    × (truth (or3 1 7) ≡ max (truth 1) (truth 7))
    × (truth (not3 1) ≡ 2 - truth 1)
    × (and3 1 7 ≤ unknown3)
    × (or3 1 7 ≤ unknown3)
    × (not3 1 ≤ unknown3)
kleene_lem_example = kleene_lem 1 7

abbrev row_bits : Bitmap
row_bits = 4 ∷ 1 ∷ []

is_null-set_null_example :
    (is_null (set_null row_bits (pos 9)) (pos 9)
      ≡ (if marks_field row_bits (pos 9) (pos 9) then true else is_null row_bits (pos 9)))
    × (is_null (set_present row_bits (pos 9)) (pos 9)
        ≡ (if marks_field row_bits (pos 9) (pos 9) then false else is_null row_bits (pos 9)))
    × (length (set_null row_bits (pos 9)) ≡ 2)
    × (length (set_present row_bits (pos 9)) ≡ 2)
is_null-set_null_example =
    is_null-set_null row_bits (pos 9) (pos 9) (omega arith, (omega arith, tt))

count_lem_example :
    (count row_bits (pos 9) ≡ nulls row_bits 0 (first_fields row_bits (pos 9)))
    × (any row_bits (pos 9) ≡ ltb 0 (count row_bits (pos 9)))
count_lem_example = count_lem row_bits (pos 9)
