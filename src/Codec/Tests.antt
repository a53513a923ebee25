-- ===== src/Codec/Tests.antt =====
-- The theorems of the codec at concrete inputs, and runs of the code.
use scutedb.Base.{◌+◌, ◌-◌, ◌^◌, ◌≡◌, refl, arith, [], ◌∷◌, ◌++◌}
use scutedb.Base.{ok, err, compare_bytes}
use scutedb.Codec.Varint.{
  truncated, overflow, append_uvarint, uvarint, uvarint_len, zigzag, append_varint, varint,
}
use scutedb.Codec.Varint.RoundTrip.{uvarint-append_uvarint}
use scutedb.Codec.Varint.Decode.{uvarint_truncated}
use scutedb.Codec.Varint.Zigzag.{varint-append_varint}
use scutedb.Codec.Value.{append_bytes, bytes}
use scutedb.Codec.Value.RoundTrip.{bytes-append_bytes}
use scutedb.Codec.Key.{append_key_float64, inf_bits}
use scutedb.Codec.Key.Order.{compare-append_key_float64, compare_float64}

append_uvarint_300 : append_uvarint [] 300 ≡ 0xac ∷ 0x02 ∷ []
unfolding append_uvarint
append_uvarint_300 = refl

uvarint_eleven :
    uvarint (0xff ∷ 0xff ∷ 0xff ∷ 0xff ∷ 0xff ∷ 0xff ∷ 0xff ∷ 0xff ∷ 0xff ∷ 2 ∷ []) ≡ err overflow
unfolding uvarint
uvarint_eleven = refl

uvarint_padded : uvarint (0x80 ∷ 0x00 ∷ 7 ∷ []) ≡ ok (0, 2)
unfolding uvarint
uvarint_padded = refl

uvarint-append_uvarint_example :
    uvarint (append_uvarint [] 300 ++ (9 ∷ [])) ≡ ok (300, uvarint_len 300)
uvarint-append_uvarint_example = uvarint-append_uvarint 300 (9 ∷ []) (omega arith)

uvarint_truncated_example : uvarint (0xac ∷ []) ≡ err truncated
uvarint_truncated_example =
    uvarint_truncated 300 0x02 (0xac ∷ []) [] (omega arith) append_uvarint_300

varint-append_varint_example :
    varint (append_varint [] (2 ^ 64 - 3) ++ (9 ∷ []))
    ≡ ok (2 ^ 64 - 3, uvarint_len (zigzag (2 ^ 64 - 3)))
varint-append_varint_example = varint-append_varint (2 ^ 64 - 3) (9 ∷ []) (omega arith)

bytes-append_bytes_example :
    bytes (append_bytes [] (7 ∷ 8 ∷ []) ++ (9 ∷ [])) ≡ ok (7 ∷ 8 ∷ [], uvarint_len 2 + 2)
bytes-append_bytes_example = bytes-append_bytes (7 ∷ 8 ∷ []) (9 ∷ []) (omega arith)

compare-append_key_float64_example :
    compare_bytes (append_key_float64 [] (inf_bits + 1)) (append_key_float64 [] inf_bits)
    ≡ compare_float64 (inf_bits + 1) inf_bits
compare-append_key_float64_example =
    compare-append_key_float64 (inf_bits + 1) inf_bits (omega arith) (omega arith)
