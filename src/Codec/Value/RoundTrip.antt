-- ===== src/Codec/Value/RoundTrip.antt =====
-- Values read back: the round trips, what a read takes, and truncated input.
use scutedb.Base.{ℕ, ◌+◌, ◌^◌, ◌≤◌, ◌<◌, ◌≡◌, refl, ap, arith, inl, inr}
use scutedb.Base.{List, [], ◌∷◌, ◌++◌, append_assoc, Bool, true, false}
use scutedb.Base.{
  length, length-append, take, drop, All, be_bytes, length-be_bytes, be_uint-be_bytes,
}
use scutedb.Base.{ok, Result-cases}
use scutedb.Codec.Varint.{IsByte, IsU64, uvarint, append_uvarint, uvarint_len}
use scutedb.Codec.Varint.Encode.{uvarint_len-append_uvarint}
use scutedb.Codec.Varint.RoundTrip.{uvarint-append_uvarint}
use scutedb.Codec.Varint.Decode.{uvarint_takes}
use scutedb.Codec.Value.{
  append_bool, bool, append_float64, float64, append_bytes, bytes_body, bytes_ref, bytes,
}

take-drop_middle :
    {A : Type 0} (xs ys zs : List A) → take (length ys) (drop (length xs) (xs ++ (ys ++ zs))) ≡ ys
take-drop_middle [] [] zs = refl
take-drop_middle [] (y ∷ ys) zs = ap (λ t. y ∷ t) (take-drop_middle [] ys zs)
take-drop_middle (x ∷ xs) ys zs = take-drop_middle xs ys zs

-- Bool and Float64 read back what AppendBool and AppendFloat64 wrote, every NaN's bits included.
pub bool_float_round_trip :
    (b : Bool) (f : ℕ) (rest : List ℕ)
    → IsU64 f
    → (bool (append_bool [] b ++ rest) ≡ ok (b, 1))
      × (float64 (append_float64 [] f ++ rest) ≡ ok (f, 8))
unfolding bool append_bool float64 append_float64
bool_float_round_trip b f rest h = (
  at_bool b,
  ground (arith, length-append (be_bytes 8 f) rest, length-be_bytes 8 f, be_uint-be_bytes 8 f rest),
)
  where
    at_bool : (b : Bool) → bool (append_bool [] b ++ rest) ≡ ok (b, 1)
    at_bool true = refl
    at_bool false = refl

-- Bytes reads back the bytes that AppendBytes wrote, whatever follows, and says how many it took,
-- as long as the buffer's length is an int.
pub bytes-append_bytes :
    (b rest : List ℕ)
    → length b + length rest + 10 < 2 ^ 63
    → bytes (append_bytes [] b ++ rest) ≡ ok (b, uvarint_len (length b) + length b)
unfolding bytes append_bytes bytes_ref bytes_body
bytes-append_bytes b rest h =
    let (out, e, len, _, hi, _) = uvarint_len-append_uvarint [] (length b) (omega arith) in
    rw (append_assoc (append_uvarint [] (length b)) b rest) rw
      (uvarint-append_uvarint (length b) (b ++ rest) (omega arith)) rw (e, ← len)
      (ground
        (arith, take-drop_middle out b rest, length-append out (b ++ rest), length-append b rest))

-- What BytesRef returns lies inside the buffer: `end` is at most its length, and the bytes are the
-- `n` that stand behind the header, where Uvarint read `n` and the header's size.
pub bytes_ref_within :
    (src out : List ℕ) (end : ℕ)
    → All IsByte src
    → length src < 2 ^ 63
    → bytes_ref src ≡ ok (out, end)
    → (n : ℕ) × (hdr : ℕ) × (uvarint src ≡ ok (n, hdr))
      × (end ≡ hdr + n)
      × (end ≤ length src)
      × (out ≡ take n (drop hdr src))
unfolding bytes_ref bytes_body
bytes_ref_within src out end hb hl e = elim (Result-cases (uvarint src)) [
  | inl ((n, hdr), r) ↦
      let (_, _, hi, _) = uvarint_takes src n hdr hb r in
      (n, hdr, r, ground arith, ground arith, ground arith)
  | inr (x, r) ↦ cc
]
