-- ===== src/Codec/Value.antt =====
-- internal/codec/value.go: booleans, floats, and byte strings behind their length.
-- A float64 is the number that its 64 bits spell; a string is its bytes.
pub mod RoundTrip
use scutedb.Base.{
  ℕ, ◌+◌, ◌^◌, ◌<◌, List, [], ◌∷◌, ◌++◌, Bool, true, false, not, ◌==◌, ltb, if◌then◌else◌,
}
use scutedb.Base.{
  length, take, drop, be_bytes, be_uint, add_int, ltb_int, ◌||◌, Result, ok, err, ◌>>=◌,
}
use scutedb.Codec.Varint.{Error, truncated, append_uvarint, uvarint, append_varint, varint}

unfoldable pub append_uint64 : List ℕ → ℕ → List ℕ
append_uint64 dst v = append_uvarint dst v

unfoldable pub uint64 : List ℕ → Result Error (ℕ × ℕ)
uint64 src = uvarint src

unfoldable pub append_int64 : List ℕ → ℕ → List ℕ
append_int64 dst v = append_varint dst v

unfoldable pub int64 : List ℕ → Result Error (ℕ × ℕ)
int64 src = varint src

unfoldable pub append_bool : List ℕ → Bool → List ℕ
append_bool dst true = dst ++ (1 ∷ [])
append_bool dst false = dst ++ (0 ∷ [])

unfoldable pub bool : List ℕ → Result Error (Bool × ℕ)
bool [] = err truncated
bool (b ∷ src) = ok (not (b == 0), 1)

unfoldable pub append_float64 : List ℕ → ℕ → List ℕ
append_float64 dst f = dst ++ be_bytes 8 f

unfoldable pub float64 : List ℕ → Result Error (ℕ × ℕ)
float64 src = if ltb (length src) 8 then err truncated else ok (be_uint 8 src, 8)

unfoldable pub append_bytes : List ℕ → List ℕ → List ℕ
append_bytes dst b = append_uvarint dst (length b) ++ b

-- The length `n` and the header's size `hdr` are read: the checks before `src[hdr:end]`.
unfoldable pub bytes_body : List ℕ → ℕ × ℕ → Result Error (List ℕ × ℕ)
bytes_body src (n, hdr) =
    let end = add_int hdr n in
    if ltb (length src) n
    then err truncated
    else if ltb_int (length src) end || ltb_int end hdr
    then err truncated
    else ok (take n (drop hdr src), end)

unfoldable pub bytes_ref : List ℕ → Result Error (List ℕ × ℕ)
bytes_ref src = uvarint src >>= bytes_body src

-- Bytes copies what BytesRef points at; String is the same at the type of strings.
unfoldable pub bytes : List ℕ → Result Error (List ℕ × ℕ)
bytes src = do (ref, n) ← bytes_ref src; ok (ref, n)

unfoldable pub append_string : List ℕ → List ℕ → List ℕ
append_string dst s = append_uvarint dst (length s) ++ s

unfoldable pub string : List ℕ → Result Error (List ℕ × ℕ)
string src = do (b, n) ← bytes_ref src; ok (b, n)
