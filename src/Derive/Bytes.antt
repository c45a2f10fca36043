-- ===== src/Derive/Bytes.antt =====
-- derive/src/data.rs: how the generated code reads and writes a slice, at an offset that the macro
-- has computed or at the running index `byte_ptr`.
use mini_udp.Prelude.{
  ℕ, zero, suc, ◌+◌, ◌*◌, ◌/◌, ◌%◌, leb, if◌then◌else◌, List, [], ◌∷◌, ◌++◌, length, take, drop,
}
use mini_udp.ByteRepr.{Result, ok, err, panic, slice_too_short}

pub data ByteOffset : Type 0 where
  static : ℕ → ByteOffset
  dynamic : ByteOffset

-- `ByteOffset::get_range`, and `get` for one byte: where the range starts, and `byte_ptr` after it.
abbrev pub start_of : ByteOffset → ℕ → ℕ
start_of (static n) byte_ptr = n
start_of dynamic byte_ptr = byte_ptr

abbrev pub next_of : ByteOffset → ℕ → ℕ → ℕ
next_of (static n) len byte_ptr = byte_ptr
next_of dynamic len byte_ptr = byte_ptr + len

-- The bytes from `start` on replaced.
unfoldable pub patch : ℕ → List ℕ → List ℕ → List ℕ
patch start xs bytes = take start bytes ++ (xs ++ drop (start + length xs) bytes)

-- `bytes.get(range).ok_or(SliceTooShort)?`
unfoldable pub get_range : ByteOffset → ℕ → List ℕ → ℕ → Result (List ℕ × ℕ)
get_range offset len bytes byte_ptr =
    if leb (start_of offset byte_ptr + len) (length bytes)
    then ok (take len (drop (start_of offset byte_ptr) bytes), next_of offset len byte_ptr)
    else err slice_too_short

-- `bytes.get_mut(range).ok_or(SliceTooShort)?.copy_from_slice(&xs)`
unfoldable pub put_range : ByteOffset → List ℕ → List ℕ × ℕ → Result (List ℕ × ℕ)
put_range offset xs (bytes, byte_ptr) =
    if leb (start_of offset byte_ptr + length xs) (length bytes)
    then ok (patch (start_of offset byte_ptr) xs bytes, next_of offset (length xs) byte_ptr)
    else err slice_too_short

-- `&bytes[byte_ptr..]` and `&bytes[byte_ptr..byte_ptr + len]`, which panic out of range.
unfoldable pub slice_from : List ℕ → ℕ → Result (List ℕ)
slice_from bytes byte_ptr = if leb byte_ptr (length bytes) then ok (drop byte_ptr bytes) else panic

unfoldable pub slice_of : List ℕ → ℕ → ℕ → Result (List ℕ)
slice_of bytes byte_ptr len =
    if leb (byte_ptr + len) (length bytes) then ok (take len (drop byte_ptr bytes)) else panic

-- `to_le_bytes` and `from_le_bytes` of an integer of this many bytes, given by its bit pattern; for
-- one byte the source stores it or casts it.
unfoldable pub le_bytes : ℕ → ℕ → List ℕ
le_bytes zero x = []
le_bytes (suc width) x = (x % 256) ∷ le_bytes width (x / 256)

unfoldable pub from_le : List ℕ → ℕ
from_le [] = 0
from_le (b ∷ bs) = b + 256 * from_le bs
