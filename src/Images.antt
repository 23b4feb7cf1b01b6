-- ===== src/Images.antt =====
-- imageHeader.ts: the size that the header of an image declares. A file is the list of its bytes.
pub mod Sizes
mod Tests
use standin_app_server.Prelude.{
  ℕ, zero, suc, ◌+◌, ◌-◌, ◌*◌, ◌/◌, ◌%◌, ◌≡◌, Bool, true, false, not, ◌&&◌, ◌||◌, List, [], ◌∷◌,
  if◌then◌else◌, ltb, leb, ◌==◌, ite, Option, none, some, Text, Text-discrete, codes, String,
  length, get_elem?, take, drop, get_or, String-discrete,
}

pub record ImageSize : Type 0 where
  pub width : ℕ
  pub height : ℕ

-- `bytes[i]!` after the length was checked.
abbrev pub byte : List ℕ → ℕ → ℕ
byte bytes i = get_or bytes i 0

unfoldable pub read_uint32_be : List ℕ → ℕ → Option ℕ
read_uint32_be bytes offset =
    if ltb (length bytes) (offset + 4)
    then none
    else some (
        byte bytes offset * 16777216
        + byte bytes (offset + 1) * 65536
        + byte bytes (offset + 2) * 256
        + byte bytes (offset + 3))

unfoldable pub read_uint16_be : List ℕ → ℕ → Option ℕ
read_uint16_be bytes offset =
    if ltb (length bytes) (offset + 2)
    then none
    else some (byte bytes offset * 256 + byte bytes (offset + 1))

unfoldable pub read_uint16_le : List ℕ → ℕ → Option ℕ
read_uint16_le bytes offset =
    if ltb (length bytes) (offset + 2)
    then none
    else some (byte bytes offset + byte bytes (offset + 1) * 256)

unfoldable pub read_uint24_le : List ℕ → ℕ → Option ℕ
read_uint24_le bytes offset =
    if ltb (length bytes) (offset + 3)
    then none
    else some (byte bytes offset + byte bytes (offset + 1) * 256 + byte bytes (offset + 2) * 65536)

-- `width && height ? { width, height } : null`: null and 0 are both no size.
unfoldable pub both : Option ℕ → Option ℕ → Option ImageSize
both none h = none
both (some w) none = none
both (some w) (some h) =
    if ltb 0 w && ltb 0 h then some (record { width = w; height = h }) else none

abbrev pub chunk_name : List ℕ → Text
chunk_name bytes = take 4 (drop 12 bytes)

abbrev pub named : Text → String → Bool
named chunk name = ite (Text-discrete chunk (codes name)) true false

unfoldable pub png_size : List ℕ → Option ImageSize
png_size bytes =
    let size = both (read_uint32_be bytes 16) (read_uint32_be bytes 20) in
    if named (chunk_name bytes) "IHDR" then size else none

-- Padding, and the markers without a length: RSTn, SOI, EOI's neighbours 01 and D0-D8.
unfoldable pub is_standalone : ℕ → Bool
is_standalone m = (m == 216) || ((m == 1) || (leb 208 m && leb m 215))

unfoldable pub is_sof : ℕ → Bool
is_sof m = leb 192 m && (leb m 207 && (not (m == 196) && (not (m == 200) && not (m == 204))))

-- What a scan finds, or that its fuel is spent.
pub data Scan : Type 0 where
  found : Option ImageSize → Scan
  out_of_fuel : Scan

-- One marker: the scan ends, or goes on at a later offset.
pub data Next : Type 0 where
  ends : Option ImageSize → Next
  goes_on : ℕ → Next

segment : List ℕ → ℕ → ℕ → Option ℕ → Next
segment bytes offset marker none = ends none
segment bytes offset marker (some len) =
    if ltb len 2
    then ends none
    else (if is_sof marker
        then ends (both (read_uint16_be bytes (offset + 7)) (read_uint16_be bytes (offset + 5)))
        else (if marker == 218 then ends none else goes_on (offset + (2 + len))))

unfoldable pub jpeg_step : List ℕ → ℕ → Next
unfolding segment is_standalone is_sof
jpeg_step bytes offset =
    let marker = byte bytes (offset + 1) in
    if not (byte bytes offset == 255)
    then ends none
    else (if marker == 255
        then goes_on (offset + 1)
        else (if is_standalone marker
            then goes_on (offset + 2)
            else segment bytes offset marker (read_uint16_be bytes (offset + 2))))

-- The loop, with fuel.
unfoldable pub jpeg_scan : ℕ → List ℕ → ℕ → Scan
jpeg_scan zero bytes offset = out_of_fuel
jpeg_scan (suc fuel) bytes offset =
    if ltb (length bytes) (offset + 4) then found none else elim (jpeg_step bytes offset) [
      | ends size ↦ found size
      | goes_on later ↦ jpeg_scan fuel bytes later
    ]

size_of : Scan → Option ImageSize
size_of (found size) = size
size_of out_of_fuel = none

unfoldable pub jpeg_size : List ℕ → Option ImageSize
unfolding size_of
jpeg_size bytes = size_of (jpeg_scan (suc (length bytes)) bytes 2)

unfoldable pub plus_one : Option ℕ → Option ℕ → Option ImageSize
plus_one none h = none
plus_one (some w) none = none
plus_one (some w) (some h) = some (record { width = w + 1; height = h + 1 })

fourteen_bits : Option ImageSize → Option ImageSize
fourteen_bits none = none
fourteen_bits (some s) = some (record { width = s.width % 16384; height = s.height % 16384 })

lossless : List ℕ → Option ImageSize
lossless bytes =
    let bits =
      byte bytes 21 + byte bytes 22 * 256 + byte bytes 23 * 65536 + byte bytes 24 * 16777216 in
    if not (byte bytes 20 == 47) || ltb (length bytes) 25
    then none
    else some (record { width = bits % 16384 + 1; height = bits / 16384 % 16384 + 1 })

unfoldable pub webp_size : List ℕ → Option ImageSize
unfolding fourteen_bits lossless
webp_size bytes =
    if named (chunk_name bytes) "VP8 "
    then fourteen_bits (both (read_uint16_le bytes 26) (read_uint16_le bytes 28))
    else (if named (chunk_name bytes) "VP8L"
        then lossless bytes
        else (if named (chunk_name bytes) "VP8X"
            then plus_one (read_uint24_le bytes 24) (read_uint24_le bytes 27)
            else none))

positive : Option ImageSize → Option ImageSize
positive none = none
positive (some s) = if ltb 0 s.width && ltb 0 s.height then some s else none

abbrev is_mime : String → String → Bool
is_mime a b = ite (String-discrete a b) true false

unfoldable pub read_image_size : List ℕ → String → Option ImageSize
unfolding positive
read_image_size bytes mime = positive (
    if is_mime mime "image/png"
    then png_size bytes
    else (if is_mime mime "image/jpeg"
        then jpeg_size bytes
        else (if is_mime mime "image/webp" then webp_size bytes else none)))

unfoldable pub exceeds_pixel_budget : ImageSize → ℕ → Bool
exceeds_pixel_budget size max_pixels = ltb max_pixels (size.width * size.height)
