-- ===== src/Images/Tests.antt =====
-- Runs on the headers of small files.
use standin_app_server.Prelude.{ℕ, ◌≡◌, refl, List, [], ◌∷◌, arith, Option, some}
use standin_app_server.Images.{
  ImageSize, found, jpeg_scan, jpeg_size, jpeg_step, read_uint16_be, both,
}
use standin_app_server.Images.Sizes.{jpeg_scan-found}

abbrev small : ImageSize
small = record { width = 640; height = 480 }

-- A comment segment, then the frame of a JPEG of 640 by 480.
abbrev jpeg : List ℕ
jpeg =
    255 ∷ 216 ∷ 255 ∷ 254 ∷ 0 ∷ 4 ∷ 104 ∷ 105 ∷ 255 ∷ 192 ∷ 0 ∷ 17 ∷ 8 ∷ 1 ∷ 224 ∷ 2 ∷ 128 ∷ 3 ∷ []

test_jpeg : jpeg_size jpeg ≡ some small
unfolding jpeg_size jpeg_scan jpeg_step read_uint16_be both
test_jpeg = refl

jpeg_scan-found_example : (size : Option ImageSize) × (jpeg_scan 17 jpeg 2 ≡ found size)
jpeg_scan-found_example = jpeg_scan-found 17 jpeg 2 (omega arith)
