-- ===== src/Images/Sizes.antt =====
-- The scan of a JPEG ends.
use standin_app_server.Prelude.{
  ℕ, zero, suc, ◌+◌, ◌-◌, ◌≡◌, ◌<◌, ◌⊎◌, inl, inr, refl, List, arith, ltb, Option, none, some,
  length, Bool-cases,
}
use standin_app_server.Images.{
  ImageSize, byte, read_uint16_be, found, Next, ends, goes_on, segment, jpeg_step, jpeg_scan,
}

segment-advances :
    (bytes : List ℕ) (offset marker later : ℕ) (len : Option ℕ)
    → segment bytes offset marker len ≡ goes_on later
    → offset < later
unfolding segment
segment-advances bytes offset marker later none e = cc
segment-advances bytes offset marker later (some len) e = ground (arith, e)

jpeg_step-advances :
    (bytes : List ℕ) (offset later : ℕ) → jpeg_step bytes offset ≡ goes_on later → offset < later
unfolding jpeg_step
jpeg_step-advances bytes offset later e =
    let rest =
      segment-advances bytes offset (byte bytes (offset + 1)) later
        (read_uint16_be bytes (offset + 2)) in
    ground (arith, e, rest)

Next-cases :
    (n : Next) → ((size : Option ImageSize) × (n ≡ ends size)) ⊎ ((later : ℕ) × (n ≡ goes_on later))
Next-cases (ends size) = inl (size, refl)
Next-cases (goes_on later) = inr (later, refl)

-- The scan of a JPEG ends: with a round more than there are bytes left, it never runs out of fuel.
pub jpeg_scan-found :
    (fuel : ℕ) (bytes : List ℕ) (offset : ℕ)
    → length bytes - offset < fuel
    → (size : Option ImageSize) × (jpeg_scan fuel bytes offset ≡ found size)
unfolding jpeg_scan
jpeg_scan-found zero bytes offset h = absurd (omega arith)
jpeg_scan-found (suc fuel) bytes offset h = elim (Bool-cases (ltb (length bytes) (offset + 4))) [
  | inl short ↦ (none, rw short)
  | inr more ↦ elim (Next-cases (jpeg_step bytes offset)) [
    | inl (size, e) ↦ (size, rw (more, e))
    | inr (later, e) ↦
        let forward = jpeg_step-advances bytes offset later e in
        let (size, r) = jpeg_scan-found fuel bytes later (ground (arith, more, forward)) in
        (size, rw (more, e) r)
  ]
]
