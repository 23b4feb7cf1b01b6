-- ===== src/Jobs/History/Base64.antt =====
-- What jobs/history.ts uses of the platform's `Buffer`: the base64url text of bytes, and the bytes of
-- a text, in which characters outside the two base64 alphabets are passed over.
use standin_app_server.Prelude.{
  ℕ, ◌+◌, ◌-◌, ◌*◌, ◌/◌, ◌%◌, ◌<◌, ◌≡◌, refl, ◌&&◌, ◌||◌, List, [], ◌∷◌, arith, if◌then◌else◌, ltb,
  leb, ◌==◌, Option, none, some, All, Text, length,
}

unfoldable sextet_char : ℕ → ℕ
sextet_char s =
    if ltb s 26
    then s + 65
    else (if ltb s 52 then s + 71 else (if ltb s 62 then s - 4 else (if s == 62 then 45 else 95)))

-- 'A'-'Z', 'a'-'z', '0'-'9', then '-' or '+', '_' or '/'.
unfoldable sextet_value : ℕ → Option ℕ
sextet_value c =
    if leb 65 c && leb c 90
    then some (c - 65)
    else (if leb 97 c && leb c 122
        then some (c - 71)
        else (if leb 48 c && leb c 57
            then some (c + 4)
            else (if (c == 45) || (c == 43)
                then some 62
                else (if (c == 95) || (c == 47) then some 63 else none))))

unfoldable pub to_base64url : List ℕ → Text
unfolding sextet_char
to_base64url [] = []
to_base64url (a ∷ []) = sextet_char (a / 4) ∷ sextet_char (a % 4 * 16) ∷ []
to_base64url (a ∷ b ∷ []) =
    sextet_char (a / 4) ∷ sextet_char (a % 4 * 16 + b / 16) ∷ sextet_char (b % 16 * 4) ∷ []
to_base64url (a ∷ b ∷ c ∷ rest) =
    sextet_char (a / 4)
    ∷ sextet_char (a % 4 * 16 + b / 16)
    ∷ sextet_char (b % 16 * 4 + c / 64)
    ∷ sextet_char (c % 64)
    ∷ to_base64url rest

cons_some : Option ℕ → List ℕ → List ℕ
cons_some none s = s
cons_some (some v) s = v ∷ s

sextets : Text → List ℕ
sextets [] = []
sextets (c ∷ cs) = cons_some (sextet_value c) (sextets cs)

bytes : List ℕ → List ℕ
bytes [] = []
bytes (s ∷ []) = []
bytes (s ∷ t ∷ []) = (s * 4 + t / 16) ∷ []
bytes (s ∷ t ∷ u ∷ []) = (s * 4 + t / 16) ∷ (t % 16 * 16 + u / 4) ∷ []
bytes (s ∷ t ∷ u ∷ v ∷ rest) =
    (s * 4 + t / 16) ∷ (t % 16 * 16 + u / 4) ∷ (u % 4 * 64 + v) ∷ bytes rest

unfoldable pub from_base64url : Text → List ℕ
unfolding sextets cons_some sextet_value bytes
from_base64url text = bytes (sextets text)

sextet_value-sextet_char : (s : ℕ) → s < 64 → sextet_value (sextet_char s) ≡ some s
unfolding sextet_value sextet_char
sextet_value-sextet_char s h = ground arith

sextets-cons : (s : ℕ) (cs : Text) → s < 64 → sextets (sextet_char s ∷ cs) ≡ s ∷ sextets cs
unfolding sextets cons_some
sextets-cons s cs h = rw (sextet_value-sextet_char s h)

abbrev pub IsByte : ℕ → Type 0
IsByte b = b < 256

cons_eq : {x y : ℕ} {xs ys : List ℕ} → x ≡ y → xs ≡ ys → x ∷ xs ≡ y ∷ ys
cons_eq p q = rw (p, q)

-- The three bytes of four sextets.
first_byte : (a x : ℕ) → x < 16 → a / 4 * 4 + (a % 4 * 16 + x) / 16 ≡ a
first_byte a x h = omega arith

second_byte :
    (a b x : ℕ) → b < 256 → x < 4 → (a % 4 * 16 + b / 16) % 16 * 16 + (b % 16 * 4 + x) / 4 ≡ b
second_byte a b x h l = omega arith

third_byte : (b c : ℕ) → c < 256 → (b % 16 * 4 + c / 64) % 4 * 64 + c % 64 ≡ c
third_byte b c h = omega arith

-- Bytes are read back from their text.
pub from-to_base64url : (bs : List ℕ) → All IsByte bs → from_base64url (to_base64url bs) ≡ bs
unfolding from_base64url to_base64url
from-to_base64url [] h = refl
from-to_base64url (a ∷ []) (ha, h) =
    rw (sextets-cons (a / 4) _ (omega arith), sextets-cons (a % 4 * 16) _ (omega arith))
      (cons_eq (omega arith) refl)
from-to_base64url (a ∷ b ∷ []) (ha, (hb, h)) =
    rw
      (
        sextets-cons (a / 4) _ (omega arith),
        sextets-cons (a % 4 * 16 + b / 16) _ (omega arith),
        sextets-cons (b % 16 * 4) _ (omega arith),
      )
      (cons_eq (omega arith) (cons_eq (omega arith) refl))
from-to_base64url (a ∷ b ∷ c ∷ rest) (ha, (hb, (hc, h))) =
    rw
      (
        sextets-cons (a / 4) _ (omega arith),
        sextets-cons (a % 4 * 16 + b / 16) _ (omega arith),
        sextets-cons (b % 16 * 4 + c / 64) _ (omega arith),
        sextets-cons (c % 64) _ (omega arith),
      )
      (cons_eq (first_byte a (b / 16) (omega arith)) (
        cons_eq (second_byte a b (c / 64) hb (omega arith))
          (cons_eq (third_byte b c hc) (from-to_base64url rest h))))

pub length-to_base64url : (bs : List ℕ) → length (to_base64url bs) ≡ (length bs * 4 + 2) / 3
unfolding to_base64url
length-to_base64url [] = omega arith
length-to_base64url (a ∷ []) = omega arith
length-to_base64url (a ∷ b ∷ []) = omega arith
length-to_base64url (a ∷ b ∷ c ∷ rest) = omega (arith, length-to_base64url rest)
