-- ===== src/Jobs/History/Cursors.antt =====
-- Cursors are read back, and what a query that is accepted holds.
use standin_app_server.Prelude.{
  ℕ, zero, suc, ◌+◌, ◌<◌, ◌≡◌, ◌≢◌, refl, ap, Bool, true, List, [], ◌∷◌, ◌++◌, arith, ◌==◌, some,
  All, Text, codes, length, length-append, digit,
}
use standin_app_server.Limits.Calendar.{date_text}
use standin_app_server.Jobs.History.Base64.{
  to_base64url, IsByte, from-to_base64url, length-to_base64url,
}
use standin_app_server.Jobs.History.{
  HistoryCursor, cursor_separator, cursor_text, encode_cursor, is_digit, matches, iso_instant,
  is_iso_instant, is_id_char, id_chars, prefixed, is_job_id, split_at_separator, decode_cursor,
  utc_iso_string,
}

-- A character of a cursor's parts: a byte, and not the separator.
abbrev IsPlain : ℕ → Type 0
IsPlain c = (c < 128) × (c ≢ cursor_separator)

matches-IsPlain :
    (ts : List (ℕ → Bool)) (cs : Text)
    → All (λ t. (c : ℕ) → t c ≡ true → IsPlain c) ts
    → matches ts cs ≡ true
    → All IsPlain cs × (length cs ≡ length ts)
unfolding matches
matches-IsPlain [] [] p h = (tt, refl)
matches-IsPlain [] (c ∷ cs) p h = cc
matches-IsPlain (t ∷ ts) [] p h = cc
matches-IsPlain (t ∷ ts) (c ∷ cs) (q, p) h =
    let (plain, len) = matches-IsPlain ts cs p (ground arith) in
    ((q c (ground arith), plain), ap suc len)

is_digit-IsPlain : (c : ℕ) → is_digit c ≡ true → IsPlain c
unfolding is_digit
is_digit-IsPlain c h = (ground arith, ground arith)

equal-IsPlain : (a : ℕ) → IsPlain a → (c : ℕ) → (c == a) ≡ true → IsPlain c
equal-IsPlain a (l, n) c h = (ground arith, ground (arith, n))

is_iso_instant-IsPlain : (cs : Text) → is_iso_instant cs ≡ true → All IsPlain cs × (length cs ≡ 24)
unfolding is_iso_instant
is_iso_instant-IsPlain cs h =
    matches-IsPlain iso_instant cs
      (
        is_digit-IsPlain,
        (
          is_digit-IsPlain,
          (
            is_digit-IsPlain,
            (
              is_digit-IsPlain,
              (
                equal-IsPlain b'-' (omega arith, omega arith),
                (
                  is_digit-IsPlain,
                  (
                    is_digit-IsPlain,
                    (
                      equal-IsPlain b'-' (omega arith, omega arith),
                      (
                        is_digit-IsPlain,
                        (
                          is_digit-IsPlain,
                          (
                            equal-IsPlain b'T' (omega arith, omega arith),
                            (
                              is_digit-IsPlain,
                              (
                                is_digit-IsPlain,
                                (
                                  equal-IsPlain b':' (omega arith, omega arith),
                                  (
                                    is_digit-IsPlain,
                                    (
                                      is_digit-IsPlain,
                                      (
                                        equal-IsPlain b':' (omega arith, omega arith),
                                        (
                                          is_digit-IsPlain,
                                          (
                                            is_digit-IsPlain,
                                            (
                                              equal-IsPlain b'.' (omega arith, omega arith),
                                              (
                                                is_digit-IsPlain,
                                                (
                                                  is_digit-IsPlain,
                                                  (
                                                    is_digit-IsPlain,
                                                    (
                                                      equal-IsPlain b'Z' (omega arith, omega arith),
                                                      tt,
                                                    ),
                                                  ),
                                                ),
                                              ),
                                            ),
                                          ),
                                        ),
                                      ),
                                    ),
                                  ),
                                ),
                              ),
                            ),
                          ),
                        ),
                      ),
                    ),
                  ),
                ),
              ),
            ),
          ),
        ),
      )
      h

is_id_char-IsPlain : (c : ℕ) → is_id_char c ≡ true → IsPlain c
unfolding is_id_char is_digit
is_id_char-IsPlain c h = (ground arith, ground arith)

id_chars-IsPlain : (n : ℕ) (cs : Text) → id_chars n cs ≡ true → All IsPlain cs × (length cs ≡ n)
unfolding id_chars
id_chars-IsPlain zero [] h = (tt, refl)
id_chars-IsPlain zero (c ∷ cs) h = cc
id_chars-IsPlain (suc n) [] h = cc
id_chars-IsPlain (suc n) (c ∷ cs) h =
    let (plain, len) = id_chars-IsPlain n cs (ground arith) in
    ((is_id_char-IsPlain c (ground arith), plain), ap suc len)

prefixed-IsPlain :
    (ps cs : Text)
    → All IsPlain ps
    → prefixed ps cs ≡ true
    → All IsPlain cs × (length cs ≡ length ps + 36)
unfolding prefixed
prefixed-IsPlain [] cs p h = id_chars-IsPlain 36 cs h
prefixed-IsPlain (p ∷ ps) [] q h = cc
prefixed-IsPlain (p ∷ ps) (c ∷ cs) (q, qs) h =
    let (plain, len) = prefixed-IsPlain ps cs qs (ground arith) in
    ((equal-IsPlain p q c (ground arith), plain), omega (arith, len))

is_job_id-IsPlain : (cs : Text) → is_job_id cs ≡ true → All IsPlain cs × (length cs ≡ 40)
unfolding is_job_id
is_job_id-IsPlain cs h =
    prefixed-IsPlain (codes "job_") cs
      (
        (omega arith, omega arith),
        (
          (omega arith, omega arith),
          ((omega arith, omega arith), ((omega arith, omega arith), tt)),
        ),
      )
      h

split-cursor_text :
    (a b : Text) → All IsPlain a → split_at_separator (a ++ (cursor_separator ∷ b)) ≡ some (a, b)
unfolding split_at_separator
split-cursor_text [] b h = refl
split-cursor_text (c ∷ cs) b ((l, n), h) = ground (arith, split-cursor_text cs b h)

plain_bytes : (cs : Text) → All IsPlain cs → All IsByte cs
plain_bytes [] p = tt
plain_bytes (c ∷ cs) ((l, n), p) = (omega arith, plain_bytes cs p)

bytes_append :
    (a b : Text) → All IsPlain a → All IsPlain b → All IsByte (a ++ (cursor_separator ∷ b))
bytes_append [] b p q = (omega arith, plain_bytes b q)
bytes_append (c ∷ cs) b ((l, n), p) q = (omega arith, bytes_append cs b p q)

-- The cursor of a time and a job id as the server writes them is read back as it was.
pub decode-encode_cursor :
    (c : HistoryCursor)
    → is_iso_instant c.created_at ≡ true
    → is_job_id c.id ≡ true
    → decode_cursor (encode_cursor c) ≡ some c
unfolding decode_cursor encode_cursor
decode-encode_cursor c ht hi =
    let (pt, lt) = is_iso_instant-IsPlain c.created_at ht in
    let (pi, li) = is_job_id-IsPlain c.id hi in
    let bytes = bytes_append c.created_at c.id pt pi in
    let size : length (to_base64url (cursor_text c)) ≡ 87 =
      rw (length-to_base64url (cursor_text c))
        (omega (arith, length-append c.created_at (cursor_separator ∷ c.id), lt, li)) in
    rw (
      size,
      from-to_base64url (cursor_text c) bytes,
      split-cursor_text c.created_at c.id pt,
      ht,
      hi,
    )

is_digit-digit : (n : ℕ) → is_digit (digit n) ≡ true
unfolding is_digit
is_digit-digit n = ground arith

-- Every time that the server writes has the form that a cursor needs.
pub is_iso_instant-utc_iso_string : (ms : ℕ) → is_iso_instant (utc_iso_string ms) ≡ true
unfolding is_iso_instant utc_iso_string matches is_digit date_text
is_iso_instant-utc_iso_string ms = simp is_digit-digit
