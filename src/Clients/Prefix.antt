-- ===== src/Clients/Prefix.antt =====
-- The key of an address that is written in full: its first four groups, as they are written.
use standin_app_server.Prelude.{
  ℕ, ◌+◌, ◌≡◌, ◌≢◌, refl, ap, ◌∙◌, Bool, true, false, ◌||◌, ◌&&◌, List, [], ◌∷◌, ◌++◌, arith,
  if◌then◌else◌, leb, ◌==◌, Text, codes, length, All,
}
use standin_app_server.Clients.Address.{
  prepend, join, is_space, trim_start, trim_end, trim, count, contains, lower, starts_colon,
  double_parts, split_double, groups, halves, expand_ipv6, prefix_key, normalize_ip_key, non_empty,
}
use standin_app_server.Clients.Forwarded.{split-join, non_empty-All}

-- A lower-case hexadecimal digit, and a group of them.
abbrev pub is_hex : ℕ → Bool
is_hex c = (leb b'0' c && leb c b'9') || (leb b'a' c && leb c b'f')

abbrev pub IsHex : Text → Type 0
IsHex v = All (λ c. is_hex c ≡ true) v

abbrev pub IsGroup : Text → Type 0
IsGroup v = (v ≢ []) × IsHex v

-- The characters of an address: hexadecimal digits and colons.
abbrev IsAddressChar : ℕ → Type 0
IsAddressChar c = (is_hex c || (c == b':')) ≡ true

abbrev IsAddress : Text → Type 0
IsAddress t = All IsAddressChar t

IsAddress-group : (v rest : Text) → IsHex v → IsAddress rest → IsAddress (v ++ rest)
IsAddress-group [] rest h k = k
IsAddress-group (c ∷ cs) rest (h, hs) k = (ground (arith, h), IsAddress-group cs rest hs k)

join-IsAddress : (v : Text) (vs : List Text) → All IsGroup (v ∷ vs) → IsAddress (join b':' (v ∷ vs))
unfolding join
join-IsAddress v [] ((n, h), hs) = hex_address v h
  where
    hex_address : (t : Text) → IsHex t → IsAddress t
    hex_address [] h = tt
    hex_address (c ∷ cs) (h, hs) = (ground (arith, h), hex_address cs hs)
join-IsAddress v (w ∷ ws) ((n, h), hs) =
    IsAddress-group v (b':' ∷ join b':' (w ∷ ws)) h (refl, join-IsAddress w ws hs)

trim_start-address : (t : Text) → IsAddress t → trim_start t ≡ t
unfolding trim_start is_space
trim_start-address [] h = refl
trim_start-address (c ∷ cs) (h, hs) = ground (arith, h)

trim_end-address : (t : Text) → IsAddress t → trim_end t ≡ t
unfolding trim_end is_space
trim_end-address [] h = refl
trim_end-address (c ∷ []) (h, hs) = ground (arith, h)
trim_end-address (c ∷ d ∷ ds) (h, hs) = rw (trim_end-address (d ∷ ds) hs)

lower-address : (t : Text) → IsAddress t → lower t ≡ t
unfolding lower
lower-address [] h = refl
lower-address (c ∷ cs) (h, hs) = ground (arith, h, lower-address cs hs)

no_dots : (t : Text) → IsAddress t → count b'.' t ≡ 0
unfolding count
no_dots [] h = refl
no_dots (c ∷ cs) (h, hs) = ground (arith, h, no_dots cs hs)

count-append : (s : ℕ) (a b : Text) → count s (a ++ b) ≡ count s a + count s b
unfolding count
count-append s [] b = omega arith
count-append s (c ∷ cs) b = omega (arith, count-append s cs b)

-- No two colons in a row.
abbrev HasNoDouble : Text → Type 0
HasNoDouble [] = Unit
HasNoDouble (c ∷ cs) = (((c == b':') && starts_colon cs) ≡ false) × HasNoDouble cs

split_double-whole : (t : Text) → HasNoDouble t → split_double t ≡ t ∷ []
unfolding split_double double_parts prepend
split_double-whole [] h = refl
split_double-whole (c ∷ cs) (h, hs) = rw h (ap (prepend c) (split_double-whole cs hs))

HasNoDouble-group : (v rest : Text) → IsHex v → HasNoDouble rest → HasNoDouble (v ++ rest)
HasNoDouble-group [] rest h k = k
HasNoDouble-group (c ∷ cs) rest (h, hs) k = (ground (arith, h), HasNoDouble-group cs rest hs k)

starts-group : (v rest : Text) → IsGroup v → starts_colon (v ++ rest) ≡ false
unfolding starts_colon
starts-group [] rest (n, h) = absurd (n refl)
starts-group (c ∷ cs) rest (n, (h, hs)) = ground (arith, h)

starts-alone : (v : Text) → IsGroup v → starts_colon v ≡ false
unfolding starts_colon
starts-alone [] (n, h) = absurd (n refl)
starts-alone (c ∷ cs) (n, (h, hs)) = ground (arith, h)

join-HasNoDouble :
    (v : Text) (vs : List Text) → All IsGroup (v ∷ vs) → HasNoDouble (join b':' (v ∷ vs))
unfolding join starts_colon
join-HasNoDouble v [] (g, gs) = hex_alone v g.1
  where
    hex_alone : (t : Text) → IsHex t → HasNoDouble t
    hex_alone [] h = tt
    hex_alone (c ∷ cs) (h, hs) = (ground (arith, h), hex_alone cs hs)
join-HasNoDouble v (w ∷ []) (g, (k, ks)) =
    HasNoDouble-group v (b':' ∷ w) g.1 (starts-alone w k, join-HasNoDouble w [] (k, tt))
join-HasNoDouble v (w ∷ x ∷ xs) (g, (k, ks)) =
    HasNoDouble-group v (b':' ∷ join b':' (w ∷ x ∷ xs)) g.1
      (starts-group w (b':' ∷ join b':' (x ∷ xs)) k, join-HasNoDouble w (x ∷ xs) (k, ks))

groups-plain : (vs : List Text) → All IsGroup vs → All (λ w. All (λ c. c ≢ b':') w) vs
groups-plain [] h = tt
groups-plain (v ∷ vs) (g, gs) = (plain v g.1, groups-plain vs gs)
  where
    plain : (t : Text) → IsHex t → All (λ c. c ≢ b':') t
    plain [] h = tt
    plain (c ∷ cs) (h, hs) = (ground (arith, h), plain cs hs)

groups-left : (vs : List Text) → All IsGroup vs → All (λ x. x ≢ []) vs
groups-left [] h = tt
groups-left (v ∷ vs) (g, gs) = (g.0, groups-left vs gs)

groups-join :
    (v : Text) (vs : List Text) → All IsGroup (v ∷ vs) → groups (join b':' (v ∷ vs)) ≡ v ∷ vs
unfolding groups
groups-join v vs h =
    ap non_empty (split-join b':' v vs (groups-plain (v ∷ vs) h))
    ∙ non_empty-All (v ∷ vs) (groups-left (v ∷ vs) h)

abbrev key_of : Text → Text
key_of u = if contains b':' u then prefix_key u (expand_ipv6 u) else u

key_of-groups :
    (u a b c d : Text) (host : List Text)
    → contains b':' u ≡ true
    → contains b'.' u ≡ false
    → split_double u ≡ u ∷ []
    → groups u ≡ a ∷ b ∷ c ∷ d ∷ host
    → length host ≡ 4
    → key_of u ≡ join b':' (a ∷ b ∷ c ∷ d ∷ []) ++ codes "::/64"
unfolding expand_ipv6 halves prefix_key
key_of-groups u a b c d host colons dots whole parts four =
    let eight : (length (groups u) == 8) ≡ true = ground (arith, ap length parts, four) in
    rw (colons, dots, whole, eight, parts)

-- An address of eight groups of lower-case hexadecimal digits, none empty and so without `::`, has the
-- key of its first four groups as they are written, whatever the last four are.
pub normalize_ip_key-prefix :
    (a b c d : Text) (host : List Text)
    → All IsGroup (a ∷ b ∷ c ∷ d ∷ host)
    → length host ≡ 4
    → normalize_ip_key (join b':' (a ∷ b ∷ c ∷ d ∷ host))
      ≡ join b':' (a ∷ b ∷ c ∷ d ∷ []) ++ codes "::/64"
unfolding normalize_ip_key trim contains count join
normalize_ip_key-prefix a b c d host h four =
    let t : Text = join b':' (a ∷ b ∷ c ∷ d ∷ host) in
    let address = join-IsAddress a (b ∷ c ∷ d ∷ host) h in
    let trimmed : trim t ≡ t =
      ap trim_end (trim_start-address t address) ∙ trim_end-address t address in
    let whole = split_double-whole t (join-HasNoDouble a (b ∷ c ∷ d ∷ host) h) in
    let eight = groups-join a (b ∷ c ∷ d ∷ host) h in
    let lowered : lower (trim t) ≡ t = ap lower trimmed ∙ lower-address t address in
    let colons : contains b':' t ≡ true =
      ground (arith, count-append b':' a (b':' ∷ join b':' (b ∷ c ∷ d ∷ host))) in
    let dots : contains b'.' t ≡ false = ground (arith, no_dots t address) in
    ap key_of lowered ∙ key_of-groups t a b c d host colons dots whole eight four
