-- ===== src/Clients/Forwarded.antt =====
-- No client chooses the address that it is counted under.
use standin_app_server.Prelude.{
  ℕ, zero, suc, ◌+◌, ◌≡◌, ◌≢◌, refl, ap, ◌∙◌, true, List, [], ◌∷◌, ◌++◌, map, arith, ltb, ◌==◌,
  some, Text, length, get_elem?, All, integer, length-append, Bool-cases, inl, inr,
}
use standin_app_server.Clients.Address.{
  split, prepend, join, entry, non_empty, chain, forwarded_client_ip, from_right,
}

-- What a proxy appends: an address without commas, of which something is left.
pub record IsEntry (v : Text) : Type 0 where
  pub no_comma : All (λ c. c ≢ b',') v
  pub left : entry v ≢ []

prepend-append : (c : ℕ) (xs ys : List Text) → xs ≢ [] → prepend c (xs ++ ys) ≡ prepend c xs ++ ys
unfolding prepend
prepend-append c [] ys n = absurd (n refl)
prepend-append c (x ∷ xs) ys n = refl

split_nonempty : (s : ℕ) (cs : Text) → split s cs ≢ []
unfolding split prepend
split_nonempty s [] e = cc
split_nonempty s (c ∷ cs) e = elim (Bool-cases (c == s)) [
  | inl same ↦ cc (rw same at e)
  | inr differs ↦ prepended (split s cs) (rw differs at e)
]
  where
    prepended : (xs : List Text) → prepend c xs ≡ [] → ⊥
    prepended [] e = cc
    prepended (x ∷ xs) e = cc

split-append : (s : ℕ) (a b : Text) → split s (a ++ (s ∷ b)) ≡ split s a ++ split s b
unfolding split prepend
split-append s [] b = ground arith
split-append s (c ∷ cs) b = elim (Bool-cases (c == s)) [
  | inl same ↦ rw same (ap (λ ps. [] ∷ ps) (split-append s cs b))
  | inr differs ↦ rw differs (
      ap (prepend c) (split-append s cs b)
      ∙ prepend-append c (split s cs) (split s b) (split_nonempty s cs))
]

pub split-plain : (s : ℕ) (v : Text) → All (λ c. c ≢ s) v → split s v ≡ v ∷ []
unfolding split prepend
split-plain s [] h = refl
split-plain s (c ∷ cs) (n, h) = ground (arith, n, split-plain s cs h)

pub split-join :
    (s : ℕ) (v : Text) (vs : List Text)
    → All (λ w. All (λ c. c ≢ s) w) (v ∷ vs)
    → split s (join s (v ∷ vs)) ≡ v ∷ vs
unfolding join
split-join s v [] (h, hs) = split-plain s v h
split-join s v (w ∷ ws) (h, hs) =
    split-append s v (join s (w ∷ ws)) ∙ rw (split-plain s v h, split-join s w ws hs)

non_empty-append : (xs ys : List Text) → non_empty (xs ++ ys) ≡ non_empty xs ++ non_empty ys
unfolding non_empty
non_empty-append [] ys = refl
non_empty-append ([] ∷ xs) ys = non_empty-append xs ys
non_empty-append ((c ∷ cs) ∷ xs) ys = rw (non_empty-append xs ys)

map-append : (xs ys : List Text) → map entry (xs ++ ys) ≡ map entry xs ++ map entry ys
map-append [] ys = refl
map-append (x ∷ xs) ys = rw (map-append xs ys)

pub non_empty-All : (xs : List Text) → All (λ x. x ≢ []) xs → non_empty xs ≡ xs
unfolding non_empty
non_empty-All [] h = refl
non_empty-All ([] ∷ xs) (h, hs) = absurd (h refl)
non_empty-All ((c ∷ cs) ∷ xs) (h, hs) = rw (non_empty-All xs hs)

get_elem?-append :
    (xs ys : List Text) (i k : ℕ) → k ≡ length xs + i → get_elem? (xs ++ ys) k ≡ get_elem? ys i
get_elem?-append [] ys i k e = ap (get_elem? ys) (omega (arith, e))
get_elem?-append (x ∷ xs) ys i zero e = absurd (omega (arith, e))
get_elem?-append (x ∷ xs) ys i (suc k) e = get_elem?-append xs ys i k (omega (arith, e))

length-entries : (vs : List Text) → length (map entry vs) ≡ length vs
length-entries [] = refl
length-entries (v ∷ vs) = ap suc (length-entries vs)

entries-plain : (vs : List Text) → All IsEntry vs → All (λ w. All (λ c. c ≢ b',') w) vs
entries-plain [] h = tt
entries-plain (v ∷ vs) (h, hs) = (h.no_comma, entries-plain vs hs)

entries-left : (vs : List Text) → All IsEntry vs → All (λ x. x ≢ []) (map entry vs)
entries-left [] h = tt
entries-left (v ∷ vs) (h, hs) = (h.left, entries-left vs hs)

chain-appended :
    (claimed v : Text) (vs : List Text)
    → All IsEntry (v ∷ vs)
    → chain (claimed ++ (b',' ∷ join b',' (v ∷ vs))) ≡ chain claimed ++ map entry (v ∷ vs)
unfolding chain
chain-appended claimed v vs h =
    ap (λ ps. non_empty (map entry ps))
      (split-append b',' claimed (join b',' (v ∷ vs))
        ∙ ap (λ ps. split b',' claimed ++ ps) (split-join b',' v vs (entries-plain (v ∷ vs) h)))
    ∙ ap non_empty (map-append (split b',' claimed) (v ∷ vs))
    ∙ non_empty-append (map entry (split b',' claimed)) (map entry (v ∷ vs))
    ∙ ap (λ ps. non_empty (map entry (split b',' claimed)) ++ ps)
        (non_empty-All (map entry (v ∷ vs)) (entries-left (v ∷ vs) h))

from_right-appended :
    (xs : List Text) (v : Text) (vs : List Text)
    → from_right (length vs) (xs ++ map entry (v ∷ vs)) ≡ some (entry v)
unfolding from_right
from_right-appended xs v vs =
    let all = length-append xs (map entry (v ∷ vs)) in
    let fits : ltb (length vs) (length (xs ++ map entry (v ∷ vs))) ≡ true =
      ground (arith, all, length-entries vs) in
    rw fits (get_elem?-append xs (map entry (v ∷ vs)) 0 _ (omega (arith, all, length-entries vs)))

-- Whatever a client claims in its own header, the address is the one that the first trusted proxy
-- saw: the proxies append their entries on the right, one more than the configured hops.
pub forwarded_client_ip-claimed :
    (claimed v : Text) (vs : List Text)
    → All IsEntry (v ∷ vs)
    → forwarded_client_ip (some (claimed ++ (b',' ∷ join b',' (v ∷ vs)))) (integer (length vs))
      ≡ some (entry v)
unfolding forwarded_client_ip
forwarded_client_ip-claimed [] v vs h =
    ap (from_right (length vs)) (chain-appended [] v vs h) ∙ from_right-appended (chain []) v vs
forwarded_client_ip-claimed (c ∷ cs) v vs h =
    ap (from_right (length vs)) (chain-appended (c ∷ cs) v vs h)
    ∙ from_right-appended (chain (c ∷ cs)) v vs
