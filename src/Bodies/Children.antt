-- ===== src/Bodies/Children.antt =====
-- body-selection/childPolicy.ts: a body for a child is never chosen automatically.
use standin_app_server.Prelude.{
  ℕ, ◌+◌, Bool, true, false, ◌&&◌, ◌||◌, List, [], ◌∷◌, ◌++◌, if◌then◌else◌, ltb, leb, ◌==◌, String,
  Option, none, some, Text, codes, same, length,
}
use standin_app_server.Bodies.{BodyRef, BodyAsset, BodyCatalog, BodyRecommendation, unavailable}

abbrev pub child_selection_reason : String
child_selection_reason = "child_requires_explicit_user_selection"

-- `\s`
unfoldable pub white : ℕ → Bool
white c =
    (leb 9 c && leb c 13)
    || ((c == 32)
        || ((c == 160)
            || ((c == 5760)
                || ((leb 8192 c && leb c 8202)
                    || ((c == 8232)
                        || ((c == 8233)
                            || ((c == 8239)
                                || ((c == 8287) || ((c == 12288) || (c == 65279))))))))))

separator : ℕ → Bool
separator c = (c == b'-') || ((c == b'_') || ((c == b'.') || white c))

small : ℕ → ℕ
small c = if leb b'A' c && leb c b'Z' then c + 32 else c

ends_word : Text → Bool
ends_word [] = true
ends_word (c ∷ cs) = separator c

-- Whether the text starts with the word, in any case, and the word ends there.
starts_word : Text → Text → Bool
starts_word [] cs = ends_word cs
starts_word (w ∷ ws) [] = false
starts_word (w ∷ ws) (c ∷ cs) = (small c == w) && starts_word ws cs

starts_any : List Text → Text → Bool
starts_any [] cs = false
starts_any (w ∷ ws) cs = starts_word w cs || starts_any ws cs

abbrev child_words : List Text
child_words = codes "child" ∷ codes "kid" ∷ codes "baby" ∷ codes "infant" ∷ codes "toddler" ∷ []

after_separator : Text → Bool
after_separator [] = false
after_separator (c ∷ cs) = (separator c && starts_any child_words cs) || after_separator cs

unfoldable pub child_id : Text → Bool
unfolding starts_any starts_word ends_word small separator white after_separator
child_id cs = starts_any child_words cs || after_separator cs

drop_prefix : Text → Text → Option Text
drop_prefix [] cs = some cs
drop_prefix (p ∷ ps) [] = none
drop_prefix (p ∷ ps) (c ∷ cs) = if p == c then drop_prefix ps cs else none

-- The syllable 형, white space or the end.
after_kind : Option Text → Bool
after_kind none = false
after_kind (some []) = true
after_kind (some (c ∷ cs)) = (c == 54805) || white c

-- 아동, 어린이 and 유아.
unfoldable pub child_name : Text → Bool
unfolding drop_prefix after_kind white
child_name cs =
    after_kind (drop_prefix (50500 ∷ 46041 ∷ []) cs)
    || (after_kind (drop_prefix (50612 ∷ 47536 ∷ 51060 ∷ []) cs)
        || after_kind (drop_prefix (50976 ∷ 50500 ∷ []) cs))

unfoldable pub find_asset : BodyRef → List BodyAsset → Option BodyAsset
find_asset ref [] = none
find_asset ref (a ∷ rest) =
    if same a.ref.body_id ref.body_id && same a.ref.character_id ref.character_id
    then some a
    else find_asset ref rest

abbrev name_of : Option BodyAsset → Text
name_of none = []
name_of (some a) = elim a.display_name [ none ↦ [] | some t ↦ codes t ]

unfoldable pub is_child_body : Option BodyRef → BodyCatalog → Bool
is_child_body none catalog = false
is_child_body (some ref) catalog =
    let name = name_of (find_asset ref catalog.assets) in
    (child_id (codes ref.body_id) || (child_id (codes ref.character_id) || child_id name))
    || (ltb 0 (length name) && child_name name)

has_code : String → List String → Bool
has_code a [] = false
has_code a (b ∷ bs) = same b a || has_code a bs

-- `[...new Set(codes)]`
unfoldable pub once : List String → List String → List String
unfolding has_code
once seen [] = []
once seen (a ∷ rest) =
    let kept = once (a ∷ seen) rest in
    let left = once seen rest in if has_code a seen then left else a ∷ kept

unfoldable pub automatic_recommendation : BodyRecommendation → BodyCatalog → BodyRecommendation
automatic_recommendation rec catalog =
    if is_child_body rec.body catalog
    then record {
      status = unavailable;
      body = none;
      reason_codes = once [] (rec.reason_codes ++ child_selection_reason ∷ []);
      metadata = rec.metadata;
    }
    else rec
