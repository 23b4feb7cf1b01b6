-- ===== src/Hands/Library.antt =====
-- A catalog that is accepted is one that the store can choose from.
use standin_app_server.Prelude.{
  ◌≤◌, ◌≡◌, inl, inr, refl, ap, sym, subst, ◌∙◌, Bool, true, false, not, ◌&&◌, ◌||◌, List, [], ◌∷◌,
  ◌++◌, arith, ltb, String, Option, none, some, suc, length, Json, text_of, field_of, array_of,
  number_of, boolean_of, done, All, Option-cases, Bool-cases, >>=-eq-done, done-inj,
}
use standin_app_server.Hands.{is_preset, is_sha, record_of, mem}
use standin_app_server.Hands.Catalog.{
  Preset, Category, HandCatalog, parse_preset, parse_presets, parse_category, parse_categories,
  known_texts, parse_catalog, preset_ids, ids_of, need, need_test, order_of, is_one, is_true,
}

abbrev pub IsDistinct : List String → Type 0
IsDistinct [] = Unit
IsDistinct (a ∷ rest) = (mem a rest ≡ false) × IsDistinct rest

pub mem-append : (a : String) (xs ys : List String) → mem a (xs ++ ys) ≡ (mem a xs || mem a ys)
unfolding mem
mem-append a [] ys = refl
mem-append a (x ∷ xs) ys = ground (arith, mem-append a xs ys)

-- No text of one list is in the other.
abbrev Apart : List String → List String → Type 0
Apart xs ids = All (λ a. mem a ids ≡ false) xs

IsDistinct-append :
    (xs ys : List String) → IsDistinct xs → IsDistinct ys → Apart xs ys → IsDistinct (xs ++ ys)
IsDistinct-append [] ys h k apart = k
IsDistinct-append (x ∷ xs) ys (h, hs) k (a, as_apart) =
    (ground (arith, mem-append x xs ys, h, a), IsDistinct-append xs ys hs k as_apart)

-- What parsing has found, beside the ids from before: distinct new ids, all of which are added.
record Found (ids found ids' : List String) : Type 0 where
  distinct : IsDistinct found
  named : All (λ a. is_preset a ≡ true) found
  fresh : Apart found ids
  added : (a : String) → mem a ids' ≡ (mem a ids || mem a found)

Apart-tail : (a : String) (xs ids : List String) → Apart xs (a ∷ ids) → Apart xs ids
unfolding mem
Apart-tail a [] ids h = tt
Apart-tail a (x ∷ xs) ids (h, hs) = (ground (arith, h), Apart-tail a xs ids hs)

Apart-head : (a : String) (xs ids : List String) → Apart xs (a ∷ ids) → mem a xs ≡ false
unfolding mem
Apart-head a [] ids h = refl
Apart-head a (x ∷ xs) ids (h, hs) = ground (arith, h, Apart-head a xs ids hs)

Apart-mem : (b : String) (xs ids : List String) → Apart xs ids → mem b ids ≡ true → mem b xs ≡ false
unfolding mem
Apart-mem b [] ids h m = refl
Apart-mem b (x ∷ xs) ids (h, hs) m = ground (arith, h, Apart-mem b xs ids hs m)

All-append : {A : Type 0} (P : A → Type 0) (xs ys : List A) → All P xs → All P ys → All P (xs ++ ys)
All-append _ [] ys h k = k
All-append P (x ∷ xs) ys (h, hs) k = (h, All-append P xs ys hs k)

Found-cons :
    (a : String) (ids found ids' : List String)
    → is_preset a ≡ true
    → mem a ids ≡ false
    → Found (a ∷ ids) found ids'
    → Found ids (a ∷ found) ids'
unfolding mem
Found-cons a ids found ids' ok new f = record {
  distinct = (Apart-head a found ids f.fresh, f.distinct);
  named = (ok, f.named);
  fresh = (new, Apart-tail a found ids f.fresh);
  added = λ b. ground (arith, f.added b);
}

parse_preset-named :
    (available : Bool) (raw : Json) (ids : List String) (p : Preset)
    → parse_preset available raw ids ≡ done p
    → (is_preset p.id ≡ true) × (mem p.id ids ≡ false)
unfolding parse_preset
parse_preset-named available raw ids p h = ground (arith, h)

parse_presets-Found :
    (available : Bool) (raws : List Json) (ids : List String) (r : List Preset × List String)
    → parse_presets available raws ids ≡ done r
    → Found ids (preset_ids r.0) r.1
unfolding parse_presets mem
parse_presets-Found available [] ids r h =
    subst (λ x. Found ids (preset_ids x.0) x.1) (done-inj ([], ids) r h)
      (record { distinct = tt; named = tt; fresh = tt; added = λ a. ground arith })
parse_presets-Found available (raw ∷ raws) ids r h =
    let (p, one, more) = >>=-eq-done (parse_preset available raw ids) _ _ h in
    let (rest, two, last) = >>=-eq-done (parse_presets available raws (p.id ∷ ids)) _ _ more in
    let (ok, new) = parse_preset-named available raw ids p one in
    subst (λ x. Found ids (preset_ids x.0) x.1) (done-inj (p ∷ rest.0, rest.1) r last)
      (Found-cons p.id ids (preset_ids rest.0) rest.1 ok new
        (parse_presets-Found available raws (p.id ∷ ids) rest two))

parse_category-Found :
    (available : Bool) (raw : Json) (ids : List String) (r : Category × List String)
    → parse_category available raw ids ≡ done r
    → Found ids (preset_ids r.0.presets) r.1
unfolding parse_category
parse_category-Found available raw ids r h =
    let (id, one, h₁) = >>=-eq-done (need (text_of (field_of "id" (record_of (some raw))))) _ _ h in
    let (ok, two, h₂) = >>=-eq-done (need_test (is_preset id)) _ _ h₁ in
    let (label, three, h₃) =
      >>=-eq-done (need (text_of (field_of "label" (record_of (some raw))))) _ _ h₂ in
    let (presets, four, h₄) =
      >>=-eq-done (need (array_of (field_of "presets" (record_of (some raw))))) _ _ h₃ in
    let (few, five, h₅) = >>=-eq-done (need_test (not (ltb 200 (length presets)))) _ _ h₄ in
    let (parsed, six, last) = >>=-eq-done (parse_presets available presets ids) _ _ h₅ in
    subst (λ x. Found ids (preset_ids x.0.presets) x.1)
      (done-inj (record { id = id; label = label; presets = parsed.0 }, parsed.1) r last)
      (parse_presets-Found available presets ids parsed six)

Found-append :
    (ids f₁ ids₁ f₂ ids₂ : List String)
    → Found ids f₁ ids₁
    → Found ids₁ f₂ ids₂
    → Found ids (f₁ ++ f₂) ids₂
unfolding mem
Found-append ids f₁ ids₁ f₂ ids₂ a b = record {
  distinct = IsDistinct-append f₁ f₂ a.distinct b.distinct (apart f₁ (λ x m. m));
  named = All-append (λ x. is_preset x ≡ true) f₁ f₂ a.named b.named;
  fresh = All-append (λ x. mem x ids ≡ false) f₁ f₂ a.fresh (older f₂ b.fresh);
  added = λ x. ground (arith, a.added x, b.added x, mem-append x f₁ f₂);
}
  where
    apart : (xs : List String) → ((x : String) → mem x xs ≡ true → mem x f₁ ≡ true) → Apart xs f₂
    apart [] h = tt
    apart (x ∷ xs) h = (
      Apart-mem x f₂ ids₁ b.fresh (ground (arith, a.added x, h x (ground arith))),
      apart xs (λ y m. h y (ground (arith, m))),
    )

    older : (xs : List String) → Apart xs ids₁ → Apart xs ids
    older [] h = tt
    older (x ∷ xs) (h, hs) = (ground (arith, h, a.added x), older xs hs)

parse_categories-Found :
    (available : Bool) (raws : List Json) (ids : List String) (r : List Category × List String)
    → parse_categories available raws ids ≡ done r
    → Found ids (ids_of r.0) r.1 × (length r.0 ≡ length raws)
unfolding parse_categories mem
parse_categories-Found available [] ids r h =
    subst (λ x. Found ids (ids_of x.0) x.1 × (length x.0 ≡ 0)) (done-inj ([], ids) r h)
      (record { distinct = tt; named = tt; fresh = tt; added = λ a. ground arith }, refl)
parse_categories-Found available (raw ∷ raws) ids r h =
    let (c, one, more) = >>=-eq-done (parse_category available raw ids) _ _ h in
    let (rest, two, last) = >>=-eq-done (parse_categories available raws c.1) _ _ more in
    let (found, count) = parse_categories-Found available raws c.1 rest two in
    subst (λ x. Found ids (ids_of x.0) x.1 × (length x.0 ≡ suc (length raws)))
      (done-inj (c.0 ∷ rest.0, rest.1) r last)
      (
        Found-append ids (preset_ids c.0.presets) c.1 (ids_of rest.0) rest.1
            (parse_category-Found available raw ids c one) found,
        ap suc count,
      )

known_texts-mem :
    (ids : List String) (vs : List Json) → All (λ a. mem a ids ≡ true) (known_texts ids vs)
unfolding known_texts
known_texts-mem ids [] = tt
known_texts-mem ids (v ∷ vs) = elim (Option-cases (text_of (some v))) [
  | inl other ↦ rw (All, known_texts, other) (known_texts-mem ids vs)
  | inr (t, is_text) ↦ elim (Bool-cases (mem t ids)) [
    | inl known ↦ rw (All, known_texts, is_text, known) (known, known_texts-mem ids vs)
    | inr new ↦ rw (All, known_texts, is_text, new) (known_texts-mem ids vs)
  ]
]

order_of-mem :
    (ids : List String) (o : Option (List Json)) → All (λ a. mem a ids ≡ true) (order_of ids o)
unfolding order_of
order_of-mem ids none = tt
order_of-mem ids (some vs) = known_texts-mem ids vs

All-same :
    (ids ids' known : List String)
    → ((a : String) → mem a ids ≡ mem a ids')
    → All (λ a. mem a ids ≡ true) known
    → All (λ a. mem a ids' ≡ true) known
All-same ids ids' [] e h = tt
All-same ids ids' (a ∷ more) e (h, hs) = (sym (e a) ∙ h, All-same ids ids' more e hs)

-- A library that the store can choose from.
pub record IsLibrary (c : HandCatalog) : Type 0 where
  pub distinct : IsDistinct (ids_of c.categories)
  pub named : All (λ a. is_preset a ≡ true) (ids_of c.categories)
  pub default_known : mem c.default_preset (ids_of c.categories) ≡ true
  pub order_known : All (λ a. mem a (ids_of c.categories) ≡ true) c.fallback_order
  pub not_empty : 1 ≤ length c.categories
  pub bounded : length c.categories ≤ 50
  pub hashed : is_sha c.library_sha256 ≡ true

accepted-IsLibrary :
    (available : Bool) (version sha default_preset : String) (raws : List Json)
    (order : Option (List Json)) (parsed : List Category × List String)
    → parse_categories available raws [] ≡ done parsed
    → is_sha sha ≡ true
    → mem default_preset parsed.1 ≡ true
    → (ltb 0 (length raws) && not (ltb 50 (length raws))) ≡ true
    → IsLibrary (record {
      library_version = version;
      library_sha256 = sha;
      default_preset = default_preset;
      fallback_order = order_of parsed.1 order;
      thumbnails_available = available;
      categories = parsed.0;
    })
unfolding mem
accepted-IsLibrary available version sha default_preset raws order parsed h hashed known few =
    let (found, count) = parse_categories-Found available raws [] parsed h in
    record {
      distinct = found.distinct;
      named = found.named;
      default_known = sym (found.added default_preset) ∙ known;
      order_known =
          All-same parsed.1 (ids_of parsed.0) (order_of parsed.1 order) found.added
            (order_of-mem parsed.1 order);
      not_empty = ground (arith, count, few);
      bounded = ground (arith, count, few);
      hashed = hashed;
    }

-- A catalog that is accepted has 1 to 50 categories and a hash, its ids are well-formed and no two
-- presets share one, also across categories, and the default and the fallbacks are among them.
pub parse_catalog-IsLibrary :
    (value : Option Json) (c : HandCatalog) → parse_catalog value ≡ done c → IsLibrary c
unfolding parse_catalog
parse_catalog-IsLibrary value c h =
    let v = record_of value in
    let available = is_true (boolean_of (field_of "thumbnails_available" v)) in
    let (u₁, one, h₁) =
      >>=-eq-done (need_test (is_one (number_of (field_of "schema_version" v)))) _ _ h in
    let (version, two, h₂) = >>=-eq-done (need (text_of (field_of "library_version" v))) _ _ h₁ in
    let (sha, three, h₃) = >>=-eq-done (need (text_of (field_of "library_sha256" v))) _ _ h₂ in
    let (u₄, four, h₄) = >>=-eq-done (need_test (is_sha sha)) _ _ h₃ in
    let (default_preset, five, h₅) =
      >>=-eq-done (need (text_of (field_of "default_preset" v))) _ _ h₄ in
    let (raws, six, h₆) = >>=-eq-done (need (array_of (field_of "categories" v))) _ _ h₅ in
    let (u₇, seven, h₇) =
      >>=-eq-done (need_test (ltb 0 (length raws) && not (ltb 50 (length raws)))) _ _ h₆ in
    let (parsed, eight, h₈) = >>=-eq-done (parse_categories available raws []) _ _ h₇ in
    let (u₉, nine, last) = >>=-eq-done (need_test (mem default_preset parsed.1)) _ _ h₈ in
    subst IsLibrary (done-inj _ c last) (
      accepted-IsLibrary available version sha default_preset raws
        (array_of (field_of "fallback_order" v)) parsed eight (ground (arith, four))
        (ground (arith, nine)) (ground (arith, seven)))
