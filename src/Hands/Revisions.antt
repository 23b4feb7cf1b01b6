-- ===== src/Hands/Revisions.antt =====
-- The revisions of a selection: what a call stores, and that no change overwrites an unseen one.
use standin_app_server.Prelude.{
  ℕ, suc, ◌≡◌, ◌≢◌, inl, inr, refl, ap, sym, subst, ◌∙◌, Bool, true, false, ◌&&◌, same, arith,
  String, Option, none, some, Tried, done, thrown, Tried-cases, >>=-eq-done, done-inj,
}
use standin_app_server.Hands.{HandSelection, HandError, hands_changed}
use standin_app_server.Hands.Catalog.{HandCatalog}
use standin_app_server.Hands.Store.{
  HandChange, migrate, current_selection, check_change, apply_change, with_changed, choose_hands,
  store_result, select_hands, hand_selection, ready_result, shown_person, is_change, sync,
}
use standin_app_server.Jobs.Rows.{Person}
use standin_app_server.Jobs.Tables.{Tables, transaction, settle}
use standin_app_server.Hands.Calls.{
  Ran, stored_result, run-Ran, Ran-run, after, next-Ran, next-thrown,
}

sync-sha :
    (catalog : HandCatalog) (changes : Bool) (s r : HandSelection)
    → sync catalog changes s ≡ done r
    → r.library_sha256 ≡ catalog.library_sha256
unfolding sync migrate
sync-sha catalog changes s r h = ground (arith, h)

apply_change-sha :
    (change : Option HandChange) (s r : HandSelection)
    → apply_change change s ≡ done r
    → r.library_sha256 ≡ s.library_sha256
unfolding apply_change
apply_change-sha none s r h = ground (arith, h)
apply_change-sha (some c) s r h = ground (arith, h)

choose_hands-kept :
    (catalog : HandCatalog) (i : ℕ) (p : Person) (change : Option HandChange) (r : HandSelection)
    → choose_hands catalog i p change ≡ done r
    → (r.library_sha256 ≡ catalog.library_sha256) × (with_changed r ≡ r)
unfolding choose_hands current_selection with_changed
choose_hands-kept catalog i p change r h =
    let (u, ok, h₁) = >>=-eq-done (check_change catalog change) _ _ h in
    let (current, synced, h₂) =
      >>=-eq-done (current_selection catalog i p (is_change change)) _ _ h₁ in
    let (chosen, applied, last) = >>=-eq-done (apply_change change current) _ _ h₂ in
    subst (λ x. (x.library_sha256 ≡ catalog.library_sha256) × (with_changed x ≡ x))
      (done-inj (with_changed chosen) r last)
      (
        apply_change-sha change current chosen applied
            ∙ sync-sha catalog (is_change change) _ current synced,
        refl,
      )

sync-current :
    (catalog : HandCatalog) (changes : Bool) (s : HandSelection)
    → s.library_sha256 ≡ catalog.library_sha256
    → sync catalog changes s ≡ done s
unfolding sync
sync-current catalog changes s hash = ground (arith, hash)

apply_change-stale :
    (c : HandChange) (s : HandSelection)
    → c.expected_revision ≢ s.revision
    → apply_change (some c) s ≡ thrown hands_changed
unfolding apply_change
apply_change-stale c s stale = ground (arith, stale)

-- Reading what is stored, and a change of it.
choose_hands-stored :
    (catalog : HandCatalog) (i : ℕ) (p : Person) (r : HandSelection)
    → (r.library_sha256 ≡ catalog.library_sha256) × (with_changed r ≡ r)
    → choose_hands catalog i (record p { hand_selection = some r }) none ≡ done r
unfolding choose_hands current_selection check_change apply_change
choose_hands-stored catalog i p r (hash, kept) =
    rw (sync-current catalog false r hash) (ap done kept)

choose_hands-stale :
    (catalog : HandCatalog) (i : ℕ) (p : Person) (r : HandSelection) (c : HandChange)
    → r.library_sha256 ≡ catalog.library_sha256
    → c.expected_revision ≢ r.revision
    → (e : HandError) × (choose_hands catalog i (record p { hand_selection = some r }) (some c)
        ≡ thrown e)
unfolding choose_hands current_selection
choose_hands-stale catalog i p r c hash stale = elim (Tried-cases (check_change catalog (some c))) [
  | inr (e, refused) ↦ (e, rw refused)
  | inl (u, ok) ↦
      (hands_changed, rw (ok, sync-current catalog true r hash, apply_change-stale c r stale))
]

-- What a change does to the selection that a read finds before it.
apply_change-moves :
    (c : HandChange) (s r : HandSelection)
    → apply_change (some c) s ≡ done r
    → (c.expected_revision ≡ s.revision)
      × ((same r.left s.left && same r.right s.right) ≡ false → r.revision ≡ suc s.revision)
unfolding apply_change
apply_change-moves c s r h = ground (arith, h)

apply_change-none : (s r : HandSelection) → apply_change none s ≡ done r → s ≡ r
unfolding apply_change
apply_change-none s r h = done-inj s r h

sync-either :
    (catalog : HandCatalog) (s t u : HandSelection)
    → sync catalog true s ≡ done t
    → sync catalog false s ≡ done u
    → t ≡ u
unfolding sync
sync-either catalog s t u changing reading = ground (arith, changing, reading)

choose_hands-moves :
    (catalog : HandCatalog) (i : ℕ) (p : Person) (c : HandChange) (s r : HandSelection)
    → choose_hands catalog i p none ≡ done s
    → choose_hands catalog i p (some c) ≡ done r
    → (same r.left s.left && same r.right s.right) ≡ false
    → (c.expected_revision ≡ s.revision) × (r.revision ≡ suc s.revision)
unfolding choose_hands current_selection with_changed
choose_hands-moves catalog i p c s r read changed moved =
    let (u, ok, h₁) = >>=-eq-done (check_change catalog (some c)) _ _ changed in
    let (current, synced, h₂) = >>=-eq-done (current_selection catalog i p true) _ _ h₁ in
    let (chosen, applied, last) = >>=-eq-done (apply_change (some c) current) _ _ h₂ in
    let (u', ok', k₁) = >>=-eq-done (check_change catalog none) _ _ read in
    let (before, synced', k₂) = >>=-eq-done (current_selection catalog i p false) _ _ k₁ in
    let (seen, applied', last') = >>=-eq-done (apply_change none before) _ _ k₂ in
    let same_current : current ≡ before = sync-either catalog _ current before synced synced' in
    let same_seen : before ≡ seen = apply_change-none before seen applied' in
    let after : with_changed chosen ≡ r = done-inj _ _ last in
    let view : with_changed current ≡ s =
      ap with_changed (same_current ∙ same_seen) ∙ done-inj _ _ last' in
    let (expected, counts) = apply_change-moves c current chosen applied in
    let to_chosen =
      ap (λ (x : HandSelection). same x.left s.left && same x.right s.right) after ∙ moved in
    let apart : (same chosen.left current.left && same chosen.right current.right) ≡ false =
      ap (λ (x : HandSelection). same chosen.left x.left && same chosen.right x.right) view
      ∙ to_chosen in
    (
      expected ∙ ap (λ x. x.revision) view,
      ap (λ x. x.revision) (sym after) ∙ (counts apart ∙ ap (λ x. suc x.revision) view),
    )

module _ (ready : Tried HandError HandCatalog) (owner id : String) (i : ℕ)
    (change : Option HandChange) (now : ℕ) (db : Tables) (r : HandSelection) where
  abbrev called : Tables × Tried HandError HandSelection
  called = hand_selection ready owner id i change now db

  called-Ran :
      called.1 ≡ done r
      → (w : Ran ready owner id i change db r) × (called.0
          ≡ store_result id (stored_result i r w.result) now db)
  unfolding hand_selection transaction
  called-Ran h = elim (Tried-cases (select_hands ready owner id i change now db)) [
    | inr (e, refused) ↦ absurd (ground (arith, refused, h))
    | inl ((db', s), ran) ↦
        let same_r : s ≡ r = ground (arith, ran, h) in
        let (w, stored) =
          Ran-run ready owner id i change now db r db'
            (ran ∙ ap (λ (x : HandSelection). done (db', x)) same_r) in
        (w, ap (λ x. (settle db x).0) ran ∙ stored)
  ]

  -- What a call answers is stored: as long as the library stays the same, a later read answers the
  -- same selection, with the same revision.
  pub hand_selection-again :
      (later : ℕ)
      → called.1 ≡ done r
      → (hand_selection ready owner id i none later called.0).1 ≡ done r
  unfolding hand_selection transaction
  hand_selection-again later h =
      let (w, stored) = called-Ran h in
      let kept = choose_hands-kept w.catalog i w.person change r w.chosen in
      let again =
        next-Ran ready owner id i change now db r w none r
          (choose_hands-stored w.catalog i w.person r kept) in
      ap (λ (x : Tables). (hand_selection ready owner id i none later x).1) stored
      ∙ ap (λ x. (settle (after ready owner id i change now db r w) x).1)
          (run-Ran ready owner id i none later _ r again)

module _ (ready : Tried HandError HandCatalog) (owner id : String) (i : ℕ) (first : HandChange)
    (now : ℕ) (db : Tables) (s r : HandSelection) where
  abbrev moved_on : Tables × Tried HandError HandSelection
  moved_on = hand_selection ready owner id i (some first) now db

  -- The two calls meet the same catalog and the same person.
  Ran-moves :
      Ran ready owner id i none db s
      → Ran ready owner id i (some first) db r
      → (same r.left s.left && same r.right s.right) ≡ false
      → (first.expected_revision ≡ s.revision) × (r.revision ≡ suc s.revision)
  Ran-moves v w moved =
      let same_catalog : v.catalog ≡ w.catalog = done-inj _ _ (sym v.agreed ∙ w.agreed) in
      let same_job : v.job ≡ w.job = ground (arith, v.found, w.found) in
      let same_result : v.result ≡ w.result =
        done-inj _ _ (sym v.completed ∙ (ap (λ j. ready_result (some j)) same_job ∙ w.completed)) in
      let same_person : v.person ≡ w.person =
        done-inj _ _ (sym v.shown ∙ (ap (shown_person i) same_result ∙ w.shown)) in
      choose_hands-moves w.catalog i w.person first s r
        (subst (λ x. choose_hands x i w.person none ≡ done s) same_catalog
          (subst (λ x. choose_hands v.catalog i x none ≡ done s) same_person v.chosen))
        w.chosen moved

  -- No change is lost: when a change is answered with hands that differ from those that a read would have
  -- shown, the revision has moved on by one from the one that the change expected, and a further change
  -- that expects the same revision is refused, and leaves the tables as they are.
  pub hand_selection-refuses :
      (next : HandChange) (before later : ℕ)
      → (hand_selection ready owner id i none before db).1 ≡ done s
      → moved_on.1 ≡ done r
      → (same r.left s.left && same r.right s.right) ≡ false
      → next.expected_revision ≡ first.expected_revision
      → (r.revision ≡ suc first.expected_revision)
        × ((e : HandError) × (hand_selection ready owner id i (some next) later moved_on.0
              ≡ (moved_on.0, thrown e)))
  unfolding hand_selection transaction
  hand_selection-refuses next before later read h moved stale =
      let (v, seen) = called-Ran ready owner id i none before db s read in
      let (w, stored) = called-Ran ready owner id i (some first) now db r h in
      let (expected, counted) = Ran-moves v w moved in
      let kept = choose_hands-kept w.catalog i w.person (some first) r w.chosen in
      let old : next.expected_revision ≢ r.revision =
        λ p. omega (arith, p, stale, expected, counted) in
      let (e, refused) = choose_hands-stale w.catalog i w.person r next kept.0 old in
      let whole =
        subst (λ (x : Tables). select_hands ready owner id i (some next) later x ≡ thrown e)
          (sym stored)
          (next-thrown ready owner id i (some first) now db r w (some next) later e refused) in
      (counted ∙ ap suc (sym expected), (e, ap (settle moved_on.0) whole))
