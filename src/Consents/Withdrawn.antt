-- ===== src/Consents/Withdrawn.antt =====
-- What a write of a consent leaves of the older one.
use standin_app_server.Prelude.{
  ℕ, ◌≡◌, ◌⊎◌, inl, inr, refl, sym, ap, subst, ◌∙◌, Bool, true, false, ◌&&◌, List, [], ◌∷◌,
  if◌then◌else◌, arith, String, Option, none, some, same, Tried, done, done-inj, Bool-cases, All,
}
use standin_app_server.Consents.{
  QualityConsentInput, QualityConsent, InstallationRow, ReviewedJob, ConsentDb, find_installation,
  consent_of, read_quality_consent, same_bool, kept_if,
}
use standin_app_server.Consents.Writes.{
  Write, ConsentError, set_consent, clear_jobs, is_old, delete_old, store_consent, write_found,
  write_quality_consent,
}
use standin_app_server.Consents.Review.{
  is_open, same_id, lock_row, lock_quality_consent, reviews_job, any_reviews, review_jobs,
  quality_review_jobs,
}

find_installation-set_consent :
    (id : String) (input : QualityConsentInput) (c : Option String) (g : Option ℕ)
    (rs : List InstallationRow) (row : InstallationRow)
    → find_installation id rs ≡ some row
    → find_installation id (set_consent id input c g rs)
      ≡ some (record row {
        personal_data = input.personal_data;
        content_license = input.content_license;
        consent_id = c;
        granted_at = g;
      })
unfolding find_installation set_consent
find_installation-set_consent id input c g [] row h = cc
find_installation-set_consent id input c g (r ∷ rs) row h =
    ground (arith, h, find_installation-set_consent id input c g rs row)

-- A job that no consent covers.
abbrev Uncovered : String → ReviewedJob → Type 0
Uncovered id j = (same j.installation_id id ≡ false) ⊎ (j.consent_id ≡ none)

clear_jobs-Uncovered : (id : String) (js : List ReviewedJob) → All (Uncovered id) (clear_jobs id js)
unfolding clear_jobs
clear_jobs-Uncovered id [] = tt
clear_jobs-Uncovered id (j ∷ js) = elim (Bool-cases (same j.installation_id id)) [
  | inl e ↦ rw e (inr refl, clear_jobs-Uncovered id js)
  | inr e ↦ rw e (inl e, clear_jobs-Uncovered id js)
]

delete_old-All :
    (id : String) (now : ℕ) (P : ReviewedJob → Type 0) (js : List ReviewedJob)
    → All P js
    → All P (delete_old id now js)
unfolding delete_old
delete_old-All id now P [] h = tt
delete_old-All id now P (j ∷ js) (h, hs) = elim (Bool-cases (is_old id now j)) [
  | inl e ↦ rw e (delete_old-All id now P js hs)
  | inr e ↦ rw e (h, delete_old-All id now P js hs)
]

any_reviews-none :
    (now : ℕ) (db : ConsentDb) (j : ReviewedJob) (rs : List InstallationRow)
    → j.consent_id ≡ none
    → any_reviews false now db j rs ≡ false
unfolding any_reviews reviews_job same_id
any_reviews-none now db j [] h = refl
any_reviews-none now db j (r ∷ rs) h = rw (h, any_reviews-none now db j rs h) (ground arith)

review_jobs-others :
    (now : ℕ) (db : ConsentDb) (id : String) (js : List ReviewedJob)
    → All (Uncovered id) js
    → All (λ j. same j.installation_id id ≡ false) (review_jobs false now db js)
unfolding review_jobs
review_jobs-others now db id [] h = tt
review_jobs-others now db id (j ∷ js) (h, hs) =
    elim (Bool-cases (any_reviews false now db j db.installations)) [
      | inl e ↦ rw e (other e h, review_jobs-others now db id js hs)
      | inr e ↦ rw e (review_jobs-others now db id js hs)
    ]
  where
    other :
        any_reviews false now db j db.installations ≡ true
        → Uncovered id j
        → same j.installation_id id ≡ false
    other e (inl o) = o
    other e (inr c) = cc (any_reviews-none now db j db.installations c, e)

if_true : {A : Type 0} (b : Bool) (x y : A) → b ≡ true → (if b then x else y) ≡ x
if_true b x y e = rw e refl

if_false : {A : Type 0} (b : Bool) (x y : A) → b ≡ false → (if b then x else y) ≡ y
if_false b x y e = rw e refl

abbrev pub is_unchanged : QualityConsent → QualityConsentInput → Bool
is_unchanged previous input =
    same_bool previous.personal_data input.personal_data
    && same_bool previous.content_license input.content_license

module _ (subject_hash : String → String) (db after : ConsentDb) (id : String)
    (input : QualityConsentInput) (w : Write) (consent : QualityConsent) where
  abbrev enabled : Bool
  enabled = input.personal_data && input.content_license

  -- How a write ends.
  record IsWritten : Type 0 where
    row : InstallationRow
    row_lem : find_installation id db.installations ≡ some row
    how :
        ((is_unchanged (consent_of (some row)) input ≡ true)
          × (db ≡ after)
          × (consent_of (some row) ≡ consent))
        ⊎ ((is_unchanged (consent_of (some row)) input ≡ false)
            × (store_consent subject_hash id input enabled w db ≡ after)
            × (record {
              personal_data = input.personal_data;
              content_license = input.content_license;
              consent_id = kept_if enabled w.consent_id;
              granted_at = kept_if enabled w.now;
            }
                ≡ consent))

  changed : InstallationRow → Tried ConsentError (ConsentDb × QualityConsent)
  changed row = done (
    store_consent subject_hash id input enabled w db,
    record {
      personal_data = input.personal_data;
      content_license = input.content_license;
      consent_id = kept_if enabled w.consent_id;
      granted_at = kept_if enabled w.now;
    },
  )

  write_found-IsWritten :
      (o : Option InstallationRow)
      → find_installation id db.installations ≡ o
      → write_found subject_hash db id input w o ≡ done (after, consent)
      → IsWritten
  unfolding write_found changed
  write_found-IsWritten none found h = cc
  write_found-IsWritten (some r) found h =
      elim (Bool-cases (is_unchanged (consent_of (some r)) input)) [
        | inl e ↦
            let k : (◌≡◌ {A = Tried ConsentError (ConsentDb × QualityConsent)}
                (done (db, consent_of (some r))) (done (after, consent))) =
              sym (if_true _ _ _ e) ∙ h in
            let pair = done-inj _ _ k in
            record {
              row = r;
              row_lem = found;
              how = inl (e, ap (λ p. p.0) pair, ap (λ p. p.1) pair);
            }
        | inr e ↦
            let k : changed r ≡ done (after, consent) = sym (if_false _ _ _ e) ∙ h in
            let pair = done-inj _ _ k in
            record {
              row = r;
              row_lem = found;
              how = inr (e, ap (λ p. p.0) pair, ap (λ p. p.1) pair);
            }
      ]

  written : write_quality_consent subject_hash db id input w ≡ done (after, consent) → IsWritten
  unfolding write_quality_consent
  written h = write_found-IsWritten (find_installation id db.installations) refl h

  still_changed :
      is_unchanged (read_quality_consent db id) input ≡ false
      → (row : InstallationRow) → find_installation id db.installations ≡ some row
      → is_unchanged (consent_of (some row)) input ≡ true
      → ⊥
  unfolding read_quality_consent
  still_changed differs row found e =
      cc (subst (λ o. is_unchanged (consent_of o) input ≡ false) found differs, e)

  closed :
      (row : InstallationRow) (later : ℕ) (wanted : Option (Option String)) (job : Option String)
      → is_unchanged (consent_of (some row)) input ≡ true
      → enabled ≡ false
      → lock_row later db wanted job (some row) ≡ none
  unfolding lock_row is_open consent_of
  closed row later wanted job e off =
      let shut : (row.personal_data && row.content_license) ≡ false = ground (arith, e, off) in
      rw shut refl

  -- What is read after a write is what the write answered.
  pub read-write_quality_consent :
      write_quality_consent subject_hash db id input w ≡ done (after, consent)
      → read_quality_consent after id ≡ consent
  unfolding read_quality_consent store_consent consent_of
  read-write_quality_consent h =
      let k = written h in
      elim k.how [
        | inl (e, kept, answer) ↦
            subst (λ d. consent_of (find_installation id d.installations) ≡ consent) kept
              (rw k.row_lem answer)
        | inr (e, kept, answer) ↦
            subst (λ d. consent_of (find_installation id d.installations) ≡ consent) kept
              (rw
                (find_installation-set_consent id input (kept_if enabled w.consent_id)
                  (kept_if enabled w.now) db.installations k.row k.row_lem)
                answer)
      ]

  -- After a write that succeeds with one of the two consents missing, the lock of a quality write
  -- is refused at any time, whatever consent and job it is asked for.
  pub write_quality_consent-locks :
      (later : ℕ) (wanted : Option (Option String)) (job : Option String)
      → enabled ≡ false
      → write_quality_consent subject_hash db id input w ≡ done (after, consent)
      → lock_quality_consent later after id wanted job ≡ none
  unfolding lock_quality_consent lock_row is_open store_consent consent_of
  write_quality_consent-locks later wanted job off h =
      let k = written h in
      elim k.how [
        | inl (e, kept, answer) ↦
            subst (λ d. lock_row later d wanted job (find_installation id d.installations) ≡ none)
              kept (rw k.row_lem (closed k.row later wanted job e off))
        | inr (e, kept, answer) ↦
            subst (λ d. lock_row later d wanted job (find_installation id d.installations) ≡ none)
              kept
              (rw
                (find_installation-set_consent id input (kept_if enabled w.consent_id)
                  (kept_if enabled w.now) db.installations k.row k.row_lem)
                (rw off refl))
      ]

  -- A write that succeeds and changes one of the two consents leaves no job of the installation in
  -- the view of the jobs that are reviewed by consent, also when it grants both.
  pub write_quality_consent-hides :
      (later : ℕ)
      → is_unchanged (read_quality_consent db id) input ≡ false
      → write_quality_consent subject_hash db id input w ≡ done (after, consent)
      → All (λ j. same j.installation_id id ≡ false) (quality_review_jobs false later after)
  unfolding quality_review_jobs read_quality_consent store_consent
  write_quality_consent-hides later differs h =
      let k = written h in
      elim k.how [
        | inl (e, kept, answer) ↦ absurd (still_changed differs k.row k.row_lem e)
        | inr (e, kept, answer) ↦
            subst
              (λ d. All (λ j. same j.installation_id id ≡ false) (review_jobs false later d d.jobs))
              kept
              (review_jobs-others later _ id _ (
                delete_old-All id w.now (Uncovered id) (clear_jobs id db.jobs)
                  (clear_jobs-Uncovered id db.jobs)))
      ]
