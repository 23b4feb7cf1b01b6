-- ===== src/Tokens/Spent.antt =====
-- A refresh token and a code are taken once.
use standin_app_server.Prelude.{
  ℕ, ◌+◌, ◌<◌, ◌≡◌, ◌⊎◌, refl, inl, inr, sym, ap, subst, ◌∙◌, true, false, not, List, [], ◌∷◌,
  arith, String, Option, none, some, same, same_self, Tried, done, thrown, throw_if, >>=-eq-done,
  done-inj, Bool-cases, Option-cases, Tried-cases, All, String-discrete,
}
use standin_app_server.Tokens.{
  Claims, Jwt, IsJwt, TokenPair, RefreshToken, AuthDb, AuthError, not_refresh, invalid_token,
  refresh_revoked, checked, present, is_type, Ttl, has_jti, delete_jti, access_claims,
  refresh_claims, sign_refresh, issue_tokens, verify_type, verify_access, rotate_refresh,
  revoke_claims, revoke_refresh,
}

-- What happens to the tokens: `new` is the fresh id of a token that is issued.
pub data Event (T : Type 0) : Type 0 where
  issued : (user new : String) (now : ℕ) → Event T
  rotated : (token : T) (new : String) (now : ℕ) → Event T
  revoked : (token : T) (now : ℕ) → Event T

-- The fresh ids differ from an id.
abbrev pub IsFresh : {T : Type 0} → String → Event T → Type 0
IsFresh jti (issued user new now) = same new jti ≡ false
IsFresh jti (rotated token new now) = same new jti ≡ false
IsFresh jti (revoked token now) = Unit

pub delete_jti-has_jti :
    (jti : String) (rs : List RefreshToken) → has_jti jti (delete_jti jti rs) ≡ false
unfolding has_jti delete_jti
delete_jti-has_jti jti [] = refl
delete_jti-has_jti jti (r ∷ rs) = ground (arith, delete_jti-has_jti jti rs)

pub delete_jti-other :
    (jti other : String) (rs : List RefreshToken)
    → has_jti jti rs ≡ false
    → has_jti jti (delete_jti other rs) ≡ false
unfolding has_jti delete_jti
delete_jti-other jti other [] h = refl
delete_jti-other jti other (r ∷ rs) h = ground (arith, h, delete_jti-other jti other rs)

module _ {T : Type 0} (jwt : Jwt T) (ttl : Ttl) where
  abbrev pub after_rotation : AuthDb → Tried AuthError (AuthDb × TokenPair T) → AuthDb
  after_rotation db (done (after, pair)) = after
  after_rotation db (thrown e) = db

  unfoldable pub step : Event T → AuthDb → AuthDb
  step (issued user new now) db = (issue_tokens jwt ttl user new now db).0
  step (rotated token new now) db = after_rotation db (rotate_refresh jwt ttl token new now db)
  step (revoked token now) db = revoke_refresh jwt ttl token now db

  unfoldable pub run : List (Event T) → AuthDb → AuthDb
  run [] db = db
  run (e ∷ es) db = run es (step e db)

  pub issue_tokens-has_jti :
      (user new : String) (now : ℕ) (jti : String) (db : AuthDb)
      → same new jti ≡ false
      → has_jti jti db.refresh_tokens ≡ false
      → has_jti jti (issue_tokens jwt ttl user new now db).0.refresh_tokens ≡ false
  unfolding issue_tokens sign_refresh has_jti
  issue_tokens-has_jti user new now jti db e h = ground (arith, e, h)

  pub rotate_refresh-has_jti :
      (token : T) (new : String) (now : ℕ) (jti : String) (db after : AuthDb) (pair : TokenPair T)
      → same new jti ≡ false
      → has_jti jti db.refresh_tokens ≡ false
      → rotate_refresh jwt ttl token new now db ≡ done (after, pair)
      → has_jti jti after.refresh_tokens ≡ false
  unfolding rotate_refresh
  rotate_refresh-has_jti token new now jti db after pair e h r =
      let (c, one, r₁) = >>=-eq-done (checked (jwt.verify now token)) _ _ r in
      let (u, two, r₂) =
        >>=-eq-done (throw_if (not (is_type "refresh" c.typ)) not_refresh) _ _ r₁ in
      let (user, three, r₃) = >>=-eq-done (present c.sub not_refresh) _ _ r₂ in
      let (old, four, r₄) = >>=-eq-done (present c.jti not_refresh) _ _ r₃ in
      let (v, five, r₅) =
        >>=-eq-done (throw_if (not (has_jti old db.refresh_tokens)) refresh_revoked) _ _ r₄ in
      subst (λ d. has_jti jti d.refresh_tokens ≡ false) (ap (λ p. p.0) (done-inj _ _ r₅))
        (issue_tokens-has_jti user new now jti
          (record db { refresh_tokens = delete_jti old db.refresh_tokens }) e
          (delete_jti-other jti old db.refresh_tokens h))

  pub revoke-has_jti :
      (c : Option Claims) (jti : String) (db : AuthDb)
      → has_jti jti db.refresh_tokens ≡ false
      → has_jti jti (revoke_claims jwt ttl c db).refresh_tokens ≡ false
  unfolding revoke_claims
  revoke-has_jti none jti db h = h
  revoke-has_jti (some c) jti db h = elim (Option-cases c.jti) [
    | inl e ↦ rw e h
    | inr (old, e) ↦ rw e (delete_jti-other jti old db.refresh_tokens h)
  ]

  pub step-has_jti :
      (e : Event T) (jti : String) (db : AuthDb)
      → IsFresh jti e
      → has_jti jti db.refresh_tokens ≡ false
      → has_jti jti (step e db).refresh_tokens ≡ false
  unfolding step revoke_refresh
  step-has_jti (issued user new now) jti db f h = issue_tokens-has_jti user new now jti db f h
  step-has_jti (rotated token new now) jti db f h =
      elim (Tried-cases (rotate_refresh jwt ttl token new now db)) [
        | inl ((after, pair), e) ↦
            rw e (rotate_refresh-has_jti token new now jti db after pair f h e)
        | inr (x, e) ↦ rw e h
      ]
  step-has_jti (revoked token now) jti db f h = revoke-has_jti (jwt.verify now token) jti db h

  pub run-has_jti :
      (es : List (Event T)) (jti : String) (db : AuthDb)
      → All (IsFresh jti) es
      → has_jti jti db.refresh_tokens ≡ false
      → has_jti jti (run es db).refresh_tokens ≡ false
  unfolding run
  run-has_jti [] jti db f h = h
  run-has_jti (e ∷ es) jti db (f, fs) h =
      run-has_jti es jti (step e db) fs (step-has_jti e jti db f h)

  pub rotate_refresh-spends :
      (token : T) (new jti : String) (now : ℕ) (c : Claims) (db after : AuthDb) (pair : TokenPair T)
      → jwt.verify now token ≡ some c
      → c.jti ≡ some jti
      → same new jti ≡ false
      → rotate_refresh jwt ttl token new now db ≡ done (after, pair)
      → has_jti jti after.refresh_tokens ≡ false
  unfolding rotate_refresh
  rotate_refresh-spends token new jti now c db after pair valid id fresh r =
      let (c₁, one, r₁) = >>=-eq-done (checked (jwt.verify now token)) _ _ r in
      let (u, two, r₂) =
        >>=-eq-done (throw_if (not (is_type "refresh" c₁.typ)) not_refresh) _ _ r₁ in
      let (user, three, r₃) = >>=-eq-done (present c₁.sub not_refresh) _ _ r₂ in
      let (old, four, r₄) = >>=-eq-done (present c₁.jti not_refresh) _ _ r₃ in
      let (v, five, r₅) =
        >>=-eq-done (throw_if (not (has_jti old db.refresh_tokens)) refresh_revoked) _ _ r₄ in
      let same_claims : c ≡ c₁ = done-inj _ _ (sym (ap checked valid) ∙ one) in
      let same_jti : jti ≡ old = done-inj _ _ (
        sym (ap (λ o. present o not_refresh) id)
        ∙ (ap (λ x. present x.jti not_refresh) same_claims ∙ four)) in
      let gone : has_jti jti (delete_jti old db.refresh_tokens) ≡ false =
        subst (λ k. has_jti jti (delete_jti k db.refresh_tokens) ≡ false) same_jti
          (delete_jti-has_jti jti db.refresh_tokens) in
      subst (λ d. has_jti jti d.refresh_tokens ≡ false) (ap (λ p. p.0) (done-inj _ _ r₅))
        (issue_tokens-has_jti user new now jti
          (record db { refresh_tokens = delete_jti old db.refresh_tokens }) fresh gone)

  pub rotate_refresh-valid :
      (token : T) (new jti : String) (now : ℕ) (c : Claims) (db : AuthDb)
      → c.jti ≡ some jti
      → has_jti jti db.refresh_tokens ≡ false
      → jwt.verify now token ≡ some c
      → (e : AuthError) × (rotate_refresh jwt ttl token new now db ≡ thrown e)
  unfolding rotate_refresh
  rotate_refresh-valid token new jti now c db id spent valid =
      elim (Bool-cases (is_type "refresh" c.typ)) [
        | inr t ↦ (not_refresh, rw (valid, t) refl)
        | inl t ↦ elim (Option-cases c.sub) [
          | inl none_sub ↦ (not_refresh, rw (valid, t, none_sub) refl)
          | inr (user, sub) ↦ (refresh_revoked, rw (valid, t, sub, id, spent) refl)
        ]
      ]

  module _ (is_jwt : IsJwt jwt) where
    pub signed-cases :
        (now : ℕ) (c : Claims)
        → (jwt.verify now (jwt.sign c) ≡ some c) ⊎ (jwt.verify now (jwt.sign c) ≡ none)
    signed-cases now c = ground (arith, is_jwt.verify-sign now c)

    pub rotate_refresh-spent :
        (new jti : String) (now : ℕ) (c : Claims) (db : AuthDb)
        → c.jti ≡ some jti
        → has_jti jti db.refresh_tokens ≡ false
        → (e : AuthError) × (rotate_refresh jwt ttl (jwt.sign c) new now db ≡ thrown e)
    unfolding rotate_refresh
    rotate_refresh-spent new jti now c db id spent = elim (signed-cases now c) [
      | inl valid ↦ rotate_refresh-valid (jwt.sign c) new jti now c db id spent valid
      | inr ended ↦ (invalid_token, rw ended refl)
    ]

    -- A signed refresh token that was rotated once is refused at any later request, whatever is
    -- issued, rotated and revoked in between, as long as no fresh id is the id of the token.
    pub rotate_refresh-once :
        (c : Claims) (jti first second : String) (now later : ℕ) (events : List (Event T))
        (db after : AuthDb) (pair : TokenPair T)
        → c.jti ≡ some jti
        → same first jti ≡ false
        → All (IsFresh jti) events
        → rotate_refresh jwt ttl (jwt.sign c) first now db ≡ done (after, pair)
        → (e : AuthError) × (rotate_refresh jwt ttl (jwt.sign c) second later (run events after)
            ≡ thrown e)
    unfolding rotate_refresh
    rotate_refresh-once c jti first second now later events db after pair id fresh all r =
        elim (signed-cases now c) [
          | inl valid ↦ rotate_refresh-spent second jti later c (run events after) id (
              run-has_jti events jti after all
                (rotate_refresh-spends (jwt.sign c) first jti now c db after pair valid id fresh r))
          | inr ended ↦
              let (c₁, one, r₁) = >>=-eq-done (checked (jwt.verify now (jwt.sign c))) _ _ r in
              let bad : ◌≡◌ {A = Tried AuthError Claims} (thrown invalid_token) (done c₁) =
                subst (λ o. checked o ≡ done c₁) ended one in
              cc bad
        ]

    pub signed-valid : (now : ℕ) (c : Claims) → now < c.exp → jwt.verify now (jwt.sign c) ≡ some c
    signed-valid now c h = ground (arith, is_jwt.verify-sign now c, h)

    -- The refresh token of a pair that was just issued is rotated until its end, and the access
    -- token that it brings is the user's until the end of that; the new refresh token is listed.
    pub rotate-issue_tokens :
        (user jti new : String) (now later moment : ℕ) (db : AuthDb)
        → later < now + ttl.refresh
        → moment < later + ttl.access
        → (after : AuthDb) × (pair : TokenPair T) × (rotate_refresh jwt ttl
              (issue_tokens jwt ttl user jti now db).1.refresh_token
              new
              later
              (issue_tokens jwt ttl user jti now db).0
            ≡ done (after, pair))
          × (verify_access jwt ttl moment pair.access_token ≡ done user)
          × (has_jti new after.refresh_tokens ≡ true)
    unfolding rotate_refresh issue_tokens sign_refresh refresh_claims access_claims verify_access
        verify_type has_jti String-discrete
    rotate-issue_tokens user jti new now later moment db h k =
        let issued = issue_tokens jwt ttl user jti now db in
        let next =
          issue_tokens jwt ttl user new later
            (record issued.0 { refresh_tokens = delete_jti jti issued.0.refresh_tokens }) in
        (
          next.0,
          next.1,
          rw (signed-valid later (refresh_claims jwt ttl user jti now) h, same_self jti) refl,
          rw (signed-valid moment (access_claims jwt ttl user later) k) refl,
          rw (same_self new) refl,
        )
