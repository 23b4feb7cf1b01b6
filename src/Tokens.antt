-- ===== src/Tokens.antt =====
-- auth/tokens.ts and auth/oauthCodes.ts: the tokens of a user and the codes that are exchanged for them.
-- Signing and checking a JWT is the library's (jose): both are arguments, with the type T of its texts,
-- which nothing else reads. Times are seconds.
pub mod Spent
pub mod Codes
mod Tests
use standin_app_server.Prelude.{
  ℕ, ◌+◌, ◌*◌, ◌<◌, ◌≡◌, Bool, true, false, not, ◌&&◌, ◌||◌, List, [], ◌∷◌, if◌then◌else◌, ltb, leb,
  ◌==◌, String, Option, none, some, same, length, Tried, done, thrown, ◌>>=◌, ◌>>◌, throw_if,
}

-- The payload of a token: `typ`, `sub`, `jti` and the time of its end.
pub record Claims : Type 0 where
  pub typ : Option String
  pub sub : Option String
  pub jti : Option String
  pub exp : ℕ

pub record Jwt (T : Type 0) : Type 0 where
  pub sign : Claims → T
  pub verify : ℕ → T → Option Claims

-- A signed payload is read back until its end, and not after it.
pub record IsJwt {T : Type 0} (jwt : Jwt T) : Type 0 where
  pub verify-sign :
      (now : ℕ) (c : Claims)
      → jwt.verify now (jwt.sign c) ≡ (if ltb now c.exp then some c else none)

pub record TokenPair (T : Type 0) : Type 0 where
  pub access_token : T
  pub access_token_expires_at : ℕ
  pub refresh_token : T

pub record RefreshToken : Type 0 where
  pub jti : String
  pub user_id : String
  pub expires_at : ℕ

pub record OAuthCode : Type 0 where
  pub code_hash : String
  pub user_id : String
  pub expires_at : ℕ

pub record AuthDb : Type 0 where
  pub refresh_tokens : List RefreshToken
  pub oauth_codes : List OAuthCode

pub data AuthError : Type 0 where
  invalid_token not_access not_email_verify not_refresh refresh_revoked code_invalid : AuthError

pub record Ttl : Type 0 where
  pub access : ℕ
  pub refresh : ℕ
  pub email_verify : ℕ

abbrev is_type : String → Option String → Bool
is_type wanted none = false
is_type wanted (some t) = same t wanted

abbrev checked : Option Claims → Tried AuthError Claims
checked none = thrown invalid_token
checked (some c) = done c

abbrev present : Option String → AuthError → Tried AuthError String
present none e = thrown e
present (some t) e = done t

unfoldable pub delete_jti : String → List RefreshToken → List RefreshToken
delete_jti jti [] = []
delete_jti jti (r ∷ rs) = let rest = delete_jti jti rs in if same r.jti jti then rest else r ∷ rest

unfoldable pub has_jti : String → List RefreshToken → Bool
has_jti jti [] = false
has_jti jti (r ∷ rs) = same r.jti jti || has_jti jti rs

module _ {T : Type 0} (jwt : Jwt T) (ttl : Ttl) where
  unfoldable pub access_claims : String → ℕ → Claims
  access_claims user now = record {
    typ = some "access";
    sub = some user;
    jti = none;
    exp = now + ttl.access;
  }

  unfoldable pub refresh_claims : String → String → ℕ → Claims
  refresh_claims user jti now = record {
    typ = some "refresh";
    sub = some user;
    jti = some jti;
    exp = now + ttl.refresh;
  }

  unfoldable pub sign_refresh : String → String → ℕ → AuthDb → AuthDb × T
  sign_refresh user jti now db = (
    record db {
      refresh_tokens =
          record { jti = jti; user_id = user; expires_at = now + ttl.refresh } ∷ db.refresh_tokens;
    },
    jwt.sign (refresh_claims user jti now),
  )

  -- `jti` is the fresh id of the refresh token.
  unfoldable pub issue_tokens : String → String → ℕ → AuthDb → AuthDb × TokenPair T
  issue_tokens user jti now db =
      let (after, token) = sign_refresh user jti now db in
      (
        after,
        record {
          access_token = jwt.sign (access_claims user now);
          access_token_expires_at = now + ttl.access;
          refresh_token = token;
        },
      )

  unfoldable pub verify_type : String → AuthError → ℕ → T → Tried AuthError String
  verify_type typ e now token = do
    c ← checked (jwt.verify now token)
    throw_if (not (is_type typ c.typ)) e
    present c.sub e

  unfoldable pub verify_access : ℕ → T → Tried AuthError String
  verify_access = verify_type "access" not_access

  unfoldable pub sign_email_verify_token : String → ℕ → T
  sign_email_verify_token user now = jwt.sign (record {
    typ = some "email_verify";
    sub = some user;
    jti = none;
    exp = now + ttl.email_verify;
  })

  unfoldable pub verify_email_verify_token : ℕ → T → Tried AuthError String
  verify_email_verify_token = verify_type "email_verify" not_email_verify

  -- The check that the id is listed and its deletion are one statement.
  unfoldable pub rotate_refresh : T → String → ℕ → AuthDb → Tried AuthError (AuthDb × TokenPair T)
  rotate_refresh token new_jti now db = do
    c ← checked (jwt.verify now token)
    throw_if (not (is_type "refresh" c.typ)) not_refresh
    user ← present c.sub not_refresh
    jti ← present c.jti not_refresh
    throw_if (not (has_jti jti db.refresh_tokens)) refresh_revoked
    done (
        issue_tokens user new_jti now
          (record db { refresh_tokens = delete_jti jti db.refresh_tokens }))

  unfoldable pub revoke_claims : Option Claims → AuthDb → AuthDb
  revoke_claims none db = db
  revoke_claims (some c) db = elim c.jti [
    | none ↦ db
    | some jti ↦ record db { refresh_tokens = delete_jti jti db.refresh_tokens }
  ]

  unfoldable pub revoke_refresh : T → ℕ → AuthDb → AuthDb
  revoke_refresh token now db = revoke_claims (jwt.verify now token) db

abbrev pub code_ttl : ℕ
code_ttl = 60

abbrev is_live : String → ℕ → OAuthCode → Bool
is_live hash now c = same c.code_hash hash && ltb now c.expires_at

unfoldable pub delete_code : String → ℕ → List OAuthCode → List OAuthCode
delete_code hash now [] = []
delete_code hash now (c ∷ cs) =
    let rest = delete_code hash now cs in if is_live hash now c then rest else c ∷ rest

unfoldable pub find_code : String → ℕ → List OAuthCode → Option OAuthCode
find_code hash now [] = none
find_code hash now (c ∷ cs) = if is_live hash now c then some c else find_code hash now cs

module _ (hash : String → String) where
  unfoldable pub issue_oauth_code : String → String → ℕ → AuthDb → AuthDb
  issue_oauth_code user code now db = record db {
    oauth_codes =
        record { code_hash = hash code; user_id = user; expires_at = now + code_ttl }
        ∷ db.oauth_codes;
  }

  abbrev user_of : AuthDb → Option OAuthCode → Tried AuthError (AuthDb × String)
  user_of db none = thrown code_invalid
  user_of db (some c) = done (db, c.user_id)

  -- DELETE ... RETURNING: the check and the deletion are one statement.
  unfoldable pub consume_oauth_code : String → ℕ → AuthDb → Tried AuthError (AuthDb × String)
  consume_oauth_code code now db =
      user_of (record db { oauth_codes = delete_code (hash code) now db.oauth_codes })
        (find_code (hash code) now db.oauth_codes)
