-- ===== src/Tokens/Tests.antt =====
-- A pair of tokens that is rotated, and a code that is exchanged; a signed text names its claims.
use standin_app_server.Prelude.{
  ◌≡◌, refl, true, [], ◌∷◌, arith, if◌then◌else◌, ltb, String, String-discrete, none, some, done,
  thrown,
}
use standin_app_server.Tokens.{
  Claims, Jwt, IsJwt, TokenPair, AuthDb, AuthError, Ttl, has_jti, delete_jti, refresh_claims,
  sign_refresh, issue_tokens, verify_access, rotate_refresh, issue_oauth_code,
}
use standin_app_server.Tokens.Spent.{issued, run, rotate_refresh-once, rotate-issue_tokens}

abbrev ttl : Ttl
ttl = record { access = 10; refresh = 100; email_verify = 50 }

abbrev empty : AuthDb
empty = record { refresh_tokens = []; oauth_codes = [] }

abbrev hash : String → String
hash code = code

abbrev coded : AuthDb
coded = issue_oauth_code hash "user" "code" 5 empty

-- A token is its claims, and is refused after its end.
abbrev jwt : Jwt Claims
jwt = record { sign = λ c. c; verify = λ now c. if ltb now c.exp then some c else none }

jwt-IsJwt : IsJwt jwt
jwt-IsJwt = record { verify-sign = λ now c. refl }

abbrev first : AuthDb × TokenPair Claims
first = issue_tokens jwt ttl "user" "j1" 5 empty

abbrev second : AuthDb × TokenPair Claims
second = issue_tokens jwt ttl "user" "j2" 6 empty

rotate-issue_tokens_example :
    (after : AuthDb) × (pair : TokenPair Claims) × (rotate_refresh jwt ttl first.1.refresh_token
        "j2" 6 first.0
      ≡ done (after, pair))
    × (verify_access jwt ttl 7 pair.access_token ≡ done "user")
    × (has_jti "j2" after.refresh_tokens ≡ true)
rotate-issue_tokens_example =
    rotate-issue_tokens jwt ttl jwt-IsJwt "user" "j1" "j2" 5 6 7 empty (omega arith) (omega arith)

rotated : rotate_refresh jwt ttl (refresh_claims jwt ttl "user" "j1" 5) "j2" 6 first.0 ≡ done second
unfolding rotate_refresh issue_tokens sign_refresh refresh_claims has_jti delete_jti String-discrete
rotated = refl

rotate_refresh-once_example :
    (e : AuthError) × (rotate_refresh jwt ttl
        (refresh_claims jwt ttl "user" "j1" 5)
        "j4"
        9
        (run jwt ttl (issued "user" "j3" 8 ∷ []) second.0)
      ≡ thrown e)
unfolding refresh_claims String-discrete
rotate_refresh-once_example =
    rotate_refresh-once jwt ttl jwt-IsJwt (refresh_claims jwt ttl "user" "j1" 5) "j1" "j2" "j4" 6 9
      (issued "user" "j3" 8 ∷ []) first.0 second.0 second.1 refl refl (refl, tt) rotated
