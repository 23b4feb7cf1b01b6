-- ===== src/Tokens/Codes.antt =====
-- An exchange code is taken once.
use standin_app_server.Prelude.{
  ℕ, ◌+◌, ◌≤◌, ◌<◌, ◌≡◌, refl, ap, subst, true, List, [], ◌∷◌, arith, ltb, String, Option, none,
  some, same_self, done, thrown, done-inj,
}
use standin_app_server.Tokens.{
  OAuthCode, AuthDb, code_invalid, delete_code, find_code, issue_oauth_code, consume_oauth_code,
  user_of,
}

module _ (hash : String → String) where
  pub find_code-delete :
      (h : String) (now later : ℕ) (cs : List OAuthCode)
      → now ≤ later
      → find_code h later (delete_code h now cs) ≡ none
  unfolding find_code delete_code
  find_code-delete h now later [] le = refl
  find_code-delete h now later (c ∷ cs) le = ground (arith, le, find_code-delete h now later cs le)

  pub user_of-db :
      (user : String) (d after : AuthDb) (o : Option OAuthCode)
      → user_of hash d o ≡ done (after, user)
      → d ≡ after
  user_of-db user d after none h = cc
  user_of-db user d after (some c) h = ap (λ p. p.0) (done-inj _ _ h)

  -- A code is exchanged until its end.
  pub consume-issue_oauth_code :
      (user code : String) (now later : ℕ) (db : AuthDb)
      → later < now + 60
      → (after : AuthDb) × (consume_oauth_code hash code later
            (issue_oauth_code hash user code now db)
          ≡ done (after, user))
  unfolding consume_oauth_code issue_oauth_code find_code
  consume-issue_oauth_code user code now later db h =
      let live : ltb later (now + 60) ≡ true = ground (arith, h) in
      let issued = issue_oauth_code hash user code now db in
      (
        record issued { oauth_codes = delete_code (hash code) later issued.oauth_codes },
        rw (same_self (hash code), live) refl,
      )

  -- A code that was exchanged is refused at the same time and later.
  pub consume_oauth_code-once :
      (user code : String) (now later : ℕ) (db after : AuthDb)
      → now ≤ later
      → consume_oauth_code hash code now db ≡ done (after, user)
      → consume_oauth_code hash code later after ≡ thrown code_invalid
  unfolding consume_oauth_code
  consume_oauth_code-once user code now later db after le h =
      let kept =
        user_of-db user (record db { oauth_codes = delete_code (hash code) now db.oauth_codes })
          after (find_code (hash code) now db.oauth_codes) h in
      let codes_after : delete_code (hash code) now db.oauth_codes ≡ after.oauth_codes =
        ap (λ d. d.oauth_codes) kept in
      let none_left : find_code (hash code) later after.oauth_codes ≡ none =
        subst (λ cs. find_code (hash code) later cs ≡ none) codes_after
          (find_code-delete (hash code) now later db.oauth_codes le) in
      rw none_left refl
