-- ===== src/Jobs/History/JobOrder.antt =====
-- Jobs in the order of (created_at, id): strict, and total on jobs of different ids.
use standin_app_server.Prelude.{◌≡◌, ◌≢◌, inl, inr, true, false, List, [], ◌∷◌, arith, All, codes}
use standin_app_server.Jobs.Rows.{JobRow}
use standin_app_server.Jobs.History.{HistoryCursor, utc_iso_string, is_job_id}
use standin_app_server.Jobs.History.Order.{AllApart, Apart}
use standin_app_server.Jobs.History.Query.{Collation, job_key, key_lt, job_lt}

-- Two jobs have different ids.
abbrev pub HasDistinctIds : List JobRow → Type 0
HasDistinctIds [] = Unit
HasDistinctIds (j ∷ js) = All (λ k. codes j.id ≢ codes k.id) js × HasDistinctIds js

abbrev pub IsIssued : JobRow → Type 0
IsIssued j = is_job_id (codes j.id) ≡ true

module _ (order : Collation) where
  key_lt_irrefl : (a : HistoryCursor) → key_lt order a a ≡ false
  unfolding key_lt
  key_lt_irrefl a = ground (arith, order.irrefl a.created_at, order.irrefl a.id)

  pub key_lt_trans :
      (a b c : HistoryCursor)
      → key_lt order a b ≡ true
      → key_lt order b c ≡ true
      → key_lt order a c ≡ true
  unfolding key_lt
  key_lt_trans a b c h k =
      ground (arith, order.trans a.created_at b.created_at c.created_at, order.trans a.id b.id c.id)

  pub job_lt_irrefl : (a : JobRow) → job_lt order a a ≡ false
  unfolding job_lt
  job_lt_irrefl a = key_lt_irrefl (job_key a)

  pub job_lt_trans :
      (a b c : JobRow) → job_lt order a b ≡ true → job_lt order b c ≡ true → job_lt order a c ≡ true
  unfolding job_lt
  job_lt_trans a b c h k = key_lt_trans (job_key a) (job_key b) (job_key c) h k

  job_lt-Apart : (a b : JobRow) → codes a.id ≢ codes b.id → Apart (job_lt order) a b
  unfolding job_lt key_lt
  job_lt-Apart a b n =
      elim (order.total (utc_iso_string a.created_at) (utc_iso_string b.created_at)) [
        | inl l ↦ inl (rw l)
        | inr (inr g) ↦ inr (rw g)
        | inr (inl same_time) ↦ elim (order.total (codes a.id) (codes b.id)) [
          | inl l ↦ inl (ground (arith, same_time, l))
          | inr (inr g) ↦ inr (ground (arith, same_time, g))
          | inr (inl same_id) ↦ absurd (n same_id)
        ]
      ]

  pub AllApart-HasDistinctIds : (js : List JobRow) → HasDistinctIds js → AllApart (job_lt order) js
  AllApart-HasDistinctIds [] d = tt
  AllApart-HasDistinctIds (j ∷ js) (d, ds) = (apart_from js d, AllApart-HasDistinctIds js ds)
    where
      apart_from :
          (ks : List JobRow)
          → All (λ k. codes j.id ≢ codes k.id) ks
          → All (Apart (job_lt order) j) ks
      apart_from [] d = tt
      apart_from (k ∷ ks) (d, ds) = (job_lt-Apart j k d, apart_from ks ds)
