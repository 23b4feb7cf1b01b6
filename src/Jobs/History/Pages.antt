-- ===== src/Jobs/History/Pages.antt =====
-- Following the cursors from page to page gives the whole history.
use standin_app_server.Prelude.{
  ℕ, zero, suc, ◌+◌, ◌≤◌, ◌<◌, ◌≡◌, refl, ap, sym, ◌∙◌, true, false, List, [], ◌∷◌, ◌++◌, map,
  arith, ltb, Option, none, some, All, take, drop, length, Text, String, length-map, length-take,
  length-drop, min, dec_le, take-append-drop,
}
use standin_app_server.Jobs.Rows.{JobStatus, JobRow}
use standin_app_server.Jobs.Tables.{Tables}
use standin_app_server.Jobs.History.{
  HistoryCursor, encode_cursor, decode_cursor, HistoryQuery, JobHistoryRow, JobHistoryItem,
  to_history_item, last, to_history_page, next_cursor,
}
use standin_app_server.Jobs.History.Cursors.{decode-encode_cursor, is_iso_instant-utc_iso_string}
use standin_app_server.Jobs.History.Order.{
  select, sort_desc, select-select, select-imp, All-select, All-select_of, All-last_take,
  IsDescending, All-sort_desc, length-select, length-sort_desc, sort_desc-IsDescending,
  select-IsDescending, select-after_last,
}
use standin_app_server.Jobs.History.Prefixes.{
  take-map, map-append, last-map, take-take_more, last-take, take_all,
}
use standin_app_server.Jobs.History.Query.{
  Collation, job_key, key_lt, job_lt, Listing, own, reviewed, recent, shown, after_cursor,
  history_row, query_jobs, list_job_history, list_recent_jobs,
}
use standin_app_server.Jobs.History.JobOrder.{
  HasDistinctIds, IsIssued, key_lt_trans, job_lt_irrefl, job_lt_trans, AllApart-HasDistinctIds,
}

-- The rows of a list: the own history, and the two of the administration's pages.
unfoldable pub list_rows : Collation → Listing → HistoryQuery → Tables → List JobHistoryRow
list_rows order (own installation now) q db = list_job_history order installation now none q db
list_rows order (reviewed in_view installation) q db =
    list_job_history order installation 0 (some in_view) q db
list_rows order (recent in_view) q db = map (λ r. r.0) (list_recent_jobs order in_view q db)

-- One page of a route: the query of the store, then the answer.
unfoldable pub history_page :
    Collation → Listing → HistoryQuery → Tables → List JobHistoryItem × Option Text
history_page order listing q db = to_history_page (list_rows order listing q db) q.limit

-- A client that follows the cursors, for a number of pages.
unfoldable pub read_pages : Collation → Listing → ℕ → HistoryQuery → Tables → List JobHistoryItem
read_pages order listing zero q db = []
read_pages order listing (suc pages) q db =
    let (items, next) = history_page order listing q db in
    elim next [
      | none ↦ items
      | some text ↦ elim (decode_cursor text) [
        | none ↦ items
        | some c ↦ items ++ read_pages order listing pages (record q { cursor = some c }) db
      ]
    ]

first-map :
    (db : Tables) (js : List JobRow)
    → map
        (λ (r : JobHistoryRow × Option String). r.0)
        (map (λ j. (history_row db j, j.installation_id)) js)
      ≡ map (history_row db) js
first-map db [] = refl
first-map db (j ∷ js) = rw (first-map db js)

list_rows-query :
    (order : Collation) (listing : Listing) (q : HistoryQuery) (db : Tables)
    → list_rows order listing q db
      ≡ map
          (history_row db)
          (take (q.limit + 1) (query_jobs order listing q.cursor q.status db.jobs))
unfolding list_rows list_job_history list_recent_jobs
list_rows-query order (own installation now) q db = refl
list_rows-query order (reviewed in_view installation) q db = refl
list_rows-query order (recent in_view) q db =
    first-map db (take (q.limit + 1) (query_jobs order (recent in_view) q.cursor q.status db.jobs))

module _ (order : Collation) (listing : Listing) (status : Option JobStatus) (db : Tables) where
  rows : Option HistoryCursor → List JobRow
  rows cursor = query_jobs order listing cursor status db.jobs

  rows-le : (cursor : Option HistoryCursor) → length (rows cursor) ≤ length db.jobs
  unfolding rows query_jobs
  rows-le cursor = omega (
    arith,
    length-select _ (sort_desc (job_lt order) db.jobs),
    length-sort_desc (job_lt order) db.jobs,
  )

  whole : List JobRow
  whole = select (shown listing status) (sort_desc (job_lt order) db.jobs)

  rows-whole :
      (cursor : Option HistoryCursor) → rows cursor ≡ select (after_cursor order cursor) whole
  unfolding rows whole query_jobs
  rows-whole cursor = sym (
      select-select (shown listing status) (after_cursor order cursor)
        (sort_desc (job_lt order) db.jobs))

  module _ (distinct : HasDistinctIds db.jobs) where
    rows-IsDescending : (cursor : Option HistoryCursor) → IsDescending (job_lt order) (rows cursor)
    unfolding rows query_jobs
    rows-IsDescending cursor = select-IsDescending (job_lt order) _ _ (
        sort_desc-IsDescending (job_lt order) (job_lt_trans order) db.jobs
          (AllApart-HasDistinctIds order db.jobs distinct))

    advance :
        (n : ℕ) (cursor : Option HistoryCursor) (a : JobRow)
        → last (take n (rows cursor)) ≡ some a
        → rows (some (job_key a)) ≡ drop n (rows cursor)
    unfolding after_cursor job_lt
    advance n cursor a e =
        let inside : after_cursor order cursor a ≡ true =
          All-last_take (λ j. after_cursor order cursor j ≡ true) n (rows cursor) a
            (rw (rows-whole cursor) (All-select (after_cursor order cursor) whole)) e in
        rows-whole (some (job_key a))
        ∙ sym (
            select-imp (after_cursor order cursor) (λ j. key_lt order (job_key j) (job_key a)) whole
              (λ b l. later cursor b l inside))
        ∙ ap (select (λ j. key_lt order (job_key j) (job_key a))) (sym (rows-whole cursor))
        ∙ select-after_last (job_lt order) (job_lt_irrefl order) (job_lt_trans order) n
            (rows cursor) a (rows-IsDescending cursor) e
      where
        later :
            (cursor : Option HistoryCursor) (b : JobRow)
            → key_lt order (job_key b) (job_key a) ≡ true
            → after_cursor order cursor a ≡ true
            → after_cursor order cursor b ≡ true
        later none b l h = refl
        later (some c) b l h = key_lt_trans order (job_key b) (job_key a) c l h

  rows-IsIssued :
      (cursor : Option HistoryCursor) → All IsIssued db.jobs → All IsIssued (rows cursor)
  unfolding rows query_jobs
  rows-IsIssued cursor issued =
      All-select_of IsIssued _ _ (All-sort_desc (job_lt order) IsIssued db.jobs issued)

  abbrev query : ℕ → Option HistoryCursor → HistoryQuery
  query limit cursor = record { limit = limit; cursor = cursor; status = status }

  abbrev got : ℕ → Option HistoryCursor → List JobHistoryRow
  got limit cursor = list_rows order listing (query limit cursor) db

  got-rows :
      (limit : ℕ) (cursor : Option HistoryCursor)
      → got limit cursor ≡ map (history_row db) (take (limit + 1) (rows cursor))
  unfolding rows
  got-rows limit cursor = list_rows-query order listing (query limit cursor) db

  take-got :
      (limit : ℕ) (cursor : Option HistoryCursor)
      → take limit (got limit cursor) ≡ map (history_row db) (take limit (rows cursor))
  take-got limit cursor =
      ap (take limit) (got-rows limit cursor)
      ∙ take-map (history_row db) limit (take (limit + 1) (rows cursor))
      ∙ ap (map (history_row db)) (take-take_more limit (limit + 1) (rows cursor) (omega arith))

  length-got :
      (limit : ℕ) (cursor : Option HistoryCursor)
      → length (got limit cursor) ≡ min (limit + 1) (length (rows cursor))
  length-got limit cursor =
      ap length (got-rows limit cursor)
      ∙ length-map (take (limit + 1) (rows cursor)) (history_row db)
      ∙ length-take (limit + 1) (rows cursor)

  -- A page is the first rows, and the cursor of the last of them if there are more.
  page_items :
      (limit : ℕ) (cursor : Option HistoryCursor)
      → (history_page order listing (query limit cursor) db).0
        ≡ map to_history_item (map (history_row db) (take limit (rows cursor)))
  unfolding history_page to_history_page
  page_items limit cursor = ap (map to_history_item) (take-got limit cursor)

  page_end :
      (limit : ℕ) (cursor : Option HistoryCursor)
      → length (rows cursor) ≤ limit
      → (history_page order listing (query limit cursor) db).1 ≡ none
  unfolding history_page to_history_page
  page_end limit cursor h =
      let full : ltb limit (length (got limit cursor)) ≡ false =
        ground (arith, length-got limit cursor) in
      rw full (last_page (last (take limit (got limit cursor))))
    where
      last_page : (o : Option JobHistoryRow) → next_cursor false o ≡ none
      last_page none = refl
      last_page (some r) = refl

  page_more :
      (limit : ℕ) (cursor : Option HistoryCursor) (a : JobRow)
      → limit < length (rows cursor)
      → last (take limit (rows cursor)) ≡ some a
      → (history_page order listing (query limit cursor) db).1 ≡ some (encode_cursor (job_key a))
  unfolding history_page to_history_page history_row
  page_more limit cursor a h e =
      let more : ltb limit (length (got limit cursor)) ≡ true =
        ground (arith, length-got limit cursor) in
      rw (more, take-got limit cursor, last-map (history_row db) (take limit (rows cursor)) a e)

  module _ (distinct : HasDistinctIds db.jobs) (issued : All IsIssued db.jobs) where
    read_rows :
        (limit : ℕ) (pages : ℕ) (cursor : Option HistoryCursor)
        → 0 < limit
        → length (rows cursor) < pages
        → read_pages order listing pages (query limit cursor) db
          ≡ map to_history_item (map (history_row db) (rows cursor))
    unfolding read_pages
    read_rows limit zero cursor pos h = absurd (omega arith)
    read_rows limit (suc pages) cursor pos h = elim (dec_le (length (rows cursor)) limit) [
      | yes fits ↦ rw (
        read_pages,
        page_end limit cursor fits,
        page_items limit cursor,
        take_all limit (rows cursor) fits,
      )
      | no more ↦
          let over : limit < length (rows cursor) = omega arith in
          let (a, e) = last-take limit (rows cursor) pos (omega arith) in
          let read = read_rows limit pages (some (job_key a)) pos (
            omega (
              arith,
              ap length (advance distinct limit cursor a e),
              length-drop limit (rows cursor),
            )) in
          let back : decode_cursor (encode_cursor (job_key a)) ≡ some (job_key a) =
            decode-encode_cursor (job_key a) (is_iso_instant-utc_iso_string a.created_at)
              (All-last_take IsIssued limit (rows cursor) a (rows-IsIssued cursor issued) e) in
          rw (read_pages, page_more limit cursor a over e, back, page_items limit cursor, read)
            (sym (map-append to_history_item (map (history_row db) (take limit (rows cursor))) _)
              ∙ ap (map to_history_item) (
                  sym (map-append (history_row db) (take limit (rows cursor)) _)
                  ∙ ap (map (history_row db)) (
                      ap (λ rest. take limit (rows cursor) ++ rest)
                        (advance distinct limit cursor a e)
                      ∙ take-append-drop limit (rows cursor))))
    ]

-- In each list of jobs, an installation's own and the two that reviewers see, a client that follows
-- the cursors from the first page on, with any page size from 1, reads exactly the rows that the query
-- without a cursor and a limit gives, in its order; one request more than there are jobs is enough. The
-- ids of the jobs are different and have the server's form.
pub read_pages-whole :
    (order : Collation) (listing : Listing) (limit pages : ℕ) (status : Option JobStatus)
    (db : Tables)
    → HasDistinctIds db.jobs
    → All IsIssued db.jobs
    → 0 < limit
    → length db.jobs < pages
    → read_pages order listing pages (record { limit = limit; cursor = none; status = status }) db
      ≡ map to_history_item (map (history_row db) (query_jobs order listing none status db.jobs))
unfolding rows
read_pages-whole order listing limit pages status db distinct issued pos enough =
    read_rows order listing status db distinct issued limit pages none pos
      (omega (arith, rows-le order listing status db none))
