-- ===== src/Wallet/History/Fetch/Ends.antt =====
-- How the fetching of a page of messages ends.
use bee_engine.Base.{
  ℕ, zero, suc, ◌<◌, ◌≡◌, refl, Bool, true, false, not, ◌||◌, [], Option, none, Result, ok, err,
  ◌⊎◌, inl, inr, arith, subst, ok-injective, Result-cases, Bool-cases,
}
use bee_engine.Base.Bytes.{Bytes}
use bee_engine.Base.Lists.{is_empty, is_empty_nil, retain}
use bee_engine.Wallet.History.{Client, HistoryError, Page, execute_gql_query}
use bee_engine.Wallet.History.Fetch.{
  Fetched, has_currency, max_auto_fetch_pages, pages_from, fetch_ecc_with_auto_pagination,
}

module _ {Json E : Type 0} (client : Client Json E) (address : Bytes) (currency_id size : ℕ) where
  -- Pages that follow one another, each with older pages behind it and no message of the currency.
  pub data Skipped : (pages : ℕ) (from to : Option Bytes) → Type 0 where
    here : {c : Option Bytes} → Skipped 0 c c
    past :
        {n : ℕ} {c to : Option Bytes} (page : Page)
        → execute_gql_query client address size c ≡ ok page
        → retain (has_currency currency_id) page.0 ≡ []
        → page.1.has_previous_page ≡ true
        → Skipped n page.1.start_cursor to
        → Skipped (suc n) c to

  -- The results of the loop that starts at the cursor and has `most` iterations.
  pub data FetchEnds (most : ℕ) (from : Option Bytes)
      : Result (HistoryError E) Fetched → Type 0 where
    stopped :
        (n : ℕ) (c : Option Bytes) (page : Page)
        → n < most
        → Skipped n from c
        → execute_gql_query client address size c ≡ ok page
        → (is_empty (retain (has_currency currency_id) page.0) ≡ false)
          ⊎ (page.1.has_previous_page ≡ false)
        → FetchEnds most from (
            ok (record {
              msgs = retain (has_currency currency_id) page.0;
              next_cursor = page.1.start_cursor;
              has_more = page.1.has_previous_page;
            }))
    gave_up :
        (c : Option Bytes)
        → Skipped most from c
        → FetchEnds most from (ok (record { msgs = []; next_cursor = c; has_more = true }))
    failed :
        (n : ℕ) (c : Option Bytes) (e : HistoryError E)
        → n < most
        → Skipped n from c
        → execute_gql_query client address size c ≡ err e
        → FetchEnds most from (err e)

  FetchEnds-past :
      {most : ℕ} {from : Option Bytes} {r : Result (HistoryError E) Fetched} (page : Page)
      → execute_gql_query client address size from ≡ ok page
      → retain (has_currency currency_id) page.0 ≡ []
      → page.1.has_previous_page ≡ true
      → FetchEnds most page.1.start_cursor r
      → FetchEnds (suc most) from r
  FetchEnds-past page e nothing more (stopped n c last' lt skip q why) =
      stopped (suc n) c last' (omega arith) (past page e nothing more skip) q why
  FetchEnds-past page e nothing more (gave_up c skip) = gave_up c (past page e nothing more skip)
  FetchEnds-past page e nothing more (failed n c x lt skip q) =
      failed (suc n) c x (omega arith) (past page e nothing more skip) q

  -- An iteration, whatever the other variables hold before it, given what the later ones end in.
  iteration-FetchEnds :
      (left : ℕ) (from next : Option Bytes) (more : Bool)
      → ((page : Page)
          → execute_gql_query client address size from ≡ ok page
          → retain (has_currency currency_id) page.0 ≡ []
          → page.1.has_previous_page ≡ true
          → FetchEnds (suc left) from (
              pages_from client address currency_id size left [] page.1.start_cursor
                page.1.start_cursor true))
      → FetchEnds
          (suc left)
          from
          (pages_from client address currency_id size (suc left) [] from next more)
  unfolding pages_from
  iteration-FetchEnds left from next more older_pages =
      elim (Result-cases (execute_gql_query client address size from)) [
        | inr (x, e) ↦ rw e (failed 0 from x (omega arith) here e)
        | inl (page, e) ↦ elim (Bool-cases (is_empty (retain (has_currency currency_id) page.0))) [
          | inr found ↦ rw (e, found) (stopped 0 from page (omega arith) here e (inl found))
          | inl empty' ↦ elim (Bool-cases page.1.has_previous_page) [
            | inr last' ↦
                let stops : (not (is_empty (retain (has_currency currency_id) page.0))
                      || not page.1.has_previous_page)
                    ≡ true =
                  rw (empty', last') refl in
                rw (e, stops) (stopped 0 from page (omega arith) here e (inr last'))
            | inl older ↦
                let nothing = is_empty_nil _ empty' in
                rw (e, nothing, older) (older_pages page e nothing older)
          ]
        ]
      ]

  pages_from-FetchEnds :
      (left : ℕ) (from next : Option Bytes) (more : Bool)
      → FetchEnds
          (suc left)
          from
          (pages_from client address currency_id size (suc left) [] from next more)
  unfolding pages_from
  pages_from-FetchEnds zero from next more =
      iteration-FetchEnds zero from next more
        (λ page e nothing older. gave_up page.1.start_cursor (past page e nothing older here))
  pages_from-FetchEnds (suc left) from next more =
      iteration-FetchEnds (suc left) from next more (λ page e nothing older.
        FetchEnds-past page e nothing older
          (pages_from-FetchEnds left page.1.start_cursor page.1.start_cursor true))

  -- A fetch of at most ten pages passes over pages that have no message of the currency and have
  -- older pages behind them, each from the cursor that the last one gave. It ends with the messages
  -- of the currency of the first other page, with that page's cursor and its word on older pages;
  -- or with the error of a page that fails; or, where ten pages are passed over, with no message and
  -- the cursor behind the tenth.
  pub fetch_ecc_with_auto_pagination-FetchEnds :
      (cursor : Option Bytes)
      → FetchEnds max_auto_fetch_pages cursor
          (fetch_ecc_with_auto_pagination client address currency_id size cursor)
  unfolding fetch_ecc_with_auto_pagination
  fetch_ecc_with_auto_pagination-FetchEnds cursor = pages_from-FetchEnds 9 cursor none false

  -- A predicate that every page's cursor has is one of the cursors that skipped pages lead to.
  Skipped-cursor :
      (P : Option Bytes → Type 0)
      → ((c : Option Bytes) (page : Page)
          → execute_gql_query client address size c ≡ ok page
          → P page.1.start_cursor)
      → {n : ℕ} {from to : Option Bytes} → Skipped (suc n) from to
      → P to
  Skipped-cursor P each (past page e nothing more here) = each _ page e
  Skipped-cursor P each (past page e nothing more (past next' q less older rest)) =
      Skipped-cursor P each (past next' q less older rest)

  FetchEnds-cursor :
      (P : Option Bytes → Type 0)
      → ((c : Option Bytes) (page : Page)
          → execute_gql_query client address size c ≡ ok page
          → P page.1.start_cursor)
      → {most : ℕ} {from : Option Bytes} {r : Result (HistoryError E) Fetched} (f : Fetched)
      → FetchEnds (suc most) from r
      → r ≡ ok f
      → P f.next_cursor
  FetchEnds-cursor P each f (stopped n c page lt skip e why) same =
      subst (λ g. P g.next_cursor) (ok-injective same) (each c page e)
  FetchEnds-cursor P each f (gave_up c skip) same =
      subst (λ g. P g.next_cursor) (ok-injective same) (Skipped-cursor P each skip)
  FetchEnds-cursor P each f (failed n c x lt skip e) same = absurd (cc)

  pub fetch-cursor :
      (P : Option Bytes → Type 0)
      → ((c : Option Bytes) (page : Page)
          → execute_gql_query client address size c ≡ ok page
          → P page.1.start_cursor)
      → (from : Option Bytes) (f : Fetched)
      → fetch_ecc_with_auto_pagination client address currency_id size from ≡ ok f
      → P f.next_cursor
  fetch-cursor P each from f same =
      FetchEnds-cursor P each f (fetch_ecc_with_auto_pagination-FetchEnds from) same
