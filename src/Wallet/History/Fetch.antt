-- ===== src/Wallet/History/Fetch.antt =====
-- bee_wallet/src/services/transaction/history.rs: the fetching of one page of a history, past the
-- pages that have no message of the currency.
pub mod Ends
pub mod Walk
use bee_engine.Base.{
  ℕ, zero, suc, Bool, true, false, not, ◌||◌, List, [], ◌∷◌, ◌++◌, Option, none, some, Result, ok,
  err, ◌>>=◌, ◌==◌, if◌then◌else◌,
}
use bee_engine.Base.Bytes.{Bytes}
use bee_engine.Base.Lists.{is_empty, any, retain}
use bee_engine.Wallet.History.{
  EccMsg, GqlPageInfo, Client, HistoryError, Page, execute_gql_query, execute_mining_events_query,
}

abbrev pub max_auto_fetch_pages : ℕ
max_auto_fetch_pages = 10

-- Whether a message moves the currency.
unfoldable pub has_currency : ℕ → EccMsg → Bool
has_currency currency_id m = any (λ vo. vo.currency == currency_id) m.value_other

pub record Fetched : Type 0 where
  pub msgs : List EccMsg
  pub next_cursor : Option Bytes
  pub has_more : Bool

module _ {Json E : Type 0} (client : Client Json E) where
  module _ (address : Bytes) (currency_id page_size : ℕ) where
    -- The iterations that are left of the loop, with its four variables.
    unfoldable pub pages_from :
        (left : ℕ) (all_msgs : List EccMsg) (current_cursor next_cursor : Option Bytes)
        (has_more : Bool)
        → Result (HistoryError E) Fetched
    pages_from zero all_msgs current_cursor next_cursor has_more =
        ok (record { msgs = all_msgs; next_cursor = next_cursor; has_more = has_more })
    pages_from (suc left) all_msgs current_cursor next_cursor has_more =
        execute_gql_query client address page_size current_cursor >>= λ page.
        let filtered = retain (has_currency currency_id) page.0 in
        let extended = all_msgs ++ filtered in
        let next = page.1.start_cursor in
        let more = page.1.has_previous_page in
        let rest = pages_from left extended next next more in
        if not (is_empty extended) || not more
        then ok (record { msgs = extended; next_cursor = next; has_more = more })
        else rest

    unfoldable pub fetch_ecc_with_auto_pagination :
        (initial_cursor : Option Bytes) → Result (HistoryError E) Fetched
    fetch_ecc_with_auto_pagination initial_cursor =
        pages_from max_auto_fetch_pages [] initial_cursor none false

  unfoldable pub fetch_mining_with_auto_pagination :
      (popitgame : Bytes) (currency_id page_size : ℕ) (initial_cursor : Option Bytes)
      → Result (HistoryError E) Fetched
  fetch_mining_with_auto_pagination popitgame currency_id page_size initial_cursor = do
    page ← execute_mining_events_query client popitgame currency_id page_size initial_cursor
    ok (record {
      msgs = page.0;
      next_cursor = page.1.start_cursor;
      has_more = page.1.has_previous_page;
    })
