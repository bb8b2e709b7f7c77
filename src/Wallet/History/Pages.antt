-- ===== src/Wallet/History/Pages.antt =====
-- bee_wallet/src/services/transaction/history.rs: the choice between the recent data and the archive,
-- which `get_ecc_txs` makes for each of its two streams.
pub mod Soft
pub mod Whole
use bee_engine.Base.{
  ℕ, Bool, true, false, not, ◌&&◌, List, [], ◌∷◌, Option, none, some, Result, ok, err, ◌>>=◌, leb,
  if◌then◌else◌,
}
use bee_engine.Base.Bytes.{Bytes}
use bee_engine.Base.Lists.{is_empty}
use bee_engine.Wallet.History.{
  CursorSource, hot, archive, Client, HistoryError, encode_archive_cursor, decode_cursor,
}
use bee_engine.Wallet.History.Fetch.{
  Fetched, fetch_ecc_with_auto_pagination, fetch_mining_with_auto_pagination,
}

-- In milliseconds.
abbrev pub archive_fetch_timeout : ℕ
archive_fetch_timeout = 5000

abbrev pub archive_probe_timeout : ℕ
archive_probe_timeout = 2000

abbrev pub archive_probe_page_size : ℕ
archive_probe_page_size = 1

-- The archive's endpoint, with the milliseconds that a fetch of it takes by its page size and cursor.
pub record Archive (Json E : Type 0) : Type 0 where
  pub client : Client Json E
  pub ecc_ms : ℕ → Option Bytes → ℕ
  pub mining_ms : ℕ → Option Bytes → ℕ

abbrev pub nothing_fetched : Fetched
nothing_fetched = record { msgs = []; next_cursor = none; has_more = false }

-- A fetch that takes so long, within a timeout.
unfoldable pub archive_call_or_empty :
    {E : Type 0} (timeout takes : ℕ) → Result (HistoryError E) Fetched → Fetched
archive_call_or_empty timeout takes (ok fetched) =
    if leb takes timeout then fetched else nothing_fetched
archive_call_or_empty timeout takes (err _) = nothing_fetched

-- A page of the archive, by the timeout, the page size and the cursor.
abbrev pub ArchiveFetch : Type 0
ArchiveFetch = (timeout page_size : ℕ) → Option Bytes → Fetched

unfoldable pub archive_ecc :
    {Json E : Type 0} → Archive Json E → (address : Bytes) (currency_id : ℕ) → ArchiveFetch
unfolding archive_call_or_empty
archive_ecc arc address currency_id timeout page_size cursor =
    archive_call_or_empty timeout (arc.ecc_ms page_size cursor)
      (fetch_ecc_with_auto_pagination arc.client address currency_id page_size cursor)

unfoldable pub archive_mining :
    {Json E : Type 0} → Archive Json E → (popitgame : Bytes) (currency_id : ℕ) → ArchiveFetch
unfolding archive_call_or_empty
archive_mining arc popitgame currency_id timeout page_size cursor =
    archive_call_or_empty timeout (arc.mining_ms page_size cursor)
      (fetch_mining_with_auto_pagination arc.client popitgame currency_id page_size cursor)

-- `archive_ecc_has_data` and `archive_mining_has_data`
unfoldable pub archive_has_data : ArchiveFetch → Bool
archive_has_data fetch =
    not (is_empty (fetch archive_probe_timeout archive_probe_page_size none).msgs)

-- A page of the archive as the page of a history.
unfoldable pub archive_page : ArchiveFetch → (page_size : ℕ) → Option Bytes → Fetched
archive_page fetch page_size cursor =
    let page = fetch archive_fetch_timeout page_size cursor in
    record {
      msgs = page.msgs;
      next_cursor = encode_archive_cursor page.next_cursor;
      has_more = page.has_more;
    }

-- What is made of a page of recent data: the archive instead of an empty last page, and the
-- archive's beginning behind another last page.
unfoldable pub with_archive : (page_size : ℕ) → Option ArchiveFetch → Fetched → Fetched
unfolding archive_has_data archive_page
with_archive page_size arc page =
    if not page.has_more && is_empty page.msgs
    then elim arc [ some fetch ↦ archive_page fetch page_size none | none ↦ page ]
    else (if not page.has_more
        then elim arc [
          | some fetch ↦
              if archive_has_data fetch
              then record {
                msgs = page.msgs;
                next_cursor = encode_archive_cursor none;
                has_more = true;
              }
              else record { msgs = page.msgs; next_cursor = none; has_more = false }
          | none ↦ record { msgs = page.msgs; next_cursor = none; has_more = false }
        ]
        else page)

-- A page of a stream, from the source that its cursor names.
unfoldable pub stream_page :
    {E : Type 0} (hot_fetch : Option Bytes → Result (HistoryError E) Fetched)
    → Option ArchiveFetch
    → (page_size : ℕ) → CursorSource
    → Result (HistoryError E) Fetched
unfolding with_archive
stream_page hot_fetch arc page_size (hot cursor) = do
  page ← hot_fetch cursor
  ok (with_archive page_size arc page)
stream_page hot_fetch none page_size (archive cursor) = ok nothing_fetched
stream_page hot_fetch (some fetch) page_size (archive cursor) =
    ok (archive_page fetch page_size cursor)

abbrev pub archive_of :
    {Json E : Type 0}
    → Option (Archive Json E)
    → (Archive Json E → ArchiveFetch)
    → Option ArchiveFetch
archive_of none fetch = none
archive_of (some arc) fetch = some (fetch arc)

module _ {Json E : Type 0} (client : Client Json E) (arc : Option (Archive Json E))
    (currency_id page_size : ℕ) where
  -- The messages of the multifactor account.
  unfoldable pub multifactor_page :
      (address : Bytes) → Option Bytes → Result (HistoryError E) Fetched
  unfolding stream_page
  multifactor_page address cursor =
      stream_page (fetch_ecc_with_auto_pagination client address currency_id page_size)
        (archive_of arc (λ a. archive_ecc a address currency_id)) page_size (decode_cursor cursor)

  -- The rewards of the miner's game, if there is one.
  unfoldable pub mining_page : Option Bytes → Option Bytes → Result (HistoryError E) Fetched
  unfolding stream_page
  mining_page none cursor = ok nothing_fetched
  mining_page (some popitgame) cursor =
      stream_page (fetch_mining_with_auto_pagination client popitgame currency_id page_size)
        (archive_of arc (λ a. archive_mining a popitgame currency_id)) page_size
        (decode_cursor cursor)
