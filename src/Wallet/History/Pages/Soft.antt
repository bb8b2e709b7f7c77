-- ===== src/Wallet/History/Pages/Soft.antt =====
-- The cursors of the archive, and the archive's failures.
use bee_engine.Base.{
  ℕ, ◌≡◌, refl, ◌≢◌, [], ◌∷◌, Option, none, some, Result, err, inl, inr, Result-cases,
}
use bee_engine.Base.Bytes.{Bytes}
use bee_engine.Wallet.History.{
  CursorSource, hot, archive, Client, HistoryError, encode_archive_cursor, decode_cursor,
}
use bee_engine.Wallet.History.Fetch.{
  Fetched, fetch_ecc_with_auto_pagination, fetch_mining_with_auto_pagination,
}
use bee_engine.Wallet.History.Pages.{
  Archive, ArchiveFetch, archive_of, archive_ecc, archive_mining, stream_page, multifactor_page,
  mining_page,
}

-- A cursor of the archive comes back as it was from the cursor that a caller is given for it, if it
-- is not the empty text.
pub decode-encode_archive_cursor :
    (c : Option Bytes) → c ≢ some [] → decode_cursor (encode_archive_cursor c) ≡ archive c
unfolding decode_cursor encode_archive_cursor
decode-encode_archive_cursor none h = refl
decode-encode_archive_cursor (some []) h = absurd (h refl)
decode-encode_archive_cursor (some (b ∷ bs)) h = refl

stream_page-err :
    {E : Type 0} (hot_fetch : Option Bytes → Result (HistoryError E) Fetched)
    (arc : Option ArchiveFetch) (page_size : ℕ) (source : CursorSource) (e : HistoryError E)
    → stream_page hot_fetch arc page_size source ≡ err e
    → (c : Option Bytes) × (source ≡ hot c) × (hot_fetch c ≡ err e)
unfolding stream_page
stream_page-err hot_fetch arc page_size (hot c) e h = elim (Result-cases (hot_fetch c)) [
  | inl (page, ok_page) ↦ absurd (cc)
  | inr (x, failed) ↦ (c, refl, cc)
]
stream_page-err hot_fetch none page_size (archive c) e h = absurd (cc)
stream_page-err hot_fetch (some fetch) page_size (archive c) e h = absurd (cc)

module _ {Json E : Type 0} (client : Client Json E) (arc : Option (Archive Json E)) (size : ℕ) where
  -- The same of the miner's rewards.
  mining_page-err :
      (currency_id : ℕ) (popitgame cursor : Option Bytes) (e : HistoryError E)
      → mining_page client arc currency_id size popitgame cursor ≡ err e
      → (game : Bytes) × (c : Option Bytes) × (popitgame ≡ some game)
        × (decode_cursor cursor ≡ hot c)
        × (fetch_mining_with_auto_pagination client game currency_id size c ≡ err e)
  unfolding mining_page
  mining_page-err currency_id none cursor e h = absurd (cc)
  mining_page-err currency_id (some game) cursor e h =
      let (c, source, failed) =
        stream_page-err _ (archive_of arc (λ a. archive_mining a game currency_id)) size
          (decode_cursor cursor) e h in
      (game, c, refl, source, failed)

  -- The messages of an account never fail because of the archive, whatever it answers and however long
  -- it takes: an error is that of a fetch of recent data, by a cursor of recent data.
  pub multifactor_page-err :
      (currency_id : ℕ) (address : Bytes) (cursor : Option Bytes) (e : HistoryError E)
      → multifactor_page client arc currency_id size address cursor ≡ err e
      → (c : Option Bytes) × (decode_cursor cursor ≡ hot c)
        × (fetch_ecc_with_auto_pagination client address currency_id size c ≡ err e)
  unfolding multifactor_page
  multifactor_page-err currency_id address cursor e h =
      stream_page-err _ (archive_of arc (λ a. archive_ecc a address currency_id)) size
        (decode_cursor cursor) e h
