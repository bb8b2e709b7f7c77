-- ===== src/Wallet/History/Pages/Whole.antt =====
-- The whole of a history, read by its cursors from the recent data into the archive.
use mathlib.Core.List.{append_assoc}
use bee_engine.Base.{
  ℕ, ◌<◌, ◌≡◌, refl, sym, ap, ◌∙◌, subst, ◌≢◌, true, List, [], ◌++◌, Option, none, some, Result, ok,
  ok-injective, inl, inr, Result-cases, Bool-cases, leb,
}
use bee_engine.Base.Bytes.{Bytes}
use bee_engine.Base.Lists.{is_empty, is_empty_nil}
use bee_engine.Wallet.History.{
  EccMsg, hot, Client, HistoryError, encode_archive_cursor, decode_cursor, Page, execute_gql_query,
}
use bee_engine.Wallet.History.Fetch.{Fetched, fetch_ecc_with_auto_pagination}
use bee_engine.Wallet.History.Fetch.Ends.{fetch-cursor}
use bee_engine.Wallet.History.Fetch.Walk.{
  Follows, last_page, older_page, Served, messages, Follows-messages,
}
use bee_engine.Wallet.History.Pages.{
  Archive, ArchiveFetch, stream_page, multifactor_page, archive_ecc, archive_page, archive_has_data,
  with_archive, archive_call_or_empty, archive_fetch_timeout,
}
use bee_engine.Wallet.History.Pages.Soft.{decode-encode_archive_cursor}

module _ {E : Type 0} (hot_fetch : Option Bytes → Result (HistoryError E) Fetched)
    (fetch : ArchiveFetch) (size : ℕ) where
  stream : Option Bytes → Result (HistoryError E) Fetched
  stream cursor = stream_page hot_fetch (some fetch) size (decode_cursor cursor)

  from_archive : Option Bytes → Result (HistoryError E) Fetched
  from_archive c = ok (fetch archive_fetch_timeout size c)

  same_start :
      (c c' : Option Bytes) (a : List EccMsg)
      → stream c ≡ stream c'
      → Follows stream c' a
      → Follows stream c a
  same_start c c' a same (last_page _ f e final) = last_page c f (same ∙ e) final
  same_start c c' a same (older_page _ f rest e more later) =
      older_page c f rest (same ∙ e) more later

  -- Cursors of the archive that have older pages behind them are not empty.
  abbrev ArchiveCursors : Type 0
  ArchiveCursors =
      (c : Option Bytes)
      → (fetch archive_fetch_timeout size c).has_more ≡ true
      → (fetch archive_fetch_timeout size c).next_cursor ≢ some []

  -- Cursors of recent data that have older pages behind them are texts without the archive's prefix.
  abbrev HotCursors : Type 0
  HotCursors =
      (c : Option Bytes) (f : Fetched)
      → hot_fetch c ≡ ok f
      → f.has_more ≡ true
      → decode_cursor f.next_cursor ≡ hot f.next_cursor

  archive_Follows :
      ArchiveCursors
      → (c : Option Bytes) (a : List EccMsg) → c ≢ some []
      → Follows from_archive c a
      → Follows stream (encode_archive_cursor c) a
  unfolding stream from_archive stream_page archive_page
  archive_Follows named c a usable (last_page _ f e final) =
      let same = ok-injective e in
      subst (Follows stream (encode_archive_cursor c)) (ap (λ p. p.msgs) same) (
        last_page (encode_archive_cursor c) (archive_page fetch size c)
          (rw (decode-encode_archive_cursor c usable) refl) (ap (λ p. p.has_more) same ∙ final))
  archive_Follows named c a usable (older_page _ f rest e more later) =
      let same = ok-injective e in
      let more' = ap (λ p. p.has_more) same ∙ more in
      let usable' = subst (λ p. p.next_cursor ≢ some []) same (named c more') in
      let later' = archive_Follows named f.next_cursor rest usable' later in
      subst (Follows stream (encode_archive_cursor c)) (ap (λ p. p.msgs ++ rest) same) (
        older_page (encode_archive_cursor c) (archive_page fetch size c) rest
          (rw (decode-encode_archive_cursor c usable) refl) more'
          (subst (λ p. Follows stream (encode_archive_cursor p.next_cursor) rest) (sym same)
            later'))

  hot_Follows :
      ArchiveCursors
      → HotCursors
      → (c : Option Bytes) (h a : List EccMsg) → decode_cursor c ≡ hot c
      → archive_has_data fetch ≡ true
      → Follows from_archive none a
      → Follows hot_fetch c h
      → Follows stream c (h ++ a)
  unfolding stream from_archive stream_page with_archive decode_cursor encode_archive_cursor
  hot_Follows named plain c h a source found older (last_page _ f e final) =
      let begun = archive_Follows named none a (λ eq. cc) older in
      elim (Bool-cases (is_empty f.msgs)) [
        | inl empty' ↦
            let step : stream c ≡ stream (encode_archive_cursor none) =
              rw (source, e, final, empty') refl in
            rw (is_empty_nil f.msgs empty') (same_start c (encode_archive_cursor none) a step begun)
        | inr some_left ↦
            older_page c
              (record { msgs = f.msgs; next_cursor = encode_archive_cursor none; has_more = true })
              a (rw (source, e, final, some_left, found) refl) refl begun
      ]
  hot_Follows named plain c h a source found older (older_page _ f rest e more later) =
      rw append_assoc (
        older_page c f (rest ++ a) (rw (source, e, more) refl) more
          (hot_Follows named plain f.next_cursor rest a (plain c f e more) found older later))

module _ {Json E : Type 0} (client : Client Json E) (arc : Archive Json E) where
  module _ (address : Bytes) (currency_id size : ℕ) where
    -- What the endpoints are expected to do: each page's cursor is no text of the archive's form, or
    -- is not empty; and the archive answers in time.
    abbrev pub PlainCursors : Type 0
    PlainCursors =
        (c : Option Bytes) (page : Page)
        → execute_gql_query client address size c ≡ ok page
        → decode_cursor page.1.start_cursor ≡ hot page.1.start_cursor

    abbrev pub NamedCursors : Type 0
    NamedCursors =
        (c : Option Bytes) (page : Page)
        → execute_gql_query arc.client address size c ≡ ok page
        → page.1.start_cursor ≢ some []

    abbrev pub Timely : Type 0
    Timely = (c : Option Bytes) → leb (arc.ecc_ms size c) archive_fetch_timeout ≡ true

    archive_ecc-fetched :
        Timely
        → (c : Option Bytes) (f : Fetched)
        → fetch_ecc_with_auto_pagination arc.client address currency_id size c ≡ ok f
        → archive_ecc arc address currency_id archive_fetch_timeout size c ≡ f
    unfolding archive_ecc archive_call_or_empty
    archive_ecc-fetched timely c f e = rw (e, timely c) refl

    archive_ecc-Follows :
        Timely
        → (c : Option Bytes) (a : List EccMsg)
        → Follows (fetch_ecc_with_auto_pagination arc.client address currency_id size) c a
        → Follows {X = HistoryError E}
            (λ cursor. ok (archive_ecc arc address currency_id archive_fetch_timeout size cursor))
            c
            a
    archive_ecc-Follows timely c a (last_page _ f e final) =
        last_page c f (ap ok (archive_ecc-fetched timely c f e)) final
    archive_ecc-Follows timely c a (older_page _ f rest e more later) =
        older_page c f rest (ap ok (archive_ecc-fetched timely c f e)) more
          (archive_ecc-Follows timely f.next_cursor rest later)

    archive_ecc-ArchiveCursors :
        NamedCursors
        → Timely
        → (c : Option Bytes)
        → (archive_ecc arc address currency_id archive_fetch_timeout size c).next_cursor ≢ some []
    unfolding archive_ecc archive_call_or_empty
    archive_ecc-ArchiveCursors named timely c =
        elim (Result-cases (fetch_ecc_with_auto_pagination arc.client address currency_id size c)) [
          | inl (f, e) ↦
              rw (archive_ecc-fetched timely c f e)
                (fetch-cursor arc.client address currency_id size (λ x. x ≢ some []) named c f e)
          | inr (x, e) ↦ rw e (λ h. cc)
        ]

    module _ (count : ℕ) (page : ℕ → List EccMsg) (cursor : ℕ → Option Bytes) where
      module _ (count' : ℕ) (page' : ℕ → List EccMsg) (cursor' : ℕ → Option Bytes) where
        -- Reading a history to its end gives the messages of the currency in all the pages of the recent
        -- data and then in all those of the archive, none lost and none repeated by the reading: if both
        -- endpoints serve their pages from the first, with cursors as expected, and the archive answers
        -- in time and shows some message when it is probed.
        pub multifactor_page-Follows :
            Served client address currency_id size count page cursor
            → Served arc.client address currency_id size count' page' cursor'
            → (0 < count) × (cursor 0 ≡ none)
            → (0 < count') × (cursor' 0 ≡ none)
            → PlainCursors × NamedCursors × Timely
            → archive_has_data (archive_ecc arc address currency_id) ≡ true
            → Follows
                (multifactor_page client (some arc) currency_id size address)
                none
                (messages currency_id page 0 count ++ messages currency_id page' 0 count')
        unfolding multifactor_page stream from_archive decode_cursor
        multifactor_page-Follows served served' (some_page, first) (some_page', first')
              (plain, named, timely) found =
            let recent =
              subst
                (λ at.
                  Follows (fetch_ecc_with_auto_pagination client address currency_id size) at
                    (messages currency_id page 0 count))
                first
                (Follows-messages client address currency_id size count page cursor served
                  some_page) in
            let older =
              subst
                (λ at.
                  Follows (fetch_ecc_with_auto_pagination arc.client address currency_id size) at
                    (messages currency_id page' 0 count'))
                first'
                (Follows-messages arc.client address currency_id size count' page' cursor' served'
                  some_page') in
            hot_Follows (fetch_ecc_with_auto_pagination client address currency_id size)
              (archive_ecc arc address currency_id) size
              (λ c more. archive_ecc-ArchiveCursors named timely c)
              (λ c f e more.
                fetch-cursor client address currency_id size (λ x. decode_cursor x ≡ hot x) plain c
                  f e)
              none (messages currency_id page 0 count) (messages currency_id page' 0 count') refl
              found (archive_ecc-Follows timely none (messages currency_id page' 0 count') older)
              recent
