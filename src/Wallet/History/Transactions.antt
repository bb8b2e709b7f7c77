-- ===== src/Wallet/History/Transactions.antt =====
-- bee_wallet/src/services/transaction/history.rs: from messages to transactions.
-- The addresses of miners' games and the names of multifactor accounts are looked up on the network,
-- so both are arguments.
pub mod Distinct
pub mod Rewards
use bee_engine.Base.{
  ℕ, zero, suc, Bool, true, false, not, ◌&&◌, ◌||◌, List, [], ◌∷◌, ◌++◌, map, Option, none, some,
  Result, ok, err, ◌>>=◌, ◌>>◌, fail_if, ok_or, leb, ◌==◌, if◌then◌else◌,
}
use bee_engine.Base.Bytes.{Bytes, bytes_eq}
use bee_engine.Base.Decimal.{parse_uint}
use bee_engine.Base.Lists.{is_empty, any, find}
use bee_engine.Wallet.History.{
  EccMsg, ValueOther, TokenKind, ecc, tip3, Client, HistoryError, numeric_token_id, no_value_other,
  bad_value, unrelated, known_name, parse_token_id, nackl_currency_id,
}
use bee_engine.Wallet.History.Fetch.{Fetched}
use bee_engine.Wallet.History.Pages.{Archive, multifactor_page, mining_page}

pub data TxType : Type 0 where
  mining incoming outgoing : TxType

pub record TxData : Type 0 where
  pub id : Bytes
  pub tx_type : TxType
  pub created_at : ℕ
  pub value : ℕ
  pub src_name : Option Bytes

pub record ParamsOfGetHistory : Type 0 where
  pub multifactor_address : Bytes
  pub token_id : Bytes
  pub page_size : ℕ
  pub cursor : Option Bytes
  pub mining_cursor : Option Bytes

pub record ResultOfGetHistory : Type 0 where
  pub txs : List TxData
  pub next_cursor : Option Bytes
  pub next_mining_cursor : Option Bytes
  pub has_next_page : Bool

abbrev pub contains : List Bytes → Bytes → Bool
contains seen key = any (λ other. bytes_eq other key) seen

-- `filter(|m| seen_ids.insert(m.id.clone()))`, with the ids that are seen afterwards
unfoldable pub unseen : (seen_ids : List Bytes) → List EccMsg → List EccMsg × List Bytes
unseen seen_ids [] = ([], seen_ids)
unseen seen_ids (m ∷ ms) =
    let kept = unseen (m.id ∷ seen_ids) ms in
    let skipped = unseen seen_ids ms in
    elim (contains seen_ids m.id) [ true ↦ skipped | false ↦ (m ∷ kept.0, kept.1) ]

unfoldable pub value_of : (currency_id : ℕ) → EccMsg → {E : Type 0} → Result (HistoryError E) ℕ
value_of currency_id evt = do
  vo ← ok_or (find (λ vo. vo.currency == currency_id) evt.value_other) (no_value_other evt.id)
  ok_or (parse_uint 128 vo.value) (bad_value evt.id)

-- The account on the other side of a message of the address.
unfoldable pub counterparty : (address : Bytes) → EccMsg → Option Bytes
counterparty address e =
    if bytes_eq e.src address
    then some e.dst
    else (if bytes_eq e.dst address then some e.src else none)

abbrev is_unknown : Bytes → Bool
is_unknown address = elim (known_name address) [ none ↦ true | some _ ↦ false ]

-- The accounts whose names are looked up, each once.
unfoldable pub counterparties : (address : Bytes) (seen : List Bytes) → List EccMsg → List Bytes
unfolding counterparty
counterparties address seen [] = []
counterparties address seen (e ∷ es) =
    let others = counterparties address seen es in
    elim (counterparty address e) [
      | none ↦ others
      | some a ↦
          let more = counterparties address (a ∷ seen) es in
          if not (bytes_eq a address) && is_unknown a && not (contains seen a)
          then a ∷ more
          else others
    ]

-- `decoded_map`: the names that could be read.
unfoldable pub decoded_names :
    (account_name : Bytes → Option Bytes) → List Bytes → List (Bytes × Bytes)
decoded_names account_name [] = []
decoded_names account_name (a ∷ as') =
    let rest = decoded_names account_name as' in
    elim (account_name a) [ none ↦ rest | some name ↦ (a, name) ∷ rest ]

unfoldable pub name_in : List (Bytes × Bytes) → Bytes → Option Bytes
name_in names addr = elim (find (λ entry. bytes_eq entry.0 addr) names) [
  | none ↦ none
  | some entry ↦ some entry.1
]

unfoldable pub src_name : List (Bytes × Bytes) → Bytes → Option Bytes
unfolding name_in
src_name names addr = elim (known_name addr) [ some name ↦ some name | none ↦ name_in names addr ]

unfoldable pub multifactor_tx :
    {E : Type 0} (address : Bytes) (currency_id : ℕ)
    → List (Bytes × Bytes)
    → EccMsg
    → Result (HistoryError E) TxData
unfolding value_of src_name
multifactor_tx address currency_id names evt = value_of currency_id evt >>= λ value.
    if bytes_eq evt.src address
    then ok (record {
      id = evt.id;
      tx_type = outgoing;
      created_at = evt.created_at;
      value = value;
      src_name = src_name names evt.dst;
    })
    else (if bytes_eq evt.dst address
        then ok (record {
          id = evt.id;
          tx_type = incoming;
          created_at = evt.created_at;
          value = value;
          src_name = src_name names evt.src;
        })
        else err (unrelated evt.id))

unfoldable pub mining_tx : {E : Type 0} (currency_id : ℕ) → EccMsg → Result (HistoryError E) TxData
unfolding value_of
mining_tx currency_id evt = do
  value ← value_of currency_id evt
  ok (record {
    id = evt.id;
    tx_type = mining;
    created_at = evt.created_at;
    value = value;
    src_name = none;
  })

-- `map` and `collect` into a result.
unfoldable pub collect {ℓ} : {X A B : Type ℓ} → (A → Result X B) → List A → Result X (List B)
collect f [] = ok []
collect f (a ∷ as') = do b ← f a; bs ← collect f as'; ok (b ∷ bs)

-- `sort_by_key(|b| Reverse(b.created_at))`, which is stable.
unfoldable pub insert_newest : TxData → List TxData → List TxData
insert_newest tx [] = tx ∷ []
insert_newest tx (other ∷ txs) =
    let rest = insert_newest tx txs in
    if leb other.created_at tx.created_at then tx ∷ other ∷ txs else other ∷ rest

unfoldable pub sort_newest : List TxData → List TxData
unfolding insert_newest
sort_newest [] = []
sort_newest (tx ∷ txs) = insert_newest tx (sort_newest txs)

-- The endpoints and the lookups that a history is made from.
pub record Network (Json E : Type 0) : Type 0 where
  pub client : Client Json E
  pub arc : Option (Archive Json E)
  pub get_popitgame : Bytes → Option Bytes
  pub account_name : Bytes → Option Bytes

module _ {Json E : Type 0} (net : Network Json E) where
  -- Deduplication, the transactions of both streams, and their order.
  unfoldable pub transactions :
      (address : Bytes) (currency_id : ℕ)
      → List EccMsg
      → List EccMsg
      → Result (HistoryError E) (List TxData)
  transactions address currency_id mf_msgs pg_msgs = do
    let mf = unseen [] mf_msgs
    let pg = unseen mf.1 pg_msgs
    let names = decoded_names net.account_name (counterparties address [] mf.0)
    txs ← collect (multifactor_tx address currency_id names) mf.0
    mining_data ← collect (mining_tx currency_id) pg.0
    ok (sort_newest (txs ++ mining_data))

  unfoldable pub ecc_history :
      (params : ParamsOfGetHistory) (currency_id : ℕ) → Result (HistoryError E) ResultOfGetHistory
  unfolding transactions
  ecc_history params currency_id = do
    let popitgame =
        if currency_id == nackl_currency_id
        then net.get_popitgame params.multifactor_address
        else none
    mf ←
        multifactor_page net.client net.arc currency_id params.page_size params.multifactor_address
          params.cursor
    pg ← mining_page net.client net.arc currency_id params.page_size popitgame params.mining_cursor
    txs ← transactions params.multifactor_address currency_id mf.msgs pg.msgs
    ok (record {
      txs = txs;
      next_cursor = mf.next_cursor;
      next_mining_cursor = pg.next_cursor;
      has_next_page = mf.has_more || pg.has_more;
    })

  unfoldable pub get_ecc_txs :
      (params : ParamsOfGetHistory) → Result (HistoryError E) ResultOfGetHistory
  unfolding ecc_history
  get_ecc_txs params = elim (parse_token_id params.token_id) [
    | ecc id ↦ ecc_history params id
    | tip3 _ ↦ err (numeric_token_id params.token_id)
  ]

  abbrev pub get_token_txs : ParamsOfGetHistory → Result (HistoryError E) ResultOfGetHistory
  get_token_txs params =
      ok (record { txs = []; next_cursor = none; next_mining_cursor = none; has_next_page = false })

  unfoldable pub get_history :
      (params : ParamsOfGetHistory) → Result (HistoryError E) ResultOfGetHistory
  unfolding get_ecc_txs
  get_history params = elim (parse_token_id params.token_id) [
    | ecc _ ↦ get_ecc_txs params
    | tip3 _ ↦ get_token_txs params
  ]
