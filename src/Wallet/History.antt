-- ===== src/Wallet/History.antt =====
-- bee_wallet/src/services/transaction/history.rs, and account_id of bee_wallet/src/dapp.rs: the
-- data of a history, its cursors, and the two queries. The network and the decoding of its answers
-- are arguments.

pub mod Fetch
pub mod Pages
pub mod Transactions
use bee_engine.Base.{
  ℕ, zero, suc, ◌≡◌, Bool, true, false, ◌&&◌, List, [], ◌∷◌, ◌++◌, map, Option, none, some, Result,
  ok, err, ◌>>=◌, map_err, ◌==◌, if◌then◌else◌,
}
use bee_engine.Base.Bytes.{Bytes, bytes_eq}
use bee_engine.Base.Decimal.{parse_uint, to_decimal}
use bee_engine.Base.Lists.{is_empty, find}
use bee_engine.Base.Text.{codes}

abbrev pub game_root_address : Bytes
game_root_address = codes "0:0505050505050505050505050505050505050505050505050505050505050505"

abbrev pub nackl_currency_id : ℕ
nackl_currency_id = 1

abbrev pub known_addresses : List (Bytes × Bytes)
known_addresses =
    (codes "0:1111111111111111111111111111111111111111111111111111111111111111", codes "Giver")
    ∷ (codes "0:1010101010101010101010101010101010101010101010101010101010101010", codes "DEX")
    ∷ (
      codes "0:1515151515151515151515151515151515151515151515151515151515151515",
      codes "DEX Oracle",
    )
    ∷ (codes "0:1a1a1a1a1a1a1a1a1a1a1a1a1a1a1a1a1a1a1a1a1a1a1a1a1a1a1a1a1a1a1a1a", codes "Exchange")
    ∷ (
      codes "0:3535353535353535353535353535353535353535353535353535353535353535",
      codes "Accumulator",
    )
    ∷ []

unfoldable pub known_name : Bytes → Option Bytes
known_name address = elim (find (λ entry. bytes_eq entry.0 address) known_addresses) [
  | none ↦ none
  | some entry ↦ some entry.1
]

abbrev pub archive_cursor_prefix : Bytes
archive_cursor_prefix = codes "a:"

pub data CursorSource : Type 0 where
  hot : Option Bytes → CursorSource
  archive : Option Bytes → CursorSource

-- The text behind the prefix of archive cursors, if it starts with that.
unfoldable pub strip_archive_prefix : Bytes → Option Bytes
strip_archive_prefix [] = none
strip_archive_prefix (a ∷ []) = none
strip_archive_prefix (a ∷ b ∷ inner) = if (a == b'a') && (b == b':') then some inner else none

unfoldable pub decode_cursor : Option Bytes → CursorSource
unfolding strip_archive_prefix
decode_cursor none = hot none
decode_cursor (some c) = elim (strip_archive_prefix c) [
  | some inner ↦ archive (if is_empty inner then none else some inner)
  | none ↦ hot (some c)
]

abbrev pub unwrap_or_default : Option Bytes → Bytes
unwrap_or_default none = []
unwrap_or_default (some text) = text

unfoldable pub encode_archive_cursor : Option Bytes → Option Bytes
encode_archive_cursor cursor = some (archive_cursor_prefix ++ unwrap_or_default cursor)

pub data TokenKind : Type 0 where
  ecc : ℕ → TokenKind
  tip3 : Bytes → TokenKind

unfoldable pub parse_token_id : Bytes → TokenKind
parse_token_id token_id = elim (parse_uint 32 token_id) [
  | some currency_id ↦ ecc currency_id
  | none ↦ tip3 token_id
]

pub record ValueOther : Type 0 where
  pub currency : ℕ
  pub value : Bytes

pub record EccMsg : Type 0 where
  pub id : Bytes
  pub src : Bytes
  pub dst : Bytes
  pub created_at : ℕ
  pub value_other : List ValueOther

pub record GqlPageInfo : Type 0 where
  pub start_cursor : Option Bytes
  pub has_previous_page : Bool

pub record GqlMessages : Type 0 where
  pub edges : List EccMsg
  pub page_info : GqlPageInfo

pub record GqlEventNode : Type 0 where
  pub msg_id : Bytes
  pub created_at : ℕ
  pub dst : Bytes
  pub body : Bytes

pub record GqlEvents : Type 0 where
  pub edges : List GqlEventNode
  pub page_info : GqlPageInfo

-- The variables of the two queries. The one of messages has no filter of destinations.
pub record Variables : Type 0 where
  pub account_id : Bytes
  pub dapp_id : Bytes
  pub dst : Option Bytes
  pub last : ℕ
  pub before : Option Bytes

-- One endpoint: its answers to the queries, the reading of these from JSON, and the reward that
-- the body of an event decodes to.
pub record Client (Json E : Type 0) : Type 0 where
  pub query : Variables → Result E Json
  pub parse_messages : Json → Result E GqlMessages
  pub parse_events : Json → Result E GqlEvents
  pub mobile_verifiers_dapp_id : Bytes
  pub decode_reward : GqlEventNode → Option ℕ

-- An error, with the context that is put before it.
pub data HistoryError (E : Type 0) : Type 0 where
  query_failed parse_failed : E → HistoryError E
  numeric_token_id no_value_other bad_value unrelated : Bytes → HistoryError E

abbrev pub Page : Type 0
Page = List EccMsg × GqlPageInfo

-- The part behind the last colon.
unfoldable pub after_last_colon : Bytes → Option Bytes
after_last_colon [] = none
after_last_colon (b ∷ rest) = elim (after_last_colon rest) [
  | some id ↦ some id
  | none ↦ if b == b':' then some rest else none
]

unfoldable pub account_id : Bytes → Bytes
unfolding after_last_colon
account_id address = elim (after_last_colon address) [ some id ↦ id | none ↦ address ]

-- `replacen("0:", ":", 1)`
unfoldable pub external_dst : Bytes → Bytes
external_dst [] = []
external_dst (a ∷ []) = a ∷ []
external_dst (a ∷ b ∷ rest) =
    let later = external_dst (b ∷ rest) in
    if (a == b'0') && (b == b':') then b ∷ rest else a ∷ later

module _ {Json E : Type 0} (client : Client Json E) where
  unfoldable pub execute_gql_query :
      (address : Bytes) (page_size : ℕ) (cursor : Option Bytes) → Result (HistoryError E) Page
  unfolding account_id
  execute_gql_query address page_size cursor = do
    result ← map_err query_failed (
        client.query (record {
          account_id = account_id address;
          dapp_id = client.mobile_verifiers_dapp_id;
          dst = none;
          last = page_size;
          before = cursor;
        }))
    messages ← map_err parse_failed (client.parse_messages result)
    ok (messages.edges, messages.page_info)

  -- The reward of an event as a message from the game root, if the event decodes to one.
  unfoldable pub reward_message :
      (popitgame : Bytes) (currency_id : ℕ) → GqlEventNode → Option EccMsg
  reward_message popitgame currency_id node = elim (client.decode_reward node) [
    | none ↦ none
    | some reward ↦ some (record {
      id = node.msg_id;
      src = game_root_address;
      dst = popitgame;
      created_at = node.created_at;
      value_other = record { currency = currency_id; value = to_decimal reward } ∷ [];
    })
  ]

  -- `filter_map`
  unfoldable pub reward_messages :
      (popitgame : Bytes) (currency_id : ℕ) → List GqlEventNode → List EccMsg
  unfolding reward_message
  reward_messages popitgame currency_id [] = []
  reward_messages popitgame currency_id (node ∷ nodes) =
      let rest = reward_messages popitgame currency_id nodes in
      elim (reward_message popitgame currency_id node) [ none ↦ rest | some m ↦ m ∷ rest ]

  unfoldable pub execute_mining_events_query :
      (popitgame : Bytes) (currency_id page_size : ℕ) (cursor : Option Bytes)
      → Result (HistoryError E) Page
  unfolding account_id external_dst reward_messages
  execute_mining_events_query popitgame currency_id page_size cursor = do
    result ← map_err query_failed (
        client.query (record {
          account_id = account_id game_root_address;
          dapp_id = client.mobile_verifiers_dapp_id;
          dst = some (external_dst popitgame);
          last = page_size;
          before = cursor;
        }))
    events ← map_err parse_failed (client.parse_events result)
    ok (reward_messages popitgame currency_id events.edges, events.page_info)
