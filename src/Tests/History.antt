-- ===== src/Tests/History.antt =====
-- The theorems of the wallet's history at concrete endpoints.
use bee_engine.Base.{
  ℕ, zero, suc, ◌≡◌, refl, ◌≢◌, ◌||◌, List, [], ◌∷◌, ◌++◌, Option, none, some, ok, err, ltb, arith,
  subst, sym, ap, ◌∙◌, ok-injective,
}
use bee_engine.Base.Bytes.{Bytes}
use bee_engine.Base.Decimal.{parse_uint, digits_value, strip_plus}
use bee_engine.Base.Text.{codes}
use bee_engine.Wallet.History.{
  EccMsg, Client, Variables, GqlMessages, GqlEventNode, GqlPageInfo, execute_gql_query, hot,
  decode_cursor, reward_messages,
}
use bee_engine.Wallet.History.Fetch.{fetch_ecc_with_auto_pagination, max_auto_fetch_pages}
use bee_engine.Wallet.History.Fetch.Ends.{FetchEnds, fetch_ecc_with_auto_pagination-FetchEnds}
use bee_engine.Wallet.History.Fetch.Walk.{Follows, Served, messages}
use bee_engine.Wallet.History.Pages.{Archive, multifactor_page, archive_ecc, archive_has_data}
use bee_engine.Wallet.History.Pages.Soft.{multifactor_page-err}
use bee_engine.Wallet.History.Pages.Whole.{PlainCursors, NamedCursors, multifactor_page-Follows}
use bee_engine.Wallet.History.Transactions.{
  TxData, Network, transactions, collect, mining_tx, contains,
}
use bee_engine.Wallet.History.Transactions.Distinct.{
  Distinct, Newest, ids, tx_ids, transactions-Distinct,
}
use bee_engine.Wallet.History.Transactions.Rewards.{reward_txs, collect-reward_messages}
use bee_engine.Wallet.History.{query_failed, known_name}
use bee_engine.Wallet.History.Pages.{stream_page}
use bee_engine.Wallet.History.Fetch.{pages_from, has_currency}
use bee_engine.Wallet.History.Transactions.{
  outgoing, unseen, multifactor_tx, value_of, sort_newest, insert_newest, decoded_names, name_in,
  src_name, counterparties, counterparty,
}

abbrev me : Bytes
me = codes "0:2f50"

abbrev sent : (id : ℕ) (created_at : ℕ) → EccMsg
sent id created_at = record {
  id = id ∷ [];
  src = me;
  dst = codes "0:b68e";
  created_at = created_at;
  value_other = record { currency = 1; value = codes "1000" } ∷ [];
}

-- A message that moves another currency.
abbrev other : EccMsg
other = record {
  id = 9 ∷ [];
  src = me;
  dst = me;
  created_at = 5;
  value_other = record { currency = 2; value = codes "1" } ∷ [];
}

-- Two pages: the newest has a message of another currency only.
abbrev page : ℕ → List EccMsg
page zero = other ∷ []
page (suc _) = sent 1 10 ∷ sent 2 20 ∷ []

abbrev cursor : ℕ → Option Bytes
cursor zero = none
cursor (suc zero) = some (codes "x")
cursor (suc (suc _)) = some (codes "y")

abbrev info : Option Bytes → (more : ℕ) → GqlPageInfo
info start more = record { start_cursor = start; has_previous_page = ltb 0 more }

abbrev answer : Option Bytes → GqlMessages
answer none = record { edges = page 0; page_info = info (some (codes "x")) 1 }
answer (some _) = record { edges = page 1; page_info = info (some (codes "y")) 0 }

abbrev client : Client Variables ℕ
client = record {
  query = λ v. ok v;
  parse_messages = λ v. ok (answer v.before);
  parse_events = λ v. ok (record { edges = []; page_info = info none 0 });
  mobile_verifiers_dapp_id = [];
  decode_reward = λ node. some 86799;
}

abbrev one_page_of : EccMsg → Client Variables ℕ
one_page_of m = record client {
  parse_messages = λ v. ok (record { edges = m ∷ []; page_info = info (some (codes "z")) 0 });
}

abbrev archived : Archive Variables ℕ
archived = record {
  client = one_page_of (sent 3 3);
  ecc_ms = λ size c. 40;
  mining_ms = λ size c. 40;
}

abbrev archived_page : ℕ → List EccMsg
archived_page n = sent 3 3 ∷ []

abbrev archived_cursor : ℕ → Option Bytes
archived_cursor zero = none
archived_cursor (suc _) = some (codes "z")

served : Served client me 1 20 2 page cursor
unfolding execute_gql_query
served zero h = refl
served (suc zero) h = refl
served (suc (suc n)) h = absurd (omega arith)

served_archive : Served (one_page_of (sent 3 3)) me 1 20 1 archived_page archived_cursor
unfolding execute_gql_query
served_archive zero h = refl
served_archive (suc n) h = absurd (omega arith)

plain : PlainCursors client archived me 1 20
unfolding execute_gql_query decode_cursor
plain none page e =
    ap (λ p. decode_cursor p.1.start_cursor) (sym (ok-injective e))
    ∙ ap (λ p. hot p.1.start_cursor) (ok-injective e)
plain (some c) page e =
    ap (λ p. decode_cursor p.1.start_cursor) (sym (ok-injective e))
    ∙ ap (λ p. hot p.1.start_cursor) (ok-injective e)

named : NamedCursors client archived me 1 20
unfolding execute_gql_query
named c page e = subst (λ p. p.1.start_cursor ≢ some []) (ok-injective e) (λ h. cc)

multifactor_page-Follows_example :
    Follows
      (multifactor_page client (some archived) 1 20 me)
      none
      (messages 1 page 0 2 ++ messages 1 archived_page 0 1)
unfolding archive_ecc archive_has_data fetch_ecc_with_auto_pagination pages_from execute_gql_query
    has_currency
multifactor_page-Follows_example =
    multifactor_page-Follows client archived me 1 20 2 page cursor 1 archived_page archived_cursor
      served served_archive (omega arith, refl) (omega arith, refl) (plain, named, λ c. refl) refl

fetch_ecc_with_auto_pagination-FetchEnds_example :
    FetchEnds client me 1 20 max_auto_fetch_pages none
      (fetch_ecc_with_auto_pagination client me 1 20 none)
fetch_ecc_with_auto_pagination-FetchEnds_example =
    fetch_ecc_with_auto_pagination-FetchEnds client me 1 20 none

-- A server that is down.
abbrev down : Client Variables ℕ
down = record client { query = λ v. err 503 }

down_run : multifactor_page down (some archived) 1 20 me none ≡ err (query_failed 503)
unfolding multifactor_page stream_page decode_cursor fetch_ecc_with_auto_pagination pages_from
    execute_gql_query
down_run = refl

multifactor_page-err_example :
    (c : Option Bytes) × (decode_cursor none ≡ hot c)
    × (fetch_ecc_with_auto_pagination down me 1 20 c ≡ err (query_failed 503))
multifactor_page-err_example =
    multifactor_page-err down (some archived) 20 1 me none (query_failed 503) down_run

abbrev net : Network Variables ℕ
net = record {
  client = client;
  arc = none;
  get_popitgame = λ a. none;
  account_name = λ a. some (codes "friend");
}

abbrev listed : List TxData
listed =
    record {
      id = 2 ∷ [];
      tx_type = outgoing;
      created_at = 20;
      value = 1000;
      src_name = some (codes "friend");
    }
    ∷ record {
      id = 1 ∷ [];
      tx_type = outgoing;
      created_at = 10;
      value = 1000;
      src_name = some (codes "friend");
    }
    ∷ []

-- The first message comes twice.
listed_run : transactions net me 1 (sent 1 10 ∷ sent 2 20 ∷ sent 1 10 ∷ []) [] ≡ ok listed
unfolding transactions unseen collect multifactor_tx mining_tx value_of sort_newest insert_newest
    decoded_names name_in src_name counterparties counterparty known_name parse_uint digits_value
    strip_plus
listed_run = refl

transactions-Distinct_example :
    Distinct (tx_ids listed)
    × Newest listed
    × ((k : Bytes)
        → contains (tx_ids listed) k
          ≡ (contains (ids (sent 1 10 ∷ sent 2 20 ∷ sent 1 10 ∷ [])) k || contains (ids []) k))
transactions-Distinct_example =
    transactions-Distinct net me 1 (sent 1 10 ∷ sent 2 20 ∷ sent 1 10 ∷ []) [] listed listed_run

abbrev event : GqlEventNode
event = record { msg_id = 7 ∷ []; created_at = 30; dst = []; body = [] }

collect-reward_messages_example :
    collect (mining_tx {E = ℕ} 1) (reward_messages client me 1 (event ∷ []))
    ≡ ok (reward_txs client (event ∷ []))
collect-reward_messages_example =
    collect-reward_messages client (λ node reward e. ground arith) me 1 (event ∷ [])
