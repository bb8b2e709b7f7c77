-- ===== src/Tests/Orders.antt =====
-- The theorems of the sell orders at a concrete market.
use bee_engine.Base.{
  ℕ, ◌≡◌, ◌↔◌, true, refl, false, List, [], ◌∷◌, map, Option, none, some, ok, err, ltb, arith, ◌-◌,
  if◌then◌else◌,
}
use bee_engine.Base.Bytes.{Bytes}
use bee_engine.Base.Text.{codes, trim, trim_start, trim_end}
use bee_engine.Connect.Messages.{lower}
use bee_engine.Infra.Retry.{World, with_retry_policy, attempts_from, gives_up, backoff_delay}
use bee_engine.Wallet.Orders.{
  Key, EventEdge, key_lt, insert_key, Endpoint, KitEvent, AccumulatorEvent, sell_order_created,
  retried, pick_created, fetch_seller_pairs_with_archive_fallback, fetch_seller_pairs_on_endpoint,
  fetch_events_one_endpoint, events_from, page_events, next_before, decode_and_filter, filter_onto,
  insert_picked, addresses_equal, pick_claimed, internal_to_external_address, after_colon,
}
use bee_engine.Wallet.Orders.Listing.{
  Getters, Market, QueueStates, SellOrderInfo, fetch_order, candidates_page, queue_state_of,
  order_info, sort_candidates, is_candidate, GetMySellOrdersResult, get_my_sell_orders,
  fetch_queue_states, fetch_orders, listing, after_cursor, insert_candidate, encode_cursor,
}
use bee_engine.Wallet.Orders.Listing.Cursors.{Ascending}
use bee_engine.Wallet.Orders.Listing.Eligible.{Among, Eligible, get_my_sell_orders-Eligible}
use bee_engine.Base.Decimal.{decimal, to_decimal}
use bee_engine.Wallet.Orders.Listing.Reading.{OrdersRead, candidates_page-OrdersRead}

abbrev seller : Bytes
seller = codes "0:ab"

-- A call that fails once and then gives the value.
abbrev second_time : {T : Type 0} → T → World ℕ T
second_time value = record {
  op = λ n. if ltb n 2 then err 503 else ok value;
  elapsed_ms = λ n. n;
  jitter_ms = λ n. 0;
}

abbrev getters : Getters ℕ
getters = record {
  get_queue_state = λ d. second_time (record { next_id = 9; sold_prefix = 1 });
  get_sell_order_address = λ key. second_time (key.0 ∷ key.1 ∷ []);
  get_details = λ address. second_time (record { owner = seller; claimed = false });
}

-- An endpoint with one page of events, whose bodies are the keys.
abbrev events : Endpoint ℕ
events dst before = second_time (
    some (record {
      edges = some (edge 10 2 ∷ edge 1 4 ∷ edge 10 2 ∷ []);
      has_previous_page = some false;
    }))
  where
    edge : ℕ → ℕ → EventEdge
    edge d o = record {
      cursor = none;
      node =
          some (record { msg_id = none; dst = none; created_at = none; body = some (d ∷ o ∷ []) });
    }

abbrev decoded : KitEvent → Option AccumulatorEvent
decoded ev = key_of ev.body
  where
    key_of : Bytes → Option AccumulatorEvent
    key_of (d ∷ o ∷ []) = some (sell_order_created seller (d, o))
    key_of _ = none

abbrev market : Market ℕ
market = record {
  hot = events;
  archive = none;
  from_event = decoded;
  created_legacy_dst = [];
  claimed_legacy_dst = [];
  getters = getters;
  usize_bits = 32;
}

abbrev states : QueueStates
states =
    (1, record { next_id = 9; sold_prefix = 1 })
    ∷ (10, record { next_id = 9; sold_prefix = 1 })
    ∷ []

abbrev keys : List Key
keys = (1, 4) ∷ (10, 2) ∷ []

abbrev info : Key → SellOrderInfo
info (d, o) = record {
  denom = d;
  order_id = o;
  sell_order_address = d ∷ o ∷ [];
  claimed = false;
  sold = false;
  position_in_queue = o - 1;
}

ascending : Ascending keys
unfolding key_lt
ascending = ((refl, tt), (tt, tt))

-- Two pages of one order.
candidates_page-OrdersRead_example :
    OrdersRead (candidates_page market seller states keys 1) none (map info keys)
unfolding fetch_order retried with_retry_policy attempts_from gives_up backoff_delay order_info
    queue_state_of addresses_equal lower
candidates_page-OrdersRead_example =
    candidates_page-OrdersRead market seller states info keys 1 (omega arith) ascending (
      (refl, refl, refl, omega arith, omega arith),
      ((refl, refl, refl, omega arith, omega arith), tt),
    )

abbrev first_page : GetMySellOrdersResult
first_page = record {
  orders = info (1, 4) ∷ [];
  next_cursor = some (codes "1:4");
  has_next_page = true;
}

listed : get_my_sell_orders market seller 1 none ≡ ok first_page
unfolding get_my_sell_orders candidates_page fetch_queue_states fetch_orders fetch_order listing
    after_cursor is_candidate sort_candidates insert_candidate encode_cursor to_decimal decimal
    queue_state_of order_info fetch_seller_pairs_with_archive_fallback
    fetch_seller_pairs_on_endpoint fetch_events_one_endpoint events_from retried with_retry_policy
    attempts_from gives_up backoff_delay page_events next_before decode_and_filter filter_onto
    insert_picked insert_key key_lt pick_created pick_claimed addresses_equal trim trim_start
    trim_end lower internal_to_external_address after_colon
listed = refl

get_my_sell_orders-Eligible_example :
    (created claimed candidates : List Key) × (states' : QueueStates)
    × (fetch_seller_pairs_with_archive_fallback decoded seller pick_created events none
          (internal_to_external_address seller)
          []
        ≡ ok created)
    × (fetch_seller_pairs_with_archive_fallback decoded seller pick_claimed events none [] []
        ≡ ok claimed)
    × Ascending candidates
    × ((k : Key) → Among k candidates ↔ Eligible getters created claimed k)
    × (candidates_page market seller states' candidates 1 none ≡ ok first_page)
get_my_sell_orders-Eligible_example =
    get_my_sell_orders-Eligible market seller 1 none first_page listed
