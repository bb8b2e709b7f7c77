-- ===== src/Wallet/Orders/Listing.antt =====
-- bee_wallet/src/services/tokens/sell_orders.rs: `get_my_sell_orders`, from the keys of the events to
-- the page of orders. The getters of the contracts are arguments, each with its retries. The details
-- of a page's orders are read at the same time there; here their results are taken in the order of the
-- keys, so that of several errors the first by key is returned.
pub mod Cursors
pub mod Candidates
pub mod Eligible
pub mod Reading
use bee_engine.Base.{
  ◌%◌, ◌^◌, ℕ, zero, suc, ◌+◌, ◌-◌, min, max, Bool, true, false, not, ◌&&◌, ◌||◌, List, [], ◌∷◌,
  ◌++◌, map, Option, none, some, Result, ok, err, ◌>>=◌, ◌==◌, ltb, leb, if◌then◌else◌, ok_or,
}
use bee_engine.Base.Bytes.{Bytes, bytes_eq}
use bee_engine.Base.Decimal.{parse_uint, to_decimal}
use bee_engine.Base.Lists.{is_empty, length, any, retain, take, drop, last}
use bee_engine.Infra.Retry.{World}
use bee_engine.Wallet.Orders.{
  Key, key_lt, OrdersError, invalid_cursor, retried, valid_denoms, addresses_equal,
  internal_to_external_address, Endpoint, AccumulatorEvent, KitEvent, pick_created, pick_claimed,
  fetch_seller_pairs_with_archive_fallback,
}

unfoldable pub encode_cursor : Key → Bytes
encode_cursor (denom, order_id) = to_decimal denom ++ b':' ∷ to_decimal order_id

-- `splitn(2, ':')`: the parts before and after the first colon.
unfoldable pub split_colon : Bytes → Option (Bytes × Bytes)
split_colon [] = none
split_colon (b ∷ rest) =
    let later = split_colon rest in
    if b == b':'
    then some ([], rest)
    else elim later [ none ↦ none | some (x, y) ↦ some (b ∷ x, y) ]

abbrev pub both {ℓ} : {A B : Type ℓ} → Option A → Option B → Option (A × B)
both (some a) (some b) = some (a, b)
both (some a) none = none
both none b = none

unfoldable pub parse_cursor : Bytes → Option Key
unfolding split_colon
parse_cursor s = elim (split_colon s) [
  | none ↦ none
  | some (d, o) ↦ both (parse_uint 16 d) (parse_uint 64 o)
]

pub record QueueState : Type 0 where
  pub next_id : ℕ
  pub sold_prefix : ℕ

pub record LotDetails : Type 0 where
  pub owner : Bytes
  pub claimed : Bool

pub record SellOrderInfo : Type 0 where
  pub denom : ℕ
  pub order_id : ℕ
  pub sell_order_address : Bytes
  pub claimed : Bool
  pub sold : Bool
  pub position_in_queue : ℕ

pub record GetMySellOrdersResult : Type 0 where
  pub orders : List SellOrderInfo
  pub next_cursor : Option Bytes
  pub has_next_page : Bool

abbrev pub key_eq : Key → Key → Bool
key_eq (d, o) (d', o') = (d == d') && (o == o')

abbrev pub QueueStates : Type 0
QueueStates = List (ℕ × QueueState)

-- `queue_states.get(&denom)`
unfoldable pub queue_state_of : QueueStates → ℕ → Option QueueState
queue_state_of [] denom = none
queue_state_of ((d, qs) ∷ states) denom =
    let later = queue_state_of states denom in if d == denom then some qs else later

-- Whether an order that was created is in the queue still, and not claimed.
unfoldable pub is_candidate : (claimed_pairs : List Key) → QueueStates → Key → Bool
unfolding queue_state_of
is_candidate claimed_pairs states (denom, order_id) =
    not (any (key_eq (denom, order_id)) claimed_pairs) && (elim (queue_state_of states denom) [
      | none ↦ false
      | some qs ↦ not (order_id == 0) && ltb order_id qs.next_id
    ])

-- `candidates.sort()`
unfoldable pub insert_candidate : Key → List Key → List Key
unfolding key_lt
insert_candidate k [] = k ∷ []
insert_candidate k (k' ∷ ks) =
    let rest = insert_candidate k ks in if key_lt k' k then k' ∷ rest else k ∷ k' ∷ ks

unfoldable pub sort_candidates : List Key → List Key
unfolding insert_candidate
sort_candidates [] = []
sort_candidates (k ∷ ks) = insert_candidate k (sort_candidates ks)

-- `&candidates[start..]`, where `start` is the position of the first key above the cursor's.
unfoldable pub above : Key → List Key → List Key
unfolding key_lt
above pair [] = []
above pair (k ∷ ks) = let rest = above pair ks in if key_lt pair k then k ∷ ks else rest

unfoldable pub after_cursor :
    {E : Type 0} → Option Bytes → List Key → Result (OrdersError E) (List Key)
unfolding parse_cursor above
after_cursor none candidates = ok candidates
after_cursor (some c) candidates = do
  pair ← ok_or (parse_cursor c) (invalid_cursor c)
  ok (above pair candidates)

-- The state of one denomination's queue, the address of an order, and the details of a lot.
pub record Getters (E : Type 0) : Type 0 where
  pub get_queue_state : ℕ → World E QueueState
  pub get_sell_order_address : Key → World E Bytes
  pub get_details : Bytes → World E LotDetails

module _ {E : Type 0} (getters : Getters E) where
  unfoldable pub fetch_queue_states : List ℕ → Result (OrdersError E) QueueStates
  fetch_queue_states [] = ok []
  fetch_queue_states (d ∷ ds) = do
    qs ← retried (getters.get_queue_state d)
    states ← fetch_queue_states ds
    ok ((d, qs) ∷ states)

  unfoldable pub order_info : Key → Bytes → LotDetails → QueueState → SellOrderInfo
  order_info (denom, order_id) address details qs =
      let sold = leb order_id qs.sold_prefix in
      record {
        denom = denom;
        order_id = order_id;
        sell_order_address = address;
        claimed = details.claimed;
        sold = sold;
        position_in_queue = if sold then 0 else order_id - qs.sold_prefix;
      }

  -- The task of one key; its queue's state has been fetched.
  unfoldable pub fetch_order :
      (seller : Bytes) → QueueStates → Key → Result (OrdersError E) (Option SellOrderInfo)
  unfolding order_info queue_state_of
  fetch_order seller states key = do
    qs ← ok_or (queue_state_of states key.0) OrdersError.panicked
    address ← retried (getters.get_sell_order_address key)
    details ← retried (getters.get_details address)
    ok (
        if addresses_equal details.owner seller
        then some (order_info key address details qs)
        else none)

  unfoldable pub fetch_orders :
      (seller : Bytes) → QueueStates → List Key → Result (OrdersError E) (List SellOrderInfo)
  unfolding fetch_order
  fetch_orders seller states [] = ok []
  fetch_orders seller states (key ∷ keys) = do
    info ← fetch_order seller states key
    infos ← fetch_orders seller states keys
    ok (elim info [ none ↦ infos | some i ↦ i ∷ infos ])

-- The last steps, on the keys of the page and one more, if there is one.
unfoldable pub listing : (limit pairs : ℕ) → List SellOrderInfo → GetMySellOrdersResult
listing limit pairs results =
    let has_next_page = ltb limit pairs in
    let orders =
      if has_next_page && ltb limit (length results) then take limit results else results in
    record {
      orders = orders;
      next_cursor =
          if has_next_page
          then (elim (last orders) [
            | none ↦ none
            | some o ↦ some (encode_cursor (o.denom, o.order_id))
          ])
          else none;
      has_next_page = has_next_page;
    }

pub record Market (E : Type 0) : Type 0 where
  pub hot : Endpoint E
  pub archive : Option (Endpoint E)
  pub from_event : KitEvent → Option AccumulatorEvent
  pub created_legacy_dst : Bytes
  pub claimed_legacy_dst : Bytes
  pub getters : Getters E
  pub usize_bits : ℕ

module _ {E : Type 0} (market : Market E) (seller : Bytes) where
  -- A page of the candidates. `limit + 1` is a usize, which has 32 bits in the browser and wraps in a
  -- release build.
  unfoldable pub candidates_page :
      QueueStates
      → List Key
      → (page_size : ℕ) → Option Bytes
      → Result (OrdersError E) GetMySellOrdersResult
  unfolding after_cursor fetch_orders listing
  candidates_page states candidates page_size cursor = do
    rest ← after_cursor cursor candidates
    let limit = max page_size 1
    let page_pairs = take (min (length rest) ((limit + 1) % 2 ^ market.usize_bits)) rest
    results ← fetch_orders market.getters seller states page_pairs
    ok (listing limit (length page_pairs) results)

  unfoldable pub get_my_sell_orders :
      (page_size : ℕ) → Option Bytes → Result (OrdersError E) GetMySellOrdersResult
  unfolding candidates_page fetch_queue_states is_candidate sort_candidates
  get_my_sell_orders page_size cursor = do
    created_pairs ←
        fetch_seller_pairs_with_archive_fallback market.from_event seller pick_created market.hot
          market.archive (internal_to_external_address seller) market.created_legacy_dst
    claimed_pairs ←
        fetch_seller_pairs_with_archive_fallback market.from_event seller pick_claimed market.hot
          market.archive market.claimed_legacy_dst market.claimed_legacy_dst
    states ← fetch_queue_states market.getters valid_denoms
    let candidates = sort_candidates (retain (is_candidate claimed_pairs states) created_pairs)
    candidates_page states candidates page_size cursor
