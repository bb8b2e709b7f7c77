-- ===== src/Wallet/Orders.antt =====
-- bee_wallet/src/services/tokens/sell_orders.rs: the events of a seller's orders, from the recent data
-- or the archive. What an endpoint answers, as far as the code reads it, and what its events decode to
-- are arguments; each query goes through the retries.
pub mod Listing
use bee_engine.Base.{
  ℕ, zero, suc, ◌+◌, ◌-◌, Bool, true, false, not, ◌&&◌, ◌||◌, List, [], ◌∷◌, ◌++◌, map, Option,
  none, some, Result, ok, err, ◌>>=◌, map_err, ◌==◌, ltb, leb, if◌then◌else◌,
}
use bee_engine.Base.Bytes.{Bytes, bytes_eq}
use bee_engine.Base.Text.{trim}
use bee_engine.Base.Lists.{is_empty, find}
use bee_engine.Connect.Messages.{to_ascii_lowercase}
use bee_engine.Infra.Retry.{RetryPolicy, World, Finished, with_retry_policy}

abbrev pub valid_denoms : List ℕ
valid_denoms = 1 ∷ 10 ∷ 100 ∷ 1000 ∷ []

abbrev pub max_event_pages : ℕ
max_event_pages = 50

abbrev pub sell_orders_retry_policy : RetryPolicy
sell_orders_retry_policy = record {
  max_attempts = 3;
  max_total = none;
  base_delay = 300;
  max_delay = 600;
  jitter = true;
}

pub data OrdersError (E : Type 0) : Type 0 where
  network : E → OrdersError E
  invalid_cursor : Bytes → OrdersError E
  panicked : OrdersError E

abbrev pub finished : {E T : Type 0} → Option (Finished E T) → Result (OrdersError E) T
finished none = err panicked
finished (some f) = map_err network f.result

-- A call that is tried again on any error.
unfoldable pub retried : {E T : Type 0} → World E T → Result (OrdersError E) T
retried w = finished (with_retry_policy sell_orders_retry_policy (λ e. true) w)

unfoldable pub addresses_equal : Bytes → Bytes → Bool
unfolding trim to_ascii_lowercase
addresses_equal a b = bytes_eq (to_ascii_lowercase (trim a)) (to_ascii_lowercase (trim b))

-- The text behind the first colon.
unfoldable pub after_colon : Bytes → Option Bytes
after_colon [] = none
after_colon (b ∷ rest) = let later = after_colon rest in if b == b':' then some rest else later

unfoldable pub internal_to_external_address : Bytes → Bytes
unfolding after_colon
internal_to_external_address addr = elim (after_colon addr) [
  | some rest ↦ b':' ∷ rest
  | none ↦ b':' ∷ addr
]

pub record KitEvent : Type 0 where
  pub id : Bytes
  pub dst : Bytes
  pub created_at : ℕ
  pub body : Bytes

pub record EventNode : Type 0 where
  pub msg_id : Option Bytes
  pub dst : Option Bytes
  pub created_at : Option ℕ
  pub body : Option Bytes

pub record EventEdge : Type 0 where
  pub cursor : Option Bytes
  pub node : Option EventNode

pub record EventsField : Type 0 where
  pub edges : Option (List EventEdge)
  pub has_previous_page : Option Bool

abbrev pub unwrap_or {ℓ} : {A : Type ℓ} → A → Option A → A
unwrap_or other none = other
unwrap_or other (some a) = a

-- The first cursor that an edge has.
unfoldable pub next_before : List EventEdge → Option Bytes
next_before [] = none
next_before (edge ∷ edges) = elim edge.cursor [ some c ↦ some c | none ↦ next_before edges ]

unfoldable pub page_events : List EventEdge → List KitEvent
page_events [] = []
page_events (edge ∷ edges) =
    let rest = page_events edges in
    elim edge.node [
      | none ↦ rest
      | some node ↦
          record {
            id = unwrap_or [] node.msg_id;
            dst = unwrap_or [] node.dst;
            created_at = unwrap_or 0 node.created_at;
            body = unwrap_or [] node.body;
          }
          ∷ rest
    ]

-- The answers to the query by destination and cursor: none where the field of events is missing or
-- null.
abbrev pub Endpoint : Type 0 → Type 0
Endpoint E = (dst : Bytes) (before : Option Bytes) → World E (Option EventsField)

module _ {E : Type 0} (endpoint : Endpoint E) (dst : Bytes) where
  -- The iterations that are left of the loop.
  unfoldable pub events_from :
      (left : ℕ) (before : Option Bytes) (all' : List KitEvent)
      → Result (OrdersError E) (List KitEvent)
  unfolding retried next_before page_events
  events_from zero before all' = ok all'
  events_from (suc left) before all' = retried (endpoint dst before) >>= λ field. elim field [
    | none ↦ ok all'
    | some events ↦
        let edges = unwrap_or [] events.edges in
        let extended = all' ++ page_events edges in
        let has_prev = unwrap_or false events.has_previous_page in
        let before' = next_before edges in
        let rest = events_from left before' extended in
        if is_empty edges
        then ok all'
        else (if not has_prev
            then ok extended
            else elim before' [ some c ↦ rest | none ↦ ok extended ])
  ]

  unfoldable pub fetch_events_one_endpoint : Result (OrdersError E) (List KitEvent)
  unfolding events_from
  fetch_events_one_endpoint = events_from max_event_pages none []

-- An order's denomination and its number among the orders of that.
abbrev pub Key : Type 0
Key = ℕ × ℕ

unfoldable pub key_lt : Key → Key → Bool
key_lt (d, o) (d', o') = ltb d d' || ((d == d') && ltb o o')

-- `BTreeSet::insert`, on the set's keys in their order.
unfoldable pub insert_key : Key → List Key → List Key
unfolding key_lt
insert_key k [] = k ∷ []
insert_key k (k' ∷ ks) =
    let rest = insert_key k ks in
    if key_lt k k' then k ∷ k' ∷ ks else (if key_lt k' k then k' ∷ rest else k' ∷ ks)

-- What an event of the accumulator decodes to, with the seller and the key of an order.
pub data AccumulatorEvent : Type 0 where
  sell_order_created usdc_claimed : (seller : Bytes) → Key → AccumulatorEvent
  other_event : AccumulatorEvent

-- The key that the two pickers of get_my_sell_orders take from an event.
unfoldable pub pick_created : AccumulatorEvent → Bytes → Option Key
unfolding addresses_equal
pick_created (sell_order_created seller key) who =
    if addresses_equal seller who then some key else none
pick_created (usdc_claimed _ _) who = none
pick_created other_event who = none

unfoldable pub pick_claimed : AccumulatorEvent → Bytes → Option Key
unfolding addresses_equal
pick_claimed (usdc_claimed seller key) who = if addresses_equal seller who then some key else none
pick_claimed (sell_order_created _ _) who = none
pick_claimed other_event who = none

module _ (from_event : KitEvent → Option AccumulatorEvent) (seller : Bytes)
    (pick : AccumulatorEvent → Bytes → Option Key) where
  abbrev pub picked : KitEvent → Option Key
  picked ev = elim (from_event ev) [ none ↦ none | some decoded ↦ pick decoded seller ]

  unfoldable pub insert_picked : Option Key → List Key → List Key
  unfolding insert_key
  insert_picked none out = out
  insert_picked (some key) out = insert_key key out

  -- The loop, with the set that it fills.
  unfoldable pub filter_onto : (out : List Key) → List KitEvent → List Key
  unfolding insert_picked
  filter_onto out [] = out
  filter_onto out (ev ∷ evs) = filter_onto (insert_picked (picked ev) out) evs

  unfoldable pub decode_and_filter : List KitEvent → List Key
  unfolding filter_onto
  decode_and_filter evs = filter_onto [] evs

  module _ {E : Type 0} where
    unfoldable pub fetch_seller_pairs_on_endpoint :
        Endpoint E → (primary_dst legacy_dst : Bytes) → Result (OrdersError E) (List Key)
    unfolding fetch_events_one_endpoint decode_and_filter
    fetch_seller_pairs_on_endpoint endpoint primary_dst legacy_dst =
        let legacy =
          fetch_events_one_endpoint endpoint legacy_dst >>= λ evs. ok (decode_and_filter evs) in
        if bytes_eq primary_dst legacy_dst
        then legacy
        else (fetch_events_one_endpoint endpoint primary_dst >>= λ evs.
            if is_empty (decode_and_filter evs) then legacy else ok (decode_and_filter evs))

    unfoldable pub fetch_seller_pairs_with_archive_fallback :
        (hot : Endpoint E) (archive : Option (Endpoint E)) (primary_dst legacy_dst : Bytes)
        → Result (OrdersError E) (List Key)
    unfolding fetch_seller_pairs_on_endpoint
    fetch_seller_pairs_with_archive_fallback hot archive primary_dst legacy_dst =
        fetch_seller_pairs_on_endpoint hot primary_dst legacy_dst >>= λ hot_pairs.
        if not (is_empty hot_pairs) then ok hot_pairs else elim archive [
          | some arc ↦ fetch_seller_pairs_on_endpoint arc primary_dst legacy_dst
          | none ↦ ok hot_pairs
        ]
