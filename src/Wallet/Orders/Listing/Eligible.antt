-- ===== src/Wallet/Orders/Listing/Eligible.antt =====
-- The candidates that a listing of a seller's orders pages through.
use bee_engine.Base.{
  ℕ, ◌<◌, ◌≡◌, refl, sym, ◌∙◌, subst, ◌↔◌, true, ◌&&◌, List, [], ◌∷◌, Option, some, ok, >>=-eq-ok,
  ok-injective, arith, ◌==◌, Bool-cases, Option-cases, inl, inr,
}
use bee_engine.Base.Bytes.{Bytes}
use bee_engine.Base.Lists.{any, retain}
use bee_engine.Wallet.Orders.{
  Key, valid_denoms, retried, internal_to_external_address, pick_created, pick_claimed,
  fetch_seller_pairs_with_archive_fallback,
}
use bee_engine.Wallet.Orders.Listing.{
  key_eq, QueueState, QueueStates, queue_state_of, is_candidate, sort_candidates, Getters,
  fetch_queue_states, Market, GetMySellOrdersResult, candidates_page, get_my_sell_orders,
}
use bee_engine.Wallet.Orders.Listing.Candidates.{candidates_lem}
use bee_engine.Wallet.Orders.Listing.Cursors.{Ascending}

-- The key stands in the list.
abbrev pub Among : Key → List Key → Type 0
Among k ks = any (key_eq k) ks ≡ true

module _ {E : Type 0} (getters : Getters E) where
  -- What is read as the state of a denomination's queue.
  abbrev pub StateRead : List ℕ → ℕ → QueueState → Type 0
  StateRead denoms d qs =
      (any (λ d'. d' == d) denoms ≡ true) × (retried (getters.get_queue_state d) ≡ ok qs)

  -- An order that was created and not claimed, in the range of its denomination's queue.
  abbrev pub Eligible : (created claimed : List Key) → Key → Type 0
  Eligible created claimed k =
      Among k created
      × ¬ Among k claimed
      × ((qs : QueueState) × StateRead (1 ∷ 10 ∷ 100 ∷ 1000 ∷ []) k.0 qs
          × (0 < k.1)
          × (k.1 < qs.next_id))

  states_read :
      (ds : List ℕ) (states : QueueStates) (d : ℕ) (qs : QueueState)
      → fetch_queue_states getters ds ≡ ok states
      → (queue_state_of states d ≡ some qs) ↔ StateRead ds d qs
  unfolding fetch_queue_states queue_state_of
  states_read [] states d qs h =
      subst (λ ss. (queue_state_of ss d ≡ some qs) ↔ StateRead [] d qs) (ok-injective h)
        (λ e. absurd (cc), λ (bad, _). absurd (cc))
  states_read (d' ∷ ds) states d qs h =
      let (qs', read, h1) = >>=-eq-ok (retried (getters.get_queue_state d')) _ h in
      let (rest, read', h2) = >>=-eq-ok (fetch_queue_states getters ds) _ h1 in
      let made : (d', qs') ∷ rest ≡ states = ok-injective h2 in
      subst (λ ss. (queue_state_of ss d ≡ some qs) ↔ StateRead (d' ∷ ds) d qs) made
        (elim (Bool-cases (d' == d)) [
          | inl same ↦
              let e : d' ≡ d = ground arith in
              let read_here : retried (getters.get_queue_state d) ≡ ok qs' =
                subst (λ x. retried (getters.get_queue_state x) ≡ ok qs') e read in
              rw same (λ x. (refl, cc), λ (_, x). cc)
          | inr other ↦ rw other (states_read ds rest d qs read')
        ])

  is_candidate_iff :
      (created claimed : List Key) (states : QueueStates) (k : Key)
      → fetch_queue_states getters valid_denoms ≡ ok states
      → ((any (key_eq k) created && is_candidate claimed states k) ≡ true)
        ↔ Eligible created claimed k
  unfolding is_candidate
  is_candidate_iff created claimed states (denom, order_id) h =
      elim (Option-cases (queue_state_of states denom)) [
        | inl missing ↦ (
          λ x. absurd (let x' = rw missing at x in ground arith),
          λ (_, _, (qs, read, _, _)).
              let found = (states_read valid_denoms states denom qs h).1 read in absurd (cc),
        )
        | inr (qs, e) ↦ (
          λ x.
              let x' = rw e at x in
              (
                ground arith,
                ground arith,
                (qs, (states_read valid_denoms states denom qs h).0 e, ground arith, ground arith),
              ),
          λ (made, unclaimed, (qs', read, positive, below)).
              let found = (states_read valid_denoms states denom qs' h).1 read in
              rw found (ground arith),
        )
      ]

-- A listing that succeeds reads the keys that were created and those that were claimed, and is a page of
-- candidates, which are in the order of the keys, each once. A key is a candidate exactly if it was
-- created and not claimed, its denomination is 1, 10, 100 or 1000, its order id is not 0, and the id is
-- below the next one in the state that is read of the denomination's queue.
pub get_my_sell_orders-Eligible :
    {E : Type 0} (market : Market E) (seller : Bytes) (page_size : ℕ) (cursor : Option Bytes)
    (r : GetMySellOrdersResult)
    → get_my_sell_orders market seller page_size cursor ≡ ok r
    → (created claimed candidates : List Key) × (states : QueueStates)
      × (fetch_seller_pairs_with_archive_fallback market.from_event seller pick_created market.hot
            market.archive
            (internal_to_external_address seller)
            market.created_legacy_dst
          ≡ ok created)
      × (fetch_seller_pairs_with_archive_fallback market.from_event seller pick_claimed market.hot
            market.archive market.claimed_legacy_dst market.claimed_legacy_dst
          ≡ ok claimed)
      × Ascending candidates
      × ((k : Key) → Among k candidates ↔ Eligible market.getters created claimed k)
      × (candidates_page market seller states candidates page_size cursor ≡ ok r)
unfolding get_my_sell_orders
get_my_sell_orders-Eligible market seller page_size cursor r h =
    let (created, created_eq, h1) =
      >>=-eq-ok
        (fetch_seller_pairs_with_archive_fallback market.from_event seller pick_created market.hot
          market.archive (internal_to_external_address seller) market.created_legacy_dst)
        _ h in
    let (claimed, claimed_eq, h2) =
      >>=-eq-ok
        (fetch_seller_pairs_with_archive_fallback market.from_event seller pick_claimed market.hot
          market.archive market.claimed_legacy_dst market.claimed_legacy_dst)
        _ h1 in
    let (states, states_eq, paged) =
      >>=-eq-ok (fetch_queue_states market.getters valid_denoms) _ h2 in
    let (ascending, member) =
      candidates_lem market.from_event seller pick_created (internal_to_external_address seller)
        market.created_legacy_dst market.hot market.archive created claimed states created_eq in
    (
      created,
      claimed,
      sort_candidates (retain (is_candidate claimed states) created),
      states,
      created_eq,
      claimed_eq,
      ascending,
      λ k.
          let (to, from) = is_candidate_iff market.getters created claimed states k states_eq in
          (λ x. to (sym (member k) ∙ x), λ x. member k ∙ from x),
      paged,
    )
