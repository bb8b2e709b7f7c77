-- ===== src/Wallet/Orders/Listing/Candidates.antt =====
-- The keys that the events give, and those of them that are listed.
use bee_engine.Base.{
  ◌≡◌, refl, sym, ap, ap₂, ◌∙◌, subst, Bool, true, false, ◌&&◌, List, [], ◌∷◌, Option, none, some,
  Result, ok, ◌>>=◌, >>=-eq-ok, ok-injective, arith, inl, inr, Bool-cases, Option-cases,
}
use bee_engine.Base.Bytes.{Bytes, bytes_eq}
use bee_engine.Base.Lists.{All, All-map, any, retain, is_empty}
use bee_engine.Wallet.Orders.{
  Key, key_lt, insert_key, OrdersError, KitEvent, AccumulatorEvent, Endpoint, insert_picked, picked,
  filter_onto, decode_and_filter, fetch_events_one_endpoint, fetch_seller_pairs_on_endpoint,
  fetch_seller_pairs_with_archive_fallback,
}
use bee_engine.Wallet.Orders.Listing.{
  key_eq, insert_candidate, sort_candidates, QueueStates, is_candidate,
}
use bee_engine.Wallet.Orders.Listing.Cursors.{Ascending, key_lt_asymm}

abbrev Below : Key → Key → Type 0
Below k k' = key_lt k k' ≡ true

key_lt_trans : (a b c : Key) → Below a b → Below b c → Below a c
unfolding key_lt
key_lt_trans (a, x) (b, y) (c, z) h h' = ground arith

key_lt_total : (a b : Key) → key_lt a b ≡ false → key_lt b a ≡ false → key_eq a b ≡ true
unfolding key_lt
key_lt_total (a, x) (b, y) h h' = ground arith

All-insert_key :
    (P : Key → Type 0) (k : Key) (ks : List Key) → P k → All P ks → All P (insert_key k ks)
unfolding insert_key
All-insert_key P k [] h hs = (h, tt)
All-insert_key P k (k' ∷ ks) h (h', hs) = elim (Bool-cases (key_lt k k')) [
  | inl lt ↦ rw lt (h, (h', hs))
  | inr ge ↦ elim (Bool-cases (key_lt k' k)) [
    | inl gt ↦ rw (ge, gt) (h', All-insert_key P k ks h hs)
    | inr same ↦ rw (ge, same) (h', hs)
  ]
]

insert_key-Ascending : (k : Key) (ks : List Key) → Ascending ks → Ascending (insert_key k ks)
unfolding insert_key
insert_key-Ascending k [] a = (tt, tt)
insert_key-Ascending k (k' ∷ ks) (below, a) = elim (Bool-cases (key_lt k k')) [
  | inl lt ↦ rw lt ((lt, All-map (λ c h. key_lt_trans k k' c lt h) ks below), (below, a))
  | inr ge ↦ elim (Bool-cases (key_lt k' k)) [
    | inl gt ↦ rw (ge, gt) (All-insert_key (Below k') k ks gt below, insert_key-Ascending k ks a)
    | inr same ↦ rw (ge, same) (below, a)
  ]
]

All-retain : (P : Key → Type 0) (p : Key → Bool) (ks : List Key) → All P ks → All P (retain p ks)
All-retain P p [] h = tt
All-retain P p (k ∷ ks) (h, hs) = elim (Bool-cases (p k)) [
  | inl kept ↦ rw (kept, retain) (h, All-retain P p ks hs)
  | inr dropped ↦ rw (dropped, retain) (All-retain P p ks hs)
]

retain-Ascending : (p : Key → Bool) (ks : List Key) → Ascending ks → Ascending (retain p ks)
retain-Ascending p [] a = tt
retain-Ascending p (k ∷ ks) (below, a) = elim (Bool-cases (p k)) [
  | inl kept ↦ rw (kept, retain) (All-retain (Below k) p ks below, retain-Ascending p ks a)
  | inr dropped ↦ rw (dropped, retain) (retain-Ascending p ks a)
]

in_front : (k : Key) (ks : List Key) → All (Below k) ks → insert_candidate k ks ≡ k ∷ ks
unfolding insert_candidate
in_front k [] below = refl
in_front k (k' ∷ ks) (lt, below) = rw (key_lt_asymm k k' lt) refl

-- A list in the order is sorted already.
sort_candidates-Ascending : (ks : List Key) → Ascending ks → sort_candidates ks ≡ ks
unfolding sort_candidates
sort_candidates-Ascending [] a = refl
sort_candidates-Ascending (k ∷ ks) (below, a) =
    ap (insert_candidate k) (sort_candidates-Ascending ks a) ∙ in_front k ks below

key_eq_eq : (k k' : Key) → key_eq k k' ≡ true → k' ≡ k
key_eq_eq (a, x) (b, y) h =
    let e : b ≡ a = ground arith in let e' : y ≡ x = ground arith in ap₂ (λ u v. (u, v)) e e'

any-retain :
    (k : Key) (p : Key → Bool) (ks : List Key)
    → any (key_eq k) (retain p ks) ≡ (any (key_eq k) ks && p k)
any-retain k p [] = refl
any-retain k p (k' ∷ ks) =
    let same : key_eq k k' ≡ true → p k' ≡ p k = λ q. ap p (key_eq_eq k k' q) in
    elim (Bool-cases (p k')) [
      | inl kept ↦ rw (kept, retain) (ground (arith, any-retain k p ks, same))
      | inr dropped ↦ rw (dropped, retain) (ground (arith, any-retain k p ks, same))
    ]

module _ (from_event : KitEvent → Option AccumulatorEvent) (seller : Bytes)
    (pick : AccumulatorEvent → Bytes → Option Key) where
  insert_picked-Ascending :
      (key : Option Key) (out : List Key)
      → Ascending out
      → Ascending (insert_picked from_event seller pick key out)
  unfolding insert_picked
  insert_picked-Ascending none out a = a
  insert_picked-Ascending (some key) out a = insert_key-Ascending key out a

  filter_onto-Ascending :
      (evs : List KitEvent) (out : List Key)
      → Ascending out
      → Ascending (filter_onto from_event seller pick out evs)
  unfolding filter_onto
  filter_onto-Ascending [] out a = a
  filter_onto-Ascending (ev ∷ evs) out a =
      filter_onto-Ascending evs _ (insert_picked-Ascending (picked from_event seller pick ev) out a)

  module _ {E : Type 0} (primary legacy : Bytes) where
    decoded-Ascending :
        (evs : Result (OrdersError E) (List KitEvent)) (pairs : List Key)
        → (evs >>= λ es. ok (decode_and_filter from_event seller pick es)) ≡ ok pairs
        → Ascending pairs
    unfolding decode_and_filter
    decoded-Ascending evs pairs h =
        let (es, _, h') = >>=-eq-ok evs _ h in
        subst Ascending (ok-injective h') (filter_onto-Ascending es [] tt)

    endpoint-Ascending :
        (endpoint : Endpoint E) (pairs : List Key)
        → fetch_seller_pairs_on_endpoint from_event seller pick endpoint primary legacy ≡ ok pairs
        → Ascending pairs
    unfolding fetch_seller_pairs_on_endpoint decode_and_filter
    endpoint-Ascending endpoint pairs h = elim (Bool-cases (bytes_eq primary legacy)) [
      | inl same ↦
          decoded-Ascending (fetch_events_one_endpoint endpoint legacy) pairs (rw same at h)
      | inr differ ↦
          let h1 = rw differ at h in
          let (es, _, h2) = >>=-eq-ok (fetch_events_one_endpoint endpoint primary) _ h1 in
          elim (Bool-cases (is_empty (decode_and_filter from_event seller pick es))) [
            | inl none_here ↦
                decoded-Ascending (fetch_events_one_endpoint endpoint legacy) pairs
                  (rw none_here at h2)
            | inr some_here ↦
                subst Ascending (ok-injective (rw some_here at h2)) (filter_onto-Ascending es [] tt)
          ]
    ]

    fetched-Ascending :
        (hot : Endpoint E) (archive : Option (Endpoint E)) (pairs : List Key)
        → fetch_seller_pairs_with_archive_fallback from_event seller pick hot archive primary legacy
          ≡ ok pairs
        → Ascending pairs
    unfolding fetch_seller_pairs_with_archive_fallback
    fetched-Ascending hot archive pairs h =
        let (hot_pairs, e, h1) =
          >>=-eq-ok (fetch_seller_pairs_on_endpoint from_event seller pick hot primary legacy) _
            h in
        elim (Bool-cases (is_empty hot_pairs)) [
          | inr found ↦
              subst Ascending (ok-injective (rw found at h1)) (endpoint-Ascending hot hot_pairs e)
          | inl nothing ↦ elim (Option-cases archive) [
            | inl alone ↦
                subst Ascending (ok-injective (rw (nothing, alone) at h1))
                  (endpoint-Ascending hot hot_pairs e)
            | inr (arc, with') ↦ endpoint-Ascending arc pairs (rw (nothing, with') at h1)
          ]
        ]

    -- Of the keys that the events of a seller give, those are listed that no claim names and that are
    -- in their queue, and no others, each once and in the order of the keys.
    pub candidates_lem :
        (hot : Endpoint E) (archive : Option (Endpoint E)) (created claimed : List Key)
        (states : QueueStates)
        → fetch_seller_pairs_with_archive_fallback from_event seller pick hot archive primary legacy
          ≡ ok created
        → Ascending (sort_candidates (retain (is_candidate claimed states) created))
          × ((k : Key)
              → any (key_eq k) (sort_candidates (retain (is_candidate claimed states) created))
                ≡ (any (key_eq k) created && is_candidate claimed states k))
    candidates_lem hot archive created claimed states h =
        let p = is_candidate claimed states in
        let a = retain-Ascending p created (fetched-Ascending hot archive created h) in
        let e = sort_candidates-Ascending (retain p created) a in
        (subst Ascending (sym e) a, λ k. ap (any (key_eq k)) e ∙ any-retain k p created)
