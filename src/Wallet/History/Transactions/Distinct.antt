-- ===== src/Wallet/History/Transactions/Distinct.antt =====
-- What a page of a history lists: each message once, the newest first.
use bee_engine.Base.{
  ℕ, ◌≤◌, ◌≡◌, refl, sym, ap, ap₂, ◌∙◌, subst, true, false, ◌||◌, List, [], ◌∷◌, ◌++◌, map, Result,
  ok, >>=-eq-ok, ok-injective, inl, inr, Bool-cases, leb, arith,
}
use bee_engine.Base.Bytes.{Bytes, bytes_eq, bytes_eq_iff, bytes_eq_refl}
use bee_engine.Wallet.History.{EccMsg}
use bee_engine.Wallet.History.Transactions.{
  TxData, Network, contains, unseen, collect, insert_newest, sort_newest, transactions,
  multifactor_tx, mining_tx, value_of, decoded_names, counterparties,
}

abbrev pub Distinct : List Bytes → Type 0
Distinct [] = Unit
Distinct (k ∷ ks) = (contains ks k ≡ false) × Distinct ks

abbrev pub ids : List EccMsg → List Bytes
ids ms = map (λ m. m.id) ms

abbrev pub tx_ids : List TxData → List Bytes
tx_ids txs = map (λ tx. tx.id) txs

-- Later transactions are not newer.
abbrev pub Newest : List TxData → Type 0
Newest [] = Unit
Newest (tx ∷ []) = Unit
Newest (tx ∷ other ∷ txs) = (other.created_at ≤ tx.created_at) × Newest (other ∷ txs)

contains-append :
    (xs ys : List Bytes) (k : Bytes) → contains (xs ++ ys) k ≡ (contains xs k || contains ys k)
contains-append [] ys k = refl
contains-append (x ∷ xs) ys k = ground (arith, contains-append xs ys k)

append-Distinct :
    (xs ys : List Bytes)
    → Distinct xs
    → Distinct ys
    → ((k : Bytes) → contains ys k ≡ true → contains xs k ≡ false)
    → Distinct (xs ++ ys)
append-Distinct [] ys dx dy apart = dy
append-Distinct (x ∷ xs) ys (fresh, dx) dy apart = (
  ground (arith, contains-append xs ys x, apart x, bytes_eq_refl x),
  append-Distinct xs ys dx dy (λ k h. ground (arith, apart k h)),
)

contains-same :
    (seen : List Bytes) (a k : Bytes) → bytes_eq a k ≡ true → contains seen k ≡ contains seen a
contains-same seen a k same = ap (contains seen) (sym ((bytes_eq_iff a k).0 same))

-- What is kept of messages is distinct and was not seen; and all are seen afterwards.
Kept : (seen : List Bytes) (ms : List EccMsg) (out : List EccMsg × List Bytes) → Type 0
Kept seen ms (kept, after) =
    Distinct (ids kept)
    × ((k : Bytes) → contains (ids kept) k ≡ true → contains seen k ≡ false)
    × ((k : Bytes) → contains after k ≡ (contains (ids kept) k || contains seen k))
    × ((k : Bytes) → contains after k ≡ (contains (ids ms) k || contains seen k))

unseen-old :
    (seen : List Bytes) (m : EccMsg) (ms : List EccMsg)
    → contains seen m.id ≡ true
    → unseen seen (m ∷ ms) ≡ unseen seen ms
unfolding unseen
unseen-old seen m ms old = rw (old, unseen) refl

unseen-new :
    (seen : List Bytes) (m : EccMsg) (ms : List EccMsg)
    → contains seen m.id ≡ false
    → unseen seen (m ∷ ms) ≡ (m ∷ (unseen (m.id ∷ seen) ms).0, (unseen (m.id ∷ seen) ms).1)
unfolding unseen
unseen-new seen m ms new = rw (new, unseen) refl

unseen-Kept : (seen : List Bytes) (ms : List EccMsg) → Kept seen ms (unseen seen ms)
unfolding unseen Kept
unseen-Kept seen [] = (tt, λ k h. absurd (cc), λ k. refl, λ k. refl)
unseen-Kept seen (m ∷ ms) = elim (Bool-cases (contains seen m.id)) [
  | inl old ↦
      let (d, apart, after, total) = unseen-Kept seen ms in
      subst (Kept seen (m ∷ ms)) (sym (unseen-old seen m ms old))
        (d, apart, after, λ k. ground (arith, total k, contains-same seen m.id k))
  | inr new ↦
      let (d, apart, after, total) = unseen-Kept (m.id ∷ seen) ms in
      subst (Kept seen (m ∷ ms)) (sym (unseen-new seen m ms new)) (
        (ground (arith, apart m.id, bytes_eq_refl m.id), d),
        λ k h. ground (arith, apart k, contains-same seen m.id k),
        λ k. ground (arith, after k),
        λ k. ground (arith, total k),
      )
]

contains-insert_newest :
    (tx : TxData) (txs : List TxData) (k : Bytes)
    → contains (tx_ids (insert_newest tx txs)) k ≡ (bytes_eq tx.id k || contains (tx_ids txs) k)
unfolding insert_newest
contains-insert_newest tx [] k = refl
contains-insert_newest tx (other ∷ txs) k = ground (arith, contains-insert_newest tx txs k)

contains-sort_newest :
    (txs : List TxData) (k : Bytes)
    → contains (tx_ids (sort_newest txs)) k ≡ contains (tx_ids txs) k
unfolding sort_newest
contains-sort_newest [] k = refl
contains-sort_newest (tx ∷ txs) k =
    contains-insert_newest tx (sort_newest txs) k
    ∙ ap (λ b. bytes_eq tx.id k || b) (contains-sort_newest txs k)

insert_newest-Distinct :
    (tx : TxData) (txs : List TxData)
    → contains (tx_ids txs) tx.id ≡ false
    → Distinct (tx_ids txs)
    → Distinct (tx_ids (insert_newest tx txs))
unfolding insert_newest
insert_newest-Distinct tx [] fresh d = (refl, tt)
insert_newest-Distinct tx (other ∷ txs) fresh (fresh', d) =
    elim (Bool-cases (leb other.created_at tx.created_at)) [
      | inl newer ↦ rw newer (fresh, (fresh', d))
      | inr older ↦ rw older (
        ground (
          arith,
          contains-insert_newest tx txs other.id,
          bytes_eq_iff tx.id other.id,
          bytes_eq_iff other.id tx.id,
        ),
        insert_newest-Distinct tx txs (ground arith) d,
      )
    ]

sort_newest-Distinct :
    (txs : List TxData) → Distinct (tx_ids txs) → Distinct (tx_ids (sort_newest txs))
unfolding sort_newest
sort_newest-Distinct [] d = tt
sort_newest-Distinct (tx ∷ txs) (fresh, d) =
    insert_newest-Distinct tx (sort_newest txs) (contains-sort_newest txs tx.id ∙ fresh)
      (sort_newest-Distinct txs d)

insert_newest-Newest :
    (tx : TxData) (txs : List TxData) → Newest txs → Newest (insert_newest tx txs)
unfolding insert_newest
insert_newest-Newest tx [] h = tt
insert_newest-Newest tx (other ∷ []) h = ground arith
insert_newest-Newest tx (other ∷ next ∷ txs) (le, h) =
    ground (arith, insert_newest-Newest tx (next ∷ txs) h)

sort_newest-Newest : (txs : List TxData) → Newest (sort_newest txs)
unfolding sort_newest
sort_newest-Newest [] = tt
sort_newest-Newest (tx ∷ txs) = insert_newest-Newest tx (sort_newest txs) (sort_newest-Newest txs)

-- A collected list has the ids of what it is collected from, if each item has.
collect-ids :
    {X : Type 0} (f : EccMsg → Result X TxData)
    → ((m : EccMsg) (tx : TxData) → f m ≡ ok tx → tx.id ≡ m.id)
    → (ms : List EccMsg) (txs : List TxData) → collect f ms ≡ ok txs
    → tx_ids txs ≡ ids ms
unfolding collect
collect-ids f same [] txs h = ap tx_ids (sym (ok-injective h))
collect-ids f same (m ∷ ms) txs h =
    let (tx, e, h') = >>=-eq-ok (f m) _ h in
    let (rest, e', h'') = >>=-eq-ok (collect f ms) _ h' in
    ap tx_ids (sym (ok-injective h'')) ∙ ap₂ ◌∷◌ (same m tx e) (collect-ids f same ms rest e')

multifactor_tx-id :
    {E : Type 0} (names : List (Bytes × Bytes)) (address : Bytes) (currency_id : ℕ) (m : EccMsg)
    (tx : TxData)
    → multifactor_tx {E = E} address currency_id names m ≡ ok tx
    → tx.id ≡ m.id
unfolding multifactor_tx
multifactor_tx-id names address currency_id m tx h =
    let (value, e, h') = >>=-eq-ok (value_of currency_id m) _ h in
    elim (Bool-cases (bytes_eq m.src address)) [
      | inl out ↦ ap (λ t. t.id) (sym (ok-injective (rw out at h')))
      | inr other ↦ elim (Bool-cases (bytes_eq m.dst address)) [
        | inl here ↦ ap (λ t. t.id) (sym (ok-injective (rw (other, here) at h')))
        | inr unknown ↦ let bad = rw (other, unknown) at h' in absurd (cc)
      ]
    ]

mining_tx-id :
    {E : Type 0} (currency_id : ℕ) (m : EccMsg) (tx : TxData)
    → mining_tx {E = E} currency_id m ≡ ok tx
    → tx.id ≡ m.id
unfolding mining_tx
mining_tx-id currency_id m tx h =
    let (value, e, h') = >>=-eq-ok (value_of currency_id m) _ h in
    ap (λ t. t.id) (sym (ok-injective h'))

tx_ids-append : (xs ys : List TxData) → tx_ids (xs ++ ys) ≡ tx_ids xs ++ tx_ids ys
tx_ids-append [] ys = refl
tx_ids-append (x ∷ xs) ys = ap (◌∷◌ x.id) (tx_ids-append xs ys)

-- The transactions of a page of each stream have distinct ids, which are those of the messages of
-- both pages and no others, and they stand with the newest first.
pub transactions-Distinct :
    {Json E : Type 0} (net : Network Json E) (address : Bytes) (currency_id : ℕ)
    (mf_msgs pg_msgs : List EccMsg) (txs : List TxData)
    → transactions net address currency_id mf_msgs pg_msgs ≡ ok txs
    → Distinct (tx_ids txs)
      × Newest txs
      × ((k : Bytes)
          → contains (tx_ids txs) k ≡ (contains (ids mf_msgs) k || contains (ids pg_msgs) k))
unfolding transactions Kept
transactions-Distinct net address currency_id mf_msgs pg_msgs txs h =
    let mf = unseen [] mf_msgs in
    let pg = unseen mf.1 pg_msgs in
    let (d, apart, after, total) = unseen-Kept [] mf_msgs in
    let (d', apart', after', total') = unseen-Kept mf.1 pg_msgs in
    let (xs, e, h1) = >>=-eq-ok (collect _ mf.0) _ h in
    let (ys, e', h2) = >>=-eq-ok (collect _ pg.0) _ h1 in
    let names = decoded_names net.account_name (counterparties address [] mf.0) in
    let xs_ids = collect-ids _ (multifactor_tx-id names address currency_id) mf.0 xs e in
    let ys_ids = collect-ids _ (mining_tx-id currency_id) pg.0 ys e' in
    let listed : tx_ids (xs ++ ys) ≡ ids mf.0 ++ ids pg.0 =
      tx_ids-append xs ys ∙ ap₂ ◌++◌ xs_ids ys_ids in
    let whole =
      append-Distinct (ids mf.0) (ids pg.0) d d' (λ k h. ground (arith, apart' k, after k)) in
    let sorted = ok-injective h2 in
    subst
      (λ l.
        Distinct (tx_ids l)
        × Newest l
        × ((k : Bytes)
            → contains (tx_ids l) k ≡ (contains (ids mf_msgs) k || contains (ids pg_msgs) k)))
      sorted
      (
        sort_newest-Distinct (xs ++ ys) (subst Distinct (sym listed) whole),
        sort_newest-Newest (xs ++ ys),
        λ k.
            contains-sort_newest (xs ++ ys) k
            ∙ ap (λ l. contains l k) listed
            ∙ contains-append (ids mf.0) (ids pg.0) k
            ∙ ground (arith, after k, total k, after' k, total' k),
      )
