-- ===== src/Wallet/Orders/Listing/Reading.antt =====
-- A seller's orders, read page by page.
use mathlib.Core.List.{append_assoc}
use native.Mathlib.Nat.{mod-eq_of_lt}
use bee_engine.Base.{
  ℕ, zero, suc, ◌<◌, ◌^◌, ◌%◌, ◌+◌, ◌≤◌, max, min, ◌≡◌, refl, sym, ap, ap₂, ◌-◌, ◌∙◌, subst, true,
  false, List, [], ◌∷◌, ◌++◌, map, Option, none, some, Result, ok, arith, ltb, leb, inl, inr,
  Bool-cases,
}
use bee_engine.Base.Bytes.{Bytes}
use bee_engine.Base.Lists.{
  All, length, take, last, length-map, length-append, take-append, take-map, All-take,
}
use bee_engine.Wallet.Orders.{Key, OrdersError}
use bee_engine.Wallet.Orders.Listing.{
  encode_cursor, SellOrderInfo, GetMySellOrdersResult, QueueStates, Market, fetch_order,
  fetch_orders, listing, after_cursor, candidates_page, above,
}
use bee_engine.Wallet.Orders.Listing.Cursors.{
  parse_cursor-encode_cursor, Ascending, above-append, All-middle,
}

-- The lists that a reader may get who asks for a page, and then for each next page by its cursor.
pub data OrdersRead {E : Type 0}
    (page : Option Bytes → Result (OrdersError E) GetMySellOrdersResult)
    : Option Bytes → List SellOrderInfo → Type 0 where
  last_page :
      (c : Option Bytes) (r : GetMySellOrdersResult)
      → page c ≡ ok r
      → r.has_next_page ≡ false
      → OrdersRead page c r.orders
  next_page :
      (c : Option Bytes) (r : GetMySellOrdersResult) (rest : List SellOrderInfo)
      → page c ≡ ok r
      → r.has_next_page ≡ true
      → OrdersRead page r.next_cursor rest
      → OrdersRead page c (r.orders ++ rest)

take-length {ℓ} : {A : Type ℓ} (xs : List A) → take (length xs) xs ≡ xs
take-length [] = refl
take-length (x ∷ xs) = ap (◌∷◌ x) (take-length xs)

last-snoc {ℓ} : {A : Type ℓ} (xs : List A) (y : A) → last (xs ++ y ∷ []) ≡ some y
last-snoc [] y = refl
last-snoc (x ∷ []) y = refl
last-snoc (x ∷ x' ∷ xs) y = last-snoc (x' ∷ xs) y

map-append {ℓ} :
    {A B : Type ℓ} (f : A → B) (xs ys : List A) → map f (xs ++ ys) ≡ map f xs ++ map f ys
map-append f [] ys = refl
map-append f (x ∷ xs) ys = ap (◌∷◌ (f x)) (map-append f xs ys)

listing_final :
    (limit pairs : ℕ) (results : List SellOrderInfo)
    → pairs ≤ limit
    → listing limit pairs results
      ≡ record { orders = results; next_cursor = none; has_next_page = false }
unfolding listing
listing_final limit pairs results le =
    let few : ltb limit pairs ≡ false = ground arith in rw few refl

listing_inner :
    (limit pairs : ℕ) (results : List SellOrderInfo) (o : SellOrderInfo)
    → limit < pairs
    → limit < length results
    → last (take limit results) ≡ some o
    → listing limit pairs results ≡ record {
      orders = take limit results;
      next_cursor = some (encode_cursor (o.denom, o.order_id));
      has_next_page = true;
    }
unfolding listing
listing_inner limit pairs results o lt lt' end =
    let many : ltb limit pairs ≡ true = ground arith in
    let many' : ltb limit (length results) ≡ true = ground arith in rw (many, many', end) refl

take_all {ℓ} : {A : Type ℓ} (n : ℕ) (xs : List A) → length xs ≤ n → take (min (length xs) n) xs ≡ xs
take_all n xs h = let e : min (length xs) n ≡ length xs = omega arith in rw e (take-length xs)

All-behind {ℓ} :
    {A : Type ℓ} (P : A → Type 0) (xs : List A) (y : A) (ys : List A)
    → All P (xs ++ y ∷ ys)
    → All P ys
All-behind P [] y ys h = h.1
All-behind P (x ∷ xs) y ys h = All-behind P xs y ys h.1

module _ {E : Type 0} (market : Market E) (seller : Bytes) (states : QueueStates)
    (info : Key → SellOrderInfo) where
  -- The order of a key is read without an error, and is the seller's.
  abbrev pub IsRead : Key → Type 0
  IsRead key =
      (fetch_order market.getters seller states key ≡ ok (some (info key)))
      × ((info key).denom ≡ key.0)
      × ((info key).order_id ≡ key.1)
      × (key.0 < 2 ^ 16)
      × (key.1 < 2 ^ 64)

  fetch_orders-map :
      (keys : List Key)
      → All IsRead keys
      → fetch_orders market.getters seller states keys ≡ ok (map info keys)
  unfolding fetch_orders
  fetch_orders-map [] h = refl
  fetch_orders-map (k ∷ ks) (r, h) = let e = r.0 in rw (e, fetch_orders-map ks h) refl

  module _ (candidates : List Key) (page_size : ℕ) (ascending : Ascending candidates)
      (fits : max page_size 1 + 1 < 2 ^ market.usize_bits) where
    page : Option Bytes → Result (OrdersError E) GetMySellOrdersResult
    page = candidates_page market seller states candidates page_size

    page_of :
        (c : Option Bytes) (rest pairs : List Key)
        → after_cursor {E = E} c candidates ≡ ok rest
        → take (min (length rest) (max page_size 1 + 1)) rest ≡ pairs
        → All IsRead pairs
        → page c ≡ ok (listing (max page_size 1) (length pairs) (map info pairs))
    unfolding page candidates_page
    page_of c rest pairs at taken h =
        let exact : (max page_size 1 + 1) % 2 ^ market.usize_bits ≡ max page_size 1 + 1 =
          mod-eq_of_lt fits in
        rw (at, exact, taken, fetch_orders-map pairs h) refl

    final_page :
        (c : Option Bytes) (rest : List Key)
        → All IsRead rest
        → after_cursor {E = E} c candidates ≡ ok rest
        → length rest ≤ max page_size 1
        → OrdersRead page c (map info rest)
    final_page c rest h at le =
        let e = page_of c rest rest at (take_all _ rest (omega arith)) h in
        last_page c _ (e ∙ ap ok (listing_final _ _ (map info rest) le)) refl

    -- The keys of an inner page: `ks` and `k`, and one that is looked ahead at.
    taken_keys :
        (ks : List Key) (k r : Key) (rs : List Key)
        → length ks + 1 ≡ max page_size 1
        → take (min (length (ks ++ k ∷ r ∷ rs)) (max page_size 1 + 1)) (ks ++ k ∷ r ∷ rs)
          ≡ ks ++ k ∷ r ∷ []
    taken_keys ks k r rs len =
        let whole : ks ++ k ∷ r ∷ rs ≡ (ks ++ k ∷ r ∷ []) ++ rs =
          sym (append_assoc ks (k ∷ r ∷ []) rs) in
        let count : length (ks ++ k ∷ r ∷ [])
            ≡ min (length (ks ++ k ∷ r ∷ rs)) (max page_size 1 + 1) =
          omega (arith, length-append ks (k ∷ r ∷ rs), length-append ks (k ∷ r ∷ [])) in
        ap (take _) whole ∙ take-append (ks ++ k ∷ r ∷ []) rs count

    shown :
        (ks : List Key) (k r : Key)
        → length ks + 1 ≡ max page_size 1
        → take (max page_size 1) (map info (ks ++ k ∷ r ∷ [])) ≡ map info ks ++ info k ∷ []
    shown ks k r len =
        let whole : ks ++ k ∷ r ∷ [] ≡ (ks ++ k ∷ []) ++ r ∷ [] =
          sym (append_assoc ks (k ∷ []) (r ∷ [])) in
        let count : length (ks ++ k ∷ []) ≡ max page_size 1 =
          omega (arith, length-append ks (k ∷ [])) in
        take-map info (max page_size 1) (ks ++ k ∷ r ∷ [])
        ∙ ap (map info)
            (ap (take (max page_size 1)) whole ∙ take-append (ks ++ k ∷ []) (r ∷ []) count)
        ∙ map-append info ks (k ∷ [])

    inner_page :
        (c : Option Bytes) (ks : List Key) (k r : Key) (rs : List Key)
        → All IsRead (ks ++ k ∷ r ∷ rs)
        → after_cursor {E = E} c candidates ≡ ok (ks ++ k ∷ r ∷ rs)
        → length ks + 1 ≡ max page_size 1
        → OrdersRead page (some (encode_cursor k)) (map info (r ∷ rs))
        → OrdersRead page c (map info (ks ++ k ∷ r ∷ rs))
    inner_page c ks k r rs h at len later =
        let pairs = ks ++ k ∷ r ∷ [] in
        let taken = taken_keys ks k r rs len in
        let read = subst (All IsRead) taken (All-take IsRead _ (ks ++ k ∷ r ∷ rs) h) in
        let (_, d, o, _, _) = All-middle IsRead ks k (r ∷ rs) h in
        let orders = shown ks k r len in
        let end = ap last orders ∙ last-snoc (map info ks) (info k) in
        let many : max page_size 1 < length pairs = omega (arith, length-append ks (k ∷ r ∷ [])) in
        let many' : max page_size 1 < length (map info pairs) =
          omega (arith, many, length-map info pairs) in
        let e =
          page_of c (ks ++ k ∷ r ∷ rs) pairs at taken read
          ∙ ap ok (
              listing_inner (max page_size 1) (length pairs) (map info pairs) (info k) many many'
                end) in
        let cursor : some (encode_cursor ((info k).denom, (info k).order_id))
            ≡ some (encode_cursor k) =
          ap₂ (λ x y. some (encode_cursor (x, y))) d o in
        let joined : take (max page_size 1) (map info pairs) ++ map info (r ∷ rs)
            ≡ map info (ks ++ k ∷ r ∷ rs) =
          ap (λ xs. xs ++ map info (r ∷ rs)) orders
          ∙ append_assoc (map info ks) (info k ∷ []) (map info (r ∷ rs))
          ∙ sym (map-append info ks (k ∷ r ∷ rs)) in
        subst (OrdersRead page c) joined (
          next_page c _ (map info (r ∷ rs)) e refl
            (subst (λ at'. OrdersRead page at' (map info (r ∷ rs))) (sym cursor) later))

    -- A list that is longer than a page, cut behind the page.
    cut :
        (n : ℕ) (xs : List Key)
        → n + 1 < length xs
        → (ks : List Key) × (k r : Key) × (rs : List Key) × (xs ≡ ks ++ k ∷ r ∷ rs)
          × (length ks ≡ n)
    cut n [] h = absurd (omega arith)
    cut n (k ∷ []) h = absurd (omega arith)
    cut zero (k ∷ r ∷ rs) h = ([], k, r, rs, refl, refl)
    cut (suc n) (x ∷ y ∷ ys) h =
        let (ks, k, r, rs, e, len) = cut n (y ∷ ys) (omega arith) in
        (x ∷ ks, k, r, rs, ap (◌∷◌ x) e, ap suc len)

    after_key :
        (front : List Key) (k : Key) (rest : List Key)
        → candidates ≡ front ++ k ∷ rest
        → (k.0 < 2 ^ 16) × (k.1 < 2 ^ 64)
        → after_cursor {E = E} (some (encode_cursor k)) candidates ≡ ok rest
    unfolding after_cursor
    after_key front k rest whole (hd, ho) =
        let parsed = parse_cursor-encode_cursor k.0 k.1 hd ho in
        let behind =
          ap (above k) whole ∙ above-append front k rest (subst Ascending whole ascending) in
        rw (parsed, behind) refl

    read_from :
        (bound : ℕ) (c : Option Bytes) (front rest : List Key)
        → length rest < bound
        → candidates ≡ front ++ rest
        → All IsRead rest
        → after_cursor {E = E} c candidates ≡ ok rest
        → OrdersRead page c (map info rest)
    unfolding after_cursor
    read_from zero c front rest lt whole h at = absurd (omega arith)
    read_from (suc bound) c front rest lt whole h at =
        elim (Bool-cases (leb (length rest) (max page_size 1))) [
          | inl short ↦ final_page c rest h at (ground arith)
          | inr long ↦
              let (ks, k, r, rs, e, len) = cut (max page_size 1 - 1) rest (ground arith) in
              let at' = at ∙ ap ok e in
              let h' = subst (All IsRead) e h in
              let (_, _, _, hd, ho) = All-middle IsRead ks k (r ∷ rs) h' in
              let whole' : candidates ≡ (front ++ ks) ++ k ∷ r ∷ rs =
                whole ∙ ap (λ xs. front ++ xs) e ∙ sym (append_assoc front ks (k ∷ r ∷ rs)) in
              let whole'' : candidates ≡ ((front ++ ks) ++ k ∷ []) ++ r ∷ rs =
                whole' ∙ sym (append_assoc (front ++ ks) (k ∷ []) (r ∷ rs)) in
              let behind = after_key (front ++ ks) k (r ∷ rs) whole' (hd, ho) in
              let rest_read = All-behind IsRead ks k (r ∷ rs) h' in
              let shorter : length (r ∷ rs) < bound =
                omega (arith, ap length e, length-append ks (k ∷ r ∷ rs)) in
              let later =
                read_from bound (some (encode_cursor k)) ((front ++ ks) ++ k ∷ []) (r ∷ rs) shorter
                  whole'' rest_read behind in
              subst (λ xs. OrdersRead page c (map info xs)) (sym e)
                (inner_page c ks k r rs h' at' (omega (arith, len)) later)
        ]

  -- Asking for a page and then for the next by its cursor, until there is none, lists every candidate
  -- once, in the order of the keys: if each is read without an error and is the seller's, and the page's
  -- size and one more fit into a usize.
  pub candidates_page-OrdersRead :
      (candidates : List Key) (page_size : ℕ)
      → max page_size 1 + 1 < 2 ^ market.usize_bits
      → Ascending candidates
      → All IsRead candidates
      → OrdersRead
          (candidates_page market seller states candidates page_size)
          none
          (map info candidates)
  unfolding page after_cursor
  candidates_page-OrdersRead candidates page_size fits ascending h =
      read_from candidates page_size ascending fits (suc (length candidates)) none [] candidates
        (omega arith) refl h refl
