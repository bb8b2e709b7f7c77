-- ===== src/Wallet/Orders/Listing/Cursors.antt =====
-- The cursors of the pages of orders, and the keys above them.
use bee_engine.Base.{
  ℕ, ◌<◌, ◌^◌, ◌≡◌, refl, ap₂, ◌∙◌, true, false, List, [], ◌∷◌, ◌++◌, some, ◌==◌, arith,
}
use bee_engine.Base.Bytes.{Bytes}
use bee_engine.Base.Decimal.{
  is_digit, to_decimal, all-to_decimal, parse_uint, parse_uint-to_decimal,
}
use bee_engine.Base.Lists.{all, All}
use bee_engine.Wallet.Orders.{Key, key_lt}
use bee_engine.Wallet.Orders.Listing.{encode_cursor, split_colon, parse_cursor, both, above}

split_colon-digits :
    (x y : Bytes) → all is_digit x ≡ true → split_colon (x ++ b':' ∷ y) ≡ some (x, y)
unfolding split_colon
split_colon-digits [] y h = refl
split_colon-digits (b ∷ x) y h =
    let later = split_colon-digits x y (ground arith) in
    let other : (b == b':') ≡ false = ground arith in rw (other, later) refl

parse_cursor_parts :
    (s x y : Bytes)
    → split_colon s ≡ some (x, y)
    → parse_cursor s ≡ both (parse_uint 16 x) (parse_uint 64 y)
unfolding parse_cursor
parse_cursor_parts s x y h = rw (h, parse_cursor) refl

-- A key of 16 and 64 bits is read back from the cursor that is made of it.
pub parse_cursor-encode_cursor :
    (denom order_id : ℕ)
    → denom < 2 ^ 16
    → order_id < 2 ^ 64
    → parse_cursor (encode_cursor (denom, order_id)) ≡ some (denom, order_id)
unfolding encode_cursor
parse_cursor-encode_cursor denom order_id hd ho =
    let parts =
      split_colon-digits (to_decimal denom) (to_decimal order_id) (all-to_decimal denom) in
    let d = parse_uint-to_decimal 16 denom hd (omega arith) in
    let o = parse_uint-to_decimal 64 order_id ho (omega arith) in
    parse_cursor_parts _ (to_decimal denom) (to_decimal order_id) parts ∙ ap₂ both d o

-- Each key is below all that follow.
abbrev pub Ascending : List Key → Type 0
Ascending [] = Unit
Ascending (k ∷ ks) = All (λ k'. key_lt k k' ≡ true) ks × Ascending ks

pub key_lt_asymm : (k k' : Key) → key_lt k k' ≡ true → key_lt k' k ≡ false
unfolding key_lt
key_lt_asymm (d, o) (d', o') h = ground arith

key_lt_irrefl : (k : Key) → key_lt k k ≡ false
unfolding key_lt
key_lt_irrefl (d, o) = ground arith

above-All : (k : Key) (ks : List Key) → All (λ k'. key_lt k k' ≡ true) ks → above k ks ≡ ks
unfolding above
above-All k [] h = refl
above-All k (k' ∷ ks) (lt, h) = rw lt refl

pub All-middle {ℓ} :
    {A : Type ℓ} (P : A → Type 0) (xs : List A) (y : A) (ys : List A) → All P (xs ++ y ∷ ys) → P y
All-middle P [] y ys h = h.0
All-middle P (x ∷ xs) y ys h = All-middle P xs y ys h.1

-- The keys above one of an ascending list are those that stand behind it.
pub above-append :
    (front : List Key) (k : Key) (rest : List Key)
    → Ascending (front ++ k ∷ rest)
    → above k (front ++ k ∷ rest) ≡ rest
unfolding above
above-append [] k rest (h, a) = rw (key_lt_irrefl k) (above-All k rest h)
above-append (f ∷ front) k rest (h, a) =
    let below = key_lt_asymm f k (All-middle (λ k'. key_lt f k' ≡ true) front k rest h) in
    rw below (above-append front k rest a)
