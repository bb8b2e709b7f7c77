-- ===== src/Wallet/History/Fetch/Walk.antt =====
-- The pages of an account, read one after the other by the cursors that the fetches return.
use mathlib.Core.List.{append-nil, append_assoc}
use bee_engine.Base.{
  ℕ, zero, suc, ◌+◌, ◌-◌, ◌<◌, ◌≤◌, ◌≡◌, refl, sym, ap, ◌∙◌, subst, Bool, true, false, not, ◌||◌,
  List, [], ◌++◌, Option, none, Result, ok, inl, inr, arith, Bool-cases, ltb, ◌⊎◌,
}
use bee_engine.Base.Bytes.{Bytes}
use bee_engine.Base.Lists.{is_empty, is_empty_nil, retain}
use bee_engine.Wallet.History.{EccMsg, Client, HistoryError, execute_gql_query}
use bee_engine.Wallet.History.Fetch.{
  Fetched, has_currency, pages_from, fetch_ecc_with_auto_pagination,
}

-- The messages of the currency in `many` pages.
abbrev pub messages : (currency_id : ℕ) (page : ℕ → List EccMsg) (from many : ℕ) → List EccMsg
messages currency_id page from zero = []
messages currency_id page from (suc many) =
    retain (has_currency currency_id) (page from) ++ messages currency_id page (suc from) many

messages-add :
    (currency_id : ℕ) (page : ℕ → List EccMsg) (from a b : ℕ)
    → messages currency_id page from (a + b)
      ≡ messages currency_id page from a ++ messages currency_id page (from + a) b
messages-add currency_id page from zero b =
    let e : from + 0 ≡ from = omega arith in let z : 0 + b ≡ b = omega arith in rw (e, z) refl
messages-add currency_id page from (suc a) b =
    let e : from + suc a ≡ suc from + a = omega arith in
    let z : suc a + b ≡ suc (a + b) = omega arith in
    rw (e, z, append_assoc)
      (ap (λ ms. retain (has_currency currency_id) (page from) ++ ms)
        (messages-add currency_id page (suc from) a b))

-- The lists that a reader may get who fetches from a cursor, and then from every next cursor until
-- there is no older page.
pub data Follows {X : Type 0} (fetch : Option Bytes → Result X Fetched)
    : (cursor : Option Bytes) → List EccMsg → Type 0 where
  last_page :
      (cursor : Option Bytes) (f : Fetched)
      → fetch cursor ≡ ok f
      → f.has_more ≡ false
      → Follows fetch cursor f.msgs
  older_page :
      (cursor : Option Bytes) (f : Fetched) (rest : List EccMsg)
      → fetch cursor ≡ ok f
      → f.has_more ≡ true
      → Follows fetch f.next_cursor rest
      → Follows fetch cursor (f.msgs ++ rest)

module _ {Json E : Type 0} (client : Client Json E) (address : Bytes) (currency_id size : ℕ) where
  abbrev Reads : (cursor : Option Bytes) → List EccMsg → Type 0
  Reads = Follows (fetch_ecc_with_auto_pagination client address currency_id size)

  module _ (count : ℕ) (page : ℕ → List EccMsg) (cursor : ℕ → Option Bytes) where
    -- The endpoint answers with `count` pages, newest first, and each page's cursor leads to the next.
    abbrev pub Served : Type 0
    Served =
        (n : ℕ)
        → n < count
        → execute_gql_query client address size (cursor n)
          ≡ ok (
            page n,
            record { start_cursor = cursor (suc n); has_previous_page = ltb (suc n) count },
          )

    -- What a loop gives that starts at the page `n` with `suc k` pages before it.
    Advanced : (n k : ℕ) → Result (HistoryError E) Fetched → Type 0
    Advanced n k r =
        (f : Fetched) × (j : ℕ) × (r ≡ ok f)
        × (j ≤ k)
        × (f.msgs ≡ messages currency_id page n (suc j))
        × (f.next_cursor ≡ cursor (n + suc j))
        × (f.has_more ≡ ltb (n + suc j) count)

    module _ (served : Served) where
      one_page :
          (left n k : ℕ) (next : Option Bytes) (more : Bool)
          → n + suc k ≡ count
          → (is_empty (retain (has_currency currency_id) (page n)) ≡ false)
            ⊎ (ltb (suc n) count ≡ false)
          → Advanced n k
              (pages_from client address currency_id size (suc left) [] (cursor n) next more)
      unfolding Advanced pages_from
      one_page left n k next more total why =
          let stops : (not (is_empty (retain (has_currency currency_id) (page n)))
                || not (ltb (suc n) count))
              ≡ true =
            ground arith in
          let e : n + 1 ≡ suc n = omega arith in
          (
            record {
              msgs = retain (has_currency currency_id) (page n);
              next_cursor = cursor (suc n);
              has_more = ltb (suc n) count;
            },
            0,
            rw (served n (omega arith), stops) refl,
            omega arith,
            rw append-nil refl,
            rw e refl,
            rw e refl,
          )

      pages_from-Advanced :
          (left n k : ℕ) (next : Option Bytes) (more : Bool)
          → n + suc k ≡ count
          → Advanced n k
              (pages_from client address currency_id size (suc left) [] (cursor n) next more)
      unfolding Advanced pages_from
      pages_from-Advanced left n zero next more total =
          one_page left n zero next more total (inr (ground arith))
      pages_from-Advanced zero n (suc k) next more total =
          elim (Bool-cases (is_empty (retain (has_currency currency_id) (page n)))) [
            | inr found ↦ one_page zero n (suc k) next more total (inl found)
            | inl empty' ↦
                let nothing = is_empty_nil _ empty' in
                let older : ltb (suc n) count ≡ true = ground arith in
                let e : n + 1 ≡ suc n = omega arith in
                (
                  record { msgs = []; next_cursor = cursor (suc n); has_more = true },
                  0,
                  rw (served n (omega arith), nothing, older) refl,
                  omega arith,
                  rw nothing refl,
                  rw e refl,
                  rw (e, older) refl,
                )
          ]
      pages_from-Advanced (suc left) n (suc k) next more total =
          let later = pages_from-Advanced left (suc n) k (cursor (suc n)) true (omega arith) in
          elim (Bool-cases (is_empty (retain (has_currency currency_id) (page n)))) [
            | inr found ↦ one_page (suc left) n (suc k) next more total (inl found)
            | inl empty' ↦
                let nothing = is_empty_nil _ empty' in
                let older : ltb (suc n) count ≡ true = ground arith in
                let (f, j, r, le, ms, c, more') = later in
                let e : n + suc (suc j) ≡ suc n + suc j = omega arith in
                (
                  f,
                  suc j,
                  rw (served n (omega arith), nothing, older) r,
                  omega arith,
                  rw nothing ms,
                  rw e c,
                  rw e more',
                )
          ]

      -- Given a bound on the number of the pages that are left.
      every_message_comes :
          (bound n k : ℕ)
          → k < bound
          → n + suc k ≡ count
          → Reads (cursor n) (messages currency_id page n (suc k))
      unfolding Advanced fetch_ecc_with_auto_pagination
      every_message_comes zero n k lt total = absurd (omega arith)
      every_message_comes (suc bound) n k lt total =
          let (f, j, r, le, ms, c, more) = pages_from-Advanced 9 n k none false total in
          elim (Bool-cases (ltb (n + suc j) count)) [
            | inr last' ↦
                let all_read : suc j ≡ suc k = ground arith in
                subst (Reads (cursor n)) (ms ∙ ap (messages currency_id page n) all_read)
                  (last_page (cursor n) f r (more ∙ last'))
            | inl older ↦
                let behind = k - suc j in
                let sum : suc j + suc behind ≡ suc k = ground arith in
                let rest = messages currency_id page (n + suc j) (suc behind) in
                let whole : f.msgs ++ rest ≡ messages currency_id page n (suc k) =
                  (ap (λ xs. xs ++ rest) ms
                    ∙ sym (messages-add currency_id page n (suc j) (suc behind))
                    ∙ ap (messages currency_id page n) sum) in
                let later =
                  every_message_comes bound (n + suc j) behind (ground arith) (ground arith) in
                subst (Reads (cursor n)) whole (
                  older_page (cursor n) f rest r (more ∙ older)
                    (subst (λ at. Reads at rest) (sym c) later))
          ]

    -- Reading ends, and it misses and repeats nothing: an endpoint that serves some pages, by the
    -- cursor of each to the next, is read as the messages of the currency in all the pages, in the
    -- order of the pages, although each fetch passes over pages without such messages.
    pub Follows-messages : Served → 0 < count → Reads (cursor 0) (messages currency_id page 0 count)
    Follows-messages served some_page =
        let e : suc (count - 1) ≡ count = omega arith in
        subst (λ many. Reads (cursor 0) (messages currency_id page 0 many)) e
          (every_message_comes served count 0 (count - 1) (omega arith) (omega arith))
