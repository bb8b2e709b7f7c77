-- ===== src/Shared/Request/Header.antt =====
-- The layout of the 72-byte header, written as an encoder, and the round trip through the decoder.
use bee_engine.Base.{
  ℕ, ◌+◌, ◌^◌, ◌<◌, ◌≡◌, refl, ap, ◌∙◌, false, ◌++◌, Option, none, some, ok, is_ok, arith, ltb, ◌↔◌,
  ◌⊎◌, fail_if, ok_or, ◌>>=◌, ◌>>◌,
}
use bee_engine.Base.Bytes.{Bytes, be_bytes, from_be_bytes, length-be_bytes, from_be-be_bytes}
use bee_engine.Base.Lists.{
  length, slice, drop, length-append, slice-append, slice-front, drop-append, drop-append_add,
}
use bee_engine.Shared.Leaf.{Primitives}
use bee_engine.Shared.Request.{
  PartialVerifySession, ParamsOfVerifySession, DecodeError, decode_rest_bytes, hex_seed, try_from,
}

pub record Header : Type 0 where
  pub seed : Bytes
  pub easy_complexity : ℕ
  pub easy_interval_start : ℕ
  pub easy_interval_end : ℕ
  pub hard_complexity : ℕ
  pub hard_interval_start : ℕ
  pub hard_interval_end : ℕ

pub record FitsHeader (h : Header) : Type 0 where
  pub seed : length h.seed ≡ 32
  pub easy_complexity : h.easy_complexity < 2 ^ 32
  pub easy_interval_start : h.easy_interval_start < 2 ^ 64
  pub easy_interval_end : h.easy_interval_end < 2 ^ 64
  pub hard_complexity : h.hard_complexity < 2 ^ 32
  pub hard_interval_start : h.hard_interval_start < 2 ^ 64
  pub hard_interval_end : h.hard_interval_end < 2 ^ 64

-- The header in front of `rest`, field by field, integers big-endian.
abbrev pub encode : Header → Bytes → Bytes
encode h rest =
    h.seed
    ++ (be_bytes 4 h.easy_complexity
        ++ (be_bytes 8 h.easy_interval_start
            ++ (be_bytes 8 h.easy_interval_end
                ++ (be_bytes 4 h.hard_complexity
                    ++ (be_bytes 8 h.hard_interval_start
                        ++ (be_bytes 8 h.hard_interval_end ++ rest))))))

-- The request that a header and a decoded rest stand for.
abbrev pub request : Primitives → Header → PartialVerifySession → ParamsOfVerifySession
request c h s = record {
  seed = hex_seed c h.seed;
  easy_complexity = h.easy_complexity;
  easy_interval_start = h.easy_interval_start;
  easy_interval_end = h.easy_interval_end;
  hard_complexity = h.hard_complexity;
  hard_interval_start = h.hard_interval_start;
  hard_interval_end = h.hard_interval_end;
  easy_submit_params = s.easy_submit_params;
  hard_submit_params = s.hard_submit_params;
  easy_proof_params = s.easy_proof_params;
  hard_first_proof_params = s.hard_first_proof_params;
  hard_range_proof_params = s.hard_range_proof_params;
  hard_last_proof_params = s.hard_last_proof_params;
}

-- In `whole`, the bytes from `skip` on are those of `rest`.
abbrev Behind : Bytes → ℕ → Bytes → Type 0
Behind whole skip rest = (a b : ℕ) → slice (skip + a) (skip + b) whole ≡ slice a b rest

Behind-append :
    (whole front rest : Bytes) (skip w : ℕ)
    → length front ≡ w
    → Behind whole skip (front ++ rest)
    → Behind whole (skip + w) rest
Behind-append whole front rest skip w e at a b =
    let p : skip + w + a ≡ skip + (w + a) = omega arith in
    let q : skip + w + b ≡ skip + (w + b) = omega arith in
    rw (p, q) (at (w + a) (w + b) ∙ slice-append front rest w a b e)

Behind-field :
    (whole rest : Bytes) (skip w x : ℕ)
    → Behind whole skip (be_bytes w x ++ rest)
    → x < 256 ^ w
    → from_be_bytes (slice (skip + 0) (skip + w) whole) ≡ x
Behind-field whole rest skip w x at h =
    ap from_be_bytes (at 0 w ∙ slice-front (be_bytes w x) rest (length-be_bytes w x))
    ∙ from_be-be_bytes w x h

-- Where each field starts.
module _ (h : Header) (rest : Bytes) (fits : FitsHeader h) where
  abbrev whole : Bytes
  whole = encode h rest

  abbrev tail6 : Bytes
  tail6 = be_bytes 8 h.hard_interval_end ++ rest

  abbrev tail5 : Bytes
  tail5 = be_bytes 8 h.hard_interval_start ++ tail6

  abbrev tail4 : Bytes
  tail4 = be_bytes 4 h.hard_complexity ++ tail5

  abbrev tail3 : Bytes
  tail3 = be_bytes 8 h.easy_interval_end ++ tail4

  abbrev tail2 : Bytes
  tail2 = be_bytes 8 h.easy_interval_start ++ tail3

  abbrev tail1 : Bytes
  tail1 = be_bytes 4 h.easy_complexity ++ tail2

  from_32 : Behind whole 32 tail1
  from_32 a b = slice-append h.seed tail1 32 a b fits.seed

  from_36 : Behind whole 36 tail2
  from_36 =
      Behind-append whole (be_bytes 4 h.easy_complexity) tail2 32 4 (length-be_bytes 4 _) from_32

  from_44 : Behind whole 44 tail3
  from_44 =
      Behind-append whole (be_bytes 8 h.easy_interval_start) tail3 36 8 (length-be_bytes 8 _)
        from_36

  from_52 : Behind whole 52 tail4
  from_52 =
      Behind-append whole (be_bytes 8 h.easy_interval_end) tail4 44 8 (length-be_bytes 8 _) from_44

  from_56 : Behind whole 56 tail5
  from_56 =
      Behind-append whole (be_bytes 4 h.hard_complexity) tail5 52 4 (length-be_bytes 4 _) from_52

  from_64 : Behind whole 64 tail6
  from_64 =
      Behind-append whole (be_bytes 8 h.hard_interval_start) tail6 56 8 (length-be_bytes 8 _)
        from_56

  length-encode : length whole ≡ 72 + length rest
  length-encode = omega (
    arith,
    fits.seed,
    length-append h.seed tail1,
    length-append (be_bytes 4 h.easy_complexity) tail2,
    length-append (be_bytes 8 h.easy_interval_start) tail3,
    length-append (be_bytes 8 h.easy_interval_end) tail4,
    length-append (be_bytes 4 h.hard_complexity) tail5,
    length-append (be_bytes 8 h.hard_interval_start) tail6,
    length-append (be_bytes 8 h.hard_interval_end) rest,
    length-be_bytes 4 h.easy_complexity,
    length-be_bytes 8 h.easy_interval_start,
    length-be_bytes 8 h.easy_interval_end,
    length-be_bytes 4 h.hard_complexity,
    length-be_bytes 8 h.hard_interval_start,
    length-be_bytes 8 h.hard_interval_end,
  )

  rest_behind : drop 72 whole ≡ rest
  rest_behind =
      drop-append_add h.seed tail1 40 32 fits.seed
      ∙ drop-append_add (be_bytes 4 h.easy_complexity) tail2 36 4 (length-be_bytes 4 _)
      ∙ drop-append_add (be_bytes 8 h.easy_interval_start) tail3 28 8 (length-be_bytes 8 _)
      ∙ drop-append_add (be_bytes 8 h.easy_interval_end) tail4 20 8 (length-be_bytes 8 _)
      ∙ drop-append_add (be_bytes 4 h.hard_complexity) tail5 16 4 (length-be_bytes 4 _)
      ∙ drop-append_add (be_bytes 8 h.hard_interval_start) tail6 8 8 (length-be_bytes 8 _)
      ∙ drop-append (be_bytes 8 h.hard_interval_end) rest (length-be_bytes 8 _)

-- Two guards in a row fail exactly when one of them does.
guards_fail_iff :
    {A B : Type 0} (n k : ℕ) (e : DecodeError) (o : Option A) (f : A → B)
    → (is_ok (fail_if (ltb n k) e >> (ok_or o decode_rest_bytes >>= λ r. ok (f r))) ≡ false)
      ↔ ((n < k) ⊎ (o ≡ none))
guards_fail_iff n k e none f = ground arith
guards_fail_iff n k e (some r) f = ground arith

module _ (c : Primitives) (borsh : Bytes → Option PartialVerifySession) where
  -- A request whose header fields are in range, followed by bytes that borsh decodes, is read back
  -- field by field.
  pub try_from-encode :
      (h : Header) (rest : Bytes) (s : PartialVerifySession)
      → FitsHeader h
      → borsh rest ≡ some s
      → try_from c borsh (encode h rest) ≡ ok (request c h s)
  unfolding try_from
  try_from-encode h rest s fits decoded =
      rw
        (
          long,
          rest_behind h rest fits,
          decoded,
          slice-front h.seed (tail1 h rest fits) fits.seed,
          Behind-field _ _ 32 4 _ (from_32 h rest fits) (omega arith),
          Behind-field _ _ 36 8 _ (from_36 h rest fits) (omega arith),
          Behind-field _ _ 44 8 _ (from_44 h rest fits) (omega arith),
          Behind-field _ _ 52 4 _ (from_52 h rest fits) (omega arith),
          Behind-field _ _ 56 8 _ (from_56 h rest fits) (omega arith),
          Behind-field _ _ 64 8 _ (from_64 h rest fits) (omega arith),
        )
        refl
    where
      long : ltb (length (encode h rest)) 72 ≡ false
      long = ground (arith, length-encode h rest fits)

  -- Decoding fails exactly for an input shorter than the header and for a rest that borsh refuses.
  pub try_from_fails_iff :
      (bytes : Bytes)
      → (is_ok (try_from c borsh bytes) ≡ false)
        ↔ ((length bytes < 72) ⊎ (borsh (drop 72 bytes) ≡ none))
  unfolding try_from
  try_from_fails_iff bytes = guards_fail_iff (length bytes) 72 _ (borsh (drop 72 bytes)) _
