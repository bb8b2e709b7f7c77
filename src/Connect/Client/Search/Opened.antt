-- ===== src/Connect/Client/Search/Opened.antt =====
-- What a search that finds a message has opened, and with which key.
use bee_engine.Base.{
  ℕ, ◌<◌, ◌≡◌, refl, sym, ap, ◌∙◌, Bool, true, false, List, [], ◌∷◌, ◌++◌, Option, none, some, ok,
  ok-injective, fail_if, inl, inr, Bool-cases, Option-cases, Result-cases, arith, ◌⊎◌,
}
use bee_engine.Base.Bytes.{Bytes}
use bee_engine.Base.Lists.{any}
use bee_engine.Connect.Keys.{Crypto, session_expired}
use bee_engine.Connect.Messages.{Sealing}
use bee_engine.Connect.Session.{
  ConnectSessionState, RekeyResult, rekey_inbound, is_expired, ensure_not_expired,
}
use bee_engine.Connect.Session.Steps.{inbound_parts}
use bee_engine.Connect.Client.{
  ConnectMessageEnvelope, Parsing, Failure, Outcome, skipped, found, scan, conclude,
  decode_connect_message_body, rekey_and_open,
}

Outcome-cases :
    {A : Type 0} (o : Outcome A) → ((a : A) × (o ≡ found a)) ⊎ ((why : Failure) × (o ≡ skipped why))
Outcome-cases (found a) = inl (a, refl)
Outcome-cases (skipped why) = inr (why, refl)

abbrev or_else : {A : Type 0} → A → Option A → A
or_else other none = other
or_else other (some a) = a

-- The event that a search finds its message in.
pub scan-found :
    {R A : Type 0} (step : R → Outcome A) (rs : List R) (a : A)
    → (scan step rs).0 ≡ some a
    → (front : List R) × (r : R) × (back : List R) × (rs ≡ front ++ r ∷ back) × (step r ≡ found a)
unfolding scan
scan-found step [] a h = absurd (cc)
scan-found step (r ∷ rs) a h = elim (Outcome-cases (step r)) [
  | inl (b, e) ↦
      let same = rw (e, scan) at h in ([], r, rs, refl, e ∙ ap found (ap (or_else a) same))
  | inr (why, e) ↦
      let (front, r', back, split, e') = scan-found step rs a (rw (e, scan) at h) in
      (r ∷ front, r', back, ap (◌∷◌ r) split, e')
]

pub conclude-some :
    {A E : Type 0} (counts desync : Failure → Bool) (out : Option A × List Failure) (a : A)
    → conclude {E = E} counts desync out ≡ ok (some a)
    → out.0 ≡ some a
unfolding conclude
conclude-some counts desync (some b, why) a h = ok-injective h
conclude-some counts desync (none, why) a h = elim (Bool-cases (any counts why)) [
  | inl bad ↦ let h' = rw bad at h in absurd (cc)
  | inr fine ↦ ok-injective (rw fine at h)
]

not_expired :
    (s : ConnectSessionState) (now : ℕ)
    → ensure_not_expired s now ≡ ok tt
    → is_expired s now ≡ false
unfolding ensure_not_expired
not_expired s now alive = by_value session_expired (is_expired s now) alive
  where
    by_value : {X : Type 0} (x : X) (b : Bool) → fail_if b x ≡ ok tt → b ≡ false
    by_value x true h = absurd (cc)
    by_value x false h = refl

module _ (k : Crypto) (seal : Sealing) {Json : Type 0} (parse : Parsing Json) where
  -- The state that a message is opened with, and the state after it.
  unfoldable pub Rekeyed :
      (session_state : Option ConnectSessionState) (envelope : ConnectMessageEnvelope) (now : ℕ)
      (updated : Option ConnectSessionState)
      → Type 0
  Rekeyed session_state envelope now updated =
      (s s' : ConnectSessionState) × (session_state ≡ some s)
      × (updated ≡ some s')
      × (is_expired s now ≡ false)
      × (s.last_seen_seq < envelope.seq)
      × (s'.last_seen_seq ≡ envelope.seq)

  -- What a search finds has been opened with a new key.
  pub rekey_and_open-found :
      {A : Type 0} (session_state : Option ConnectSessionState) (session_id : Bytes) (now : ℕ)
      (envelope : ConnectMessageEnvelope) (finish : Json → RekeyResult → Outcome A)
      (updated : A → Option ConnectSessionState) (a : A)
      → ((value : Json) (rekey : RekeyResult)
          → finish value rekey ≡ found a
          → updated a ≡ some rekey.updated_state)
      → rekey_and_open k seal parse session_state session_id now envelope finish ≡ found a
      → Rekeyed session_state envelope now (updated a)
  unfolding rekey_and_open Rekeyed
  rekey_and_open-found none session_id now envelope finish updated a same h = absurd (cc)
  rekey_and_open-found (some s) session_id now envelope finish updated a same h =
      elim (Option-cases envelope.dh_public) [
        | inl missing ↦ let h' = rw (missing, rekey_and_open) at h in absurd (cc)
        | inr (peer, e) ↦ elim (Result-cases (rekey_inbound k s peer session_id envelope.seq now)) [
          | inr (x, e') ↦ let h' = rw (e, rekey_and_open, e') at h in absurd (cc)
          | inl (rekey, e') ↦
              elim (Result-cases (
                decode_connect_message_body k seal parse envelope
                  (some rekey.message_encryption_root))) [
                    | inr (x, e'') ↦ let h' = rw (e, rekey_and_open, e', e'') at h in absurd (cc)
                    | inl (none, e'') ↦ let h' = rw (e, rekey_and_open, e', e'') at h in absurd (cc)
                    | inl (some value, e'') ↦
                        let h' = rw (e, rekey_and_open, e', e'') at h in
                        let (_, _, alive, _, fresh, _, _, made) =
                          inbound_parts k s peer session_id envelope.seq now rekey e' in
                        (
                          s,
                          rekey.updated_state,
                          refl,
                          same value rekey h',
                          not_expired s now alive,
                          ground arith,
                          ap (λ r. r.updated_state.last_seen_seq) (sym made),
                        )
                  ]
        ]
      ]
