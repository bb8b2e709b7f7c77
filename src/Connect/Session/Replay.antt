-- ===== src/Connect/Session/Replay.antt =====
-- A session through any history of re-keyings. The caller keeps the old state when a call fails.
use bee_engine.Base.{
  ℕ, ◌+◌, ◌^◌, subst, ◌≤◌, ◌<◌, ◌≡◌, refl, sym, ap, ◌∙◌, true, false, List, [], ◌∷◌, Option, none,
  some, Result, ok, err, is_ok, arith, Result-cases, inl, inr, ◌==◌, leb,
}
use bee_engine.Base.Bytes.{Bytes}
use bee_engine.Connect.Keys.{Crypto, DhError, session_expired}
use bee_engine.Connect.Session.{
  ConnectSessionState, RekeyResult, is_expired, ensure_not_expired, next_outbound_seq,
  rekey_outbound, rekey_inbound,
}
use bee_engine.Connect.Session.Steps.{
  outbound_result, inbound_result, outbound_parts, outbound_needs_random, inbound_parts,
}

pub data Rekey : Type 0 where
  send : (seq now_secs : ℕ) → Option Bytes → Rekey
  receive : (public : Bytes) (seq now_secs : ℕ) → Rekey

abbrev pub state_after : ConnectSessionState → Result DhError RekeyResult → ConnectSessionState
state_after s (ok r) = r.updated_state
state_after s (err e) = s

-- What no re-keying changes, and what it only raises.
pub record Later (s t : ConnectSessionState) : Type 0 where
  pub signing_public : s.signing_public ≡ t.signing_public
  pub signing_secret : s.signing_secret ≡ t.signing_secret
  pub created_at : s.created_at ≡ t.created_at
  pub expires_at : s.expires_at ≡ t.expires_at
  pub last_seen_seq : s.last_seen_seq ≤ t.last_seen_seq
  pub last_sent_seq : s.last_sent_seq ≤ t.last_sent_seq

Later-refl : (s : ConnectSessionState) → Later s s
Later-refl s = record {
  signing_public = refl;
  signing_secret = refl;
  created_at = refl;
  expires_at = refl;
  last_seen_seq = omega arith;
  last_sent_seq = omega arith;
}

Later-trans : (s t u : ConnectSessionState) → Later s t → Later t u → Later s u
Later-trans s t u a b = record {
  signing_public = a.signing_public ∙ b.signing_public;
  signing_secret = a.signing_secret ∙ b.signing_secret;
  created_at = a.created_at ∙ b.created_at;
  expires_at = a.expires_at ∙ b.expires_at;
  last_seen_seq = omega (arith, a.last_seen_seq, b.last_seen_seq);
  last_sent_seq = omega (arith, a.last_sent_seq, b.last_sent_seq);
}

outbound_Later :
    (s : ConnectSessionState) (public secret : Bytes) (seq : ℕ) (root : Bytes)
    → leb seq s.last_sent_seq ≡ false
    → Later s (outbound_result s public secret seq root).updated_state
outbound_Later s public secret seq root h = record {
  signing_public = refl;
  signing_secret = refl;
  created_at = refl;
  expires_at = refl;
  last_seen_seq = omega arith;
  last_sent_seq = ground arith;
}

inbound_Later :
    (s : ConnectSessionState) (public : Bytes) (seq : ℕ) (root : Bytes)
    → leb seq s.last_seen_seq ≡ false
    → Later s (inbound_result s public seq root).updated_state
inbound_Later s public seq root h = record {
  signing_public = refl;
  signing_secret = refl;
  created_at = refl;
  expires_at = refl;
  last_seen_seq = ground arith;
  last_sent_seq = omega arith;
}

module _ (k : Crypto) (session_id : Bytes) where
  unfoldable pub apply : ConnectSessionState → Rekey → ConnectSessionState
  apply s (send seq now random) = state_after s (rekey_outbound k s session_id seq now random)
  apply s (receive public seq now) = state_after s (rekey_inbound k s public session_id seq now)

  unfoldable pub rekeyed : ConnectSessionState → List Rekey → ConnectSessionState
  rekeyed s [] = s
  rekeyed s (r ∷ rs) = rekeyed (apply s r) rs

  send_Later :
      (s : ConnectSessionState) (seq now : ℕ) (random : Option Bytes) (r : RekeyResult)
      → rekey_outbound k s session_id seq now random ≡ ok r
      → Later s r.updated_state
  send_Later s seq now none r h = absurd (outbound_needs_random k s session_id seq now r h)
  send_Later s seq now (some random) r h =
      let (shared, root, _, _, fresh, _, _, made) =
        outbound_parts k s session_id seq now random r h in
      subst (λ q. Later s q.updated_state) made
        (outbound_Later s (k.hex_encode (k.x25519_public random)) (k.hex_encode random) seq root
          fresh)

  receive_Later :
      (s : ConnectSessionState) (public : Bytes) (seq now : ℕ) (r : RekeyResult)
      → rekey_inbound k s public session_id seq now ≡ ok r
      → Later s r.updated_state × (r.updated_state.last_seen_seq ≡ seq)
  receive_Later s public seq now r h =
      let (shared, root, _, _, fresh, _, _, made) =
        inbound_parts k s public session_id seq now r h in
      (
        subst (λ q. Later s q.updated_state) made (inbound_Later s public seq root fresh),
        sym (ap (λ q. q.updated_state.last_seen_seq) made),
      )

  apply-Later : (s : ConnectSessionState) (r : Rekey) → Later s (apply s r)
  unfolding apply
  apply-Later s (send seq now random) =
      elim (Result-cases (rekey_outbound k s session_id seq now random)) [
        | inl (r, e) ↦ rw (e, apply) (send_Later s seq now random r e)
        | inr (x, e) ↦ rw (e, apply) (Later-refl s)
      ]
  apply-Later s (receive public seq now) =
      elim (Result-cases (rekey_inbound k s public session_id seq now)) [
        | inl (r, e) ↦ rw (e, apply) ((receive_Later s public seq now r e).0)
        | inr (x, e) ↦ rw (e, apply) (Later-refl s)
      ]

  -- Whatever re-keyings are tried, in any order and whether or not they succeed, the signing keys and
  -- the times of the session stay, and neither sequence number goes down.
  pub rekeyed-Later : (s : ConnectSessionState) (rs : List Rekey) → Later s (rekeyed s rs)
  unfolding rekeyed
  rekeyed-Later s [] = Later-refl s
  rekeyed-Later s (r ∷ rs) =
      Later-trans s (apply s r) (rekeyed (apply s r) rs) (apply-Later s r)
        (rekeyed-Later (apply s r) rs)

  stale_rejected :
      (s : ConnectSessionState) (public : Bytes) (seq now : ℕ)
      → seq ≤ s.last_seen_seq
      → is_ok (rekey_inbound k s public session_id seq now) ≡ false
  stale_rejected s public seq now h =
      elim (Result-cases (rekey_inbound k s public session_id seq now)) [
        | inl (r, e) ↦
            let (_, _, _, _, fresh, _, _, _) = inbound_parts k s public session_id seq now r e in
            absurd (ground arith)
        | inr (x, e) ↦ ap is_ok e
      ]

  -- Once a message has been accepted, no message with its sequence number or a lower one is accepted
  -- again, after any further history and under any key.
  pub replay_rejected :
      (s : ConnectSessionState) (public : Bytes) (seq now : ℕ) (r : RekeyResult) (rs : List Rekey)
      (public' : Bytes) (seq' now' : ℕ)
      → rekey_inbound k s public session_id seq now ≡ ok r
      → seq' ≤ seq
      → is_ok (rekey_inbound k (rekeyed r.updated_state rs) public' session_id seq' now') ≡ false
  replay_rejected s public seq now r rs public' seq' now' h le =
      stale_rejected (rekeyed r.updated_state rs) public' seq' now' (
        omega (
          arith,
          (receive_Later s public seq now r h).1,
          (rekeyed-Later r.updated_state rs).last_seen_seq,
        ))

  -- Once the clock has passed the end of a session that has one, every re-keying fails, after any
  -- history.
  expired_rejected :
      (s : ConnectSessionState) (rs : List Rekey) (public : Bytes) (seq now : ℕ)
      (random : Option Bytes)
      → 0 < s.expires_at
      → s.expires_at ≤ now
      → (rekey_inbound k (rekeyed s rs) public session_id seq now ≡ err session_expired)
        × (rekey_outbound k (rekeyed s rs) session_id seq now random ≡ err session_expired)
  unfolding rekey_inbound rekey_outbound ensure_not_expired is_expired
  expired_rejected s rs public seq now random pos late =
      let same = (rekeyed-Later s rs).expires_at in
      let nonzero : ((rekeyed s rs).expires_at == 0) ≡ false = ground arith in
      let over : leb (rekeyed s rs).expires_at now ≡ true = ground arith in
      (rw (nonzero, over) refl, rw (nonzero, over) refl)

-- The number proposed for the next message is above the last one sent, and is one that a re-keying
-- accepts; unless the last one is the highest number there is, or the clock fails.
next_outbound_seq_fresh :
    (s : ConnectSessionState) (clock : Option ℕ) (seq : ℕ)
    → s.last_sent_seq + 1 < 2 ^ 64
    → next_outbound_seq s clock ≡ ok seq
    → (s.last_sent_seq < seq) × (leb seq s.last_sent_seq ≡ false) × ((seq == 0) ≡ false)
unfolding next_outbound_seq
next_outbound_seq_fresh s none seq small h = cc
next_outbound_seq_fresh s (some now) seq small h = ground arith
