-- ===== src/Connect/Session/Conversation.antt =====
-- A conversation: messages in both directions, each received before the next is sent.
use bee_engine.Base.{
  ℕ, ◌≡◌, refl, sym, ap, ap₂, ◌∙◌, Bool, true, List, [], ◌∷◌, Option, none, some, Result, ok, ◌>>=◌,
  >>=-eq-ok, if◌then◌else◌, subst, Bool-cases, inl, inr, is_ok, ok-injective,
}
use bee_engine.Base.Bytes.{Bytes}
use bee_engine.Base.Lists.{length, All}
use bee_engine.Connect.Keys.{Crypto, DhError}
use bee_engine.Connect.Session.{
  ConnectSessionState, RekeyResult, ensure_not_expired, rekey_outbound, rekey_inbound,
}
use bee_engine.Connect.Session.Steps.{inbound_parts}
use bee_engine.Connect.Session.Ratchet.{InStep, InStep-sym, message_received}

pub record Letter : Type 0 where
  pub from_first : Bool
  pub random : Bytes
  pub seq : ℕ
  pub sent_at : ℕ
  pub received_at : ℕ

-- Both ends, the roots that messages were encrypted with, and those they were decrypted with.
pub record Exchange : Type 0 where
  pub first : ConnectSessionState
  pub second : ConnectSessionState
  pub encrypted_with : List Bytes
  pub decrypted_with : List Bytes

abbrev public_of : Option Bytes → Bytes
public_of none = []
public_of (some public) = public

module _ (k : Crypto) (session_id : Bytes) where
  -- One message: the sender re-keys, and the receiver re-keys with the public key in the envelope.
  unfoldable pub carry :
      ConnectSessionState
      → ConnectSessionState
      → Letter
      → Result DhError (RekeyResult × RekeyResult)
  carry sender receiver l = do
    sent ← rekey_outbound k sender session_id l.seq l.sent_at (some l.random)
    received ←
        rekey_inbound k receiver (public_of sent.new_dh_public) session_id l.seq l.received_at
    ok (sent, received)

  unfoldable pub exchange_one : Exchange → Letter → Result DhError Exchange
  exchange_one x l =
      if l.from_first
      then (do
        p ← carry x.first x.second l
        ok (record {
          first = p.0.updated_state;
          second = p.1.updated_state;
          encrypted_with = p.0.message_encryption_root ∷ x.encrypted_with;
          decrypted_with = p.1.message_encryption_root ∷ x.decrypted_with;
        }))
      else (do
        p ← carry x.second x.first l
        ok (record {
          first = p.1.updated_state;
          second = p.0.updated_state;
          encrypted_with = p.0.message_encryption_root ∷ x.encrypted_with;
          decrypted_with = p.1.message_encryption_root ∷ x.decrypted_with;
        }))

  unfoldable pub converse : Exchange → List Letter → Result DhError Exchange
  converse x [] = ok x
  converse x (l ∷ ls) = do y ← exchange_one x l; converse y ls

  -- Both ends are in step and every message was decrypted with the root it was encrypted with.
  pub record Sound (x : Exchange) : Type 0 where
    pub in_step : InStep k x.first x.second
    pub same_roots : x.encrypted_with ≡ x.decrypted_with

  carried :
      (s t : ConnectSessionState) (l : Letter) (p : RekeyResult × RekeyResult)
      → InStep k s t
      → length l.random ≡ 32
      → carry s t l ≡ ok p
      → InStep k p.0.updated_state p.1.updated_state
        × (p.0.message_encryption_root ≡ p.1.message_encryption_root)
  unfolding carry
  carried s t l p v size h =
      let (sent, sent_eq, h1) =
        >>=-eq-ok (rekey_outbound k s session_id l.seq l.sent_at (some l.random)) _ h in
      let (got, got_eq, h2) =
        >>=-eq-ok (rekey_inbound k t (public_of sent.new_dh_public) session_id l.seq l.received_at)
          _ h1 in
      let alive =
        (inbound_parts k t (public_of sent.new_dh_public) session_id l.seq l.received_at got
          got_eq).2 in
      let (public, q, public_eq, q_eq, roots, again) =
        message_received k s t session_id l.random l.seq l.sent_at l.received_at sent v size sent_eq
          alive in
      let same : q ≡ got = ok-injective (
        sym q_eq
        ∙ ap (λ x. rekey_inbound k t (public_of x) session_id l.seq l.received_at) (sym public_eq)
        ∙ got_eq) in
      let pair : ◌≡◌ {A = RekeyResult × RekeyResult} (sent, got) p = ok-injective h2 in
      subst
        (λ (z : RekeyResult × RekeyResult).
          InStep k z.0.updated_state z.1.updated_state
          × (z.0.message_encryption_root ≡ z.1.message_encryption_root))
        pair
        (subst
          (λ x.
            InStep k sent.updated_state x.updated_state
            × (sent.message_encryption_root ≡ x.message_encryption_root))
          same (again, sym roots))

  exchange_one-Sound :
      (x : Exchange) (l : Letter) (y : Exchange)
      → Sound x
      → length l.random ≡ 32
      → exchange_one x l ≡ ok y
      → Sound y
  unfolding exchange_one carry
  exchange_one-Sound x l y v size h = elim (Bool-cases l.from_first) [
    | inl e ↦
        let (p, p_eq, made) = >>=-eq-ok (carry x.first x.second l) _ (rw e at h) in
        let (next, roots) = carried x.first x.second l p v.in_step size p_eq in
        subst Sound (ok-injective made)
          (record { in_step = next; same_roots = ap₂ (λ a b. a ∷ b) roots v.same_roots })
    | inr e ↦
        let (p, p_eq, made) = >>=-eq-ok (carry x.second x.first l) _ (rw e at h) in
        let (next, roots) =
          carried x.second x.first l p (InStep-sym k x.first x.second v.in_step) size p_eq in
        subst Sound (ok-injective made) (record {
          in_step = InStep-sym k p.0.updated_state p.1.updated_state next;
          same_roots = ap₂ (λ a b. a ∷ b) roots v.same_roots;
        })
  ]

  -- Through any conversation in which each message is received before the next is sent, the two ends
  -- of a session remain in step, and every message is decrypted with the root it was encrypted with.
  pub converse-Sound :
      (x : Exchange) (ls : List Letter) (y : Exchange)
      → Sound x
      → All (λ l. length l.random ≡ 32) ls
      → converse x ls ≡ ok y
      → Sound y
  unfolding converse
  converse-Sound x [] y v sizes h = subst Sound (ok-injective h) v
  converse-Sound x (l ∷ ls) y v sizes h =
      let (z, z_eq, rest) = >>=-eq-ok (exchange_one x l) _ h in
      converse-Sound z ls y (exchange_one-Sound x l z v sizes.0 z_eq) sizes.1 rest

  -- Such a conversation stops only where a sender's re-keying fails or a receiver's session has
  -- expired: what was sent is received.
  pub carry_delivers :
      (s t : ConnectSessionState) (l : Letter) (sent : RekeyResult)
      → InStep k s t
      → length l.random ≡ 32
      → rekey_outbound k s session_id l.seq l.sent_at (some l.random) ≡ ok sent
      → ensure_not_expired t l.received_at ≡ ok tt
      → is_ok (carry s t l) ≡ true
  unfolding carry
  carry_delivers s t l sent v size sent_eq alive =
      let (public, q, public_eq, q_eq, _, _) =
        message_received k s t session_id l.random l.seq l.sent_at l.received_at sent v size sent_eq
          alive in
      rw (sent_eq, public_eq, q_eq) refl
