-- ===== src/Wallet/History/Transactions/Rewards.antt =====
-- The rewards of the miner's game, from the events to the transactions.
use bee_engine.Base.{
  ℕ, ◌<◌, ◌^◌, ◌≡◌, refl, List, [], ◌∷◌, none, some, ok, ==_iff, inl, inr, Option-cases, arith,
}
use bee_engine.Base.Bytes.{Bytes}
use bee_engine.Base.Decimal.{to_decimal, parse_uint-to_decimal}
use bee_engine.Wallet.History.{
  EccMsg, GqlEventNode, Client, reward_messages, reward_message, game_root_address,
}
use bee_engine.Wallet.History.Transactions.{TxData, mining, collect, mining_tx, value_of}

module _ {Json E : Type 0} (client : Client Json E) where
  -- The transaction of an event that decodes to a reward.
  abbrev pub reward_txs : List GqlEventNode → List TxData
  reward_txs [] = []
  reward_txs (node ∷ nodes) =
      let rest = reward_txs nodes in
      elim (client.decode_reward node) [
        | none ↦ rest
        | some reward ↦
            record {
              id = node.msg_id;
              tx_type = mining;
              created_at = node.created_at;
              value = reward;
              src_name = none;
            }
            ∷ rest
      ]

  -- Rewards are 128-bit numbers.
  abbrev pub Rewards128 : Type 0
  Rewards128 =
      (node : GqlEventNode) (reward : ℕ)
      → client.decode_reward node ≡ some reward
      → reward < 2 ^ 128

  abbrev message_of : (popitgame : Bytes) (currency_id reward : ℕ) → GqlEventNode → EccMsg
  message_of popitgame currency_id reward node = record {
    id = node.msg_id;
    src = game_root_address;
    dst = popitgame;
    created_at = node.created_at;
    value_other = record { currency = currency_id; value = to_decimal reward } ∷ [];
  }

  value_of-message_of :
      (popitgame : Bytes) (currency_id reward : ℕ) (node : GqlEventNode)
      → reward < 2 ^ 128
      → value_of currency_id (message_of popitgame currency_id reward node) {E = E} ≡ ok reward
  unfolding value_of
  value_of-message_of popitgame currency_id reward node fits =
      let same = (==_iff currency_id currency_id).1 refl in
      let read = parse_uint-to_decimal 128 reward fits (omega arith) in ground (arith, same, read)

  -- Every event that decodes to a reward becomes a transaction of that reward, in the order of the
  -- events, and none of them fails: the amount that is printed into the message is read back.
  pub collect-reward_messages :
      Rewards128
      → (popitgame : Bytes) (currency_id : ℕ) (nodes : List GqlEventNode)
      → collect (mining_tx {E = E} currency_id) (reward_messages client popitgame currency_id nodes)
        ≡ ok (reward_txs nodes)
  unfolding collect reward_messages reward_message mining_tx
  collect-reward_messages bounded popitgame currency_id [] = refl
  collect-reward_messages bounded popitgame currency_id (node ∷ nodes) =
      let rest = collect-reward_messages bounded popitgame currency_id nodes in
      elim (Option-cases (client.decode_reward node)) [
        | inl other ↦ rw (other, reward_messages, reward_message, reward_txs) rest
        | inr (reward, e) ↦
            let value =
              value_of-message_of popitgame currency_id reward node (bounded node reward e) in
            rw (e, reward_txs, reward_messages, reward_message, collect, mining_tx, value, rest)
              refl
      ]
