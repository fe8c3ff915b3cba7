-- ===== src/Rpc/Sending.antt =====
-- shawncoin/src/rpc/api.cpp: the branch `wallet.sendtoaddress` of handleRpcRequest.
use shawncoin.Prelude.{
  ℕ, zero, suc, ◌+◌, ◌-◌, ◌*◌, ◌%◌, ◌^◌, Bool, true, false, not, ◌&&◌, ◌||◌, none, some, List, [],
  ◌∷◌, map, length, replicate, ltb, leb, ◌==◌, if◌then◌else◌, codes,
}
use shawncoin.Wire.{Bytes}
use shawncoin.Types.{OutPoint, Transaction, TxInput, TxOutput}
use shawncoin.Crypto.{Digest}
use shawncoin.Util.{hex_encode}
use shawncoin.Transaction.{beq_bytes, serialize_transaction}
use shawncoin.Block.{p2pkh_script}
use shawncoin.Utxo.{Entry, snapshot}
use shawncoin.Blockchain.{Blockchain}
use shawncoin.Mempool.{Mempool, add}
use shawncoin.Address.{address_to_pub_key_hash}
use shawncoin.Keys.{Curve}
use shawncoin.Wallet.{
  Wallet, p2pkh_hash, get_address_count, derive_address_at, generate_new_address, sign_transaction,
}
use shawncoin.Json.{Json, string, is_array, get_string, get_uint64, size, at_index}
use shawncoin.Rpc.{RpcContext, Answer, Outcome, thrown, reply}

-- What sendtoaddress takes, with the amount it comes to, until the amount is enough.
unfoldable pub select : ℕ → ℕ → List (OutPoint × Entry) → List (OutPoint × Entry) × ℕ
select need total [] = ([], total)
select need total ((op, entry) ∷ rest) =
    let now = (total + entry.amount) % 2 ^ 64 in
    let (more, reached) = select need now rest in
    if leb need now then ((op, entry) ∷ [], now) else ((op, entry) ∷ more, reached)

unfoldable pub spending_input : OutPoint × Entry → TxInput
spending_input (op, entry) = record {
  prev_tx_hash = op.hash;
  output_index = op.index;
  signature = [];
  pubkey = [];
}

-- An output that pays to a hash of 20 bytes, and otherwise to zeros.
unfoldable pub paying_output : ℕ → Bytes → TxOutput
paying_output amount hash = record {
  amount = amount;
  script_pubkey = p2pkh_script (if length hash == 20 then hash else replicate 20 0);
}

unfoldable pub payment : List (OutPoint × Entry) → List TxOutput → Transaction
unfolding spending_input
payment selected outputs = record {
  version = 1;
  inputs = map spending_input selected;
  outputs = outputs;
  lock_time = 0;
  cached_txid = none;
}

-- `total - amount - fee` on uint64_t.
unfoldable pub change_of : ℕ → ℕ → ℕ → ℕ
change_of total amount fee = (total + 2 * 2 ^ 64 - amount - fee) % 2 ^ 64

module _ (c : Digest) (e : Curve) where
  -- Some derived address, of `left` from i on, has the hash.
  unfoldable pub derived_has : Wallet → Bytes → ℕ → ℕ → Bool
  derived_has w h zero i = false
  derived_has w h (suc left) i =
      let hash = address_to_pub_key_hash c (derive_address_at c e (i % 2 ^ 32) w) in
      elim ((length hash == 20) && beq_bytes hash h) [
        | true ↦ true
        | false ↦ derived_has w h left (i + 1)
      ]

  -- The unspent outputs that pay to the wallet.
  unfoldable pub wallet_outputs : Wallet → List (OutPoint × Entry) → List (OutPoint × Entry)
  unfolding derived_has
  wallet_outputs w [] = []
  wallet_outputs w ((op, entry) ∷ snap) = elim (p2pkh_hash entry.script_pubkey) [
    | none ↦ wallet_outputs w snap
    | some h ↦ elim (derived_has w h (get_address_count w) 0) [
      | true ↦ (op, entry) ∷ wallet_outputs w snap
      | false ↦ wallet_outputs w snap
    ]
  ]

  -- The outputs, and the wallet after a change address has been made.
  unfoldable pub with_change : Bytes → ℕ → ℕ → Wallet → List TxOutput × Wallet
  unfolding paying_output
  with_change dest amount change w =
      let out = paying_output amount (address_to_pub_key_hash c dest) in
      let (w', address) = generate_new_address c e w in
      if ltb 0 change
      then (out ∷ paying_output change (address_to_pub_key_hash c address) ∷ [], w')
      else (out ∷ [], w)

  -- From the selected outputs on: build, sign, add to the pool, reply.
  unfoldable pub send_selected :
      Bytes
      → ℕ
      → ℕ
      → List (OutPoint × Entry)
      → ℕ
      → Blockchain
      → Mempool
      → Wallet
      → Answer
      → RpcContext
      → RpcContext × Outcome
  unfolding with_change payment change_of
  send_selected dest amount fee selected total chain pool w resp ctx =
      let (outputs, w') = with_change dest amount (change_of total amount fee) w in
      let (tx, signed) = sign_transaction c e (some chain.utxo) w' (payment selected outputs) in
      let (pool', added) = add c tx fee pool in
      if not signed
      then (record ctx { wallet = some w' }, thrown (codes "failed to sign tx"))
      else if not added
      then (
        record ctx { wallet = some w'; mempool = some pool' },
        thrown (codes "mempool rejected tx"),
      )
      else (
        record ctx { wallet = some w'; mempool = some pool' },
        reply (string (hex_encode (serialize_transaction tx))) resp,
      )

  unfoldable pub send_to_address :
      Json → Answer → Blockchain → Mempool → Wallet → RpcContext → RpcContext × Outcome
  unfolding select wallet_outputs send_selected
  send_to_address params resp chain pool w ctx =
      let dest = get_string (at_index 0 params) in
      let amount = get_uint64 (at_index 1 params) in
      let fee = if leb 3 (size params) then get_uint64 (at_index 2 params) else 0 in
      let need = (amount + fee) % 2 ^ 64 in
      let (selected, total) = select need 0 (wallet_outputs w (snapshot chain.utxo)) in
      if not (is_array params) || ltb (size params) 2
      then (ctx, thrown (codes "params: [address, amount_satoshis]"))
      else if ltb total need
      then (ctx, thrown (codes "insufficient funds"))
      else send_selected dest amount fee selected total chain pool w resp ctx

  unfoldable pub rpc_send_to_address : Json → Answer → RpcContext → RpcContext × Outcome
  unfolding send_to_address
  rpc_send_to_address params resp ctx = elim ctx.wallet [
    | none ↦ (ctx, thrown (codes "no wallet/chain/mempool"))
    | some w ↦ elim ctx.chain [
      | none ↦ (ctx, thrown (codes "no wallet/chain/mempool"))
      | some chain ↦ elim ctx.mempool [
        | none ↦ (ctx, thrown (codes "no wallet/chain/mempool"))
        | some pool ↦ send_to_address params resp chain pool w ctx
      ]
    ]
  ]
