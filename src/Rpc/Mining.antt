-- ===== src/Rpc/Mining.antt =====
-- shawncoin/src/rpc/api.cpp: the `mining.` branches of handleRpcRequest and `blockchain.info`.
use shawncoin.Prelude.{
  ℕ, ◌+◌, ◌%◌, ◌^◌, true, not, ◌||◌, Option, none, some, List, [], ◌∷◌, length, ◌==◌, if◌then◌else◌,
  codes,
}
use shawncoin.Wire.{Bytes}
use shawncoin.Types.{Transaction, get_block_subsidy}
use shawncoin.Crypto.{Digest}
use shawncoin.Util.{uint256_to_hex, hex_encode, hex_decode}
use shawncoin.Transaction.{serialize_transaction}
use shawncoin.Block.{deserialize_block}
use shawncoin.Difficulty.{easy_mine_difficulty}
use shawncoin.Blockchain.{Blockchain, add_block, get_height, get_best_block_hash}
use shawncoin.Mempool.{Mempool, get_block_template}
use shawncoin.Miner.Control.{start, stop}
use shawncoin.Keys.{Curve}
use shawncoin.Wallet.{Wallet, generate_new_address}
use shawncoin.Json.{
  Json, string, number, boolean, null, array, no_items, contains, at_key, assign_at, is_object,
  get_string, get_int, push_back, parse,
}
use shawncoin.Rpc.{
  RpcContext, Moment, Answer, Outcome, returned, thrown, reply, api_blockchain_info, pool_size,
}

unfoldable pub rpc_start : Json → Answer → RpcContext → RpcContext × Outcome
rpc_start params resp ctx = elim ctx.miner [
  | none ↦ (ctx, thrown (codes "no miner"))
  | some m ↦
      let count =
        if is_object params
        then (if contains (codes "threads") params
            then get_int (at_key (codes "threads") params)
            else 1)
        else 1 in
      (record ctx { miner = some (start count m) }, reply (boolean true) resp)
]

unfoldable pub rpc_stop : Answer → RpcContext → RpcContext × Outcome
rpc_stop resp ctx = elim ctx.miner [
  | none ↦ (ctx, thrown (codes "no miner"))
  | some m ↦ (record ctx { miner = some (stop m) }, reply (boolean true) resp)
]

unfoldable pub rpc_get_status : Moment → Answer → RpcContext → RpcContext × Outcome
rpc_get_status m resp ctx = elim ctx.miner [
  | none ↦ (ctx, thrown (codes "no miner"))
  | some miner ↦
      let s =
        assign_at (codes "hashrate") (number m.hash_rate)
          (assign_at (codes "isMining") (boolean miner.mining) null) in
      (ctx, reply s resp)
]

-- The text is parsed as a request is, which throws nothing.
unfoldable pub rpc_info : Answer → RpcContext → RpcContext × Outcome
rpc_info resp ctx = (ctx, reply (parse (api_blockchain_info ctx)) resp)

-- `t["txs"] = json::array()` and `t["txs"].push_back(hx)`, both on copies.
unfoldable pub template_txs : Json → List Transaction → Json
template_txs t [] = t
template_txs t (tx ∷ txs) =
    let dropped =
      push_back (string (hex_encode (serialize_transaction tx))) (at_key (codes "txs") t) in
    template_txs t txs

-- The fields in the order in which they are assigned.
unfoldable pub template_fields : ℕ → Blockchain → Option Mempool → Json
template_fields now chain pool =
    let height = (get_height chain + 1) % 2 ^ 64 in
    let t1 =
      assign_at (codes "previous_hash") (string (uint256_to_hex (get_best_block_hash chain)))
        null in
    let t2 = assign_at (codes "height") (number height) t1 in
    let t3 = assign_at (codes "version") (number 1) t2 in
    let t4 = assign_at (codes "time") (number now) t3 in
    let t5 = assign_at (codes "bits") (number easy_mine_difficulty) t4 in
    let t6 = assign_at (codes "target") (number easy_mine_difficulty) t5 in
    let t7 = assign_at (codes "coinbasevalue") (number (get_block_subsidy height)) t6 in
    assign_at (codes "mempool_tx_count") (number (pool_size pool)) t7

module _ (c : Digest) (e : Curve) where
  -- The payout address that is suggested is a new one of the wallet.
  unfoldable pub with_payout : Option Wallet → Json → Option Wallet × Json
  with_payout none t = (none, t)
  with_payout (some w) t =
      let (w', address) = generate_new_address c e w in
      (some w', assign_at (codes "coinbase_address") (string address) t)

  unfoldable pub with_txs : Option Mempool → Json → Json
  unfolding template_txs
  with_txs none t = t
  with_txs (some pool) t =
      template_txs (assign_at (codes "txs") (array no_items) t) (get_block_template pool)

  unfoldable pub rpc_get_block_template : Moment → Answer → RpcContext → RpcContext × Outcome
  unfolding with_payout with_txs template_fields
  rpc_get_block_template m resp ctx = elim ctx.chain [
    | none ↦ (ctx, thrown (codes "no chain"))
    | some chain ↦
        let (wallet, t) = with_payout ctx.wallet (template_fields m.now chain ctx.mempool) in
        (record ctx { wallet = wallet }, reply (with_txs ctx.mempool t) resp)
  ]

  -- Of a block that has been read: the chain with it, or as it was.
  unfoldable pub submit_block :
      Moment → Bytes → Answer → Blockchain → RpcContext → RpcContext × Outcome
  submit_block m raw resp chain ctx = elim (deserialize_block raw) [
    | none ↦ (ctx, thrown (codes "failed to deserialize block"))
    | some block ↦
        let height = (get_height chain + 1) % 2 ^ 64 in
        let (chain', ok) = add_block c m.now block height chain in
        let resp' =
          if ok
          then assign_at (codes "height") (number height)
              (assign_at (codes "result") (boolean true) resp.body)
          else assign_at (codes "result") (boolean true) resp.body in
        (record ctx { chain = some chain' }, returned (assign_at (codes "id") resp.id resp'))
  ]

  unfoldable pub rpc_submit : Moment → Json → Answer → RpcContext → RpcContext × Outcome
  unfolding submit_block
  rpc_submit m params resp ctx = elim ctx.chain [
    | none ↦ (ctx, thrown (codes "no chain"))
    | some chain ↦
        let raw = hex_decode (get_string (at_key (codes "blockhex") params)) in
        if not (is_object params) || not (contains (codes "blockhex") params)
        then (ctx, thrown (codes "missing blockhex"))
        else if length raw == 0
        then (ctx, thrown (codes "invalid hex"))
        else submit_block m raw resp chain ctx
  ]
