-- ===== src/Rpc.antt =====
-- shawncoin/src/rpc/api.cpp: what the requests work on, and the three texts of the REST interface.
-- A null context acts as one whose four pointers are null.
pub mod Wallets
pub mod Sending
pub mod Mining
pub mod Dispatch
pub mod Null
pub mod Response
pub mod Payment
use shawncoin.Prelude.{
  ℕ, ◌+◌, ◌%◌, ◌^◌, Bool, true, false, Option, none, some, List, [], ◌∷◌, ◌++◌, length, map, codes,
}
use shawncoin.Wire.{Bytes}
use shawncoin.Crypto.{Digest}
use shawncoin.Util.{uint256_to_hex, hex_to_uint256}
use shawncoin.Block.{get_hash}
use shawncoin.Blockchain.{
  Blockchain, get_height, get_best_block_hash, get_block, get_block_by_height,
}
use shawncoin.Mempool.{Mempool, size}
use shawncoin.Miner.Control.{Miner}
use shawncoin.Wallet.{Wallet}
use shawncoin.Json.{Json, string, number, null, assign_at, decimal}

pub record RpcContext : Type 0 where
  pub chain : Option Blockchain
  pub mempool : Option Mempool
  pub wallet : Option Wallet
  pub miner : Option Miner
  -- The files that `wallet.backup` has written, the last first. The credentials are arguments of
  -- `check_auth`.
  pub files : List (Bytes × Bytes)

-- How a handler ends: it returns its response, or an exception with a text leaves it, or a null
-- pointer has been printed as a word of a mnemonic.
pub data Outcome : Type 0 where
  returned : Json → Outcome
  thrown : Bytes → Outcome
  undefined : Outcome

-- What a host supplies while a request is handled: its time, random bytes (`none` where they fail),
-- and the hash rate of the miner, a uint64_t.
pub record Moment : Type 0 where
  pub now : ℕ
  pub random : Option Bytes
  pub hash_rate : ℕ

-- The response so far, and the id that it is to have.
pub record Answer : Type 0 where
  pub body : Json
  pub id : Json

-- `resp["result"] = v; resp["id"] = id;`
unfoldable pub reply : Json → Answer → Outcome
reply v resp = returned (assign_at (codes "id") resp.id (assign_at (codes "result") v resp.body))

unfoldable pub pool_size : Option Mempool → ℕ
pool_size none = 0
pool_size (some pool) = size pool

unfoldable pub api_blockchain_info : RpcContext → Bytes
unfolding pool_size
api_blockchain_info ctx = elim ctx.chain [
  | none ↦ codes "{}"
  | some chain ↦
      codes "{\"chain\":\"shawncoin\",\"blocks\":"
      ++ (decimal (get_height chain)
          ++ (codes ",\"bestblockhash\":\""
              ++ (uint256_to_hex (get_best_block_hash chain)
                  ++ (codes "\",\"mempool_size\":"
                      ++ (decimal (pool_size ctx.mempool) ++ codes "}")))))
]

unfoldable pub api_block_by_hash : Bytes → RpcContext → Bytes
api_block_by_hash hash ctx = elim ctx.chain [
  | none ↦ codes "{}"
  | some chain ↦ elim (get_block (hex_to_uint256 hash) chain) [
    | none ↦ codes "{\"error\":\"block not found\"}"
    | some block ↦
        codes "{\"hash\":\""
        ++ (hash
            ++ (codes "\",\"height\":0,\"txcount\":"
                ++ (decimal (length block.transactions) ++ codes "}")))
  ]
]

unfoldable pub api_block_by_height : Digest → ℕ → RpcContext → Bytes
api_block_by_height c height ctx = elim ctx.chain [
  | none ↦ codes "{}"
  | some chain ↦ elim (get_block_by_height height chain) [
    | none ↦ codes "{\"error\":\"block not found\"}"
    | some block ↦
        codes "{\"hash\":\""
        ++ (uint256_to_hex (get_hash c block)
            ++ (codes "\",\"height\":"
                ++ (decimal height
                    ++ (codes ",\"txcount\":"
                        ++ (decimal (length block.transactions) ++ codes "}")))))
  ]
]
