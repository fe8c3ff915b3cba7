-- ===== src/Rpc/Wallets.antt =====
-- shawncoin/src/rpc/api.cpp: the `wallet.` branches of handleRpcRequest. Each takes the parameters of
-- the request and the response so far, and changes the context; what was changed before an exception
-- stays changed.
use shawncoin.Prelude.{
  true, false, not, ◌&&◌, ◌||◌, none, some, List, [], ◌∷◌, if◌then◌else◌, codes,
}
use shawncoin.Wire.{Bytes}
use shawncoin.Types.{OutPoint}
use shawncoin.Crypto.{Digest}
use shawncoin.Util.{uint256_to_hex}
use shawncoin.Utxo.{Entry, snapshot}
use shawncoin.Keys.{Curve}
use shawncoin.Wallet.{Wallet, p2pkh_hash, get_balance, backup, generate_new_address, has_hash160}
use shawncoin.Wallet.Storage.{Cipher, create, restore}
use shawncoin.Json.{
  Json, string, number, boolean, null, array, no_items, contains, at_key, assign_at, is_object,
  get_string, push_back,
}
use shawncoin.Rpc.{RpcContext, Moment, Answer, Outcome, thrown, undefined, reply}

-- The text of an optional string parameter.
unfoldable pub param_text : Bytes → Json → Bytes
param_text key params =
    if is_object params && contains key params then get_string (at_key key params) else []

-- `resp["result"] = "..."`: a literal is assigned as a bool.
unfoldable pub rpc_backup : Json → Answer → RpcContext → RpcContext × Outcome
rpc_backup params resp ctx = elim ctx.wallet [
  | none ↦ (ctx, thrown (codes "no wallet"))
  | some w ↦
      if not (is_object params) || not (contains (codes "path") params)
      then (ctx, thrown (codes "missing path"))
      else (
        record ctx { files = (get_string (at_key (codes "path") params), backup w) ∷ ctx.files },
        reply (boolean true) resp,
      )
]

unfoldable pub rpc_get_balance : Answer → RpcContext → RpcContext × Outcome
rpc_get_balance resp ctx = elim ctx.wallet [
  | none ↦ (ctx, thrown (codes "no wallet/chain available"))
  | some w ↦ elim ctx.chain [
    | none ↦ (ctx, thrown (codes "no wallet/chain available"))
    | some chain ↦ (ctx, reply (number (get_balance (some chain.utxo) w)) resp)
  ]
]

module _ (c : Digest) (e : Curve) where
  unfoldable pub rpc_create : Cipher → Moment → Json → Answer → RpcContext → RpcContext × Outcome
  unfolding param_text
  rpc_create k m params resp ctx = elim ctx.wallet [
    | none ↦ (ctx, thrown (codes "no wallet"))
    | some w ↦ elim (create k c m.random (param_text (codes "passphrase") params) w) [
      | none ↦ (ctx, undefined)
      | some (w', ok) ↦ (
        record ctx { wallet = some w' },
        if ok then reply (boolean true) resp else thrown (codes "failed to create wallet"),
      )
    ]
  ]

  unfoldable pub rpc_get_new_address : Answer → RpcContext → RpcContext × Outcome
  rpc_get_new_address resp ctx = elim ctx.wallet [
    | none ↦ (ctx, thrown (codes "no wallet"))
    | some w ↦
        let (w', address) = generate_new_address c e w in
        (record ctx { wallet = some w' }, reply (string address) resp)
  ]

  -- The object of an unspent output, and the array of those whose hash the wallet has.
  unfoldable pub unspent_object : OutPoint × Entry → Json
  unspent_object (op, entry) = assign_at (codes "amount") (number entry.amount) (
      assign_at (codes "vout") (number op.index)
        (assign_at (codes "txid") (string (uint256_to_hex op.hash)) null))

  unfoldable pub list_unspent : Wallet → Json → List (OutPoint × Entry) → Json
  unfolding unspent_object
  list_unspent w arr [] = arr
  list_unspent w arr ((op, entry) ∷ snap) = elim (p2pkh_hash entry.script_pubkey) [
    | none ↦ list_unspent w arr snap
    | some h ↦ elim (has_hash160 c e h w) [
      | true ↦ list_unspent w (push_back (unspent_object (op, entry)) arr) snap
      | false ↦ list_unspent w arr snap
    ]
  ]

  unfoldable pub rpc_list_unspent : Answer → RpcContext → RpcContext × Outcome
  unfolding list_unspent
  rpc_list_unspent resp ctx = elim ctx.wallet [
    | none ↦ (ctx, thrown (codes "no wallet/chain"))
    | some w ↦ elim ctx.chain [
      | none ↦ (ctx, thrown (codes "no wallet/chain"))
      | some chain ↦ (ctx, reply (list_unspent w (array no_items) (snapshot chain.utxo)) resp)
    ]
  ]

  unfoldable pub rpc_restore : Cipher → Json → Answer → RpcContext → RpcContext × Outcome
  unfolding param_text
  rpc_restore k params resp ctx = elim ctx.wallet [
    | none ↦ (ctx, thrown (codes "no wallet"))
    | some w ↦
        if not (is_object params) || not (contains (codes "mnemonic") params)
        then (ctx, thrown (codes "missing mnemonic"))
        else let (w', ok) =
            restore k (get_string (at_key (codes "mnemonic") params))
              (param_text (codes "passphrase") params) w in
          (
            record ctx { wallet = some w' },
            if ok then reply (boolean true) resp else thrown (codes "failed to restore"),
          )
  ]
