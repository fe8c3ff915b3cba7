-- ===== src/Rpc/Dispatch.antt =====
-- shawncoin/src/rpc/api.cpp: handleRpcRequest. A request is parsed, its method chooses the branch, and
-- an exception becomes an error response. The log line is left out.
use shawncoin.Prelude.{ℕ, ◌-◌, ◌^◌, true, not, ◌||◌, Option, none, some, if◌then◌else◌, codes}
use shawncoin.Wire.{Bytes}
use shawncoin.Crypto.{Digest}
use shawncoin.Transaction.{beq_bytes}
use shawncoin.Keys.{Curve}
use shawncoin.Wallet.Storage.{Cipher}
use shawncoin.Json.{
  Json, string, number, boolean, null, object, no_members, member, contains, at_key, assign_at,
  is_string, get_string, parse, dump,
}
use shawncoin.Rpc.{RpcContext, Moment, Answer, Outcome, returned, thrown, undefined}
use shawncoin.Rpc.Wallets.{
  rpc_create, rpc_get_new_address, rpc_list_unspent, rpc_get_balance, rpc_backup, rpc_restore,
}
use shawncoin.Rpc.Sending.{rpc_send_to_address}
use shawncoin.Rpc.Mining.{
  rpc_start, rpc_stop, rpc_get_status, rpc_info, rpc_get_block_template, rpc_submit,
}

-- An error object: the code is an int64_t below zero, in its 64 bits. The map puts "code" first.
unfoldable pub error_object : ℕ → Json → Json
error_object code message =
    object
      (member (codes "code") (number (2 ^ 64 - code)) (member (codes "message") message no_members))

-- `resp["error"] = ...; resp["id"] = id;`
unfoldable pub reply_error : ℕ → Json → Answer → Json
unfolding error_object
reply_error code message resp =
    assign_at (codes "id") resp.id (assign_at (codes "error") (error_object code message) resp.body)

module _ (c : Digest) (e : Curve) (k : Cipher) (m : Moment) where
  -- The branches in their order.
  unfoldable pub call_method : Bytes → Json → Answer → RpcContext → RpcContext × Outcome
  unfolding reply_error
  call_method method params resp ctx =
      if beq_bytes method (codes "wallet.create")
      then rpc_create c e k m params resp ctx
      else if beq_bytes method (codes "wallet.getnewaddress")
      then rpc_get_new_address c e resp ctx
      else if beq_bytes method (codes "wallet.listunspent")
      then rpc_list_unspent c e resp ctx
      else if beq_bytes method (codes "wallet.sendtoaddress")
      then rpc_send_to_address c e params resp ctx
      else if beq_bytes method (codes "wallet.getbalance")
      then rpc_get_balance resp ctx
      else if beq_bytes method (codes "wallet.backup")
      then rpc_backup params resp ctx
      else if beq_bytes method (codes "wallet.restore")
      then rpc_restore c e k params resp ctx
      else if beq_bytes method (codes "mining.start")
      then rpc_start params resp ctx
      else if beq_bytes method (codes "mining.stop")
      then rpc_stop resp ctx
      else if beq_bytes method (codes "mining.getstatus")
      then rpc_get_status m resp ctx
      else if beq_bytes method (codes "blockchain.info")
      then rpc_info resp ctx
      else if beq_bytes method (codes "mining.getblocktemplate")
      then rpc_get_block_template c e m resp ctx
      else if beq_bytes method (codes "mining.submit")
      then rpc_submit c e m params resp ctx
      else (ctx, returned (reply_error 32601 (boolean true) resp))

  -- The response object. `none`: a null pointer has been printed as a word of a mnemonic.
  unfoldable pub finish : Answer → Outcome → Option Json
  finish resp (returned j) = some j
  finish resp (thrown text) = some (reply_error 32602 (string text) resp)
  finish resp undefined = none

  unfoldable pub handle_json : Json → RpcContext → RpcContext × Option Json
  unfolding call_method finish
  handle_json req ctx =
      let resp : Answer = record {
        body = assign_at (codes "jsonrpc") (boolean true) null;
        id = if contains (codes "id") req then at_key (codes "id") req else null;
      } in
      let params =
        if contains (codes "params") req then at_key (codes "params") req else object no_members in
      let method = get_string (at_key (codes "method") req) in
      let (ctx', outcome) = call_method method params resp ctx in
      if not (contains (codes "method") req) || not (is_string (at_key (codes "method") req))
      then (ctx, some (reply_error 32600 (boolean true) resp))
      else (ctx', finish resp outcome)

  unfoldable pub handle_rpc_request : (ℕ → Bytes) → Bytes → RpcContext → RpcContext × Option Bytes
  unfolding handle_json
  handle_rpc_request print_double request ctx =
      let (ctx', response) = handle_json (parse request) ctx in
      (ctx', elim response [ none ↦ none | some j ↦ some (dump print_double j) ])
