-- ===== src/Rpc/Null.antt =====
-- The responses of the requests, and what requests leave as it was.
use shawncoin.Prelude.{
  ◌≡◌, refl, true, Option, none, some, List, if-case, Option-cases, inl, inr, is_some, codes,
}
use shawncoin.Wire.{Bytes}
use shawncoin.Crypto.{Digest}
use shawncoin.Transaction.{beq_bytes}
use shawncoin.Blockchain.{Blockchain}
use shawncoin.Mempool.{Mempool}
use shawncoin.Miner.Control.{Miner}
use shawncoin.Keys.{Curve}
use shawncoin.Mnemonic.{generate_mnemonic12}
use shawncoin.Wallet.{Wallet}
use shawncoin.Wallet.Storage.{Cipher, create}
use shawncoin.Json.{Json, is_object, is_array, find_member, object, no_members, contains, assign_at}
use shawncoin.Rpc.{RpcContext, Moment, Answer, Outcome, returned, thrown, undefined, reply}
use shawncoin.Rpc.Wallets.{
  param_text, rpc_create, rpc_get_new_address, rpc_list_unspent, rpc_get_balance, rpc_backup,
  rpc_restore,
}
use shawncoin.Rpc.Sending.{rpc_send_to_address, send_to_address}
use shawncoin.Rpc.Mining.{
  rpc_start, rpc_stop, rpc_get_status, rpc_info, rpc_get_block_template, rpc_submit,
}
use shawncoin.Rpc.Dispatch.{reply_error, call_method}

-- A response that is returned is the given one, and no null pointer is printed but where `U` holds.
abbrev pub Returns : Type 0 → Json → Outcome → Type 0
Returns U body (returned j) = j ≡ body
Returns U body (thrown text) = Unit {0}
Returns U body undefined = U

-- The chain and the pool are as they were too.
abbrev pub Keeps : Type 0 → RpcContext → Json → RpcContext × Outcome → Type 0
Keeps U ctx body r = Returns U body r.1 × (r.0.chain ≡ ctx.chain) × (r.0.mempool ≡ ctx.mempool)

-- A wallet is not created only where its mnemonic cannot be printed.
create-none :
    (c : Digest) (k : Cipher) (entropy : Option Bytes) (passphrase : Bytes) (w : Wallet)
    → create k c entropy passphrase w ≡ none
    → generate_mnemonic12 c entropy ≡ none
unfolding create
create-none c k entropy passphrase w h = elim (Option-cases (generate_mnemonic12 c entropy)) [
  | inl n ↦ n
  | inr (mnemonic, s) ↦ absurd (cc (rw (s, create) at h))
]

module _ (c : Digest) (e : Curve) (k : Cipher) (m : Moment) (U : Type 0) (resp : Answer)
    (files : List (Bytes × Bytes)) where
  abbrev pub context :
      Option Blockchain → Option Mempool → Option Wallet → Option Miner → RpcContext
  context chain pool wallet miner = record {
    chain = chain;
    mempool = pool;
    wallet = wallet;
    miner = miner;
    files = files;
  }

  -- The parameters of every request.
  abbrev pub empty : Json
  empty = object no_members

  module _ (chain : Option Blockchain) (pool : Option Mempool) (miner : Option Miner) where
    create-Keeps :
        (wallet : Option Wallet)
        → (is_some wallet ≡ true → generate_mnemonic12 c m.random ≡ none → U)
        → Keeps U
            (context chain pool wallet miner)
            resp.body
            (rpc_create c e k m empty resp (context chain pool wallet miner))
    unfolding rpc_create reply assign_at
    create-Keeps none missing = (tt, refl, refl)
    create-Keeps (some w) missing =
        let text = param_text (codes "passphrase") empty in
        elim (Option-cases (create k c m.random text w)) [
          | inl n ↦
              rw (n, rpc_create) (missing refl (create-none c k m.random text w n), refl, refl)
          | inr ((w', ok), s) ↦
              rw (s, rpc_create)
                (if-case (Returns U resp.body) ok (λ _. refl) (λ _. tt), refl, refl)
        ]

    get_new_address-Keeps :
        (wallet : Option Wallet)
        → Keeps U
            (context chain pool wallet miner)
            resp.body
            (rpc_get_new_address c e resp (context chain pool wallet miner))
    unfolding rpc_get_new_address reply assign_at
    get_new_address-Keeps none = (tt, refl, refl)
    get_new_address-Keeps (some w) = (refl, refl, refl)

    backup-Keeps :
        (wallet : Option Wallet)
        → Keeps U
            (context chain pool wallet miner)
            resp.body
            (rpc_backup empty resp (context chain pool wallet miner))
    unfolding rpc_backup is_object contains find_member
    backup-Keeps none = (tt, refl, refl)
    backup-Keeps (some w) = (tt, refl, refl)

    restore-Keeps :
        (wallet : Option Wallet)
        → Keeps U
            (context chain pool wallet miner)
            resp.body
            (rpc_restore c e k empty resp (context chain pool wallet miner))
    unfolding rpc_restore is_object contains find_member
    restore-Keeps none = (tt, refl, refl)
    restore-Keeps (some w) = (tt, refl, refl)

  module _ (pool : Option Mempool) (miner : Option Miner) where
    list_unspent-Keeps :
        (chain : Option Blockchain) (wallet : Option Wallet)
        → Keeps U
            (context chain pool wallet miner)
            resp.body
            (rpc_list_unspent c e resp (context chain pool wallet miner))
    unfolding rpc_list_unspent reply assign_at
    list_unspent-Keeps chain none = (tt, refl, refl)
    list_unspent-Keeps none (some w) = (tt, refl, refl)
    list_unspent-Keeps (some chain) (some w) = (refl, refl, refl)

    get_balance-Keeps :
        (chain : Option Blockchain) (wallet : Option Wallet)
        → Keeps U
            (context chain pool wallet miner)
            resp.body
            (rpc_get_balance resp (context chain pool wallet miner))
    unfolding rpc_get_balance reply assign_at
    get_balance-Keeps chain none = (tt, refl, refl)
    get_balance-Keeps none (some w) = (tt, refl, refl)
    get_balance-Keeps (some chain) (some w) = (refl, refl, refl)

    block_template-Keeps :
        (chain : Option Blockchain) (wallet : Option Wallet)
        → Keeps U
            (context chain pool wallet miner)
            resp.body
            (rpc_get_block_template c e m resp (context chain pool wallet miner))
    unfolding rpc_get_block_template reply assign_at
    block_template-Keeps none wallet = (tt, refl, refl)
    block_template-Keeps (some chain) wallet = (refl, refl, refl)

    submit-Keeps :
        (chain : Option Blockchain) (wallet : Option Wallet)
        → Keeps U
            (context chain pool wallet miner)
            resp.body
            (rpc_submit c e m empty resp (context chain pool wallet miner))
    unfolding rpc_submit is_object contains find_member
    submit-Keeps none wallet = (tt, refl, refl)
    submit-Keeps (some chain) wallet = (tt, refl, refl)

    info-Keeps :
        (chain : Option Blockchain) (wallet : Option Wallet)
        → Keeps U
            (context chain pool wallet miner)
            resp.body
            (rpc_info resp (context chain pool wallet miner))
    unfolding rpc_info reply assign_at
    info-Keeps chain wallet = (refl, refl, refl)

  send-Keeps :
      (chain : Option Blockchain) (pool : Option Mempool) (wallet : Option Wallet)
      (miner : Option Miner)
      → Keeps U
          (context chain pool wallet miner)
          resp.body
          (rpc_send_to_address c e empty resp (context chain pool wallet miner))
  unfolding rpc_send_to_address send_to_address is_array
  send-Keeps chain pool none miner = (tt, refl, refl)
  send-Keeps none pool (some w) miner = (tt, refl, refl)
  send-Keeps (some chain) none (some w) miner = (tt, refl, refl)
  send-Keeps (some chain) (some pool) (some w) miner = (tt, refl, refl)

  module _ (chain : Option Blockchain) (pool : Option Mempool) (wallet : Option Wallet) where
    start-Keeps :
        (miner : Option Miner)
        → Keeps U
            (context chain pool wallet miner)
            resp.body
            (rpc_start empty resp (context chain pool wallet miner))
    unfolding rpc_start reply assign_at
    start-Keeps none = (tt, refl, refl)
    start-Keeps (some x) = (refl, refl, refl)

    stop-Keeps :
        (miner : Option Miner)
        → Keeps U
            (context chain pool wallet miner)
            resp.body
            (rpc_stop resp (context chain pool wallet miner))
    unfolding rpc_stop reply assign_at
    stop-Keeps none = (tt, refl, refl)
    stop-Keeps (some x) = (refl, refl, refl)

    status-Keeps :
        (miner : Option Miner)
        → Keeps U
            (context chain pool wallet miner)
            resp.body
            (rpc_get_status m resp (context chain pool wallet miner))
    unfolding rpc_get_status reply assign_at
    status-Keeps none = (tt, refl, refl)
    status-Keeps (some x) = (refl, refl, refl)

  module _ (chain : Option Blockchain) (pool : Option Mempool) (wallet : Option Wallet)
      (miner : Option Miner) where
    pub call-Keeps :
        (method : Bytes)
        → (beq_bytes method (codes "wallet.create") ≡ true
            → is_some wallet ≡ true
            → generate_mnemonic12 c m.random ≡ none
            → U)
        → Keeps U
            (context chain pool wallet miner)
            resp.body
            (call_method c e k m method empty resp (context chain pool wallet miner))
    unfolding call_method reply_error assign_at
    call-Keeps method missing =
        let P = Keeps U (context chain pool wallet miner) resp.body in
        if-case P (beq_bytes method (codes "wallet.create"))
          (λ created. create-Keeps chain pool miner wallet (missing created))
          (λ _.
            if-case P (beq_bytes method (codes "wallet.getnewaddress"))
              (λ _. get_new_address-Keeps chain pool miner wallet)
              (λ _.
                if-case P (beq_bytes method (codes "wallet.listunspent"))
                  (λ _. list_unspent-Keeps pool miner chain wallet)
                  (λ _.
                    if-case P (beq_bytes method (codes "wallet.sendtoaddress"))
                      (λ _. send-Keeps chain pool wallet miner)
                      (λ _.
                        if-case P (beq_bytes method (codes "wallet.getbalance"))
                          (λ _. get_balance-Keeps pool miner chain wallet)
                          (λ _.
                            if-case P (beq_bytes method (codes "wallet.backup"))
                              (λ _. backup-Keeps chain pool miner wallet)
                              (λ _.
                                if-case P (beq_bytes method (codes "wallet.restore"))
                                  (λ _. restore-Keeps chain pool miner wallet)
                                  (λ _.
                                    if-case P (beq_bytes method (codes "mining.start"))
                                      (λ _. start-Keeps chain pool wallet miner)
                                      (λ _.
                                        if-case P (beq_bytes method (codes "mining.stop"))
                                          (λ _. stop-Keeps chain pool wallet miner)
                                          (λ _.
                                            if-case P (beq_bytes method (codes "mining.getstatus"))
                                              (λ _. status-Keeps chain pool wallet miner)
                                              (λ _.
                                                if-case P
                                                  (beq_bytes method (codes "blockchain.info"))
                                                  (λ _. info-Keeps pool miner chain wallet)
                                                  (λ _.
                                                    if-case P
                                                      (beq_bytes method
                                                        (codes "mining.getblocktemplate"))
                                                      (λ _.
                                                        block_template-Keeps pool miner chain
                                                          wallet)
                                                      (λ _.
                                                        if-case P
                                                          (beq_bytes method (codes "mining.submit"))
                                                          (λ _.
                                                            submit-Keeps pool miner chain wallet)
                                                          (λ _. (refl, refl, refl))))))))))))))
