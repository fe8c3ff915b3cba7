-- ===== src/Rpc/Response.antt =====
-- The response to a request, whatever it is.
use shawncoin.Prelude.{
  ℕ, ◌≡◌, refl, sym, subst, ap, ◌⊎◌, inl, inr, Option, none, some, true, is_some, Option-cases,
  codes,
}
use shawncoin.Wire.{Bytes}
use shawncoin.Crypto.{Digest}
use shawncoin.Transaction.{beq_bytes}
use shawncoin.Transaction.Equal.{beq_bytes→eq}
use shawncoin.Mnemonic.{generate_mnemonic12}
use shawncoin.Wallet.{Wallet}
use shawncoin.Keys.{Curve}
use shawncoin.Wallet.Storage.{Cipher, create}
use shawncoin.Rpc.Wallets.{param_text, rpc_create}
use shawncoin.Json.{
  Json, string, null, object, no_members, member, contains, find_member, at_key, is_string,
  get_string, assign_at, parse, dump, find_method,
}
use shawncoin.Rpc.{RpcContext, Moment, Answer, Outcome, returned, thrown, undefined}
use shawncoin.Rpc.Dispatch.{reply_error, call_method, finish, handle_json, handle_rpc_request}
use shawncoin.Rpc.Null.{Returns, call-Keeps}

module _ (c : Digest) (m : Moment) where
  -- Why a request can have no response: it creates a wallet, and the new mnemonic has a word that is
  -- a null pointer.
  abbrev pub IsMissing : Option Bytes → Option Wallet → Type 0
  IsMissing method wallet =
      (method ≡ some (codes "wallet.create"))
      × (is_some wallet ≡ true)
      × (generate_mnemonic12 c m.random ≡ none)

  -- What may be answered to a request with a method, in a context with a wallet.
  abbrev MayAnswer {ℓ} : {A : Type ℓ} → Option Bytes → Option Wallet → A → Option A → Type ℓ
  MayAnswer method wallet body r = ((r ≡ none) × IsMissing method wallet) ⊎ (r ≡ some body)

  -- What is answered.
  abbrev pub Answers {ℓ} : {A : Type ℓ} → Option Bytes → Option Wallet → A → Option A → Type ℓ
  Answers method wallet body r =
      ((r ≡ none) × IsMissing method wallet) ⊎ ((r ≡ some body) × ¬ IsMissing method wallet)

module _ (c : Digest) (e : Curve) (k : Cipher) (m : Moment) where
  abbrev answer : Answer
  answer = record { body = null; id = null }

  -- What parsing makes of a request with a method.
  abbrev parsed : Option Bytes → Json
  parsed method = elim method [
    | none ↦ object no_members
    | some name ↦ object (member (codes "method") (string name) no_members)
  ]

  finish-null :
      (method : Option Bytes) (wallet : Option Wallet) (o : Outcome)
      → Returns (IsMissing c m method wallet) null o
      → MayAnswer c m method wallet null (finish c e k m answer o)
  unfolding finish reply_error assign_at
  finish-null method wallet (returned j) r = inr (ap some r)
  finish-null method wallet (thrown text) r = inr refl
  finish-null method wallet undefined r = inl (refl, r)

  -- What a request may do, of its parsed form.
  abbrev Harmless : Option Bytes → RpcContext → RpcContext × Option Json → Type 0
  Harmless method ctx r =
      MayAnswer c m method ctx.wallet null r.1
      × (r.0.chain ≡ ctx.chain)
      × (r.0.mempool ≡ ctx.mempool)

  handle-Harmless :
      (method : Option Bytes) (ctx : RpcContext)
      → Harmless method ctx (handle_json c e k m (parsed method) ctx)
  unfolding handle_json contains find_member at_key is_string get_string assign_at beq_bytes
      reply_error
  handle-Harmless none ctx = (inr refl, refl, refl)
  handle-Harmless (some name) ctx =
      let (r, kc, kp) =
        call-Keeps c e k m (IsMissing c m (some name) ctx.wallet) answer ctx.files ctx.chain
          ctx.mempool ctx.wallet ctx.miner name
          (λ t present word.
            (ap some (beq_bytes→eq name (codes "wallet.create") t), present, word)) in
      (finish-null (some name) ctx.wallet _ r, kc, kp)

  create-missing :
      (text : Bytes) (w : Wallet)
      → generate_mnemonic12 c m.random ≡ none
      → create k c m.random text w ≡ none
  unfolding create
  create-missing text w h = rw (h, create) refl

  rpc_create-missing :
      (ctx : RpcContext)
      → is_some ctx.wallet ≡ true
      → generate_mnemonic12 c m.random ≡ none
      → (rpc_create c e k m (object no_members) answer ctx).1 ≡ undefined
  unfolding rpc_create
  rpc_create-missing ctx p h = elim (Option-cases ctx.wallet) [
    | inl n ↦ absurd (cc (n, p))
    | inr (w, s) ↦
        let text = param_text (codes "passphrase") (object no_members) in
        rw (s, create-missing text w h, rpc_create) refl
  ]

  -- A request that creates a wallet with such a mnemonic is not answered.
  handle-missing :
      (method : Option Bytes) (ctx : RpcContext)
      → IsMissing c m method ctx.wallet
      → (handle_json c e k m (parsed method) ctx).1 ≡ none
  unfolding handle_json contains find_member at_key is_string get_string assign_at beq_bytes
      reply_error call_method finish
  handle-missing method ctx (create_it, present, word) =
      subst (λ r. (handle_json c e k m (parsed r) ctx).1 ≡ none) (sym create_it)
        (ap (finish c e k m answer) (rpc_create-missing ctx present word))

  -- Whatever the request and the context: there is no response where the method is `wallet.create`, the
  -- context has a wallet, and printing the new mnemonic meets a null pointer, and the response is the
  -- text `null` everywhere else; and the chain and the pool are as they were.
  pub handle_rpc_request-null :
      (print_double : ℕ → Bytes) (request : Bytes) (ctx : RpcContext)
      → Answers c m
          (find_method request)
          ctx.wallet
          (codes "null")
          (handle_rpc_request c e k m print_double request ctx).1
        × ((handle_rpc_request c e k m print_double request ctx).0.chain ≡ ctx.chain)
        × ((handle_rpc_request c e k m print_double request ctx).0.mempool ≡ ctx.mempool)
  unfolding handle_rpc_request parse dump
  handle_rpc_request-null print_double request ctx =
      let method = find_method request in
      let (r, kc, kp) = handle-Harmless method ctx in
      let print : Option Json → Option Bytes =
        λ o. elim o [ none ↦ none | some j ↦ some (dump print_double j) ] in
      let answered : (o : Option Json)
          → MayAnswer c m method ctx.wallet null o
          → (IsMissing c m method ctx.wallet → o ≡ none)
          → Answers c m method ctx.wallet (codes "null") (print o) =
        λ o may miss. elim may [
          | inl (n, why) ↦ inl (ap print n, why)
          | inr s ↦ inr (ap print s, λ why. absurd (cc (miss why, s)))
        ] in
      (answered _ r (handle-missing method ctx), kc, kp)
