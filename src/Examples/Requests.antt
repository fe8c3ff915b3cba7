-- ===== src/Examples/Requests.antt =====
-- Requests, settings, credentials and mnemonics at concrete inputs.
use shawncoin.Prelude.{
  ◌+◌, ◌*◌, ◌/◌, ◌%◌, ◌^◌, ◌<◌, ◌≡◌, ◌≢◌, refl, ap, true, none, some, List, [], ◌∷◌, ◌++◌, ℕ, take,
  length, replicate, get_or, All, All-replicate, codes, arith,
}
use shawncoin.Wire.{Bytes, IsByte}
use shawncoin.Types.{OutPoint}
use shawncoin.Transaction.{get_total_output}
use shawncoin.Utxo.{Entry}
use shawncoin.Mnemonic.{indices, mnemonic_bits, generate_mnemonic12}
use shawncoin.Mnemonic.Words.{bip39_words}
use shawncoin.Mnemonic.Indices.{number, indices_lem}
use shawncoin.Rpc.{RpcContext, Moment}
use shawncoin.Rpc.Dispatch.{handle_rpc_request}
use shawncoin.Rpc.Response.{Answers, handle_rpc_request-null}
use shawncoin.Rpc.Sending.{select, payment, with_change, change_of}
use shawncoin.Rpc.Payment.{IsSelection, IsUnspent, select_lem, input_value, spending, payment-total}
use shawncoin.Json.{find_method}
use shawncoin.Wallet.{Wallet}
use shawncoin.Base64.{check_auth, base64_encode, allowed}
use shawncoin.Base64.RoundTrip.{check_auth-base64_encode}
use shawncoin.Config.{new_config, load, get}
use shawncoin.Config.Lines.{file, get-load}
use shawncoin.Examples.{toy, coin1, chain1, pool1}
use shawncoin.Examples.Toys.{toy_curve, toy_cipher, secret}

indices_lem_example :
    (All (λ i. i < 2048) (indices 12 (mnemonic_bits toy (replicate 16 200))))
    × (number 2048 0 (indices 12 (mnemonic_bits toy (replicate 16 200)))
        ≡ number 256 0 (replicate 16 200) * 16 + get_or (toy.sha256 (replicate 16 200)) 0 0 / 16)
indices_lem_example =
    indices_lem toy (replicate 16 200) refl (All-replicate IsByte 16 200 (omega arith))

-- The table has three words less than its 2048 entries, and a mnemonic of the highest bytes needs one
-- of those that are missing.
count_of_words : length bip39_words ≡ 2045
unfolding shawncoin.Mnemonic.Words.bip39_words shawncoin.Mnemonic.Words.words_of
    shawncoin.Mnemonic.Words.split_blanks shawncoin.Mnemonic.Words.add_char
    shawncoin.Mnemonic.generate_mnemonic12 shawncoin.Mnemonic.join_words shawncoin.Mnemonic.indices
    shawncoin.Mnemonic.mnemonic_bits shawncoin.Mnemonic.entropy_bits shawncoin.Mnemonic.byte_bits
    shawncoin.Mnemonic.index_of shawncoin.Examples.checksum
count_of_words = refl

missing_word : generate_mnemonic12 toy (some (replicate 16 255)) ≡ none
unfolding shawncoin.Mnemonic.Words.bip39_words shawncoin.Mnemonic.Words.words_of
    shawncoin.Mnemonic.Words.split_blanks shawncoin.Mnemonic.Words.add_char
    shawncoin.Mnemonic.generate_mnemonic12 shawncoin.Mnemonic.join_words shawncoin.Mnemonic.indices
    shawncoin.Mnemonic.mnemonic_bits shawncoin.Mnemonic.entropy_bits shawncoin.Mnemonic.byte_bits
    shawncoin.Mnemonic.index_of shawncoin.Examples.checksum
missing_word = refl

abbrev context : RpcContext
context = record {
  chain = some chain1;
  mempool = some pool1;
  wallet = some (record { mnemonic = secret; seed = replicate 32 5; keys = [] });
  miner = none;
  files = [];
}

abbrev moment : Moment
moment = record { now = 1704068400; random = some (replicate 16 1); hash_rate = 0 }

abbrev request : Bytes
request = codes "{\"jsonrpc\":\"2.0\",\"id\":1,\"method\":\"wallet.getbalance\",\"params\":{}}"

handle_rpc_request-null_example :
    Answers toy moment
      (find_method request)
      context.wallet
      (codes "null")
      (handle_rpc_request toy toy_curve toy_cipher moment (λ d. []) request context).1
    × ((handle_rpc_request toy toy_curve toy_cipher moment (λ d. []) request context).0.chain
        ≡ some chain1)
    × ((handle_rpc_request toy toy_curve toy_cipher moment (λ d. []) request context).0.mempool
        ≡ some pool1)
handle_rpc_request-null_example =
    handle_rpc_request-null toy toy_curve toy_cipher moment (λ d. []) request context

abbrev coins : List (OutPoint × Entry)
coins =
    (record { hash = coin1; index = 0 }, record { amount = 4; script_pubkey = [] })
    ∷ (record { hash = coin1; index = 1 }, record { amount = 9; script_pubkey = [] })
    ∷ (record { hash = coin1; index = 2 }, record { amount = 1; script_pubkey = [] })
    ∷ []

abbrev paying_wallet : Wallet
paying_wallet = record { mnemonic = secret; seed = replicate 32 5; keys = [] }

-- The first two reach 10, and the third is left.
select_of_coins : select 10 0 coins ≡ (take 2 coins, 13)
unfolding shawncoin.Rpc.Sending.select
select_of_coins = refl

select_of_coins_9 : select ((7 + 2) % 2 ^ 64) 0 coins ≡ (take 2 coins, 13)
unfolding shawncoin.Rpc.Sending.select
select_of_coins_9 = refl

select_lem_example : IsSelection 10 0 coins (select 10 0 coins)
select_lem_example = select_lem 10 0 coins (omega arith)

coins-IsUnspent : IsUnspent coins coins
unfolding shawncoin.Utxo.get shawncoin.Map.find shawncoin.Map.Keys.outpoint_less
    shawncoin.Map.Keys.bytes_less shawncoin.Transaction.beq_bytes
coins-IsUnspent = (refl, (refl, (refl, tt)))

payment-total_example :
    get_total_output (spending toy toy_curve coins (codes "an address") 7 2 paying_wallet) + 2
    ≡ input_value coins (spending toy toy_curve coins (codes "an address") 7 2 paying_wallet).inputs
payment-total_example =
    payment-total toy toy_curve coins coins (codes "an address") 7 2 paying_wallet coins-IsUnspent
      (omega arith) (omega arith)
      (rw (ap (λ (r : List (OutPoint × Entry) × ℕ). r.1) select_of_coins_9) (omega arith))

abbrev user : Bytes
user = codes "me"

abbrev password : Bytes
password = codes "pw7"

check_auth-base64_encode_example :
    check_auth user password (codes "Basic " ++ base64_encode (user ++ (b':' ∷ password))) ≡ allowed
check_auth-base64_encode_example =
    check_auth-base64_encode user password (omega arith, (omega arith, tt))
      (omega arith, (omega arith, (omega arith, tt)))

get-load_example :
    ((load (some (file b'g' (codes "en") (codes "1"))) new_config).1 ≡ true)
    × (get (codes "gen") [] (load (some (file b'g' (codes "en") (codes "1"))) new_config).0
        ≡ codes "1")
    × ((other : Bytes)
        → other ≢ codes "gen"
        → get other [] (load (some (file b'g' (codes "en") (codes "1"))) new_config).0
          ≡ get other [] new_config)
get-load_example =
    get-load b'g' (codes "en") (codes "1") new_config []
      (
        (refl, refl, refl, refl, refl, refl),
        ((refl, refl, refl, refl, refl, refl), ((refl, refl, refl, refl, refl, refl), tt)),
      )
      ((refl, refl, refl, refl, refl, refl), tt)
