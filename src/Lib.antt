-- ===== src/Lib.antt =====
-- The shawncoin node: its data formats, its consensus rules, its chain, its pool, its miner, its
-- wallet and its requests.
--
-- The program is in shawncoin/src. A node keeps a Blockchain (the unspent outputs, a cache of
-- blocks, an index by height, an optional storage) and a Mempool. addBlock takes a block for the
-- next height, connectBlock checks it (validateBlockStructure, checkDifficulty,
-- validateTransactionStructure), spends and creates outputs (connectBlockUTXO) and moves the tip.
-- The Miner builds a block from the tip and the pool, searches for a nonce and hands the block to
-- addBlock. A Wallet derives keys and addresses from the seed of a mnemonic, and signs transactions
-- that spend what was paid to them. handleRpcRequest works on a context of these four parts: it
-- parses a request, calls them, and prints a response.
--
-- Files and what they model:
--   Wire         writeU32, writeU64, writeVarInt and the readers of
--                shawncoin/src/core/transaction.cpp, shawncoin/src/core/block.cpp
--   Types        shawncoin/src/core/types.hpp: the data, the coin parameters, getBlockSubsidy,
--                getTotalSupplyUpTo
--   Crypto       shawncoin/src/crypto/hash.c: shawncoin_sha256d, shawncoin_hash160
--   Transaction  shawncoin/src/core/transaction.cpp and the methods of Transaction in
--                shawncoin/src/core/types.cpp
--   Merkle       shawncoin/src/mining/merkle.cpp
--   Block        shawncoin/src/core/block.cpp and the methods of Block in
--                shawncoin/src/core/types.cpp
--   Utxo         shawncoin/src/core/utxo.cpp
--   Consensus    shawncoin/src/core/consensus.cpp
--   Difficulty   shawncoin/src/mining/difficulty.cpp
--   Storage      shawncoin/src/storage/chainstate.cpp; the variable that loadFromDisk does not
--                set is an argument; Storage/Database is the map of
--                shawncoin/src/storage/database.cpp without RocksDB
--   Blockchain   shawncoin/src/core/blockchain.cpp, and checkDifficulty of
--                shawncoin/src/core/consensus.cpp
--   Mempool      shawncoin/src/core/mempool.cpp
--   Miner        shawncoin/src/mining/miner.cpp
--   Util         shawncoin/src/util/util.cpp
--   Protocol     shawncoin/src/network/protocol.cpp: the message header and
--                the names of the message types
--   Address      shawncoin/src/crypto/address.cpp
--   Keys         shawncoin/src/crypto/keys.c and shawncoin/src/crypto/signatures.c, as compiled
--                with HAVE_SECP256K1
--   Mnemonic     shawncoin/src/wallet/mnemonic.cpp
--   Wallet       shawncoin/src/wallet/wallet.cpp; Wallet/HdWallet is
--                shawncoin/src/wallet/hdwallet.cpp, Wallet/Storage the encrypted file
--   Json         SimpleJson of shawncoin/src/rpc/api.cpp
--   Rpc          handleRpcRequest and the REST texts of shawncoin/src/rpc/api.cpp; the branches are
--                in Rpc/Wallets, Rpc/Sending and Rpc/Mining, the choice among them in Rpc/Dispatch
--   Base64       base64_encode of shawncoin/cli/shawncoin-cli.cpp, base64_decode and the check of
--                the credentials of shawncoin/src/rpc/server.cpp
--   Config       shawncoin/src/util/config.cpp
--   Network      shawncoin/src/network/node.cpp and shawncoin/src/network/netbase.cpp
--   Map          std::map, a list of entries in the order of their keys, with the order as an
--                interface
--   Prelude      the shared names, Boolean tests, lists over native numbers, texts, and the do
--                blocks of optional results
--   Examples     small digests, a curve and a cipher, a chain that is mined, and the theorems at
--                concrete inputs
-- The children of a module hold its proofs and are named for what they prove. Functions have the
-- names of the source in lower case with underscores: connect_block_utxo is connectBlockUTXO.
--
-- State and operations: a class is a record or a map, and a method is a function that takes the
-- state and returns the new one, with the answer where there is one. Unsigned integers are native
-- numbers, with their wrap-around written out. A uint256 is the list of its bytes; that it has 32 of
-- them is a hypothesis where a theorem needs it. Each method of a class with a lock is one step. The
-- time of the host is an argument, and so are random bytes. A text is the list of its characters'
-- codes. A handler of a request returns the context and how it ends: a response, an exception, or
-- undefined behaviour. `cached_txid`, which is mutable in the source, is threaded through get_txid.
--
-- Bounds and fuel: the Merkle loop runs on as much fuel as there are hashes, which is enough since a
-- row is halved each time (merkle_loop-total in Merkle/Tree). The nonce search runs on 2 ^ 32, the
-- number of nonces. The readers repeat as often as the count that was read says. The loops that
-- divide a carry or a number run on one round more than the number, which is enough since each round
-- makes it smaller (value-push_carry in Address/Radix, read_digits-decimal in Json/Decimal).
--
-- Parameters: SHA-256 and RIPEMD-160 are those of OpenSSL. A Digest holds the two functions and the
-- length and the form of their results; no theorem assumes that they have no collisions, and those
-- on binding give the collision as the other case. A Curve holds the calls of libsecp256k1, a Cipher
-- those of PBKDF2 and AES in OpenSSL, each with what its documentation says: lengths, and that
-- decoding, verifying and decrypting undo encoding, signing and encrypting. The digits that a stream
-- prints of a double are a function.
--
-- Not modelled: sockets, main and the command line but for its credentials, logging, events, the
-- thread pools and the interleaving of their threads; the OpenSSL variant of keys and signatures,
-- the allocation and the wiping of memory; the stratum stub; floating-point displays of difficulty.
pub mod Prelude
pub mod Map
pub mod Wire
pub mod Types
pub mod Crypto
pub mod Utxo
pub mod Transaction
pub mod Merkle
pub mod Block
pub mod Config
pub mod Consensus
pub mod Difficulty
pub mod Storage
pub mod Blockchain
pub mod Mempool
pub mod Miner
pub mod Util
pub mod Network
pub mod Protocol
pub mod Address
pub mod Base64
pub mod Keys
pub mod Json
pub mod Mnemonic
pub mod Rpc
pub mod Wallet
pub mod Examples
