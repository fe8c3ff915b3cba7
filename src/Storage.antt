-- ===== src/Storage.antt =====
-- shawncoin/src/storage/chainstate.cpp: MemoryChainState, which keeps serialized blocks by hash and
-- the best block, and writes them to one file. `writable` says whether the file can be opened for
-- writing, and `file` is what it holds, `none` where it cannot be read.
pub mod Disk
pub mod Database
use shawncoin.Prelude.{
  ℕ, zero, suc, ◌+◌, Bool, true, false, not, Option, none, some, List, [], ◌∷◌, ◌++◌, ◌==◌,
  if◌then◌else◌, length,
}
use shawncoin.Wire.{Bytes, write_u32, write_u64, read, read_u32, read_u64}
use shawncoin.Wire.Monad.{Parser, write_many}
use shawncoin.Map.{find, insert}
use shawncoin.Map.Keys.{bytes_order}
use shawncoin.Types.{Block}
use shawncoin.Transaction.{beq_bytes}
use shawncoin.Block.{serialize_block, deserialize_block}

pub record ChainState : Type 0 where
  pub best_hash : Bytes
  pub best_height : ℕ
  pub blocks : List (Bytes × Bytes)
  pub writable : Bool
  pub file : Option Bytes

-- getBestBlock always answers true.
unfoldable pub get_best_block : ChainState → Bytes × ℕ
get_best_block s = (s.best_hash, s.best_height)

unfoldable pub set_best_block : Bytes → ℕ → ChainState → ChainState
set_best_block hash height s = record s { best_hash = hash; best_height = height }

unfoldable pub get_block : Bytes → ChainState → Option Block
get_block hash s = elim (find hash s.blocks) [ none ↦ none | some bs ↦ deserialize_block bs ]

unfoldable pub put_block : Bytes → Block → ChainState → ChainState
put_block hash b s = record s { blocks = insert hash (serialize_block b) s.blocks }

-- "SHWN"
abbrev pub magic : Bytes
magic = 83 ∷ 72 ∷ 87 ∷ 78 ∷ []

write_entry : Bytes × Bytes → Bytes
write_entry (hash, bs) = write_u64 (length bs) ++ bs

unfoldable pub disk_image : ChainState → Bytes
unfolding write_entry
disk_image s =
    magic
    ++ (write_u32 1
        ++ (write_u64 (length s.blocks)
            ++ (s.best_hash ++ (write_u64 s.best_height ++ write_many write_entry s.blocks))))

unfoldable pub save_to_disk : ChainState → ChainState × Bool
save_to_disk s = if s.writable then (record s { file = some (disk_image s) }, true) else (s, false)

-- fread(data, n, 1, file) != 1: an item of no bytes counts as a failure.
fread : ℕ → Parser Bytes
fread n bs = if n == 0 then none else read n bs

-- The key of round `i` is a variable that is declared and never set: `garbage i` is its value.
load_blocks : (ℕ → Bytes) → ℕ → ℕ → Bytes → ChainState → ChainState × Bool
unfolding fread
load_blocks garbage zero i bs s = (s, true)
load_blocks garbage (suc n) i bs s = elim (read_u64 bs) [
  | none ↦ (s, false)
  | some (size, rest) ↦ elim (fread size rest) [
    | none ↦ (s, false)
    | some (block, rest') ↦
        load_blocks garbage n (i + 1) rest'
          (record s { blocks = insert (garbage i) block s.blocks })
  ]
]

-- From the count on: what is read before a failure stays read. A field that is cut short is taken
-- to stay as it was.
load_best : (ℕ → Bytes) → Bytes → ChainState → ChainState × Bool
unfolding load_blocks
load_best garbage bs s = elim (read_u64 bs) [
  | none ↦ (s, false)
  | some (count, rest) ↦ elim (read 32 rest) [
    | none ↦ (s, false)
    | some (hash, rest') ↦ elim (read_u64 rest') [
      | none ↦ (record s { best_hash = hash }, false)
      | some (height, rest'') ↦
          load_blocks garbage count 0 rest''
            (record s { best_hash = hash; best_height = height; blocks = [] })
    ]
  ]
]

load_header : (ℕ → Bytes) → Bytes → ChainState → ChainState × Bool
unfolding load_best
load_header garbage bs s = elim (read 4 bs) [
  | none ↦ (s, false)
  | some (m, rest) ↦ if not (beq_bytes m magic) then (s, false) else elim (read_u32 rest) [
    | none ↦ (s, false)
    | some (version, rest') ↦ if version == 1 then load_best garbage rest' s else (s, false)
  ]
]

unfoldable pub load_from_disk : (ℕ → Bytes) → ChainState → ChainState × Bool
unfolding load_header
load_from_disk garbage s = elim s.file [ none ↦ (s, false) | some bs ↦ load_header garbage bs s ]
