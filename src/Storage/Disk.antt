-- ===== src/Storage/Disk.antt =====
-- Loading the file that was saved.
use shawncoin.Prelude.{
  ℕ, ◌+◌, ◌^◌, ◌≤◌, ◌<◌, ◌≡◌, refl, ap, ◌∙◌, Bool, true, false, some, List, [], ◌∷◌, ◌++◌, length,
  All, arith, append_assoc, append-nil, sym, if◌then◌else◌, ◌==◌,
}
use shawncoin.Wire.{Bytes, write_u32, write_u64}
use shawncoin.Wire.Monad.{write_many}
use shawncoin.Wire.Reads.{u32-Reads, u64-Reads, read-Reads}
use shawncoin.Map.{insert}
use shawncoin.Map.Keys.{bytes_order}
use shawncoin.Transaction.{beq_bytes}
use shawncoin.Storage.{
  ChainState, magic, disk_image, save_to_disk, load_from_disk, load_blocks, load_best, load_header,
  write_entry, fread,
}

-- What a saved entry and a saved state can hold. No serialized block is empty.
abbrev pub EntryFits : Bytes × Bytes → Type 0
EntryFits (hash, bs) = (1 ≤ length bs) × (length bs < 2 ^ 64)

pub record StateFits (s : ChainState) : Type 0 where
  pub best_len : length s.best_hash ≡ 32
  pub height_fits : s.best_height < 2 ^ 64
  pub count_fits : length s.blocks < 2 ^ 64
  pub entries_fit : All EntryFits s.blocks

-- The blocks in order, each written under the value that the unset variable has in its round.
pub rekeyed : (ℕ → Bytes) → ℕ → List (Bytes × Bytes) → List (Bytes × Bytes) → List (Bytes × Bytes)
rekeyed garbage i [] m = m
rekeyed garbage i ((hash, bs) ∷ entries) m =
    rekeyed garbage (i + 1) entries (insert (garbage i) bs m)

fread-Reads : (bs rest : Bytes) → 1 ≤ length bs → fread (length bs) (bs ++ rest) ≡ some (bs, rest)
unfolding fread
fread-Reads bs rest h =
    let ne : (length bs == 0) ≡ false = ground arith in rw ne (read-Reads bs (length bs) refl rest)

blocks-Reads :
    (garbage : ℕ → Bytes) (i : ℕ) (entries : List (Bytes × Bytes)) (rest : Bytes) (s : ChainState)
    → All EntryFits entries
    → load_blocks garbage (length entries) i (write_many write_entry entries ++ rest) s
      ≡ (record s { blocks = rekeyed garbage i entries s.blocks }, true)
unfolding load_blocks rekeyed write_many write_entry
blocks-Reads garbage i [] rest s h = refl
blocks-Reads garbage i ((hash, bs) ∷ entries) rest s (hb, h) =
    rw
      (
        append_assoc (write_u64 (length bs) ++ bs) (write_many write_entry entries) rest,
        append_assoc (write_u64 (length bs)) bs (write_many write_entry entries ++ rest),
        u64-Reads (length bs) hb.1 (bs ++ (write_many write_entry entries ++ rest)),
        fread-Reads bs (write_many write_entry entries ++ rest) hb.0,
        load_blocks,
      )
      (blocks-Reads garbage (i + 1) entries rest
        (record s { blocks = insert (garbage i) bs s.blocks }) h)

header-Reads :
    (garbage : ℕ → Bytes) (rest : Bytes) (s : ChainState)
    → load_header garbage (magic ++ (write_u32 1 ++ rest)) s ≡ load_best garbage rest s
unfolding load_header beq_bytes
header-Reads garbage rest s =
    rw (read-Reads magic 4 refl (write_u32 1 ++ rest), u32-Reads 1 (omega arith) rest, load_header)
      refl

best-Reads :
    (garbage : ℕ → Bytes) (n height : ℕ) (hash rest : Bytes) (s : ChainState)
    → n < 2 ^ 64
    → length hash ≡ 32
    → height < 2 ^ 64
    → load_best garbage (write_u64 n ++ (hash ++ (write_u64 height ++ rest))) s
      ≡ load_blocks garbage n 0 rest
          (record s { best_hash = hash; best_height = height; blocks = [] })
unfolding load_best
best-Reads garbage n height hash rest s hn hl hh =
    rw
      (
        u64-Reads n hn (hash ++ (write_u64 height ++ rest)),
        read-Reads hash 32 hl (write_u64 height ++ rest),
        u64-Reads height hh rest,
        load_best,
      )
      refl

after_saving :
    (s : ChainState)
    → s.writable ≡ true
    → save_to_disk s ≡ (record s { file = some (disk_image s) }, true)
unfolding save_to_disk
after_saving s w =
    ap (λ t. if t then (record s { file = some (disk_image s) }, true) else (s, false)) w

-- Where the file can be written and the state fits the format, loading what was saved into any state
-- succeeds and gives that state the best hash and height that were saved; its blocks become the saved
-- ones, stored under the values that an unset variable has, round by round, and not under their hashes.
pub load_from_disk-save_to_disk :
    (garbage : ℕ → Bytes) (s t : ChainState)
    → s.writable ≡ true
    → StateFits s
    → load_from_disk garbage (record t { file = (save_to_disk s).0.file }) ≡ (
      record t {
        best_hash = s.best_hash;
        best_height = s.best_height;
        blocks = rekeyed garbage 0 s.blocks [];
        file = some (disk_image s);
      },
      true,
    )
unfolding load_from_disk disk_image
load_from_disk-save_to_disk garbage s t w f =
    let entries = write_many write_entry s.blocks in
    let saved = record t { file = some (disk_image s) } in
    let best = record saved { best_hash = s.best_hash; best_height = s.best_height; blocks = [] } in
    ap (λ (r : ChainState × Bool). load_from_disk garbage (record t { file = r.0.file }))
      (after_saving s w)
    ∙ header-Reads garbage _ saved
    ∙ best-Reads garbage (length s.blocks) s.best_height s.best_hash entries saved f.count_fits
        f.best_len f.height_fits
    ∙ ap (λ bs. load_blocks garbage (length s.blocks) 0 bs best) (sym (append-nil entries))
    ∙ blocks-Reads garbage 0 s.blocks [] best f.entries_fit
