-- ===== src/Transaction/Accepts.antt =====
-- What deserializeTransaction accepts: the limits that hold of every transaction that it returns,
-- and the scripts that it refuses.
use shawncoin.Prelude.{◌^◌, ◌≤◌, ◌<◌, ◌≡◌, refl, none, some, leb, leb→le, length, All, arith}
use shawncoin.Wire.{Bytes, IsByte, read, read_u32, read_u64, read_var_int}
use shawncoin.Wire.Monad.{read_many}
use shawncoin.Wire.Ranges.{
  Ensures, bind-Ensures, pure-Ensures, guard-Ensures, read-Ensures, u32-Ensures, u64-Ensures,
  var_int-Ensures, many-Ensures,
}
use shawncoin.Types.{Transaction}
use shawncoin.Transaction.{
  max_script_len, read_script, read_input, read_output, deserialize_transaction,
}
use shawncoin.Transaction.RoundTrip.{InputFits, OutputFits}

-- Everything but the counts, which only the number of bytes at hand limits.
pub record Received (tx : Transaction) : Type 0 where
  pub version_fits : tx.version < 2 ^ 32
  pub inputs_fit : All InputFits tx.inputs
  pub outputs_fit : All OutputFits tx.outputs
  pub lock_time_fits : tx.lock_time < 2 ^ 32
  pub no_cache : tx.cached_txid ≡ none

script-Ensures : Ensures read_script (λ s. length s ≤ max_script_len)
unfolding read_script
script-Ensures = bind-Ensures _ _ read_var_int _ var_int-Ensures λ n hn.
    guard-Ensures _ (leb n max_script_len) (read n) λ short bs s rest hb e.
      let (p, h) = read-Ensures n bs s rest hb e in
      (omega (arith, leb→le n max_script_len short), h)

input-Ensures : Ensures read_input InputFits
unfolding read_input
input-Ensures = bind-Ensures _ _ (read 32) _ (read-Ensures 32) λ hash hh.
    bind-Ensures _ _ read_u32 _ u32-Ensures λ index hi.
      bind-Ensures _ _ read_script _ script-Ensures λ sig hs.
        bind-Ensures _ _ read_script _ script-Ensures λ pk hp.
          pure-Ensures InputFits _
            (record { hash_len = hh.0; index_fits = hi; sig_fits = hs; key_fits = hp })

output-Ensures : Ensures read_output OutputFits
unfolding read_output
output-Ensures = bind-Ensures _ _ read_u64 _ u64-Ensures λ amount ha.
    bind-Ensures _ _ read_script _ script-Ensures
      λ s hs. pure-Ensures OutputFits _ (record { amount_fits = ha; script_fits = hs })

pub transaction-Ensures : Ensures deserialize_transaction Received
unfolding deserialize_transaction
transaction-Ensures = bind-Ensures _ _ read_u32 _ u32-Ensures λ version hv.
    bind-Ensures _ _ read_var_int _ var_int-Ensures λ n_in hni.
      bind-Ensures _ _ (read_many n_in read_input) _ (many-Ensures _ n_in read_input input-Ensures)
        λ inputs hi. bind-Ensures _ _ read_var_int _ var_int-Ensures λ n_out hno.
          bind-Ensures _ _ (read_many n_out read_output) _
            (many-Ensures _ n_out read_output output-Ensures)
            λ outputs ho. bind-Ensures _ _ read_u32 _ u32-Ensures λ lock_time hl.
              pure-Ensures Received _ (record {
                version_fits = hv;
                inputs_fit = hi.1;
                outputs_fit = ho.1;
                lock_time_fits = hl;
                no_cache = refl;
              })

-- A transaction that is read from bytes has its version and lock time in 32 bits, its previous
-- hashes of 32 bytes, its indices and amounts in 32 and 64 bits, its scripts of at most 10000 bytes
-- and no cached id; and what is left of the input is bytes.
pub deserialize_transaction-Received :
    (bs rest : Bytes) (tx : Transaction)
    → All IsByte bs
    → deserialize_transaction bs ≡ some (tx, rest)
    → Received tx × All IsByte rest
deserialize_transaction-Received bs rest tx h e = transaction-Ensures bs tx rest h e
