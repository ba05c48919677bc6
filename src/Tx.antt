-- ===== src/Tx.antt =====
-- tx.go and savepoint.go: transactions over a copy of the state.
pub mod Writes
pub mod Ranges
pub mod Savepoints
pub mod Log
pub mod RangeLog
use btypedb.Prelude.{
  ℕ, zero, suc, ◌+◌, ◌-◌, ◌%◌, ◌^◌, Bool, true, false, not, Option, none, some, List, [], ◌∷◌, ◌++◌,
  Result, ok, err, ◌>>=◌, tx_closed, tx_not_writable, savepoint_invalid, bad_argument, ◌==◌,
  if◌then◌else◌, length, take, drop,
}
use btypedb.Prelude.Int.{ℤ, pos, ◌+ℤ◌, ◌-ℤ◌, ltb_ℤ, leb_ℤ, wrap_int64, to_uint64}
use btypedb.Prelude.Order.{Order}
use btypedb.Bytes.{Bytes}
use btypedb.Wal.Record.{op_set, op_delete, op_set_ttl, prepend_deadline, append_record}
use btypedb.Btype.Contract.{MapLib}
use btypedb.Encrypt.{append_sealed_record}
use btypedb.State.{Trees, DbState, set, delete, expired, get, live_len}
use btypedb.Db.Apply.{Format}
use Writes.{write_op, write_value}

module _ {K : Type 0} {o : Order K} {V : Type 0} (trees : Trees o V) where
  -- The object behind a `*Savepoint`.
  pub record Savepoint : Type 0 where
    pub state : DbState trees
    pub pending_len : ℕ
    pub nops : ℕ
    pub active : Bool

  -- `marks` holds every savepoint that the transaction has made, at its number, which stands for
  -- the pointer; `saves` has the numbers of those on the stack, oldest first.
  pub record Tx : Type 0 where
    pub state : DbState trees
    pub writable : Bool
    pub pending : Bytes
    pub nops : ℕ
    pub saves : List ℕ
    pub marks : List Savepoint
    pub done : Bool

  -- The transaction that `Begin` returns for a copy of the state.
  abbrev pub new_tx : DbState trees → Bool → Tx
  new_tx snap writable = record {
    state = snap;
    writable = writable;
    pending = [];
    nops = 0;
    saves = [];
    marks = [];
    done = false;
  }

  abbrev pub inc_uint64 : ℕ → ℕ
  inc_uint64 n = (n + 1) % 2 ^ 64

  module _ (format : Format K V) where
    open format use {key_codec, val_codec, cipher}

    abbrev pub logged_set : Tx → K → V → ℤ → Bytes → Tx
    logged_set tx key value deadline pending = record tx {
      pending = pending;
      nops = inc_uint64 tx.nops;
      state = set trees tx.state key value deadline;
    }

    -- `rand` is what `rand.Read` gives for the nonce.
    unfoldable pub set_internal : Option Bytes → Tx → K → V → ℤ → Result Tx
    set_internal rand tx key value deadline =
        if tx.done then err tx_closed else if not tx.writable then err tx_not_writable else do
          kb ← key_codec.encode key
          vb ← val_codec.encode value
          pending ←
              append_sealed_record tx.pending cipher rand (write_op deadline) kb
                (write_value deadline vb)
          ok (logged_set tx key value deadline pending)

    unfoldable pub tx_set : Option Bytes → Tx → K → V → Result Tx
    unfolding set_internal
    tx_set rand tx key value = set_internal rand tx key value (pos 0)

    -- `now` is `time.Now().UnixNano()`.
    unfoldable pub tx_set_ttl : Option Bytes → ℤ → Tx → K → V → ℤ → Result Tx
    unfolding set_internal
    tx_set_ttl rand now tx key value ttl =
        if leb_ℤ ttl (pos 0)
        then err bad_argument
        else set_internal rand tx key value (wrap_int64 (now +ℤ ttl))

    abbrev pub logged_delete : Tx → K → Bytes → Tx
    logged_delete tx key kb = record tx {
      pending = append_record tx.pending op_delete kb [];
      nops = inc_uint64 tx.nops;
      state = (delete trees tx.state key).0;
    }

    unfoldable pub tx_delete : ℤ → Tx → K → Result (Bool × Tx)
    tx_delete now tx key =
        if tx.done
        then err tx_closed
        else if not tx.writable
        then err tx_not_writable
        else if not (MapLib.contains trees.data_map tx.state.pairs key)
        then ok (false, tx)
        else do
          kb ← key_codec.encode key
          ok (not (expired trees tx.state key now), logged_delete tx key kb)
