-- ===== src/Db/Options.antt =====
-- The options of db.go, and `Open` with them. The file system is a test seam.
pub mod Laws
use btypedb.Prelude.{
  ℕ, ◌*◌, ◌^◌, Bool, true, false, Option, none, some, List, [], ◌∷◌, Result, ok, err, io_failure,
  if◌then◌else◌,
}
use btypedb.Prelude.Int.{ℤ, pos}
use btypedb.Prelude.Order.{Order}
use btypedb.Bytes.{Bytes}
use btypedb.Codec.{Codec}
use btypedb.Encrypt.{WalCipher, Crypto, new_wal_cipher}
use btypedb.State.{Trees}
use btypedb.Db.Apply.{Format}
use btypedb.Db.Handle.{Db, File, Options, SyncPolicy, sync_always}
use btypedb.Db.Header.{OpenIo}
use btypedb.Db.Open.{open_db}

-- `handle` holds the options that the handle keeps.
pub record OpenOptions : Type 0 where
  pub handle : Options
  pub sweep_interval : ℤ
  pub truncate_at_corrupt : Bool
  pub enc_key : Option Bytes

abbrev pub default_options : OpenOptions
default_options = record {
  handle = record {
    policy = sync_always;
    auto_compact = true;
    compact_min_size = pos (32 * 2 ^ 20);
    compact_growth_pct = pos 100;
  };
  sweep_interval = pos 500000000;
  truncate_at_corrupt = false;
  enc_key = none;
}

-- `append([]byte(nil), key...)`: a copy of no bytes is nil.
abbrev copied_key : Bytes → Option Bytes
copied_key [] = none
copied_key (b ∷ bs) = some (b ∷ bs)

-- The `With...` functions.
pub data OpenOption : Type 0 where
  with_sync_policy : SyncPolicy → OpenOption
  with_auto_compact : ℤ → ℤ → OpenOption
  with_auto_compact_disabled with_truncate_at_corruption : OpenOption
  with_sweep_interval : ℤ → OpenOption
  with_encryption_key : Bytes → OpenOption

unfoldable pub with_option : OpenOption → OpenOptions → OpenOptions
with_option (with_sync_policy p) o = record o { handle = record o.handle { policy = p } }
with_option (with_auto_compact min_size growth_pct) o = record o {
  handle = record o.handle {
    auto_compact = true;
    compact_min_size = min_size;
    compact_growth_pct = growth_pct;
  };
}
with_option with_auto_compact_disabled o = record o {
  handle = record o.handle { auto_compact = false };
}
with_option with_truncate_at_corruption o = record o { truncate_at_corrupt = true }
with_option (with_sweep_interval d) o = record o { sweep_interval = d }
with_option (with_encryption_key key) o = record o { enc_key = copied_key key }

-- The loop over the options, in their order.
unfoldable pub apply_options : List OpenOption → OpenOptions → OpenOptions
unfolding with_option
apply_options [] o = o
apply_options (opt ∷ opts) o = apply_options opts (with_option opt o)

abbrev pub chosen_cipher : Crypto → Option Bytes → Result (Option WalCipher)
chosen_cipher crypto none = ok none
chosen_cipher crypto (some key) = elim (new_wal_cipher crypto key) [
  | ok wc ↦ ok (some wc)
  | err e ↦ err e
]

module _ {K : Type 0} {o : Order K} {V : Type 0} (trees : Trees o V) (crypto : Crypto)
    (key_codec : Codec K) (val_codec : Codec V) (io : OpenIo) (opened : Bool) where
  -- `Open` behind the loop: the cipher is made before the file is touched. `opened` is whether the
  -- system opens the file.
  unfoldable pub open_with : OpenOptions → File → Option (Result (Db trees) × File)
  unfolding open_db
  open_with o f = elim (chosen_cipher crypto o.enc_key) [
    | err e ↦ some (err e, f)
    | ok wc ↦
        if opened
        then open_db trees (record { key_codec = key_codec; val_codec = val_codec; cipher = wc }) io
            o.truncate_at_corrupt o.handle f
        else some (err io_failure, f)
  ]

  unfoldable pub open_file : List OpenOption → File → Option (Result (Db trees) × File)
  unfolding open_with
  open_file opts f = open_with (apply_options opts default_options) f
