-- ===== src/Tests/Closes.antt =====
-- The theorems on Close and on the key of an encrypted log, at concrete inputs.
use btypedb.Prelude.{
  none, ℕ, ◌≡◌, refl, true, false, [], ◌∷◌, ◌++◌, some, err, length, List, ok, Result, Error,
}
use btypedb.Bytes.{put_le}
use btypedb.Wal.Record.{frame, record_body, prepend_deadline}
use btypedb.Codec.{bytes_codec}
use btypedb.Encrypt.{Crypto, Aead, WalCipher, zeros, cipher_header}
use btypedb.Db.Handle.{Db, File, background_sync, sync, can_write, write_log, wait_durable, lead}
use btypedb.Db.Transactions.{commit}
use btypedb.Db.Header.{prepare_header}
use btypedb.Db.Header.Encrypted.{key_verdict, prepare_header-key}
use btypedb.Db.Reach.{Operation}
use btypedb.Db.Compact.{splice}
use btypedb.Db.Close.{CloseIo, close_db}
use btypedb.Db.Close.Laws.{Activity, Activities, close_db-file}
use btypedb.Db.Options.{
  OpenOption, with_truncate_at_corruption, with_encryption_key, apply_options, default_options,
  chosen_cipher, open_with, open_file,
}
use btypedb.Db.Options.Laws.{open_file-total, open_file-with_encryption_key}
use btypedb.Tests.Setup.{trees, format, number_codec}
use btypedb.Tests.Commits.{committed}
use btypedb.Tests.Opens.{quiet}
use btypedb.Tests.Compactions.{compact_io}

abbrev good_close : CloseIo
good_close = record { sync = true; close = true }

abbrev bad_close : CloseIo
bad_close = record { sync = false; close = false }

-- A last round of the background sync, and then the second phase of a compaction, while Close waits.
abbrev ticks : Db trees → Db trees
ticks db = (splice trees format compact_io [] 0 (background_sync trees true db)).1

abbrev shut : Db trees
shut = record committed.1 { is_closed = true }

abbrev closed_db : Db trees
closed_db = (close_db trees good_close ticks committed.1).1

abbrev after : Db trees
after = (sync trees false closed_db).1

open_still : committed.1.is_closed ≡ false
unfolding commit can_write write_log wait_durable lead frame record_body put_le prepend_deadline
open_still = refl

close_db-file_example :
    (after.file.content ≡ committed.1.file.content)
    × (after.file.durable ≡ length committed.1.file.content)
    × (close_db trees bad_close ticks after ≡ ([], after))
close_db-file_example =
    close_db-file trees format good_close bad_close ticks ticks committed.1 after open_still refl
      (Activities.then (background_sync trees true shut) (ticks shut)
        (Activities.then shut (background_sync trees true shut) Activities.idle (
          Activity.operates shut (background_sync trees true shut)
            (Operation.syncs_behind true shut)))
        (Activity.splices compact_io [] 0 (background_sync trees true shut)))
      (Activities.then closed_db after Activities.idle
        (Activity.operates closed_db after (Operation.syncs false closed_db)))

-- A cipher whose tag is one byte of the key and 15 more.
abbrev keyed : ℕ → Aead
keyed key = record {
  nonce_size = 1;
  overhead = 16;
  seal = λ n p aad. p ++ (key ∷ zeros 15);
  unseal = λ n c aad. some c;
}

abbrev cipher_of : ℕ → WalCipher
cipher_of key = record { rec = keyed key; kcv = keyed key; cipher_id = 1; scope = 0 }

abbrev begun_file : File
begun_file = record { content = cipher_header (cipher_of 7) ++ (1 ∷ 2 ∷ []); durable = 0 }

prepare_header-key_example :
    prepare_header quiet (some (cipher_of 8)) begun_file
    ≡ (key_verdict (cipher_of 7) (some (cipher_of 8)), begun_file)
prepare_header-key_example =
    prepare_header-key quiet refl refl (cipher_of 7) refl (1 ∷ 2 ∷ []) 0 (some (cipher_of 8)) refl

abbrev toy_crypto : Crypto
toy_crypto = record { hkdf = λ master label. ok master; gcm = λ key. ok (keyed 1) }

-- A key of two bytes.
abbrev short_key : List OpenOption
short_key = with_truncate_at_corruption ∷ with_encryption_key (1 ∷ 2 ∷ []) ∷ []

open_file-total_example :
    (x : Result (Db trees) × File) × (open_file trees toy_crypto number_codec bytes_codec quiet true
        short_key begun_file
      ≡ some x)
    × ((e : Error)
        → chosen_cipher toy_crypto (apply_options short_key default_options).enc_key ≡ err e
        → x ≡ (err e, begun_file))
open_file-total_example =
    open_file-total trees toy_crypto number_codec bytes_codec quiet true short_key begun_file

open_file-with_encryption_key_example :
    open_file trees toy_crypto number_codec bytes_codec quiet true
      (with_truncate_at_corruption ∷ with_encryption_key [] ∷ [])
      begun_file
    ≡ open_with trees toy_crypto number_codec bytes_codec quiet true
        (record (apply_options (with_truncate_at_corruption ∷ []) default_options) {
          enc_key = none;
        })
        begun_file
open_file-with_encryption_key_example =
    open_file-with_encryption_key trees toy_crypto number_codec bytes_codec quiet true
      (with_truncate_at_corruption ∷ []) begun_file [] refl
