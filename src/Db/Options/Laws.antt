-- ===== src/Db/Options/Laws.antt =====
-- `Open` with its options ends.
use btypedb.Prelude.{
  arith, Bool, some, List, Result, err, io_failure, Bool-cases, Result-cases, inl, inr, ◌≡◌, refl,
  Error, ℕ, ap, ◌∙◌, [], ◌∷◌, ◌++◌, length, ◌==◌, false, none, bad_argument, if◌then◌else◌,
}
use btypedb.Prelude.Order.{Order}
use btypedb.Codec.{Codec}
use btypedb.Encrypt.{Crypto, new_wal_cipher}
use btypedb.Bytes.{Bytes}
use btypedb.State.{Trees}
use btypedb.Db.Apply.{Format}
use btypedb.Db.Handle.{Db, File}
use btypedb.Db.Header.{OpenIo}
use btypedb.Db.Open.Laws.{open_db-total}
use btypedb.Db.Options.{
  OpenOption, OpenOptions, with_encryption_key, with_option, apply_options, default_options,
  chosen_cipher, open_with, open_file,
}

apply_options-append :
    (opts : List OpenOption) (opt : OpenOption) (o : OpenOptions)
    → apply_options (opts ++ (opt ∷ [])) o ≡ with_option opt (apply_options opts o)
unfolding apply_options
apply_options-append [] opt o = refl
apply_options-append (first ∷ opts) opt o = apply_options-append opts opt (with_option first o)

module _ {K : Type 0} {o : Order K} {V : Type 0} (trees : Trees o V) where
  -- Open ends with a database or an error, whatever the options and the key, on every file, whatever
  -- is in it, and whatever the system answers; a key that no cipher can be made of leaves the file as
  -- it is.
  pub open_file-total :
      (crypto : Crypto) (key_codec : Codec K) (val_codec : Codec V) (io : OpenIo) (opened : Bool)
      (opts : List OpenOption) (f : File)
      → (x : Result (Db trees) × File) × (open_file trees crypto key_codec val_codec io opened opts
            f
          ≡ some x)
        × ((e : Error)
            → chosen_cipher crypto (apply_options opts default_options).enc_key ≡ err e
            → x ≡ (err e, f))
  unfolding open_file open_with
  open_file-total crypto key_codec val_codec io opened opts f =
      let o = apply_options opts default_options in
      elim (Result-cases (chosen_cipher crypto o.enc_key)) [
        | inr (e, c) ↦ ((err e, f), rw (open_file, open_with, c) refl, λ e' c'. cc (c, c'))
        | inl (wc, c) ↦ elim (Bool-cases opened) [
          | inr missing ↦
              ((err io_failure, f), rw (open_file, open_with, c, missing) refl, λ e' c'. cc (c, c'))
          | inl there ↦
              let format : Format K V = record {
                key_codec = key_codec;
                val_codec = val_codec;
                cipher = wc;
              } in
              let (x, ends) = open_db-total trees format io o.truncate_at_corrupt o.handle f in
              (x, rw (open_file, open_with, c, there) ends, λ e' c'. cc (c, c'))
        ]
      ]

  empty_key :
      (o : OpenOptions) → with_option (with_encryption_key []) o ≡ record o { enc_key = none }
  unfolding with_option
  empty_key o = refl

  bad_key :
      (crypto : Crypto) (key_codec : Codec K) (val_codec : Codec V) (io : OpenIo) (opened : Bool)
      (b : ℕ) (bs : Bytes) (o : OpenOptions) (f : File)
      → (length (b ∷ bs) == 32) ≡ false
      → open_with trees crypto key_codec val_codec io opened
          (with_option (with_encryption_key (b ∷ bs)) o)
          f
        ≡ some (err bad_argument, f)
  unfolding open_with with_option new_wal_cipher
  bad_key crypto key_codec val_codec io opened b bs o f short = rw (open_with, short) refl

  -- WithEncryptionKey as the last option, with a key that is not of 32 bytes: with an empty key, Open
  -- is Open of the same options without any key, and does not encrypt; with any other, it fails, and
  -- leaves the file as it is.
  pub open_file-with_encryption_key :
      (crypto : Crypto) (key_codec : Codec K) (val_codec : Codec V) (io : OpenIo) (opened : Bool)
      (opts : List OpenOption) (f : File) (key : Bytes)
      → (length key == 32) ≡ false
      → open_file trees crypto key_codec val_codec io opened
          (opts ++ (with_encryption_key key ∷ []))
          f
        ≡ (if length key == 0
            then open_with trees crypto key_codec val_codec io opened
                (record (apply_options opts default_options) { enc_key = none })
                f
            else some (err bad_argument, f))
  unfolding open_file
  open_file-with_encryption_key crypto key_codec val_codec io opened opts f [] short =
      ap (λ o. open_with trees crypto key_codec val_codec io opened o f)
        (apply_options-append opts (with_encryption_key []) default_options
          ∙ empty_key (apply_options opts default_options))
  open_file-with_encryption_key crypto key_codec val_codec io opened opts f (b ∷ bs) short =
      let key = b ∷ bs in
      let some_bytes : (length key == 0) ≡ false = ground arith in
      rw some_bytes (
        ap (λ o. open_with trees crypto key_codec val_codec io opened o f)
          (apply_options-append opts (with_encryption_key key) default_options)
        ∙ bad_key crypto key_codec val_codec io opened b bs (apply_options opts default_options) f
            short)
