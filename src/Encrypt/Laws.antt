-- ===== src/Encrypt/Laws.antt =====
-- What replay opens is what a write sealed.
use btypedb.Prelude.{
  ℕ, [], ◌+◌, ◌≤◌, ◌≡◌, refl, Option, none, some, ◌++◌, ok, ◌==◌, ltb, length, take, drop,
  length-append, take-length_append, drop-length_append, arith, Bool-cases, inl, inr, true, false,
}
use btypedb.Bytes.{Bytes}
use btypedb.Wal.Record.{op_delete, frame, append_record}
use btypedb.Encrypt.{Aead, WalCipher, record_aad, append_sealed_record, open_record}

-- What the code relies on of an AEAD: it opens what it sealed, and the overhead is the tag's.
pub record AeadLaws (a : Aead) : Type 0 where
  pub unseal-seal :
      (n p aad : Bytes) → length n ≡ a.nonce_size → a.unseal n (a.seal n p aad) aad ≡ some p
  pub length-seal : (n p aad : Bytes) → length (a.seal n p aad) ≡ length p + a.overhead

-- The cipher is lawful, and `rand.Read` fills a nonce of its size.
abbrev pub IsSound : Option WalCipher → Option Bytes → Type 0
IsSound none rand = Unit
IsSound (some wc) none = Unit
IsSound (some wc) (some n) = AeadLaws wc.rec × (length n ≡ wc.rec.nonce_size)

module _ (wc : WalCipher) (n : Bytes) (laws : AeadLaws wc.rec)
    (size : length n ≡ wc.rec.nonce_size) where
  open_record-seal :
      (op : ℕ) (key val : Bytes)
      → (op == op_delete) ≡ false
      → open_record (some wc) op key (n ++ wc.rec.seal n val (record_aad op key)) ≡ ok (key, val)
  unfolding open_record
  open_record-seal op key val h =
      let ct = wc.rec.seal n val (record_aad op key) in
      let front : take wc.rec.nonce_size (n ++ ct) ≡ n = rw size at (take-length_append n ct) in
      let back : drop wc.rec.nonce_size (n ++ ct) ≡ ct = rw size at (drop-length_append n ct) in
      let long : ltb (length (n ++ ct)) (wc.rec.nonce_size + wc.rec.overhead) ≡ false =
        enough (omega (arith, length-append n ct, laws.length-seal n val (record_aad op key))) in
      rw (h, long, front, back, laws.unseal-seal n val (record_aad op key) size)
    where
      enough : {a b : ℕ} → b ≤ a → ltb a b ≡ false
      enough h = ground arith

  append_sealed_record-some :
      (op : ℕ) (dst key val out : Bytes)
      → (op == op_delete) ≡ false
      → append_sealed_record dst (some wc) (some n) op key val ≡ ok out
      → (stored : Bytes) × (out ≡ dst ++ frame op key stored)
        × (open_record (some wc) op key stored ≡ ok (key, val))
  append_sealed_record-some op dst key val out h e = (
    n ++ wc.rec.seal n val (record_aad op key),
    (unfold append_sealed_record append_record in cc (rw h at e)),
    open_record-seal op key val h,
  )

no_nonce :
    (wc : WalCipher) (op : ℕ) (dst key val out : Bytes)
    → append_sealed_record dst (some wc) none op key val ≡ ok out
    → (op == op_delete) ≡ false
    → ⊥
unfolding append_sealed_record
no_nonce wc op dst key val out e h = cc (rw h at e)

pub append_sealed_record-delete :
    (wc : Option WalCipher) (rand : Option Bytes) (op : ℕ) (dst key val : Bytes)
    → (op == op_delete) ≡ true
    → (append_sealed_record dst wc rand op key val ≡ ok (append_record dst op key val))
      × (open_record wc op key val ≡ ok (key, val))
unfolding append_sealed_record open_record
append_sealed_record-delete none rand op dst key val h = (refl, refl)
append_sealed_record-delete (some wc) rand op dst key val h = (rw h, rw h)

-- A record that was appended is one frame, and replay opens its value to the value that was given.
pub append_sealed_record-open :
    (wc : Option WalCipher) (rand : Option Bytes) (op : ℕ) (dst key val out : Bytes)
    → IsSound wc rand
    → append_sealed_record dst wc rand op key val ≡ ok out
    → (stored : Bytes) × (out ≡ dst ++ frame op key stored)
      × (open_record wc op key stored ≡ ok (key, val))
append_sealed_record-open none rand op dst key val out s e =
    (val, (unfold append_sealed_record append_record in cc e), (unfold open_record in refl))
append_sealed_record-open (some wc) rand op dst key val out s e =
    elim (Bool-cases (op == op_delete)) [
      | inl plain ↦
          let (same, opens) = append_sealed_record-delete (some wc) rand op dst key val plain in
          (val, (unfold append_record in cc (same, e)), opens)
      | inr sealed ↦ go rand s e sealed
    ]
  where
    go :
        (r : Option Bytes)
        → IsSound (some wc) r
        → append_sealed_record dst (some wc) r op key val ≡ ok out
        → (op == op_delete) ≡ false
        → (stored : Bytes) × (out ≡ dst ++ frame op key stored)
          × (open_record (some wc) op key stored ≡ ok (key, val))
    go none s e h = absurd (no_nonce wc op dst key val out e h)
    go (some n) s e h = append_sealed_record-some wc n s.0 s.1 op dst key val out h e

-- The record of a removal is never sealed.
pub open_record-delete :
    (wc : Option WalCipher) (key val : Bytes) → open_record wc op_delete key val ≡ ok (key, val)
open_record-delete wc key val = (append_sealed_record-delete wc none op_delete [] key val refl).1
