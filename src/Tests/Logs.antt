-- ===== src/Tests/Logs.antt =====
-- The theorems on logs, records and codecs at concrete inputs.
use btypedb.Prelude.{
  ℕ, ◌+◌, ◌^◌, ◌≤◌, ◌≡◌, refl, some, [], ◌∷◌, ◌++◌, Result, ok, length, take, All, arith, ◌-◌, ◌%◌,
  subst, ap, append-nil, length-append, take-length_append, All-append,
}
use btypedb.Bytes.{Bytes, IsByte, checksum, put_le, put_le-IsByte}
use btypedb.Wal.Record.{WalRecord, Fits, frame, frame_of, frame_size, append_record, record_body}
use btypedb.Wal.Reader.{eof, got, read_record}
use btypedb.Wal.Reader.Framing.{over, read_record-frame}
use btypedb.Wal.Reader.Accept.{read_record-framed}
use btypedb.Wal.Replay.{Replayed, replay_log}
use btypedb.Wal.Replay.Groups.{group_size, apply_all}
use btypedb.Wal.Replay.Crash.{
  log_of, total_size, parsed_past, survivors, apply_groups, recovered, replay_log-cut,
}
use btypedb.Wal.Replay.Bounds.{replay_log-Ended}
use btypedb.Wal.Scan.{scan_for_record}
use btypedb.Wal.Scan.Laws.{FirstRecord, scan_for_record-first}
use btypedb.Encrypt.{Aead, WalCipher, append_sealed_record, seal_value, open_record}
use btypedb.Encrypt.Laws.{AeadLaws, append_sealed_record-open}
use btypedb.Tests.Setup.{one_set, one_set-Fits, commits, commits-IsGroup}

-- Records that were counted are replayed by counting.
abbrev count : ℕ → WalRecord → Result ℕ
count n r = ok (n + 1)

counted : apply_groups count 0 (survivors 30 commits) ≡ ok 1
unfolding group_size apply_all put_le
counted = refl

replay_log-cut_example :
    replay_log count 0 (over eof (take 30 (log_of commits)))
    ≡ recovered count 1
        (total_size (survivors 30 commits))
        (total_size (survivors 30 commits) + parsed_past 30 commits)
replay_log-cut_example = replay_log-cut count commits 30 0 1 commits-IsGroup counted

replay_log-Ended_example :
    (x : Replayed ℕ) × (replay_log count 0 (over eof (1 ∷ 2 ∷ 3 ∷ [])) ≡ some x)
    × (x.valid_len ≤ x.parsed_len)
    × (x.parsed_len ≤ 3)
replay_log-Ended_example = replay_log-Ended count 0 (over eof (1 ∷ 2 ∷ 3 ∷ []))

scan_for_record-first_example :
    FirstRecord (5 ∷ frame_of one_set) (scan_for_record (5 ∷ frame_of one_set))
scan_for_record-first_example = scan_for_record-first (5 ∷ frame_of one_set)

bytes_of_frame : All IsByte (frame_of one_set)
unfolding frame record_body
bytes_of_frame =
    let key = put_le-IsByte 8 1 in
    let key_len = put_le-IsByte 4 (length (put_le 8 1) % 2 ^ 32) in
    let val_len = put_le-IsByte 4 (2 % 2 ^ 32) in
    let val : All IsByte (7 ∷ 8 ∷ []) = (omega arith, (omega arith, tt)) in
    let body : All IsByte (record_body 1 (put_le 8 1) (7 ∷ 8 ∷ [])) = (
      omega arith,
      All-append IsByte _ _ key_len (All-append IsByte _ _ val_len (All-append IsByte _ _ key val)),
    ) in
    All-append IsByte (record_body 1 (put_le 8 1) (7 ∷ 8 ∷ []))
      (put_le 4 (checksum (record_body 1 (put_le 8 1) (7 ∷ 8 ∷ [])))) body
      (put_le-IsByte 4 (checksum (record_body 1 (put_le 8 1) (7 ∷ 8 ∷ []))))

read_one :
    read_record (over eof (frame_of one_set)) ≡ got one_set (frame_size one_set) (over eof [])
read_one =
    subst (λ b. read_record (over eof b) ≡ got one_set (frame_size one_set) (over eof []))
      (append-nil (frame_of one_set)) (read_record-frame eof one_set [] one_set-Fits)

read_record-framed_example :
    Fits one_set
    × (frame_of one_set ≡ frame_of one_set ++ [])
    × (frame_size one_set ≡ frame_size one_set)
read_record-framed_example =
    read_record-framed (over eof (frame_of one_set)) one_set (frame_size one_set) (over eof [])
      bytes_of_frame read_one

-- A cipher that adds a tag of one byte.
abbrev toy_aead : Aead
toy_aead = record {
  nonce_size = 1;
  overhead = 1;
  seal = λ n p aad. p ++ (0 ∷ []);
  unseal = λ n c aad. some (take (length c - 1) c);
}

abbrev toy_cipher : WalCipher
toy_cipher = record { rec = toy_aead; kcv = toy_aead; cipher_id = 1; scope = 0 }

without_tag : (p : Bytes) → take (length (p ++ (0 ∷ [])) - 1) (p ++ (0 ∷ [])) ≡ p
without_tag p =
    let e : length (p ++ (0 ∷ [])) - 1 ≡ length p = omega (arith, length-append p (0 ∷ [])) in
    rw e (take-length_append p (0 ∷ []))

toy_aead-AeadLaws : AeadLaws toy_aead
toy_aead-AeadLaws = record {
  unseal-seal = λ n p aad h. ap some (without_tag p);
  length-seal = λ n p aad. length-append p (0 ∷ []);
}

append_sealed_record-open_example :
    (stored : Bytes) × (frame 1 (3 ∷ []) (9 ∷ 7 ∷ 0 ∷ []) ≡ [] ++ frame 1 (3 ∷ []) stored)
    × (open_record (some toy_cipher) 1 (3 ∷ []) stored ≡ ok (3 ∷ [], 7 ∷ []))
append_sealed_record-open_example =
    append_sealed_record-open (some toy_cipher) (some (9 ∷ [])) 1 [] (3 ∷ []) (7 ∷ [])
      (frame 1 (3 ∷ []) (9 ∷ 7 ∷ 0 ∷ [])) (toy_aead-AeadLaws, refl)
      (unfold append_sealed_record append_record seal_value in refl)
