-- ===== src/Tx/Writes.antt =====
-- The op and the value bytes of a write: a positive deadline stands before the value.
use btypedb.Prelude.{ℕ, if◌then◌else◌}
use btypedb.Prelude.Int.{ℤ, pos, ltb_ℤ, to_uint64}
use btypedb.Bytes.{Bytes}
use btypedb.Wal.Record.{op_set, op_set_ttl, prepend_deadline}

abbrev pub write_op : ℤ → ℕ
write_op deadline = if ltb_ℤ (pos 0) deadline then op_set_ttl else op_set

abbrev pub write_value : ℤ → Bytes → Bytes
write_value deadline vb =
    if ltb_ℤ (pos 0) deadline then prepend_deadline (to_uint64 deadline) vb else vb
