-- ===== src/Mp4/Header.antt =====
-- Box headers (src/mp4/box_.rs). A slice is shorter than 2^63 bytes, so `offset + 8` does not wrap.
use dashplay_rs.Prelude.{ℕ, ◌+◌, ◌-◌, Option, none, some, ltb, ◌==◌, if◌then◌else◌, length}
use dashplay_rs.Bytes.{Bytes, slice, be, get_range}

-- The size and the header's length.
unfoldable pub read_box_size : Bytes → ℕ → Option (ℕ × ℕ)
read_box_size bytes offset =
    let size32 = be (slice bytes offset 4) in
    if ltb (length bytes) (offset + 8)
    then none
    else if size32 == 1
    then (if ltb (length bytes) (offset + 16)
        then none
        else some (be (slice bytes (offset + 8) 8), 16))
    else some ((if size32 == 0 then length bytes - offset else size32), 8)

unfoldable pub box_type_at : Bytes → ℕ → ℕ → Option Bytes
box_type_at bytes offset header_len = get_range bytes (offset + header_len - 4) 4
