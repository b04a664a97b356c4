-- ===== src/Browsing/Queries.antt =====
-- `createPacket` of BroadcastUtils.java.
use my_stest.Base.{ℕ, zero, suc, ℤ, Option, Text, none, some}
use my_stest.Browsing.Packets.{Writer, ◌>=>◌, allocate, put_byte, put_char, to_char}

-- `for (int i = 0; i < n; i++) os.put(b)`
unfoldable pub put_times : ℕ → ℕ → Writer
unfolding put_byte
put_times zero b o = some o
put_times (suc n) b o = elim (put_byte b o) [ none ↦ none | some o' ↦ put_times n b o' ]

unfoldable pub create_packet : ℤ → Option Text
unfolding put_byte put_char to_char put_times
create_packet trans_id =
    let write : Writer =
      put_char (to_char trans_id)
      >=> put_char 0x0010
      >=> put_char 1
      >=> put_char 0
      >=> put_char 0
      >=> put_char 0
      >=> put_byte 0x20
      >=> put_byte 0x43
      >=> put_byte 0x4b
      >=> put_times 30 0x41
      >=> put_byte 0
      >=> put_char 0x21
      >=> put_char 0x01 in
    elim (write (allocate 50)) [ none ↦ none | some os ↦ some os.contents ]
