-- ===== src/Provider/Transfers.antt =====
-- `onRead` and `onWrite` of SambaProxyFileCallback.java, over a cleared buffer of its pool.
use my_stest.Base.{
  ℕ, zero, suc, ◌+◌, ℤ, pos, true, false, ltb, if◌then◌else◌, ◌++◌, Text, bytes, length, take, drop,
  ◌+ℤ◌, ◌-ℤ◌, to_int32, lt_int,
}
use my_stest.Nativefacade.Java.{
  Throwable, errno_exception, io_exception, index_out_of_bounds, buffer_underflow, buffer_overflow,
  Java, returned, threw, unfinished, continue, catching, finally, capacity, Store,
}
use my_stest.Nativefacade.NativeFile.{NativeFile}
use my_stest.Nativefacade.SambaFile
use my_stest.Nativefacade.SambaFile.{min_int}

-- Bytes put into others from an index on.
abbrev pub splice : ℕ → Text → Text → Text
splice at bytes old = take at old ++ bytes ++ drop (at + length bytes) old

-- `throwErrnoException`: the cause of an IOException, if that is an ErrnoException; else EIO.
abbrev pub unwrapped : Throwable → Throwable
unwrapped (io_exception (errno_exception function err)) = errno_exception function err
unwrapped (io_exception e) = errno_exception (bytes "I/O") (pos 5)
unwrapped e = e

module _ {S : Type 0} where
  abbrev pub clear : Store S → Store S
  clear x = record x { buffer = record x.buffer { position = 0 } }

  -- `buffer.get(array, off, len)`
  unfoldable pub buffer_get : ℤ → ℤ → Store S → Java (Store S) (Unit {0})
  buffer_get (pos off) (pos len) x =
      let b = x.buffer in
      if ltb (length x.array) (off + len)
      then threw index_out_of_bounds x
      else if ltb (capacity b) (b.position + len)
      then threw buffer_underflow x
      else returned tt (record x {
        buffer = record b { position = b.position + len };
        array = splice off (take len (drop b.position b.contents)) x.array;
      })
  buffer_get _ _ x = threw index_out_of_bounds x

  -- `buffer.put(array, off, len)`
  unfoldable pub buffer_put : ℤ → ℤ → Store S → Java (Store S) (Unit {0})
  buffer_put (pos off) (pos len) x =
      let b = x.buffer in
      if ltb (length x.array) (off + len)
      then threw index_out_of_bounds x
      else if ltb (capacity b) (b.position + len)
      then threw buffer_overflow x
      else returned tt (record x {
        buffer = record {
          position = b.position + len;
          contents = splice b.position (take len (drop off x.array)) b.contents;
        };
      })
  buffer_put _ _ x = threw index_out_of_bounds x

module _ {S : Type 0} (n : NativeFile S) where
  unfoldable pub read_loop : ℕ → ℤ → ℤ → Store S → Java (Store S) ℤ
  unfolding SambaFile.read buffer_get
  read_loop zero size total x = unfinished
  read_loop (suc fuel) size total x = elim (lt_int total size) [
    | false ↦ returned total x
    | true ↦ continue (SambaFile.read n (to_int32 (size -ℤ total)) x) λ read_size y.
        elim (lt_int (pos 0) read_size) [
          | false ↦ returned total y
          | true ↦
              continue (buffer_get total read_size y)
                λ _ z. read_loop fuel size (to_int32 (total +ℤ read_size)) (clear z)
        ]
  ]

  unfoldable pub on_read : ℕ → ℤ → ℤ → Store S → Java (Store S) ℤ
  unfolding SambaFile.seek read_loop
  on_read fuel offset size x =
      finally
        (catching (continue (SambaFile.seek n offset x) λ _ y. read_loop fuel size (pos 0) y)
          unwrapped)
        clear

  unfoldable pub write_loop : ℕ → ℤ → ℤ → Store S → Java (Store S) ℤ
  unfolding SambaFile.write buffer_put
  write_loop zero size written x = unfinished
  write_loop (suc fuel) size written x = elim (lt_int written size) [
    | false ↦ returned written x
    | true ↦
        let will_write = min_int (to_int32 (size -ℤ written)) (capacity x.buffer) in
        continue (buffer_put written will_write x) λ _ y.
          continue (SambaFile.write n will_write y)
            λ res z. write_loop fuel size (to_int32 (written +ℤ res)) (clear z)
  ]

  unfoldable pub on_write : ℕ → ℤ → ℤ → Store S → Java (Store S) ℤ
  unfolding SambaFile.seek write_loop
  on_write fuel offset size x =
      finally
        (catching (continue (SambaFile.seek n offset x) λ _ y. write_loop fuel size (pos 0) y)
          unwrapped)
        clear
