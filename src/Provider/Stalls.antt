-- ===== src/Provider/Stalls.antt =====
-- `onWrite` of SambaProxyFileCallback.java over a server that writes nothing.
use my_stest.Base.{
  ℕ, zero, suc, ◌+◌, ◌-◌, ◌^◌, ◌≤◌, ◌<◌, ℤ, pos, ◌≡◌, refl, true, ltb, length, arith, lt_int_lem,
  sub_int, add_int, Text,
}
use my_stest.Nativefacade.Java.{returned, unfinished, capacity, Store}
use my_stest.Nativefacade.NativeFile.{NativeFile}
use my_stest.Nativefacade.SambaFile
use my_stest.Nativefacade.SambaFile.{same_long}
use my_stest.Nativefacade.FileLaws.{min_int_lem}
use my_stest.Provider.Transfers.{clear, write_loop, on_write}
use my_stest.Provider.WriteEnds.{buffer_put_lem}

module _ {S : Type 0} (n : NativeFile S)
    (stalls : (fd : ℤ) (contents : Text) (m : ℕ) (s : S)
      → (t : S) × (n.write fd contents (pos m) s ≡ returned (pos 0) t)) where
  write-stalls :
      (m : ℕ) (x : Store S)
      → (y : Store S) × (SambaFile.write n (pos m) x ≡ returned (pos 0) y)
        × (y.array ≡ x.array)
        × (capacity y.buffer ≡ capacity x.buffer)
  unfolding SambaFile.write
  write-stalls m x =
      let (t, e) = stalls x.file.native_fd x.buffer.contents m x.native in
      (SambaFile.advance (pos 0) (record x { native = t }), rw e, refl, refl)

  write_loop-unfinished :
      (fuel size t : ℕ) (x : Store S)
      → t < size
      → size < 2 ^ 31
      → size ≤ length x.array
      → x.buffer.position ≡ 0
      → write_loop n fuel (pos size) (pos t) x ≡ unfinished
  unfolding write_loop
  write_loop-unfinished zero size t x lt small room cleared = refl
  write_loop-unfinished (suc fuel) size t x lt small room cleared =
      let e : ltb t size ≡ true = ground arith in
      let (k, m, under, fits, _) = min_int_lem (size - t) (capacity x.buffer) in
      let (y, put, same, _, _) = buffer_put_lem x t k cleared fits (omega arith) in
      let (z, wrote, kept, _) = write-stalls k y in
      let still : t + 0 ≡ t = omega arith in
      rw
        (
          lt_int_lem t size,
          e,
          sub_int size t (omega arith) small,
          m,
          put,
          wrote,
          add_int t 0 (omega arith),
          still,
          write_loop,
        )
        (write_loop-unfinished fuel size t (clear z) lt small (rw (kept, same) room) refl)

  -- Over native methods that write none of the bytes and do not fail, at the offset where the file
  -- is, with a cleared buffer and an array that has the bytes: `onWrite` of one byte or more does not
  -- end, however many turns its loop is given.
  pub on_write-unfinished :
      (fuel size : ℕ) (offset : ℤ) (x : Store S)
      → 0 < size
      → size < 2 ^ 31
      → size ≤ length x.array
      → x.buffer.position ≡ 0
      → same_long x.file.offset offset ≡ true
      → on_write n fuel offset (pos size) x ≡ unfinished
  unfolding on_write SambaFile.seek
  on_write-unfinished fuel size offset x some small room cleared there =
      rw (there, write_loop-unfinished fuel size 0 x some small room cleared)
