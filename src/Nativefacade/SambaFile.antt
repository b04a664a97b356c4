-- ===== src/Nativefacade/SambaFile.antt =====
-- The methods of SambaFile.java over its native methods.
use my_stest.Base.{ℕ, ℤ, pos, negsuc, Bool, true, false, ltb, if◌then◌else◌, ◌+ℤ◌, to_int64, lt_int}
use my_stest.Nativefacade.Java.{
  Throwable, errno_exception, io_exception, Java, returned, continue, catching, within, capacity,
  Store,
}
use my_stest.Nativefacade.NativeFile.{NativeFile}

-- `catch (ErrnoException e) { throw new IOException(…, e); }`
abbrev pub wrapped : Throwable → Throwable
wrapped (errno_exception function err) = io_exception (errno_exception function err)
wrapped e = e

-- `Math.min`
abbrev pub min_int : ℤ → ℕ → ℤ
min_int (pos a) b = if ltb b a then pos b else pos a
min_int (negsuc a) b = negsuc a

abbrev pub same_long : ℤ → ℤ → Bool
same_long a b = if lt_int a b then false else if lt_int b a then false else true

module _ {S : Type 0} where
  -- `mOffset += count`
  abbrev pub advance : ℤ → Store S → Store S
  advance count x = record x { file = record x.file { offset = to_int64 (x.file.offset +ℤ count) } }

module _ {S : Type 0} (n : NativeFile S) where
  unfoldable pub read : ℤ → Store S → Java (Store S) ℤ
  read max_len x =
      continue
        (catching
          (within
            (n.read x.file.native_fd x.buffer.contents (min_int max_len (capacity x.buffer))
              x.native)
            (λ s. record x { native = s }))
          wrapped)
        (λ (count, left) y.
          returned count
            (advance count (record y { buffer = record y.buffer { contents = left } })))

  unfoldable pub write : ℤ → Store S → Java (Store S) ℤ
  write length x =
      continue
        (catching
          (within (n.write x.file.native_fd x.buffer.contents length x.native)
            (λ s. record x { native = s }))
          wrapped)
        (λ count y. returned count (advance count y))

  -- No call when the file is there already.
  unfoldable pub seek : ℤ → Store S → Java (Store S) ℤ
  seek offset x =
      if same_long x.file.offset offset
      then returned x.file.offset x
      else continue
          (catching
            (within (n.seek x.file.native_fd offset (pos 0) x.native)
              (λ s. record x { native = s }))
            wrapped)
          (λ v y. returned v (record y { file = record y.file { offset = v } }))

  -- The descriptor is -1 before the native method runs.
  unfoldable pub close : Store S → Java (Store S) (Unit {0})
  close x =
      let y = record x { file = record x.file { native_fd = negsuc 0 } } in
      catching (within (n.close x.file.native_fd x.native) (λ s. record y { native = s })) wrapped
