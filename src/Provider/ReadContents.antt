-- ===== src/Provider/ReadContents.antt =====
-- What `onRead` of SambaProxyFileCallback.java copies.
use my_stest.Base.{
  ℕ, zero, suc, ◌+◌, ◌-◌, ◌^◌, ◌≤◌, ◌<◌, ℤ, pos, ◌≡◌, refl, sym, ap, ◌∙◌, true, false, Bool-cases,
  inl, inr, ltb, Text, ◌++◌, length, length-append, take, drop, arith, lt_int, lt_int_lem, sub_int,
  add_int, to_int32, ◌+ℤ◌,
}
use my_stest.Nativefacade.Java.{Java, returned, continue, capacity, Store}
use my_stest.Nativefacade.NativeFile.{NativeFile, Settled}
use my_stest.Nativefacade.SambaFile
use my_stest.Nativefacade.SambaFile.{same_long}
use my_stest.Nativefacade.FileLaws.{Wrapped, Wrapped-continue}
use my_stest.Nativefacade.Endings.{WrappedEnds-Wrapped}
use my_stest.Provider.RegularFile.{
  IsRegularFile, IsSeekable, Knows, ReadThrew, HasRead, HasSought, read-HasRead, seek-HasSought,
}
use my_stest.Provider.Transfers.{splice, clear, buffer_get, read_loop, on_read}
use my_stest.Provider.Slices.{
  drop-drop, take-add, take-all, splice-append, length-drop, length-take-length,
}
use my_stest.Provider.TransferEnds.{settled, buffer_get_lem}

-- The end of a transfer of `size` bytes from `o` on into an array that was `old`.
abbrev pub Transferred : {S : Type 0} → (S → ℕ) → Text → ℕ → ℕ → Text → ℤ → Store S → Type 0
Transferred position file_bytes o size old v y =
    let w = take size (drop o file_bytes) in
    (v ≡ pos (length w))
    × (y.array ≡ w ++ drop (length w) old)
    × (position y.native ≡ o + length w)
    × Knows position y

module _ {S : Type 0} (n : NativeFile S) (file_bytes : Text) (position : S → ℕ) (Valid : S → Type 0)
    (regular : IsRegularFile n file_bytes position Valid) (small : length file_bytes < 2 ^ 63) where
  -- The first `t` bytes of the array `old` have become those of the file from `o` on.
  record HasFilled (o t : ℕ) (old : Text) (x : Store S) : Type 0 where
    place : position x.native ≡ o + t
    knows : Knows position x
    valid : Valid x.native
    low : position x.native < 2 ^ 63
    there : length (take t (drop o file_bytes)) ≡ t
    stored : x.array ≡ take t (drop o file_bytes) ++ drop t old
    cleared : x.buffer.position ≡ 0
    space : 0 < capacity x.buffer

  at_end :
      (o t size : ℕ) (old : Text) (x : Store S)
      → HasFilled o t old x
      → take size (drop o file_bytes) ≡ take t (drop o file_bytes)
      → Transferred position file_bytes o size old (pos t) x
  at_end o t size old x filled e =
      rw (e, filled.there) (refl, filled.stored, filled.place, filled.knows)

  -- The bytes of a read put behind those that are there.
  fill_more :
      (o t m : ℕ) (old : Text) (x y z : Store S) (v : ℤ)
      (r : HasRead file_bytes position Valid x m v y)
      → HasFilled o t old x
      → z.array ≡ splice t (take r.count y.buffer.contents) y.array
      → capacity z.buffer ≡ capacity y.buffer
      → z.file ≡ y.file
      → z.native ≡ y.native
      → HasFilled o (t + r.count) old (clear z)
  fill_more o t m old x y z v r filled got large file native =
      let k = r.count in
      let rest = drop o file_bytes in
      let from : drop (position x.native) file_bytes ≡ drop t rest =
        ap (λ a. drop a file_bytes) filled.place ∙ sym (drop-drop o t file_bytes) in
      let u = take k (drop t rest) in
      let copied : take k y.buffer.contents ≡ u = r.bytes_read ∙ ap (take k) from in
      let size : length u ≡ k = ap (λ xs. length (take k xs)) (sym from) ∙ r.there in
      let low : position y.native < 2 ^ 63 = omega (
        arith,
        r.moved,
        r.there,
        filled.low,
        small,
        length-take-length k (drop (position x.native) file_bytes),
        length-drop (position x.native) file_bytes,
      ) in
      record {
        place = rw native (omega (arith, r.moved, filled.place));
        knows = rw (native, file) r.knows;
        valid = rw native r.valid;
        low = rw native low;
        there = rw take-add (length-append (take t rest) u ∙ omega (arith, filled.there, size));
        stored =
            got
            ∙ rw (r.array, filled.stored, copied, take-add)
                (splice-append (take t rest) u old t filled.there
                  ∙ ap (λ a. (take t rest ++ u) ++ drop (t + a) old) size);
        cleared = refl;
        space = omega (arith, large, r.room, filled.space);
      }

  read_turn-Transferred :
      (o t size : ℕ) (old : Text) (x : Store S) (next : ℤ → Store S → Java (Store S) ℤ)
      → size < 2 ^ 31
      → size ≤ length old
      → t < size
      → HasFilled o t old x
      → ((u : ℕ) (z : Store S)
          → t < u
          → u ≤ size
          → HasFilled o u old z
          → Wrapped (Transferred position file_bytes o size old) (next (pos u) z))
      → (v : ℤ) (y : Store S) → HasRead file_bytes position Valid x (size - t) v y
      → Wrapped (Transferred position file_bytes o size old) (elim (lt_int (pos 0) v) [
        | false ↦ returned (pos t) y
        | true ↦ continue (buffer_get (pos t) v y) λ _ z. next (to_int32 (pos t +ℤ v)) (clear z)
      ])
  read_turn-Transferred o t size old x next narrow room more filled turns v y r =
      elim (Bool-cases (ltb 0 r.count)) [
        | inr e ↦
            rw (r.value, lt_int_lem 0 r.count, e)
              (let none : r.count ≡ 0 = ground arith in
                let past : length file_bytes ≤ o + t = ground (arith, filled.place, filled.space) in
                let f = filled.place in
                rw
                  (
                    take-all t size (drop o file_bytes) (omega (arith, length-drop o file_bytes))
                        (omega arith),
                    filled.there,
                  )
                  (refl, r.array ∙ filled.stored, omega (arith, r.moved), r.knows))
        | inl e ↦
            rw (r.value, lt_int_lem 0 r.count, e)
              (let f : length y.array ≡ length old =
                  rw (r.array, filled.stored)
                    (length-append (take t (drop o file_bytes)) (drop t old)
                      ∙ omega (arith, filled.there, length-drop t old)) in
                let (z, runs, got, same, file, native) =
                  buffer_get_lem y t r.count (r.cleared ∙ filled.cleared)
                    (omega (arith, r.within_buffer, r.room)) (omega (arith, r.within_size, f)) in
                let some : 0 < r.count = ground arith in
                rw (r.value, runs, add_int t r.count (omega (arith, r.within_size)))
                  (turns (t + r.count) (clear z) (omega arith) (omega (arith, r.within_size)) (
                    fill_more o t (size - t) old x y z v r filled got (ap length same) file
                      native)))
      ]

  read_loop-Transferred :
      (fuel o t size : ℕ) (old : Text) (x : Store S)
      → size < 2 ^ 31
      → size ≤ length old
      → t ≤ size
      → HasFilled o t old x
      → size - t < fuel
      → Wrapped (Transferred position file_bytes o size old) (read_loop n fuel (pos size) (pos t) x)
  unfolding read_loop
  read_loop-Transferred zero o t size old x narrow room le filled enough = absurd (omega arith)
  read_loop-Transferred (suc fuel) o t size old x narrow room le filled enough =
      elim (Bool-cases (ltb t size)) [
        | inr e ↦
            let all : size ≡ t = ground arith in
            rw (lt_int_lem t size, e, read_loop)
              (at_end o t size old x filled (ap (λ k. take k (drop o file_bytes)) all))
        | inl e ↦
            let more : t < size = ground arith in
            rw (lt_int_lem t size, e, sub_int size t le narrow, read_loop)
              (Wrapped-continue (HasRead file_bytes position Valid x (size - t))
                (Transferred position file_bytes o size old) _ (SambaFile.read n (pos (size - t)) x)
                (WrappedEnds-Wrapped (λ y. Valid y.native × ReadThrew n)
                  (HasRead file_bytes position Valid x (size - t)) _
                  (read-HasRead n file_bytes position Valid regular small (size - t) x (omega arith)
                    filled.valid filled.knows filled.low))
                (read_turn-Transferred o t size old x (read_loop n fuel (pos size)) narrow room more
                  filled
                  λ u z lt le more.
                    read_loop-Transferred fuel o u size old z narrow room le more (omega arith)))
      ]

  -- Over native methods of a file with these bytes, fewer than 2^63, whose reads and whose seeks below
  -- 2^31 are right from valid states or throw an ErrnoException, from a valid state in which the
  -- SambaFile's offset is the file's position: `onRead` of `size` bytes at an offset below 2^31, for an
  -- array with room for them and with a cleared buffer of some capacity, ends within `size + 1` turns
  -- of its loop. It throws an ErrnoException, or copies into the start of the array the bytes of the
  -- file from the offset on, up to `size` or the end of the file, and returns how many; then the rest
  -- of the array is as before, the SambaFile's offset is again the file's position, and the buffer is
  -- clear.
  pub on_read-Transferred :
      IsSeekable n position Valid
      → (o size : ℕ) (x : Store S) → o < 2 ^ 31
      → size < 2 ^ 31
      → size ≤ length x.array
      → 0 < capacity x.buffer
      → x.buffer.position ≡ 0
      → Knows position x
      → Valid x.native
      → Settled
          (λ v y. Transferred position file_bytes o size x.array v y × (y.buffer.position ≡ 0))
          (on_read n (size + 1) (pos o) (pos size) x)
  unfolding on_read
  on_read-Transferred seekable o size x low narrow room space cleared knows valid =
      settled (Transferred position file_bytes o size x.array) _ (λ v y h. h)
        (Wrapped-continue (λ _ y. HasSought file_bytes position Valid o x y)
          (Transferred position file_bytes o size x.array) _ (SambaFile.seek n (pos o) x)
          (WrappedEnds-Wrapped (λ y. Valid y.native)
            (λ _ y. HasSought file_bytes position Valid o x y) _
            (seek-HasSought n file_bytes position Valid seekable o x low valid knows))
          λ _ y h.
            read_loop-Transferred (size + 1) o 0 size x.array y narrow room (omega arith)
              (record {
                place = omega (arith, h.place);
                knows = h.knows;
                valid = h.valid;
                low = omega (arith, h.place);
                there = refl;
                stored = h.array;
                cleared = rw h.buffer cleared;
                space = rw h.buffer space;
              })
              (omega arith))
