-- ===== src/Provider/WriteEnds.antt =====
-- When `onWrite` of SambaProxyFileCallback.java ends.
use my_stest.Base.{
  ℕ, zero, suc, ◌+◌, ◌-◌, ◌^◌, ◌≤◌, ◌<◌, ℤ, pos, negsuc, ◌≡◌, refl, ap, ◌∙◌, false, Bool-cases, inl,
  inr, ltb, length, take, drop, arith, lt_int_lem, sub_int, add_int, to_int32, ◌+ℤ◌,
}
use my_stest.Nativefacade.Java.{Java, returned, capacity, Store}
use my_stest.Nativefacade.NativeFile.{NativeFile, Settled, WriteCounts, IsWriting}
use my_stest.Nativefacade.SambaFile
use my_stest.Nativefacade.SambaFile.{min_int}
use my_stest.Nativefacade.FileLaws.{
  Wrapped, Wrapped-continue, SameRoom, min_int_lem, write-Wrapped, seek-Wrapped,
}
use my_stest.Provider.Transfers.{splice, clear, buffer_put, write_loop, on_write}
use my_stest.Provider.Slices.{length-drop, length-take, length-splice}
use my_stest.Provider.TransferEnds.{settled}

pub buffer_put_lem :
    {S : Type 0} (x : Store S) (t k : ℕ)
    → x.buffer.position ≡ 0
    → k ≤ capacity x.buffer
    → t + k ≤ length x.array
    → (y : Store S) × (buffer_put (pos t) (pos k) x ≡ returned tt y)
      × (y.array ≡ x.array)
      × (capacity y.buffer ≡ capacity x.buffer)
      × (y.native ≡ x.native)
unfolding buffer_put
buffer_put_lem x t k p fits room =
    let a : ltb (length x.array) (t + k) ≡ false = ground arith in
    let b : ltb (capacity x.buffer) (x.buffer.position + k) ≡ false = ground arith in
    let taken : length (take k (drop t x.array)) ≡ k =
      length-take k (drop t x.array) (omega (arith, length-drop t x.array)) in
    let put = splice x.buffer.position (take k (drop t x.array)) x.buffer.contents in
    (
      record x { buffer = record { position = x.buffer.position + k; contents = put } },
      rw (a, b),
      refl,
      length-splice x.buffer.position (take k (drop t x.array)) x.buffer.contents
          (omega (arith, taken)),
      refl,
    )

-- All bytes written, with the array as long as before.
abbrev pub Exactly : ℕ → ℕ → {S : Type 0} → ℤ → Store S → Type 0
Exactly n a v y = (v ≡ pos n) × (length y.array ≡ a)

-- One turn of the loop of `onWrite` after a write, before the turns that follow it.
write_turn-Ends :
    {S : Type 0} (Valid : S → Type 0) (n t k : ℕ) (x y : Store S)
    (next : ℤ → Store S → Java (Store S) ℤ)
    → n < 2 ^ 31
    → x.buffer.position ≡ 0
    → k ≤ n - t
    → 0 < k
    → y.array ≡ x.array
    → capacity y.buffer ≡ capacity x.buffer
    → ((u : ℕ) (z : Store S)
        → t < u
        → u ≤ n
        → length z.array ≡ length x.array
        → z.buffer.position ≡ 0
        → capacity z.buffer ≡ capacity x.buffer
        → Valid z.native
        → Wrapped (Exactly n (length x.array)) (next (pos u) z))
    → (v : ℤ) (z : Store S) → WriteCounts k v × SameRoom y z × Valid z.native
    → Wrapped (Exactly n (length x.array)) (next (to_int32 (pos t +ℤ v)) (clear z))
write_turn-Ends Valid n t k x y next small p under some same size turns (negsuc v) z (h, _, _) =
    absurd h
write_turn-Ends Valid n t k x y next small p under some same size turns (pos v) z
      ((le, on), kept, left) =
    let moved : 0 < v = on some in
    rw (add_int t v (omega arith)) (
      turns (t + v) (clear z) (omega arith) (omega arith) (rw (kept.array, same)) refl
        (kept.room ∙ size) left)

module _ {S : Type 0} (file : NativeFile S) (Valid : S → Type 0)
    (writing : IsWriting file Valid) where
  write_loop-Ends :
      (fuel n t : ℕ) (x : Store S)
      → t ≤ n
      → n < 2 ^ 31
      → n ≤ length x.array
      → 0 < capacity x.buffer
      → x.buffer.position ≡ 0
      → n - t < fuel
      → Valid x.native
      → Wrapped (Exactly n (length x.array)) (write_loop file fuel (pos n) (pos t) x)
  unfolding write_loop
  write_loop-Ends zero n t x le small room space p enough valid = absurd (omega arith)
  write_loop-Ends (suc fuel) n t x le small room space p enough valid =
      elim (Bool-cases (ltb t n)) [
        | inr e ↦
            let all : t ≡ n = ground arith in rw (lt_int_lem t n, e, write_loop) (ap pos all, refl)
        | inl e ↦
            let more : t < n = ground arith in
            let (k, m, under, fits, some) = min_int_lem (n - t) (capacity x.buffer) in
            let (y, runs, same, size, alike) = buffer_put_lem x t k p fits (omega arith) in
            rw (lt_int_lem t n, e, sub_int n t le small, m, runs, write_loop)
              (Wrapped-continue (λ v z. WriteCounts k v × SameRoom y z × Valid z.native)
                (Exactly n (length x.array)) _ (SambaFile.write file (pos k) y)
                (write-Wrapped file Valid writing k y (omega arith) (rw alike valid))
                (write_turn-Ends Valid n t k x y (write_loop file fuel (pos n)) small p under
                  (some (omega arith) space) same size
                  λ u z lt le same q large left. rw same at (
                    write_loop-Ends fuel n u z le small (omega (arith, same))
                      (omega (arith, large, space)) q (omega arith) left)))
      ]

  -- From a valid state of native methods of which each write of some bytes writes one at least or
  -- throws an ErrnoException, `onWrite` of `size` bytes of an array that has them, through a buffer of
  -- some capacity, ends within `size + 1` turns of its loop: it returns `size`, or throws an
  -- ErrnoException. No index is out of bounds; if it returns, the array is as long as before and the
  -- buffer is clear.
  pub on_write-Settled :
      (offset : ℤ) (size : ℕ) (x : Store S)
      → size < 2 ^ 31
      → size ≤ length x.array
      → 0 < capacity x.buffer
      → x.buffer.position ≡ 0
      → Valid x.native
      → Settled
          (λ v y. Exactly size (length x.array) v y × (y.buffer.position ≡ 0))
          (on_write file (size + 1) offset (pos size) x)
  unfolding on_write
  on_write-Settled offset size x small room space p valid =
      settled (Exactly size (length x.array)) _ (λ v y h. h)
        (Wrapped-continue (λ _ y. SameRoom x y × Valid y.native) (Exactly size (length x.array)) _
          (SambaFile.seek file offset x) (seek-Wrapped file Valid writing.seeks offset x valid)
          λ _ y (same, left).
            let e : length y.array ≡ length x.array = rw same.array in
            rw e at (
              write_loop-Ends (size + 1) size 0 y (omega arith) small (rw same.array room)
                (omega (arith, same.room)) (same.position ∙ p) (omega arith) left))
