-- ===== src/Provider/TransferEnds.antt =====
-- When `onRead` of SambaProxyFileCallback.java ends.
use my_stest.Base.{
  ℕ, zero, suc, ◌+◌, ◌-◌, ◌^◌, ◌≤◌, ◌<◌, ℤ, pos, negsuc, ◌≡◌, refl, ◌∙◌, true, false, Bool-cases,
  inl, inr, ltb, length, take, drop, arith, lt_int, lt_int_lem, sub_int, add_int, to_int32, ◌+ℤ◌,
}
use my_stest.Nativefacade.Java.{
  Java, errno_exception, io_exception, returned, threw, died, unfinished, continue, catching,
  finally, capacity, Store,
}
use my_stest.Nativefacade.NativeFile.{NativeFile, Settled, Counts, IsCounting}
use my_stest.Nativefacade.SambaFile
use my_stest.Nativefacade.FileLaws.{Wrapped, Wrapped-continue, SameRoom, read-Wrapped, seek-Wrapped}
use my_stest.Provider.Slices.{length-take, length-splice}
use my_stest.Provider.Transfers.{splice, unwrapped, clear, buffer_get, read_loop, on_read}

-- A value up to the size, with the array as long as before.
abbrev pub Upto : ℕ → ℕ → {S : Type 0} → ℤ → Store S → Type 0
Upto n a v y = Counts n v × (length y.array ≡ a)

pub buffer_get_lem :
    {S : Type 0} (x : Store S) (t k : ℕ)
    → x.buffer.position ≡ 0
    → k ≤ capacity x.buffer
    → t + k ≤ length x.array
    → (y : Store S) × (buffer_get (pos t) (pos k) x ≡ returned tt y)
      × (y.array ≡ splice t (take k x.buffer.contents) x.array)
      × (y.buffer.contents ≡ x.buffer.contents)
      × (y.file ≡ x.file)
      × (y.native ≡ x.native)
unfolding buffer_get
buffer_get_lem x t k p fits room =
    let a : ltb (length x.array) (t + k) ≡ false = ground arith in
    let b : ltb (capacity x.buffer) (x.buffer.position + k) ≡ false = ground arith in
    (
      record x {
        buffer = record x.buffer { position = x.buffer.position + k };
        array = splice t (take k (drop x.buffer.position x.buffer.contents)) x.array;
      },
      rw (a, b),
      rw p,
      refl,
      refl,
      refl,
    )

-- One turn of the loop of `onRead` after a read, before the turns that follow it.
read_turn-Ends :
    {S : Type 0} (Valid : S → Type 0) (n t : ℕ) (x : Store S)
    (next : ℤ → Store S → Java (Store S) ℤ)
    → n < 2 ^ 31
    → n ≤ length x.array
    → x.buffer.position ≡ 0
    → t ≤ n
    → ((u : ℕ) (z : Store S)
        → t < u
        → u ≤ n
        → length z.array ≡ length x.array
        → z.buffer.position ≡ 0
        → Valid z.native
        → Wrapped (Upto n (length x.array)) (next (pos u) z))
    → (v : ℤ) (y : Store S)
    → Counts (n - t) v × (Counts (capacity x.buffer) v) × SameRoom x y × Valid y.native
    → Wrapped (Upto n (length x.array)) (elim (lt_int (pos 0) v) [
      | false ↦ returned (pos t) y
      | true ↦ continue (buffer_get (pos t) v y) λ _ z. next (to_int32 (pos t +ℤ v)) (clear z)
    ])
read_turn-Ends Valid n t x next small room p le turns (negsuc v) y (h, _, _, _) = absurd h
read_turn-Ends Valid n t x next small room p le turns (pos zero) y (h, fits, same, valid) =
    rw (lt_int_lem 0 0) (le, rw same.array)
read_turn-Ends Valid n t x next small room p le turns (pos (suc k)) y (h, fits, same, valid) =
    let e : length y.array ≡ length x.array = rw same.array in
    let (z, runs, got, _, _, left) =
      buffer_get_lem y t (suc k) (same.position ∙ p) (omega (arith, same.room))
        (omega (arith, e)) in
    let inside : t + length (take (suc k) y.buffer.contents) ≤ length y.array =
      omega (arith, length-take (suc k) y.buffer.contents (omega (arith, same.room)), e) in
    let f : length z.array ≡ length x.array =
      rw got (length-splice t (take (suc k) y.buffer.contents) y.array inside ∙ e) in
    let some_read : ltb 0 (suc k) ≡ true = ground arith in
    rw (lt_int_lem 0 (suc k), some_read, runs, add_int t (suc k) (omega arith))
      (turns (t + suc k) (clear z) (omega arith) (omega arith) f refl (rw left valid))

-- The exception unwrapped, and the buffer cleared.
pub settled :
    {S : Type 0} (Good : ℤ → Store S → Type 0) (r : Java (Store S) ℤ)
    → ((v : ℤ) (y : Store S) → Good v y → Good v (clear y))
    → Wrapped Good r
    → Settled (λ v y. Good v y × (y.buffer.position ≡ 0)) (finally (catching r unwrapped) clear)
settled Good (returned v y) kept h = (kept v y h, refl)
settled Good (threw (io_exception (errno_exception function err)) y) kept h = tt
settled Good (threw _ y) kept h = absurd h
settled Good died kept h = absurd h
settled Good unfinished kept h = absurd h

module _ {S : Type 0} (file : NativeFile S) (Valid : S → Type 0)
    (counting : IsCounting file Valid) where
  read_loop-Ends :
      (fuel n t : ℕ) (x : Store S)
      → t ≤ n
      → n < 2 ^ 31
      → n ≤ length x.array
      → x.buffer.position ≡ 0
      → n - t < fuel
      → Valid x.native
      → Wrapped (Upto n (length x.array)) (read_loop file fuel (pos n) (pos t) x)
  unfolding read_loop
  read_loop-Ends zero n t x le small room p enough valid = absurd (omega arith)
  read_loop-Ends (suc fuel) n t x le small room p enough valid = elim (Bool-cases (ltb t n)) [
    | inr e ↦ rw (lt_int_lem t n, e, read_loop) (le, refl)
    | inl e ↦
        let more : t < n = ground arith in
        rw (lt_int_lem t n, e, sub_int n t le small, read_loop)
          (Wrapped-continue
            (λ v y.
              Counts (n - t) v × (Counts (capacity x.buffer) v) × SameRoom x y × Valid y.native)
            (Upto n (length x.array)) _ (SambaFile.read file (pos (n - t)) x)
            (read-Wrapped file Valid counting (n - t) x valid)
            (read_turn-Ends Valid n t x (read_loop file fuel (pos n)) small room p le
              λ u z lt le same q left.
                rw same at
                  (read_loop-Ends fuel n u z le small (omega (arith, same)) q (omega arith) left)))
  ]

  -- From a valid state of native methods that count, `onRead` of `size` bytes, for an array with room
  -- for them, ends within `size + 1` turns of its loop: it returns a number of bytes from 0 to
  -- `size`, or throws an ErrnoException. No index is out of bounds; if it returns, the array is as
  -- long as before and the buffer is clear.
  pub on_read-Settled :
      (offset : ℤ) (size : ℕ) (x : Store S)
      → size < 2 ^ 31
      → size ≤ length x.array
      → x.buffer.position ≡ 0
      → Valid x.native
      → Settled
          (λ v y. Upto size (length x.array) v y × (y.buffer.position ≡ 0))
          (on_read file (size + 1) offset (pos size) x)
  unfolding on_read
  on_read-Settled offset size x small room p valid =
      settled (Upto size (length x.array)) _ (λ v y h. h)
        (Wrapped-continue (λ _ y. SameRoom x y × Valid y.native) (Upto size (length x.array)) _
          (SambaFile.seek file offset x) (seek-Wrapped file Valid counting.seeks offset x valid)
          λ _ y (same, left).
            let e : length y.array ≡ length x.array = rw same.array in
            rw e at (
              read_loop-Ends (size + 1) size 0 y (omega arith) small (rw same.array room)
                (same.position ∙ p) (omega arith) left))
