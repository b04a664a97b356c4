-- ===== src/Nativefacade/FileLaws.antt =====
-- How the methods of SambaFile.java end over native methods that count.
use my_stest.Base.{ℕ, ℤ, pos, negsuc, ◌≤◌, ◌<◌, ◌^◌, ◌≡◌, refl, Bool-cases, inl, inr, arith, ltb}
use my_stest.Nativefacade.Java.{
  Throwable, errno_exception, io_exception, Java, returned, threw, died, unfinished, continue,
  catching, within, capacity, Store,
}
use my_stest.Nativefacade.NativeFile.{
  NativeFile, Settled, Counts, ReadCounts, WriteCounts, IsCounting, IsWriting,
}
use my_stest.Nativefacade.SambaFile
use my_stest.Nativefacade.SambaFile.{wrapped, same_long, min_int}

-- A method ends by a value with a property, or by an IOException over an ErrnoException.
abbrev pub Wrapped : {S A : Type 0} → (A → S → Type 0) → Java S A → Type 0
Wrapped Good (returned a s) = Good a s
Wrapped Good (threw (io_exception (errno_exception function err)) s) = Unit {0}
Wrapped Good _ = ⊥

module _ {S T A B : Type 0} (Good : A → S → Type 0) (Next : B → T → Type 0) where
  -- A native method, its exception wrapped, and what follows.
  pub native-Wrapped :
      (put : S → T) (k : A → T → Java T B) (r : Java S A)
      → Settled Good r
      → ((a : A) (s : S) → Good a s → Wrapped Next (k a (put s)))
      → Wrapped Next (continue (catching (within r put) wrapped) k)
  native-Wrapped put k (returned a s) h next = next a s h
  native-Wrapped put k (threw (errno_exception function err) s) h next = tt
  native-Wrapped put k (threw (io_exception e) s) h next = absurd h
  native-Wrapped put k (threw Throwable.index_out_of_bounds s) h next = absurd h
  native-Wrapped put k (threw Throwable.buffer_underflow s) h next = absurd h
  native-Wrapped put k (threw Throwable.buffer_overflow s) h next = absurd h
  native-Wrapped put k (threw Throwable.other s) h next = absurd h
  native-Wrapped put k died h next = absurd h
  native-Wrapped put k unfinished h next = absurd h

module _ {T A B : Type 0} (Good : A → T → Type 0) (Next : B → T → Type 0) where
  pub Wrapped-continue :
      (k : A → T → Java T B) (r : Java T A)
      → Wrapped Good r
      → ((a : A) (y : T) → Good a y → Wrapped Next (k a y))
      → Wrapped Next (continue r k)
  Wrapped-continue k (returned a s) h next = next a s h
  Wrapped-continue k (threw (io_exception (errno_exception function err)) s) h next = tt
  Wrapped-continue k (threw _ s) h next = absurd h
  Wrapped-continue k died h next = absurd h
  Wrapped-continue k unfinished h next = absurd h

-- The array as before, and the buffer's memory as large.
pub record SameRoom {S : Type 0} (x y : Store S) : Type 0 where
  pub array : y.array ≡ x.array
  pub position : y.buffer.position ≡ x.buffer.position
  pub room : capacity y.buffer ≡ capacity x.buffer

Counts-le : (k m : ℕ) (v : ℤ) → k ≤ m → Counts k v → Counts m v
Counts-le k m (pos n) le h = omega arith
Counts-le k m (negsuc n) le h = absurd h

pub min_int_lem :
    (m c : ℕ) → (k : ℕ) × (min_int (pos m) c ≡ pos k) × (k ≤ m) × (k ≤ c) × (0 < m → 0 < c → 0 < k)
min_int_lem m c = elim (Bool-cases (ltb c m)) [
  | inl e ↦ (c, rw e refl, ground arith, ground arith, λ a b. b)
  | inr e ↦ (m, rw e refl, ground arith, ground arith, λ a b. a)
]

module _ {S : Type 0} (n : NativeFile S) (Valid : S → Type 0) where
  pub read-Wrapped :
      IsCounting n Valid
      → (m : ℕ) (x : Store S) → Valid x.native
      → Wrapped
          (λ v y. Counts m v × (Counts (capacity x.buffer) v) × SameRoom x y × Valid y.native)
          (SambaFile.read n (pos m) x)
  unfolding SambaFile.read
  read-Wrapped counting m x valid =
      let (k, e, le, fits, _) = min_int_lem m (capacity x.buffer) in
      rw e (
        native-Wrapped (λ p t. ReadCounts k x.buffer.contents p × Valid t)
          (λ v y. Counts m v × (Counts (capacity x.buffer) v) × SameRoom x y × Valid y.native)
          (λ s. record x { native = s }) _
          (n.read x.file.native_fd x.buffer.contents (pos k) x.native)
          (counting.reads x.file.native_fd x.buffer.contents k x.native valid)
          λ p s ((count, same), still). (
            Counts-le k m p.0 le count,
            Counts-le k (capacity x.buffer) p.0 fits count,
            record { array = refl; position = refl; room = same },
            still,
          ))

  pub write-Wrapped :
      IsWriting n Valid
      → (m : ℕ) (x : Store S) → m < 2 ^ 31
      → Valid x.native
      → Wrapped
          (λ v y. WriteCounts m v × SameRoom x y × Valid y.native)
          (SambaFile.write n (pos m) x)
  unfolding SambaFile.write
  write-Wrapped writing m x small valid =
      native-Wrapped (λ v t. WriteCounts m v × Valid t)
        (λ v y. WriteCounts m v × SameRoom x y × Valid y.native) (λ s. record x { native = s }) _
        (n.write x.file.native_fd x.buffer.contents (pos m) x.native)
        (writing.writes x.file.native_fd x.buffer.contents m x.native small valid)
        λ v s (h, still). (h, record { array = refl; position = refl; room = refl }, still)

  pub seek-Wrapped :
      ((fd offset whence : ℤ) (s : S)
        → Valid s
        → Settled (λ _ t. Valid t) (n.seek fd offset whence s))
      → (offset : ℤ) (x : Store S) → Valid x.native
      → Wrapped (λ _ y. SameRoom x y × Valid y.native) (SambaFile.seek n offset x)
  unfolding SambaFile.seek
  seek-Wrapped seeks offset x valid = elim (Bool-cases (same_long x.file.offset offset)) [
    | inl e ↦ rw e (record { array = refl; position = refl; room = refl }, valid)
    | inr e ↦ rw e (
        native-Wrapped (λ _ t. Valid t) (λ _ y. SameRoom x y × Valid y.native)
          (λ s. record x { native = s }) _ (n.seek x.file.native_fd offset (pos 0) x.native)
          (seeks x.file.native_fd offset (pos 0) x.native valid)
          λ v s still. (record { array = refl; position = refl; room = refl }, still))
  ]

  -- A native `close` that succeeds or throws an ErrnoException, and what it does to the native state.
  pub close-Wrapped :
      (Good : S → Type 0) (x : Store S)
      → Settled (λ _ s. Good s) (n.close x.file.native_fd x.native)
      → Wrapped (λ _ y. Good y.native) (SambaFile.close n x)
  unfolding SambaFile.close
  close-Wrapped Good x h = by_end (n.close x.file.native_fd x.native) h
    where
      put : S → Store S
      put s = record x { native = s; file = record x.file { native_fd = negsuc 0 } }

      by_end :
          (r : Java S (Unit {0}))
          → Settled (λ _ s. Good s) r
          → Wrapped (λ _ y. Good y.native) (catching (within r put) wrapped)
      by_end (returned a s) h = h
      by_end (threw (errno_exception function err) s) h = tt
      by_end (threw _ s) h = absurd h
      by_end died h = absurd h
      by_end unfinished h = absurd h
