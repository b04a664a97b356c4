-- ===== src/Provider/RegularFile.antt =====
-- SambaFile.java over a file with some bytes.
use my_stest.Base.{
  ℕ, ◌+◌, ◌^◌, ◌≤◌, ◌<◌, ℤ, pos, ◌≡◌, refl, sym, ap, ◌∙◌, true, false, Bool-cases, inl, inr, ltb,
  if◌then◌else◌, Text, length, take, drop, arith, lt_int_lem, to_int64, ◌+ℤ◌,
}
use my_stest.Nativefacade.Java.{Throwable, threw, capacity, Store}
use my_stest.Nativefacade.NativeFile.{NativeFile}
use my_stest.Nativefacade.SambaFile
use my_stest.Nativefacade.SambaFile.{same_long}
use my_stest.Nativefacade.FileLaws.{min_int_lem}
use my_stest.Nativefacade.Endings.{Ends, WrappedEnds, Ends-threw, native-WrappedEnds}
use my_stest.Provider.Slices.{length-drop, length-take-length}

-- What a read of `m` bytes at a position finds: bytes of the file, and some before its end.
pub record Finds (file_bytes : Text) (at m : ℕ) (contents : Text) (v : ℤ) (left : Text)
    : Type 0 where
  pub count : ℕ
  pub value : v ≡ pos count
  pub within_size : count ≤ m
  pub same_length : length left ≡ length contents
  pub there : length (take count (drop at file_bytes)) ≡ count
  pub bytes_read : take count left ≡ take count (drop at file_bytes)
  pub some : 0 < m → at < length file_bytes → 0 < count

-- A file with these bytes and a position, from a valid state: a read of fewer than 2^31 bytes within
-- the buffer finds bytes at the position and moves on by their number. It may fail at any time, by an
-- ErrnoException. Both ends are valid states.
pub record IsRegularFile {S : Type 0} (n : NativeFile S) (file_bytes : Text) (position : S → ℕ)
    (Valid : S → Type 0) : Type 0 where
  pub reads :
      (fd : ℤ) (contents : Text) (m : ℕ) (s : S)
      → Valid s
      → m < 2 ^ 31
      → m ≤ length contents
      → Ends Valid
          (λ p t.
            (f : Finds file_bytes (position s) m contents p.0 p.1) × (position t
              ≡ position s + f.count)
            × Valid t)
          (n.read fd contents (pos m) s)

-- A seek to an offset below 2^31 sets the position; the native method narrows others to 32 bits. It
-- may fail at any time, by an ErrnoException.
pub record IsSeekable {S : Type 0} (n : NativeFile S) (position : S → ℕ) (Valid : S → Type 0)
    : Type 0 where
  pub seeks :
      (fd : ℤ) (offset : ℕ) (s : S)
      → Valid s
      → offset < 2 ^ 31
      → Ends Valid
          (λ v t. (v ≡ pos offset) × (position t ≡ offset) × Valid t)
          (n.seek fd (pos offset) (pos 0) s)

-- A native read has thrown something.
abbrev pub ReadThrew : {S : Type 0} → NativeFile S → Type 0
ReadThrew {S} n =
    (fd : ℤ) × (contents : Text) × (m : ℤ) × (s : S) × (t : S) × (e : Throwable) × (n.read fd
        contents m s
      ≡ threw e t)

-- The offset that the SambaFile keeps is the file's position.
abbrev pub Knows : {S : Type 0} → (S → ℕ) → Store S → Type 0
Knows position x = x.file.offset ≡ pos (position x.native)

add_long : (a b : ℕ) → a + b < 2 ^ 63 → to_int64 (pos a +ℤ pos b) ≡ pos (a + b)
unfolding to_int64 ◌+ℤ◌
add_long a b h = ground arith

same_long_lem : (a b : ℕ) → same_long (pos a) (pos b) ≡ true → a ≡ b
same_long_lem a b h =
    let e = lt_int_lem a b in
    let f = lt_int_lem b a in
    let g : (if ltb a b then false else if ltb b a then false else true) ≡ true = rw (e, f) at h in
    ground arith

module _ {S : Type 0} (file_bytes : Text) (position : S → ℕ) (Valid : S → Type 0) where
  -- After a read of `m` bytes.
  pub record HasRead (x : Store S) (m : ℕ) (v : ℤ) (y : Store S) : Type 0 where
    pub count : ℕ
    pub value : v ≡ pos count
    pub within_size : count ≤ m
    pub within_buffer : count ≤ capacity x.buffer
    pub there : length (take count (drop (position x.native) file_bytes)) ≡ count
    pub bytes_read : take count y.buffer.contents ≡ take count (drop (position x.native) file_bytes)
    pub some : 0 < m → 0 < capacity x.buffer → position x.native < length file_bytes → 0 < count
    pub knows : Knows position y
    pub moved : position y.native ≡ position x.native + count
    pub valid : Valid y.native
    pub array : y.array ≡ x.array
    pub cleared : y.buffer.position ≡ x.buffer.position
    pub room : capacity y.buffer ≡ capacity x.buffer

  -- The start of a transfer, after `seek`.
  pub record HasSought (o : ℕ) (x y : Store S) : Type 0 where
    pub place : position y.native ≡ o
    pub valid : Valid y.native
    pub knows : Knows position y
    pub array : y.array ≡ x.array
    pub buffer : y.buffer ≡ x.buffer

module _ {S : Type 0} (n : NativeFile S) (file_bytes : Text) (position : S → ℕ)
    (Valid : S → Type 0) where
  pub read-HasRead :
      IsRegularFile n file_bytes position Valid
      → length file_bytes < 2 ^ 63
      → (m : ℕ) (x : Store S) → m < 2 ^ 31
      → Valid x.native
      → Knows position x
      → position x.native < 2 ^ 63
      → WrappedEnds
          (λ y. Valid y.native × ReadThrew n)
          (HasRead file_bytes position Valid x m)
          (SambaFile.read n (pos m) x)
  unfolding SambaFile.read
  read-HasRead regular small m x narrow valid knows low =
      let (k, e, le, fits, on) = min_int_lem m (capacity x.buffer) in
      rw e (
        native-WrappedEnds (λ s. Valid s × ReadThrew n) _ (λ y. Valid y.native × ReadThrew n)
          (HasRead file_bytes position Valid x m) (λ s. record x { native = s }) _
          (n.read x.file.native_fd x.buffer.contents (pos k) x.native)
          (Ends-threw Valid _ (n.read x.file.native_fd x.buffer.contents (pos k) x.native)
            (regular.reads x.file.native_fd x.buffer.contents k x.native valid (omega arith) fits)
            λ f u h. (x.file.native_fd, x.buffer.contents, pos k, x.native, u, f, h))
          (λ s h. h)
          λ p s (f, moves, still).
            let a = position x.native in
            let bound : a + f.count < 2 ^ 63 = omega (
              arith,
              f.there,
              length-take-length f.count (drop a file_bytes),
              length-drop a file_bytes,
              low,
              small,
            ) in
            record {
              count = f.count;
              value = f.value;
              within_size = omega (arith, f.within_size);
              within_buffer = omega (arith, f.within_size, f.same_length);
              there = f.there;
              bytes_read = f.bytes_read;
              some = λ i j k. f.some (on i j) k;
              knows = rw (f.value, knows, add_long a f.count bound) (ap pos (sym moves));
              moved = moves;
              valid = still;
              array = refl;
              cleared = refl;
              room = f.same_length;
            })

  pub seek-HasSought :
      IsSeekable n position Valid
      → (o : ℕ) (x : Store S) → o < 2 ^ 31
      → Valid x.native
      → Knows position x
      → WrappedEnds
          (λ y. Valid y.native)
          (λ _ y. HasSought file_bytes position Valid o x y)
          (SambaFile.seek n (pos o) x)
  unfolding SambaFile.seek
  seek-HasSought seekable o x narrow valid knows =
      elim (Bool-cases (same_long x.file.offset (pos o))) [
        | inl e ↦ rw e (record {
          place = same_long_lem (position x.native) o (rw knows at e);
          valid = valid;
          knows = knows;
          array = refl;
          buffer = refl;
        })
        | inr e ↦ rw e (
            native-WrappedEnds Valid _ (λ y. Valid y.native)
              (λ _ y. HasSought file_bytes position Valid o x y) (λ s. record x { native = s }) _
              (n.seek x.file.native_fd (pos o) (pos 0) x.native)
              (seekable.seeks x.file.native_fd o x.native valid narrow) (λ s h. h)
              λ v s (value, moved, still). record {
                place = moved;
                valid = still;
                knows = value ∙ ap pos (sym moved);
                array = refl;
                buffer = refl;
              })
      ]
