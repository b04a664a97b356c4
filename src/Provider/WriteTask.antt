-- ===== src/Provider/WriteTask.antt =====
-- What WriteFileTask.java writes into its file, and what it reports.
use my_stest.Base.{
  ℕ, ◌+◌, ◌≤◌, ℤ, pos, negsuc, ◌≡◌, refl, ap, ◌∙◌, Bool, true, false, ltb, Bool-cases, ◌⊎◌, inl,
  inr, Option, none, some, lt_int_lem, Text, List, [], ◌∷◌, ◌++◌, append_assoc, append-nil, length,
  length-append, take, drop, arith,
}
use my_stest.Nativefacade.Java.{
  Throwable, io_exception, other, Java, returned, threw, within, capacity, Store,
}
use my_stest.Nativefacade.NativeFile.{NativeFile}
use my_stest.Nativefacade.SambaFile
use my_stest.Nativefacade.SambaFile.{advance}
use my_stest.Provider.Transfers.{splice, clear, buffer_put}
use my_stest.Provider.Tasks.{
  normally, with_error, Pipe, Descriptor, closing, logged, close_stream, close_with_error,
  close_resource, try_with, succeeded, write_chunks, write_file_task,
}
use my_stest.Provider.Slices.{take-append-length, take-append-left, length-drop, length-splice}

-- A file, as its bytes, of which a write of `m` bytes takes the first `takes m`.
pub record IsSink {S : Type 0} (n : NativeFile S) (written : S → Text) (takes : ℕ → ℕ)
    : Type 0 where
  pub takes_le : (m : ℕ) → takes m ≤ m
  pub writes :
      (fd : ℤ) (contents : Text) (m : ℕ) (s : S)
      → (t : S) × (n.write fd contents (pos m) s ≡ returned (pos (takes m)) t)
        × (written t ≡ written s ++ take (takes m) contents)
  pub closes : (fd : ℤ) (s : S) → (t : S) × (n.close fd s ≡ returned tt t) × (written t ≡ written s)

-- What such a file takes of chunks that are written once each, up to an empty one.
abbrev pub kept : (ℕ → ℕ) → List Text → Text
kept takes [] = []
kept takes ([] ∷ chunks) = []
kept takes ((b ∷ chunk) ∷ chunks) =
    take (takes (length (b ∷ chunk))) (b ∷ chunk) ++ kept takes chunks

-- The closings of the descriptor throw nothing but IOExceptions.
abbrev pub OnlyIoExceptions : Descriptor → Type 0
OnlyIoExceptions d =
    (cause : Throwable) (p : Pipe)
    → (d.close_with_error_throws cause p ≡ none)
      ⊎ ((e : Throwable) × (d.close_with_error_throws cause p ≡ some (io_exception e)))

abbrev pub FitAll : ℕ → List Text → Type 0
FitAll size [] = Unit {0}
FitAll size (chunk ∷ chunks) = (length chunk ≤ size) × FitAll size chunks

put_chunk :
    {S : Type 0} (x : Store S) (chunk : Text)
    → x.buffer.position ≡ 0
    → length chunk ≤ capacity x.buffer
    → length chunk ≤ length x.array
    → (y : Store S) × (buffer_put
          (pos 0)
          (pos (length chunk))
          (record x { array = splice 0 chunk x.array })
        ≡ returned tt y)
      × (y.buffer.contents ≡ chunk ++ drop (length chunk) x.buffer.contents)
      × (length y.array ≡ length x.array)
      × (y.native ≡ x.native)
unfolding buffer_put
put_chunk x chunk cleared fits room =
    let array = splice 0 chunk x.array in
    let wide : length array ≡ length x.array = length-splice 0 chunk x.array (omega arith) in
    let a : ltb (length array) (0 + length chunk) ≡ false = ground arith in
    let b : ltb (capacity x.buffer) (x.buffer.position + length chunk) ≡ false = ground arith in
    let at_start : 0 + length chunk ≡ length chunk = omega arith in
    let whole : take (length chunk) array ≡ chunk = take-append-length chunk _ in
    (
      record x {
        array = array;
        buffer = record {
          position = x.buffer.position + length chunk;
          contents = splice x.buffer.position (take (length chunk) array) x.buffer.contents;
        };
      },
      rw (a, b),
      rw (cleared, whole, at_start),
      wide,
      refl,
    )

module _ {S : Type 0} (n : NativeFile S) (written : S → Text) (takes : ℕ → ℕ)
    (sink : IsSink n written takes) where
  write_sunk :
      (m : ℕ) (x : Store S)
      → (y : Store S) × (SambaFile.write n (pos m) x ≡ returned (pos (takes m)) y)
        × (written y.native ≡ written x.native ++ take (takes m) x.buffer.contents)
        × (y.buffer ≡ x.buffer)
        × (y.array ≡ x.array)
  unfolding SambaFile.write
  write_sunk m x =
      let (t, runs, grown) = sink.writes x.file.native_fd x.buffer.contents m x.native in
      (advance (pos (takes m)) (record x { native = t }), rw runs, grown, refl, refl)

  abbrev WritesAll : List Text → Store S → Java (Store S) (Unit {0}) → Type 0
  WritesAll chunks x r =
      (y : Store S) × ((r ≡ returned tt y) ⊎ (r ≡ threw (io_exception other) y))
      × (written y.native ≡ written x.native ++ kept takes chunks)

  write_chunks-WritesAll :
      (broken : Bool) (chunks : List Text) (x : Store S)
      → x.buffer.position ≡ 0
      → FitAll (capacity x.buffer) chunks
      → capacity x.buffer ≤ length x.array
      → WritesAll chunks x (write_chunks n broken chunks x)
  unfolding write_chunks
  write_chunks-WritesAll true [] x cleared fit room = (x, inr refl, rw append-nil)
  write_chunks-WritesAll false [] x cleared fit room = (x, inl refl, rw append-nil)
  write_chunks-WritesAll broken ([] ∷ chunks) x cleared fit room = (
    record x { array = splice 0 [] x.array },
    rw (lt_int_lem 0 0, write_chunks) (inl refl),
    rw append-nil,
  )
  write_chunks-WritesAll broken ((b ∷ piece) ∷ chunks) x cleared (fits, fit) room =
      let chunk = b ∷ piece in
      let more_than_none : ltb 0 (length chunk) ≡ true = ground arith in
      let k = takes (length chunk) in
      let (y, put, contents, wide, same) = put_chunk x chunk cleared fits (omega arith) in
      let (z, wrote, grown, buffer, array) = write_sunk (length chunk) y in
      let size : capacity z.buffer ≡ capacity x.buffer =
        ap (λ c. length c.contents) buffer
        ∙ ap length contents
        ∙ length-append chunk (drop (length chunk) x.buffer.contents)
        ∙ omega (arith, length-drop (length chunk) x.buffer.contents, fits) in
      let some : take k y.buffer.contents ≡ take k chunk =
        ap (take k) contents ∙ take-append-left k chunk _ (sink.takes_le (length chunk)) in
      let (w, rest, more) =
        write_chunks-WritesAll broken chunks (clear z) refl (rw size fit)
          (omega (arith, size, ap length array, wide, room)) in
      (
        w,
        rw (lt_int_lem 0 (length chunk), more_than_none, put, wrote, write_chunks) rest,
        more
            ∙ ap (λ s. s ++ kept takes chunks) (grown ∙ rw (some, same))
            ∙ append_assoc (written x.native) (take k chunk) (kept takes chunks),
      )

  closed : Store S → S → Store S
  closed w t = record w { native = t; file = record w.file { native_fd = negsuc 0 } }

  close_lem :
      (w : Store S) (t : S)
      → n.close w.file.native_fd w.native ≡ returned tt t
      → SambaFile.close n w ≡ returned tt (closed w t)
  unfolding SambaFile.close closed
  close_lem w t closes = rw closes

  logged-close_with_error :
      (d : Descriptor) (e : Throwable) (y : Store S) (p : Pipe)
      → OnlyIoExceptions d
      → logged (close_with_error d e (y, p))
        ≡ returned tt (y, record p { closings = with_error ∷ p.closings })
  unfolding close_with_error
  logged-close_with_error d e y p only = by_answer (d.close_with_error_throws e p) (only e p)
    where
      by_answer :
          (o : Option Throwable)
          → (o ≡ none) ⊎ ((f : Throwable) × (o ≡ some (io_exception f)))
          → logged {T = Store S × Pipe} (elim o [
            | none ↦ returned tt (y, record p { closings = with_error ∷ p.closings })
            | some f ↦ threw f (y, record p { closings = with_error ∷ p.closings })
          ])
            ≡ returned tt (y, record p { closings = with_error ∷ p.closings })
      by_answer o (inl h) = rw h refl
      by_answer o (inr (f, h)) = rw h refl

  -- The `try` behind a loop that has gone through or thrown an IOException.
  try_with-returned :
      (d : Descriptor) (r : Java (Store S) (Unit {0})) (w : Store S) (t : S) (p : Pipe)
      → OnlyIoExceptions d
      → (r ≡ returned tt w) ⊎ (r ≡ threw (io_exception other) w)
      → n.close w.file.native_fd w.native ≡ returned tt t
      → (q : Pipe) × (try_with n d (within r (λ y. (y, p))) ≡ returned tt (closed w t, q))
  unfolding try_with close_resource close_stream close_with_error
  try_with-returned d r w t p only ends closes =
      let q : Pipe = record p { closings = normally ∷ p.closings } in
      let marked : Pipe = record q { closings = with_error ∷ q.closings } in
      let logs = logged-close_with_error d (io_exception other) (closed w t) q only in
      elim ends [
        | inl e ↦ elim (Bool-cases (d.close_fails p)) [
          | inr f ↦ (q, rw (e, close_lem w t closes, f, closing) refl)
          | inl f ↦ (marked, rw (e, close_lem w t closes, f, closing) logs)
        ]
        | inr e ↦ elim (Bool-cases (d.close_fails p)) [
          | inr f ↦ (marked, rw (e, close_lem w t closes, f, closing) logs)
          | inl f ↦ (marked, rw (e, close_lem w t closes, f, closing) logs)
        ]
      ]

  -- A file of which each write of `m` bytes takes the first `takes m`, and no other call fails; chunks
  -- that fit the buffer, which is clear, and the array; a pipe whose closings throw nothing but
  -- IOExceptions: for any `takes`, and whether the stream ends behind the chunks or breaks there,
  -- WriteFileTask, from where both resources are open, reports SUCCEEDED, and the file has grown by the
  -- parts of the chunks, up to an empty one, that were taken, not by what a write left.
  pub write_file_task-kept :
      (d : Descriptor) (broken : Bool) (chunks : List Text) (x : Store S) (p : Pipe)
      → OnlyIoExceptions d
      → x.buffer.position ≡ 0
      → FitAll (capacity x.buffer) chunks
      → capacity x.buffer ≤ length x.array
      → (y : Store S) × (q : Pipe) × (write_file_task n d broken chunks (x, p)
          ≡ returned succeeded (y, q))
        × (written y.native ≡ written x.native ++ kept takes chunks)
  unfolding write_file_task closed
  write_file_task-kept d broken chunks x p only cleared fit room =
      let (w, ends, all) = write_chunks-WritesAll broken chunks x cleared fit room in
      let (t, closes, same) = sink.closes w.file.native_fd w.native in
      let (q, done) = try_with-returned d (write_chunks n broken chunks x) w t p only ends closes in
      (closed w t, q, rw done, same ∙ all)
