-- ===== src/Provider/ReadTask.antt =====
-- What ReadFileTask.java writes into its pipe, and how it closes it.
use my_stest.Base.{
  ℕ, zero, suc, ◌+◌, ◌-◌, ◌^◌, ◌≤◌, ◌<◌, ℤ, pos, ◌≡◌, refl, sym, ap, ◌∙◌, Bool, true, false,
  if◌then◌else◌, Bool-cases, ◌⊎◌, inl, inr, ltb, Option, none, some, Text, List, [], ◌∷◌, ◌++◌,
  length, take, drop, arith, lt_int, lt_int_lem,
}
use my_stest.Nativefacade.Java.{
  Throwable, errno_exception, io_exception, Java, returned, threw, died, unfinished, continue,
  within, capacity, Store,
}
use my_stest.Nativefacade.NativeFile.{NativeFile, Settled}
use my_stest.Nativefacade.SambaFile
use my_stest.Nativefacade.FileLaws.{Wrapped, close-Wrapped}
use my_stest.Nativefacade.Endings.{WrappedEnds}
use my_stest.Provider.RegularFile.{IsRegularFile, ReadThrew, Knows, HasRead, read-HasRead}
use my_stest.Provider.Transfers.{splice, clear, buffer_get}
use my_stest.Provider.Tasks.{
  max_value, Closing, normally, with_error, Pipe, Descriptor, closing, logged, caught, close_stream,
  close_with_error, os_write, close_resource, try_with, copy_loop, read_file_task,
}
use my_stest.Provider.Slices.{
  take-add, take-take-add, take-long, take-append-length, length-drop, length-take, length-splice,
  length-take-length,
}
use my_stest.Provider.TransferEnds.{buffer_get_lem}

-- The pipe has taken the first bytes of the file, and was closed so.
abbrev pub part_of : Text → ℕ → List Closing → Pipe
part_of file_bytes k closings = record { output = take k file_bytes; closings = closings }

-- What makes the task fail: a native read or a `close` of the SambaFile has thrown, the pipe has refused
-- bytes, or its stream has failed to close.
pub data Failure {S : Type 0} (n : NativeFile S) (d : Descriptor) : Type 0 where
  read_threw : ReadThrew n → Failure n d
  close_threw : (x y : Store S) (e : Throwable) → SambaFile.close n x ≡ threw e y → Failure n d
  refused : (p : Pipe) (next : Text) (k : ℕ) → d.refuses p next ≡ some k → Failure n d
  unclosed : (p : Pipe) → d.close_fails p ≡ true → Failure n d

module _ {S : Type 0} (n : NativeFile S) (d : Descriptor) (file_bytes : Text) where
  -- A run ends with all bytes in the pipe, or by an IOException with the first ones there.
  abbrev Holds : List Closing → Java (Store S × Pipe) (Unit {0}) → Type 0
  Holds closings (returned a (y, p)) = p ≡ record { output = file_bytes; closings = closings }
  Holds closings (threw (io_exception e) (y, p)) =
      (k : ℕ) × (p ≡ part_of file_bytes k closings) × Failure n d
  Holds closings _ = ⊥

  -- The loop ends so, and in a valid state.
  abbrev Delivers : (S → Type 0) → Java (Store S × Pipe) (Unit {0}) → Type 0
  Delivers Valid (returned a (y, p)) =
      Valid y.native × (p ≡ record { output = file_bytes; closings = [] })
  Delivers Valid (threw (io_exception e) (y, p)) =
      Valid y.native × (k : ℕ) × (p ≡ part_of file_bytes k []) × Failure n d
  Delivers Valid _ = ⊥

  -- The task ends with the pipe closed behind all bytes; or behind the first ones, closed and then
  -- closed with an error; or by what that last closing has thrown.
  abbrev pub Delivered : Java (Store S × Pipe) (Unit {0}) → Type 0
  Delivered (returned a (y, p)) =
      (p ≡ record { output = file_bytes; closings = normally ∷ [] })
      ⊎ ((k : ℕ) × (p ≡ part_of file_bytes k (with_error ∷ normally ∷ [])) × Failure n d)
  Delivered (threw e (y, p)) =
      (k : ℕ) × (cause : Throwable) × (d.close_with_error_throws cause
          (part_of file_bytes k (normally ∷ []))
        ≡ some e)
      × (p ≡ part_of file_bytes k (with_error ∷ normally ∷ []))
      × Failure n d
  Delivered _ = ⊥

  read-Delivers :
      (Valid : S → Type 0) (t : ℕ) (p : Pipe) (Good : ℤ → Store S → Type 0)
      (next : ℤ → Store S × Pipe → Java (Store S × Pipe) (Unit {0})) (r : Java (Store S) ℤ)
      → p ≡ part_of file_bytes t []
      → WrappedEnds (λ y. Valid y.native × ReadThrew n) Good r
      → ((v : ℤ) (y : Store S) → Good v y → Delivers Valid (next v (y, p)))
      → Delivers Valid (continue (within r (λ y. (y, p))) next)
  read-Delivers Valid t p Good next (returned v y) e h turns = turns v y h
  read-Delivers Valid t p Good next (threw (io_exception (errno_exception f err)) y) e (h, blame)
        turns =
      (h, t, e, read_threw blame)
  read-Delivers Valid t p Good next (threw _ y) e h turns = absurd h
  read-Delivers Valid t p Good next died e h turns = absurd h
  read-Delivers Valid t p Good next unfinished e h turns = absurd h

module _ {S : Type 0} (n : NativeFile S) (file_bytes : Text) (position : S → ℕ) (Valid : S → Type 0)
    (regular : IsRegularFile n file_bytes position Valid) (small : length file_bytes < 2 ^ 63)
    (d : Descriptor) where
  -- The first `t` bytes are in the pipe, which is open.
  record HasCopied (t : ℕ) (x : Store S) (p : Pipe) : Type 0 where
    place : position x.native ≡ t
    knows : Knows position x
    valid : Valid x.native
    within_file : t ≤ length file_bytes
    copied : p ≡ part_of file_bytes t []
    cleared : x.buffer.position ≡ 0
    space : 0 < capacity x.buffer
    room : capacity x.buffer ≤ length x.array

  -- The write of a turn, by what the pipe refuses.
  write-Delivers :
      (k : ℕ) (z : Store S) (p : Pipe) (next : Store S × Pipe → Java (Store S × Pipe) (Unit {0}))
      (o : Option ℕ)
      → Delivers n d file_bytes Valid
          (next (clear z, record p { output = p.output ++ take k z.array }))
      → ((few : ℕ)
          → o ≡ some few
          → Valid z.native
            × (j : ℕ) × (record p { output = p.output ++ take few (take k z.array) }
                ≡ part_of file_bytes j [])
            × Failure n d)
      → Delivers n d file_bytes Valid (
          continue
            (elim o [
              | none ↦ returned tt (z, record p { output = p.output ++ take k z.array })
              | some few ↦
                  threw
                    (io_exception Throwable.other)
                    (z, record p { output = p.output ++ take few (take k z.array) })
            ])
            λ _ (w, q). next (clear w, q))
  write-Delivers k z p next none all part = all
  write-Delivers k z p next (some few) all part = part few refl

  -- One turn of the loop after a read of some bytes.
  copy_turn :
      (t : ℕ) (x y : Store S) (p : Pipe) (v : ℤ)
      (next : Store S × Pipe → Java (Store S × Pipe) (Unit {0}))
      (r : HasRead file_bytes position Valid x (2 ^ 31 - 1) v y)
      → HasCopied t x p
      → 0 < r.count
      → ((u : ℕ) (z : Store S) (q : Pipe)
          → t < u
          → HasCopied u z q
          → Delivers n d file_bytes Valid (next (z, q)))
      → Delivers n d file_bytes Valid (
          continue
            (within (buffer_get (pos 0) v y) (λ z. (z, p)))
            λ _ zo. continue (os_write d v zo) λ _ (w, q). next (clear w, q))
  unfolding os_write
  copy_turn t x y p v next r h any turns =
      let k = r.count in
      let f : length y.array ≡ length x.array = rw r.array in
      let (z, runs, got, same, file, native) =
        buffer_get_lem y 0 k (r.cleared ∙ h.cleared) (omega (arith, r.within_buffer, r.room))
          (omega (arith, f, r.within_buffer, h.room)) in
      let u = take k y.buffer.contents in
      let size : length u ≡ k =
        length-take k y.buffer.contents (omega (arith, r.within_buffer, r.room)) in
      let next_bytes : take k z.array ≡ take k (drop t file_bytes) =
        ap (take k) got
        ∙ ap (λ j. take j (splice 0 u y.array)) (sym size)
        ∙ take-append-length u (drop (0 + length u) y.array)
        ∙ r.bytes_read
        ∙ ap (λ a. take k (drop a file_bytes)) h.place in
      let wide : length z.array ≡ length y.array =
        ap length got
        ∙ length-splice 0 u y.array (omega (arith, size, f, r.within_buffer, h.room)) in
      let there : length (take k (drop t file_bytes)) ≡ k = rw h.place at r.there in
      let fits : t + k ≤ length file_bytes =
        omega
          (arith, there, length-take-length k (drop t file_bytes), length-drop t file_bytes, any) in
      let (j, part) = take-take-add t k file_bytes in
      rw (r.value, runs)
        (write-Delivers k z p next (d.refuses p (take k z.array))
          (turns (t + k) (clear z) (record p { output = p.output ++ take k z.array })
            (omega (arith, any))
            (record {
              place = rw native (omega (arith, r.moved, h.place));
              knows = rw (native, file) r.knows;
              valid = rw native r.valid;
              within_file = fits;
              copied =
                  rw (next_bytes, h.copied)
                    (ap (λ o. record { output = o; closings = [] })
                      (sym (take-add t k file_bytes)));
              cleared = refl;
              space = omega (arith, ap length same, r.room, h.space);
              room = omega (arith, ap length same, r.room, wide, f, h.room);
            }))
          λ few h'. (
            rw native r.valid,
            j few,
            rw (next_bytes, h.copied) (ap (λ o. record { output = o; closings = [] }) (part few)),
            refused p (take k z.array) few h',
          ))

  copy_loop-Delivers :
      (fuel t : ℕ) (x : Store S) (p : Pipe)
      → HasCopied t x p
      → length file_bytes - t < fuel
      → Delivers n d file_bytes Valid (copy_loop n d fuel (x, p))
  unfolding copy_loop
  copy_loop-Delivers zero t x p h enough = absurd (omega arith)
  copy_loop-Delivers (suc fuel) t x p h enough =
      read-Delivers n d file_bytes Valid t p (HasRead file_bytes position Valid x (2 ^ 31 - 1)) _
        (SambaFile.read n max_value x) h.copied
        (read-HasRead n file_bytes position Valid regular small (2 ^ 31 - 1) x (omega arith) h.valid
          h.knows (omega (arith, h.place, h.within_file, small)))
        λ v y r. elim (Bool-cases (ltb 0 r.count)) [
          | inl e ↦
              rw (ap (lt_int (pos 0)) r.value, lt_int_lem 0 r.count, e)
                (copy_turn t x y p v (copy_loop n d fuel) r h (ground arith)
                  λ u z q lt more. copy_loop-Delivers fuel u z q more (omega arith))
          | inr e ↦
              rw (r.value, lt_int_lem 0 r.count, e)
                (let none : r.count ≡ 0 = ground arith in
                  let past : length file_bytes ≤ t =
                    ground (arith, r.some (omega arith) h.space, h.place) in
                  (
                    r.valid,
                    h.copied
                        ∙ ap (λ o. record { output = o; closings = [] })
                            (take-long t file_bytes past),
                  ))
        ]

module _ {S : Type 0} (n : NativeFile S) (file_bytes : Text) (Valid : S → Type 0)
    (closes : (fd : ℤ) (s : S) → Valid s → Settled (λ _ _. Unit {0}) (n.close fd s))
    (d : Descriptor) where
  -- The file closed behind a loop that went through.
  file_closed :
      (p : Pipe) (x : Store S) (r : Java (Store S) (Unit {0}))
      → SambaFile.close n x ≡ r
      → Wrapped (λ _ _. Unit {0}) r
      → p ≡ record { output = file_bytes; closings = [] }
      → Holds n d file_bytes [] (continue (within r (λ z. (z, p))) (λ _ t. returned tt t))
  file_closed p x (returned a s) b h e = e
  file_closed p x (threw (io_exception (errno_exception f err)) s) b h e = (
    length file_bytes,
    e
        ∙ ap (λ o. record { output = o; closings = [] })
            (sym (take-long (length file_bytes) file_bytes (omega arith))),
    close_threw x s (io_exception (errno_exception f err)) b,
  )
  file_closed p x (threw _ s) b h e = absurd h
  file_closed p x died b h e = absurd h
  file_closed p x unfinished b h e = absurd h

  -- The file closed behind an exception.
  file_closed_behind :
      (e : Throwable) (p : Pipe) (r : Java (Store S) (Unit {0}))
      → Wrapped (λ _ _. Unit {0}) r
      → (k : ℕ) × (p ≡ part_of file_bytes k []) × Failure n d
      → Holds n d file_bytes [] (elim (within r (λ z. (z, p))) [
        | returned _ t ↦ threw (io_exception e) t
        | threw _ t ↦ threw (io_exception e) t
        | died ↦ died
        | unfinished ↦ unfinished
      ])
  file_closed_behind e p (returned a s) h q = q
  file_closed_behind e p (threw (io_exception (errno_exception f err)) s) h q = q
  file_closed_behind e p (threw _ s) h q = absurd h
  file_closed_behind e p died h q = absurd h
  file_closed_behind e p unfinished h q = absurd h

  closing-file :
      (r : Java (Store S × Pipe) (Unit {0}))
      → Delivers n d file_bytes Valid r
      → Holds n d file_bytes [] (closing r (close_resource n))
  unfolding close_resource
  closing-file (returned a (y, p)) (valid, h) =
      file_closed p y (SambaFile.close n y) refl
        (close-Wrapped n (λ _. Unit {0}) (λ _. Unit {0}) y (closes y.file.native_fd y.native valid))
        h
  closing-file (threw (io_exception e) (y, p)) (valid, k, h, blame) =
      file_closed_behind e p (SambaFile.close n y)
        (close-Wrapped n (λ _. Unit {0}) (λ _. Unit {0}) y (closes y.file.native_fd y.native valid))
        (k, h, blame)
  closing-file (threw _ (y, p)) h = absurd h
  closing-file died h = absurd h
  closing-file unfinished h = absurd h

  -- The stream closed behind an exception.
  stream_closed_behind :
      (e : Throwable) (y : Store S) {p : Pipe} (fails : Bool)
      → (k : ℕ) × (p ≡ part_of file_bytes k (normally ∷ [])) × Failure n d
      → Holds n d file_bytes
          (normally ∷ [])
          (elim (if fails
            then threw (io_exception Throwable.other) (y, p)
            else returned tt (y, p)) [
              | returned _ t ↦ threw (io_exception e) t
              | threw _ t ↦ threw (io_exception e) t
              | died ↦ died
              | unfinished ↦ unfinished
            ])
  stream_closed_behind e y true h = h
  stream_closed_behind e y false h = h

  closing-stream :
      (r : Java (Store S × Pipe) (Unit {0}))
      → Holds n d file_bytes [] r
      → Holds n d file_bytes (normally ∷ []) (closing r (close_stream d))
  unfolding close_stream
  closing-stream (returned a (y, p)) h = elim (Bool-cases (d.close_fails p)) [
    | inl e ↦ rw e (
      length file_bytes,
      ap (λ q. record { output = q.output; closings = normally ∷ q.closings }) h
          ∙ ap (λ o. record { output = o; closings = normally ∷ [] })
              (sym (take-long (length file_bytes) file_bytes (omega arith))),
      unclosed p e,
    )
    | inr e ↦ rw e (ap (λ q. record { output = q.output; closings = normally ∷ q.closings }) h)
  ]
  closing-stream (threw (io_exception e) (y, p)) (k, h, blame) =
      stream_closed_behind e y (d.close_fails p)
        (k, ap (λ q. record { output = q.output; closings = normally ∷ q.closings }) h, blame)
  closing-stream (threw _ (y, p)) h = absurd h
  closing-stream died h = absurd h
  closing-stream unfinished h = absurd h

  marked :
      (e : Throwable) (y : Store S) (p : Pipe) (k : ℕ) (o : Option Throwable)
      → d.close_with_error_throws e p ≡ o
      → p ≡ part_of file_bytes k (normally ∷ [])
      → Failure n d
      → Delivered n d file_bytes (
          logged (elim o [
            | none ↦ returned tt (y, record p { closings = with_error ∷ p.closings })
            | some f ↦ threw f (y, record p { closings = with_error ∷ p.closings })
          ]))
  marked e y p k none h q blame =
      inr (k, ap (λ r. record { output = r.output; closings = with_error ∷ r.closings }) q, blame)
  marked e y p k (some (io_exception f)) h q blame =
      inr (k, ap (λ r. record { output = r.output; closings = with_error ∷ r.closings }) q, blame)
  marked e y p k (some f) h q blame = (
    k,
    e,
    ap (d.close_with_error_throws e) (sym q) ∙ h,
    ap (λ r. record { output = r.output; closings = with_error ∷ r.closings }) q,
    blame,
  )

  caught-Delivered :
      (r : Java (Store S × Pipe) (Unit {0}))
      → Holds n d file_bytes (normally ∷ []) r
      → Delivered n d file_bytes (caught r (close_with_error d))
  unfolding close_with_error
  caught-Delivered (returned a (y, p)) h = inl h
  caught-Delivered (threw (io_exception e) (y, p)) (k, h, blame) =
      marked (io_exception e) y p k (d.close_with_error_throws (io_exception e) p) refl h blame
  caught-Delivered (threw _ (y, p)) h = absurd h
  caught-Delivered died h = absurd h
  caught-Delivered unfinished h = absurd h

  -- A file of fewer than 2^63 bytes whose reads are right from valid states or throw an
  -- ErrnoException, as its `close` may, at whose start the SambaFile stands in a valid state, with a
  -- cleared buffer of some capacity and an array as large; and an open pipe that is empty, may refuse
  -- bytes at any time, after any of a write's first ones, and may fail to close, by an IOException:
  -- `doInBackground` of ReadFileTask, from where both resources are open, ends within a turn for each
  -- byte and one more. It returns with all bytes of the file in the pipe, which its stream has closed;
  -- or with the first bytes of the file in the pipe and no others, which was first closed by its
  -- stream like a complete one, and only then with an error; or else it throws what that last closing
  -- has thrown. The last two happen only if a native read or the SambaFile's `close` threw, the pipe
  -- refused bytes, or its stream failed to close.
  pub read_file_task-Delivered :
      (position : S → ℕ)
      → IsRegularFile n file_bytes position Valid
      → length file_bytes < 2 ^ 63
      → (x : Store S) → position x.native ≡ 0
      → Knows position x
      → Valid x.native
      → x.buffer.position ≡ 0
      → 0 < capacity x.buffer
      → capacity x.buffer ≤ length x.array
      → Delivered n d file_bytes
          (read_file_task n d (length file_bytes + 1) (x, record { output = []; closings = [] }))
  unfolding read_file_task try_with
  read_file_task-Delivered position regular small x start knows valid cleared space room =
      let opened : Pipe = record { output = []; closings = [] } in
      let loop = copy_loop n d (length file_bytes + 1) (x, opened) in
      caught-Delivered (closing (closing loop (close_resource n)) (close_stream d)) (
        closing-stream (closing loop (close_resource n)) (
          closing-file loop (
            copy_loop-Delivers n file_bytes position Valid regular small d (length file_bytes + 1) 0
              x opened
              (record {
                place = start;
                knows = knows;
                valid = valid;
                within_file = omega arith;
                copied = refl;
                cleared = cleared;
                space = space;
                room = room;
              })
              (omega arith))))
