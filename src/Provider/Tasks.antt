-- ===== src/Provider/Tasks.antt =====
-- ReadFileTask.java and WriteFileTask.java, from where both resources of their `try` are open.
use my_stest.Base.{
  ℕ, zero, suc, ◌^◌, ◌-◌, ℤ, pos, Bool, true, false, Option, none, some, if◌then◌else◌, Text, List,
  [], ◌∷◌, ◌++◌, length, take, lt_int,
}
use my_stest.Nativefacade.Java.{
  Throwable, io_exception, index_out_of_bounds, other, Java, returned, threw, died, unfinished,
  continue, within, Store,
}
use my_stest.Nativefacade.NativeFile.{NativeFile}
use my_stest.Nativefacade.SambaFile
use my_stest.Provider.Transfers.{splice, clear, buffer_get, buffer_put}

-- `Integer.MAX_VALUE`
abbrev pub max_value : ℤ
max_value = pos (2 ^ 31 - 1)

-- How a descriptor was closed: by its stream, or by `closeWithError`.
pub data Closing : Type 0 where
  normally with_error : Closing

-- What went through a descriptor, and its closings, the last one first.
pub record Pipe : Type 0 where
  pub output : Text
  pub closings : List Closing

-- The system's ParcelFileDescriptor and its stream: of the bytes of a write, all are taken, or so many
-- of the first before an IOException; whether `close` of the stream throws an IOException; what
-- `closeWithError` throws, for the exception whose message it is given.
pub record Descriptor : Type 0 where
  pub refuses : Pipe → Text → Option ℕ
  pub close_fails : Pipe → Bool
  pub close_with_error_throws : Throwable → Pipe → Option Throwable

module _ {T A : Type 0} where
  -- The end of one resource of a `try`: it is closed, and an exception from before goes first.
  abbrev pub closing : Java T A → (T → Java T (Unit {0})) → Java T A
  closing (returned a s) close = continue (close s) (λ _ t. returned a t)
  closing (threw e s) close = elim (close s) [
    | returned _ t ↦ threw e t
    | threw _ t ↦ threw e t
    | died ↦ died
    | unfinished ↦ unfinished
  ]
  closing died close = died
  closing unfinished close = unfinished

module _ {T : Type 0} where
  -- The inner `try`, whose `catch` only logs.
  abbrev pub logged : Java T (Unit {0}) → Java T (Unit {0})
  logged (threw (io_exception e) s) = returned tt s
  logged r = r

  -- `catch (IOException e)`, where the descriptor is closed with an error.
  abbrev pub caught : Java T (Unit {0}) → (Throwable → T → Java T (Unit {0})) → Java T (Unit {0})
  caught (threw (io_exception e) s) close = logged (close (io_exception e) s)
  caught r close = r

module _ {S : Type 0} (d : Descriptor) where
  -- The stream's `close`.
  unfoldable pub close_stream : Store S × Pipe → Java (Store S × Pipe) (Unit {0})
  close_stream (x, p) =
      let after : Store S × Pipe = (x, record p { closings = normally ∷ p.closings }) in
      if d.close_fails p then threw (io_exception other) after else returned tt after

  -- `mPfd.closeWithError(e.getMessage())`
  unfoldable pub close_with_error : Throwable → Store S × Pipe → Java (Store S × Pipe) (Unit {0})
  close_with_error e (x, p) =
      let after : Store S × Pipe = (x, record p { closings = with_error ∷ p.closings }) in
      elim (d.close_with_error_throws e p) [ none ↦ returned tt after | some f ↦ threw f after ]

  -- `os.write(buf, 0, size)`
  unfoldable pub os_write : ℤ → Store S × Pipe → Java (Store S × Pipe) (Unit {0})
  os_write (pos size) (x, p) =
      let next = take size x.array in
      elim (d.refuses p next) [
        | none ↦ returned tt (x, record p { output = p.output ++ next })
        | some k ↦ threw (io_exception other) (x, record p { output = p.output ++ take k next })
      ]
  os_write _ (x, p) = threw index_out_of_bounds (x, p)

module _ {S : Type 0} (n : NativeFile S) where
  -- `file.close()`
  unfoldable pub close_resource : Store S × Pipe → Java (Store S × Pipe) (Unit {0})
  unfolding SambaFile.close
  close_resource (x, p) = within (SambaFile.close n x) (λ y. (y, p))

module _ {S : Type 0} (n : NativeFile S) (d : Descriptor) where
  -- The `try` and its `catch` around a loop: the resources are closed, the last one first.
  unfoldable pub try_with : Java (Store S × Pipe) (Unit {0}) → Java (Store S × Pipe) (Unit {0})
  unfolding close_resource close_stream close_with_error
  try_with loop =
      caught (closing (closing loop (close_resource n)) (close_stream d)) (close_with_error d)

  -- The loop of ReadFileTask; the store's array is `buf`.
  unfoldable pub copy_loop : ℕ → Store S × Pipe → Java (Store S × Pipe) (Unit {0})
  unfolding SambaFile.read buffer_get os_write
  copy_loop zero (x, p) = unfinished
  copy_loop (suc fuel) (x, p) =
      continue (within (SambaFile.read n max_value x) (λ y. (y, p))) λ size (y, p').
        elim (lt_int (pos 0) size) [
          | false ↦ returned tt (y, p')
          | true ↦
              continue (within (buffer_get (pos 0) size y) (λ z. (z, p')))
                λ _ z. continue (os_write d size z) λ _ (w, q). copy_loop fuel (clear w, q)
        ]

  -- `doInBackground` of ReadFileTask.
  unfoldable pub read_file_task : ℕ → Store S × Pipe → Java (Store S × Pipe) (Unit {0})
  unfolding copy_loop try_with
  read_file_task fuel start = try_with (copy_loop fuel start)

-- What a task reports.
abbrev pub succeeded : ℕ
succeeded = 0

module _ {S : Type 0} (n : NativeFile S) where
  -- The loop of WriteFileTask, for what its reads of the stream return; then the stream ends, or it is
  -- broken.
  unfoldable pub write_chunks : Bool → List Text → Store S → Java (Store S) (Unit {0})
  unfolding SambaFile.write buffer_put
  write_chunks broken [] x = if broken then threw (io_exception other) x else returned tt x
  write_chunks broken (chunk ∷ chunks) x =
      let size = pos (length chunk) in
      let filled = record x { array = splice 0 chunk x.array } in
      elim (lt_int (pos 0) size) [
        | false ↦ returned tt filled
        | true ↦
            continue (buffer_put (pos 0) size filled)
              λ _ y. continue (SambaFile.write n size y) λ _ z. write_chunks broken chunks (clear z)
      ]

  -- `doInBackground` and `onPostExecute` of WriteFileTask: what the callback is told.
  unfoldable pub write_file_task :
      Descriptor → Bool → List Text → Store S × Pipe → Java (Store S × Pipe) ℕ
  unfolding write_chunks try_with
  write_file_task d broken chunks (x, p) =
      continue (try_with n d (within (write_chunks broken chunks x) (λ y. (y, p))))
        λ _ y. returned succeeded y
