-- ===== src/Looper/FileClient.antt =====
-- SambaFileClient.java: the methods of a SmbFile as messages.
use my_stest.Base.{ℕ, ℤ, pos, Option, some, ◌==◌, if◌then◌else◌}
use my_stest.Looper.Values.{
  Ended, value, io_exception, runtime_exception, MessageValues, checked, get_obj, get_int, get_long,
  set_obj, set_int, set_long, mapped, Method, ◌>>=◌, pure, got,
}

-- The interface SmbFile; a buffer or a stat is a reference, which may be null.
pub record SmbFile (S : Type 0) : Type 0 where
  pub read : Option ℕ → ℤ → Method S ℤ
  pub write : Option ℕ → ℤ → Method S ℤ
  pub seek : ℤ → Method S ℤ
  pub fstat : Method S (Option ℕ)
  pub close : Method S (Unit {0})

pub data FileCall : Type 0 where
  read write : Option ℕ → ℤ → FileCall
  seek : ℤ → FileCall
  fstat close : FileCall

-- What the methods return: an `int`, a `long`, an object, nothing.
pub data Result : Type 0 where
  an_int a_long : ℤ → Result
  an_object : Option ℕ → Result
  nothing : Result

abbrev pub read_code : ℕ
read_code = 1

abbrev pub write_code : ℕ
write_code = 2

abbrev pub close_code : ℕ
close_code = 3

abbrev pub seek_code : ℕ
seek_code = 4

abbrev pub fstat_code : ℕ
fstat_code = 5

-- The message of a call: `what`, `arg1`, and what is put into the values.
unfoldable pub what : FileCall → ℕ
what (read buffer max_len) = read_code
what (write buffer length) = write_code
what (seek offset) = seek_code
what fstat = fstat_code
what close = close_code

unfoldable pub arg1 : FileCall → ℤ
arg1 (write buffer length) = length
arg1 _ = pos 0

unfoldable pub fill : FileCall → MessageValues → MessageValues
fill (read buffer max_len) v = set_obj buffer (set_int max_len v)
fill (write buffer length) v = set_obj buffer v
fill (seek offset) v = set_long offset v
fill _ v = v

-- What the client makes of the values at the end.
unfoldable pub result : FileCall → MessageValues → Ended Result
unfolding get_int get_long get_obj checked
result (read buffer max_len) v = mapped an_int (get_int v)
result (write buffer length) v = mapped an_int (get_int v)
result (seek offset) v = mapped a_long (get_long v)
result fstat v = mapped an_object (get_obj v)
result close v = checked v nothing

module _ {S : Type 0} (file : SmbFile S) (unsupported : ℕ) where
  -- The `switch`: the values after it, or an exception. `unsupported` is the exception of an unknown
  -- operation.
  unfoldable pub dispatch : ℕ → ℤ → MessageValues → Method S MessageValues
  unfolding get_int get_long get_obj
  dispatch code arg v =
      if code == read_code
      then (do
        max_len ← got (get_int v)
        read_buffer ← got (get_obj v)
        n ← file.read read_buffer max_len
        pure (set_int n v))
      else if code == write_code
      then (do write_buffer ← got (get_obj v); n ← file.write write_buffer arg; pure (set_int n v))
      else if code == close_code
      then (do _ ← file.close; pure v)
      else if code == seek_code
      then (do to ← got (get_long v); offset ← file.seek to; pure (set_long offset v))
      else if code == fstat_code
      then (do o ← file.fstat; pure (set_obj o v))
      else (λ s. (runtime_exception unsupported, s))

  -- `processMessage`
  unfoldable pub process_message : ℕ → ℤ → MessageValues → S → MessageValues × S
  unfolding dispatch
  process_message code arg v s =
      let (e, t) = dispatch code arg v s in
      elim e [
        | value w ↦ (w, t)
        | io_exception x ↦ (record v { exception = some x }, t)
        | runtime_exception x ↦ (record v { runtime = some x }, t)
      ]

module _ {S : Type 0} (file : SmbFile S) where
  -- The method itself.
  unfoldable pub direct : FileCall → Method S Result
  direct (read buffer max_len) = do n ← file.read buffer max_len; pure (an_int n)
  direct (write buffer length) = do n ← file.write buffer length; pure (an_int n)
  direct (seek offset) = do n ← file.seek offset; pure (a_long n)
  direct fstat = do o ← file.fstat; pure (an_object o)
  direct close = do _ ← file.close; pure nothing
