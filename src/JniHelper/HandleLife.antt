-- ===== src/JniHelper/HandleLife.antt =====
-- The methods of SambaFile (jni_helper/JniHelper.cc) against the rules of
-- samba_includes/libsmbclient.h on handles.
use my_stest.Base.{
  ℕ, ℤ, pos, ◌≡◌, refl, sym, ap, ◌∙◌, true, some, List, [], ◌∷◌, ◌++◌, if◌then◌else◌, is_negative,
  is_code, Bool-cases, inl, inr, bytes, Text, to_word, to_int32,
}
use my_stest.World.Calls.{
  Ptr, Call, Reply, Trace, Env, called, found_class, made_global, got_method, made_string,
  made_object, got_buffer, smbc_read, smbc_write, smbc_lseek, smbc_close,
}
use my_stest.World.State.{State, Run, ok, Cmd, pure, ◌>>◌}
use my_stest.Libsmbclient.Handles.{Handles, unopened, is_file, become, handle_of, handles}
use my_stest.JniHelper.Handles as Methods
use my_stest.JniHelper.Ready.{IsHealthy, SetsErrno, IsReady, essential, Does}
use my_stest.JniHelper.Throws.{Exception, thrown, errno_exception, file_not_found, auth_failed}
use my_stest.JniHelper.HandleLaws.{errno_raised, seek_lem, read_lem, write_lem, close_file_lem}

pub handles-essential : (t : Trace) → handles (essential t) ≡ handles t
unfolding handles
handles-essential [] = refl
handles-essential (found_class n b ∷ t) = handles-essential t
handles-essential (made_global c b ∷ t) = handles-essential t
handles-essential (got_method c n g b ∷ t) = handles-essential t
handles-essential (made_string x b ∷ t) = handles-essential t
handles-essential (made_object c m a b ∷ t) = handles-essential t
handles-essential (called c r ∷ t) = rw (handles-essential t)
handles-essential (_ ∷ t) = handles-essential t

pub handles-thrown : (x : Exception) (t : Trace) → handles (thrown x ∷ t) ≡ handles t
unfolding handles
handles-thrown (file_not_found message) t = refl
handles-thrown auth_failed t = refl
handles-thrown (errno_exception function err) t = refl

-- The exception that may follow a call does not matter.
handles-errno_raised :
    (function : Text) (r : Reply) (more t : Trace) (v : Handles)
    → handles (more ++ t) ≡ some v
    → handles ((errno_raised function r ++ more) ++ t) ≡ some v
handles-errno_raised function r more t v h = elim (Bool-cases (is_negative r.result)) [
  | inl e ↦ rw e (handles-thrown (errno_exception function r.error) (more ++ t) ∙ h)
  | inr e ↦ rw e h
]

pub handles-Does :
    {A : Type 0} {s : State} {run : Run A} {a : A} {events : Trace} (d : Does s run a events)
    → handles d.after.trace ≡ handles (events ++ essential s.trace)
handles-Does d = sym (handles-essential d.after.trace) ∙ ap handles d.traced

pub call-handles :
    (c : Call) (r : Reply) (t : Trace) (h v : Handles)
    → handles t ≡ some h
    → handle_of c r h ≡ some v
    → handles (called c r ∷ t) ≡ some v
unfolding handles
call-handles c r t h v e f = rw (e, f)

buffer-handles : (n : ℕ) (p : Ptr) (t : Trace) → handles (got_buffer n p ∷ t) ≡ handles t
unfolding handles
buffer-handles n p t = refl

-- A method on an open file.
pub data FileOp : Type 0 where
  seek_to : ℤ → FileOp
  read_into write_from : ℕ → ℤ → FileOp

abbrev pub perform_op : Ptr → ℤ → FileOp → Cmd ℤ
perform_op pointer fd (seek_to offset) = Methods.seek pointer fd offset (pos 0)
perform_op pointer fd (read_into buffer maxlen) = Methods.read pointer fd buffer maxlen
perform_op pointer fd (write_from buffer length) = Methods.write pointer fd buffer length

unfoldable pub perform_ops : Ptr → ℤ → List FileOp → Cmd (Unit {0})
perform_ops pointer fd [] = pure tt
perform_ops pointer fd (op ∷ ops) = do perform_op pointer fd op; perform_ops pointer fd ops

-- A run that returns and leaves the handles as they are.
pub record Keeps {A : Type 0} (s : State) (run : Run A) (h : Handles) : Type 0 where
  pub value : A
  pub after : State
  pub runs : run ≡ ok value after
  pub ready : IsReady after
  pub handled : handles after.trace ≡ some h

module _ {env : Env} (healthy : IsHealthy env) (sets : SetsErrno env) (h : Handles) (fd : ℤ)
    (opened : is_file h fd ≡ true) where
  op-Keeps :
      (pointer : Ptr) (op : FileOp) (s : State)
      → IsReady s
      → handles s.trace ≡ some h
      → Keeps s (perform_op pointer fd op env s) h
  unfolding handle_of
  op-Keeps pointer (seek_to offset) s ready e =
      let c = smbc_lseek fd (to_int32 offset) (pos 0) in
      let r = env.reply s.trace c in
      let d = seek_lem healthy sets ready pointer fd offset (pos 0) in
      let f : handles (essential s.trace) ≡ some h = handles-essential s.trace ∙ e in
      record {
        value = _;
        after = d.after;
        runs = d.runs;
        ready = d.ready;
        handled =
            handles-Does d
            ∙ handles-errno_raised (bytes "seek") r (called c r ∷ []) (essential s.trace) h
                (call-handles c r (essential s.trace) h h f (rw opened));
      }
  op-Keeps pointer (read_into buffer maxlen) s ready e =
      let p = env.get_direct_buffer_address s.trace buffer in
      let c = smbc_read fd p (to_word maxlen) in
      let r = env.reply (got_buffer buffer p ∷ s.trace) c in
      let d = read_lem healthy sets ready pointer fd buffer maxlen in
      let f : handles (essential s.trace) ≡ some h = handles-essential s.trace ∙ e in
      record {
        value = _;
        after = d.after;
        runs = d.runs;
        ready = d.ready;
        handled =
            handles-Does d
            ∙ handles-errno_raised (bytes "read") r (called c r ∷ got_buffer buffer p ∷ [])
                (essential s.trace) h
                (call-handles c r (got_buffer buffer p ∷ essential s.trace) h h
                  (buffer-handles buffer p (essential s.trace) ∙ f) (rw opened));
      }
  op-Keeps pointer (write_from buffer length) s ready e =
      let p = env.get_direct_buffer_address s.trace buffer in
      let c = smbc_write fd p (to_word length) in
      let r = env.reply (got_buffer buffer p ∷ s.trace) c in
      let d = write_lem healthy sets ready pointer fd buffer length in
      let f : handles (essential s.trace) ≡ some h = handles-essential s.trace ∙ e in
      record {
        value = _;
        after = d.after;
        runs = d.runs;
        ready = d.ready;
        handled =
            handles-Does d
            ∙ handles-errno_raised (bytes "write") r (called c r ∷ got_buffer buffer p ∷ [])
                (essential s.trace) h
                (call-handles c r (got_buffer buffer p ∷ essential s.trace) h h
                  (buffer-handles buffer p (essential s.trace) ∙ f) (rw opened));
      }

  pub ops-Keeps :
      (pointer : Ptr) (ops : List FileOp) (s : State)
      → IsReady s
      → handles s.trace ≡ some h
      → Keeps s (perform_ops pointer fd ops env s) h
  unfolding perform_ops
  ops-Keeps pointer [] s ready e = record {
    value = tt;
    after = s;
    runs = refl;
    ready = ready;
    handled = e;
  }
  ops-Keeps pointer (op ∷ ops) s ready e =
      let k = op-Keeps pointer op s ready e in
      let n = ops-Keeps pointer ops k.after k.ready k.handled in
      record {
        value = tt;
        after = n.after;
        runs = rw k.runs n.runs;
        ready = n.ready;
        handled = n.handled;
      }

  -- `close` takes the handle back if it worked.
  pub close-handles :
      (pointer : Ptr) (s : State)
      → IsReady s
      → handles s.trace ≡ some h
      → (after : State) × (v : Handles) × (Methods.close_file pointer fd env s ≡ ok tt after)
        × (handles after.trace ≡ some v)
        × (v ≡ (
            if is_code (env.reply s.trace (smbc_close fd)).result 0
            then become unopened fd h
            else h))
  unfolding handle_of
  close-handles pointer s ready e =
      let d = close_file_lem healthy sets ready pointer fd in
      let f : handles (essential s.trace) ≡ some h = handles-essential s.trace ∙ e in
      let r = env.reply s.trace (smbc_close fd) in
      let v = if is_code r.result 0 then become unopened fd h else h in
      (
        d.after,
        v,
        d.runs,
        handles-Does d
            ∙ handles-errno_raised (bytes "close") r (called (smbc_close fd) r ∷ [])
                (essential s.trace) v
                (call-handles (smbc_close fd) r (essential s.trace) h v f (rw opened)),
        refl,
      )
