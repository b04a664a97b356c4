-- ===== src/Provider/NativeContents.antt =====
-- The native methods of SambaFile (jni_helper/JniHelper.cc) over a libsmbclient that serves a file.
use my_stest.Base.{
  ℕ, ◌+◌, ◌^◌, ◌≤◌, ◌<◌, ℤ, pos, ◌≡◌, refl, sym, ap, ◌∙◌, false, Bool-cases, inl, inr, ◌∷◌, ◌++◌,
  is_negative, Text, bytes, length, arith, to_word, to_int32,
}
use my_stest.World.Calls.{
  Ptr, Reply, Trace, Env, called, got_buffer, smbc_read, smbc_lseek, smbc_close,
}
use my_stest.World.State.{State, Run}
use my_stest.SambaClient.Outcomes.{outcome}
use my_stest.JniHelper.Ready.{IsHealthy, SetsErrno, IsReady, essential, Does}
use my_stest.JniHelper.HandleLaws.{errno_raised, seek_lem, read_lem, close_file_lem}
use my_stest.Nativefacade.Java.{errno_exception, Java, returned, threw, died, unfinished, continue}
use my_stest.Nativefacade.NativeFile.{Settled}
use my_stest.Nativefacade.Bridge.{raised, settle, native_file}
use my_stest.Nativefacade.BridgeLaws.{settle-returned, settle-threw}
use my_stest.Nativefacade.Endings.{Ends}
use my_stest.Provider.RegularFile.{Finds, IsRegularFile, IsSeekable}

-- The file's position in a state.
abbrev pub position : (Trace → ℕ) → State → ℕ
position place s = place (essential s.trace)

-- libsmbclient serves a file with these bytes, whose position is that of the calls before: a read that
-- does not fail finds bytes there, a seek that does not fail sets it. `filled` is what the reads leave
-- in the buffer's memory.
pub record ServesFile (env : Env) (filled : Trace → Text → Text) (file_bytes : Text)
    (place : Trace → ℕ) : Type 0 where
  pub buffers : (t : Trace) (b p : ℕ) → place (got_buffer b p ∷ t) ≡ place t
  pub calls : (t : Trace) (contents : Text) → filled t contents ≡ filled (essential t) contents
  pub reads :
      (t : Trace) (fd : ℤ) (p : Ptr) (contents : Text) (m : ℕ)
      → m ≤ length contents
      → let c = smbc_read fd p m in
        let r = env.reply t c in
        is_negative r.result ≡ false
        → (f : Finds file_bytes
            (place (essential t))
            m
            contents
            r.result
            (filled (called c r ∷ essential t) contents))
          × (place (called c r ∷ essential t) ≡ place (essential t) + f.count)
  pub seeks :
      (t : Trace) (fd : ℤ) (offset : ℕ)
      → offset < 2 ^ 31
      → let c = smbc_lseek fd (pos offset) (pos 0) in
        let r = env.reply t c in
        is_negative r.result ≡ false
        → (r.result ≡ pos offset) × (place (called c r ∷ essential t) ≡ offset)

settle-Ends :
    {A : Type 0} {s : State} {run : Run A} (function : Text) (r : Reply) (v : A) (events : Trace)
    (Good : A → State → Type 0)
    → raised events ≡ 0
    → Does s run v (errno_raised function r ++ events)
    → (is_negative r.result ≡ false
        → (t : State) → IsReady t
        → essential t.trace ≡ events ++ essential s.trace
        → Good v t)
    → Ends IsReady Good (settle s run)
settle-Ends function r v events Good quiet d good = elim (Bool-cases (is_negative r.result)) [
  | inl e ↦ let c = rw e at d in rw (settle-threw function r.error c) c.ready
  | inr e ↦ let c = rw e at d in rw (settle-returned c quiet) (good e c.after c.ready c.traced)
]

Ends-Settled :
    {S A : Type 0} (Bad : S → Type 0) (Good : A → S → Type 0) (r : Java S A)
    → Ends Bad Good r
    → Settled Good r
Ends-Settled Bad Good (returned a s) h = h
Ends-Settled Bad Good (threw (errno_exception function err) s) h = tt
Ends-Settled Bad Good (threw _ s) h = absurd h
Ends-Settled Bad Good died h = absurd h
Ends-Settled Bad Good unfinished h = absurd h

Ends-continue :
    {S A B : Type 0} (Bad : S → Type 0) (Good : A → S → Type 0) (Next : B → S → Type 0)
    (r : Java S A) (f : A → S → B)
    → Ends Bad Good r
    → ((a : A) (s : S) → Good a s → Next (f a s) s)
    → Ends Bad Next (continue r λ a s. returned (f a s) s)
Ends-continue Bad Good Next (returned a s) f h next = next a s h
Ends-continue Bad Good Next (threw (errno_exception function err) s) f h next = h
Ends-continue Bad Good Next (threw _ s) f h next = absurd h
Ends-continue Bad Good Next died f h next = absurd h
Ends-continue Bad Good Next unfinished f h next = absurd h

to_word-small : (m : ℕ) → m < 2 ^ 31 → to_word (pos m) ≡ m
unfolding to_word
to_word-small m h = omega arith

to_int32-small : (m : ℕ) → m < 2 ^ 31 → to_int32 (pos m) ≡ pos m
unfolding to_int32
to_int32-small m h = ground arith

outcome-result : (r : Reply) → is_negative r.result ≡ false → outcome r r.result ≡ r.result
outcome-result r e = rw e refl

module _ {env : Env} (healthy : IsHealthy env) (sets : SetsErrno env) (pointer : Ptr) (buffer : ℕ)
    (filled : Trace → Text → Text) (file_bytes : Text) (place : Trace → ℕ)
    (serves : ServesFile env filled file_bytes place) where
  -- Over a libsmbclient that serves a file and sets `errno`, in a healthy JVM, the native reads are
  -- right from any state whose class references are right.
  pub native_file-IsRegularFile :
      IsRegularFile (native_file env pointer buffer filled) file_bytes (position place) IsReady
  unfolding native_file
  native_file-IsRegularFile = record {
    reads = λ fd contents m s ready small fits.
        let p = env.get_direct_buffer_address s.trace buffer in
        let t = got_buffer buffer p ∷ s.trace in
        let c = smbc_read fd p (to_word (pos m)) in
        let r = env.reply t c in
        let word = to_word-small m small in
        Ends-continue IsReady
          (λ v u.
            (f : Finds file_bytes (position place s) m contents v (filled u.trace contents))
            × (position place u ≡ position place s + f.count)
            × IsReady u)
          _ _ _
          (settle-Ends (bytes "read") r (outcome r r.result) _ _ refl
            (read_lem healthy sets ready pointer fd buffer (pos m))
            λ e u still traced.
              let (f, moved) =
                serves.reads t fd p contents (to_word (pos m)) (omega (arith, word, fits)) e in
              let same : place (essential t) ≡ position place s =
                serves.buffers (essential s.trace) buffer p in
              let left : filled (called c r ∷ essential t) contents ≡ filled u.trace contents =
                ap (λ h. filled h contents) (sym traced) ∙ sym (serves.calls u.trace contents) in
              (
                record {
                  count = f.count;
                  value = outcome-result r e ∙ f.value;
                  within_size = omega (arith, word, f.within_size);
                  same_length = ap length (sym left) ∙ f.same_length;
                  there = rw same at f.there;
                  bytes_read = rw (left, same) at f.bytes_read;
                  some = λ i j. f.some (omega (arith, word)) (omega (arith, same));
                },
                ap place traced ∙ moved ∙ ap (λ a. a + f.count) same,
                still,
              ))
          λ v u h. h;
  }

  -- So are the native seeks.
  pub native_file-IsSeekable :
      IsSeekable (native_file env pointer buffer filled) (position place) IsReady
  unfolding native_file
  native_file-IsSeekable = record {
    seeks = λ fd offset s ready small.
        let c = smbc_lseek fd (to_int32 (pos offset)) (pos 0) in
        let r = env.reply s.trace c in
        let narrow = to_int32-small offset small in
        settle-Ends (bytes "seek") r (outcome r r.result) _ _ refl
          (seek_lem healthy sets ready pointer fd (pos offset) (pos 0))
          λ e u still traced.
            let (value, moved) = serves.seeks s.trace fd offset small (rw narrow at e) in
            (outcome-result r e ∙ (rw narrow value), ap place traced ∙ (rw narrow moved), still);
  }

  -- And the native `close` returns, or throws an ErrnoException.
  pub native_file-closes :
      (fd : ℤ) (s : State)
      → IsReady s
      → Settled (λ _ _. Unit {0}) ((native_file env pointer buffer filled).close fd s)
  unfolding native_file
  native_file-closes fd s ready =
      let r = env.reply s.trace (smbc_close fd) in
      Ends-Settled IsReady (λ _ _. Unit {0}) _
        (settle-Ends (bytes "close") r tt _ (λ _ _. Unit {0}) refl
          (close_file_lem healthy sets ready pointer fd) λ e u still traced. tt)
