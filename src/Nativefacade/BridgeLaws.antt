-- ===== src/Nativefacade/BridgeLaws.antt =====
-- The counts of the native methods of SambaFile.java, over what libsmbclient.h documents
-- (jni_helper/JniHelper.cc).
use my_stest.Base.{
  ℕ, ◌+◌, ◌≤◌, ◌<◌, ℤ, pos, negsuc, leb, neg_int, ◌≡◌, refl, sym, ap, ◌∙◌, true, false, List, [],
  ◌∷◌, ◌++◌, ◌==◌, if◌then◌else◌, is_negative, is_code, arith, Bool-cases, inl, inr, Text, text_eq,
  text_eq_iff, bytes, length, to_word, to_int32,
}
use my_stest.World.Calls.{
  Ptr, Reply, Trace, Env, found_class, made_global, got_method, made_string, made_object, threw,
  threw_new, got_buffer, smbc_read, smbc_write, smbc_lseek,
}
use my_stest.World.State.{State, Run}
use my_stest.Libsmbclient.Errors.{one_of}
use my_stest.Libsmbclient.Files
use my_stest.Libsmbclient.Contract.{allows, FollowsHeader}
use my_stest.SambaClient.Outcomes.{outcome}
use my_stest.JniHelper.Objects.{errno_name}
use my_stest.JniHelper.Ready.{IsHealthy, IsReady, essential, Does}
use my_stest.JniHelper.Throws.{thrown, errno_exception}
use my_stest.JniHelper.HandleLaws.{errno_raised, seek_lem, read_lem, write_lem}
use my_stest.JniHelper.HeaderLaws.{FollowsHeader-SetsErrno}
use my_stest.Nativefacade.Java
use my_stest.Nativefacade.Java.{Java, returned, died, unfinished, continue}
use my_stest.Nativefacade.NativeFile.{Settled, Counts, WriteCounts, IsCounting, IsWriting}
use my_stest.Nativefacade.Bridge.{raised, newest, settle, native_file}

raised-essential : (t : Trace) → raised (essential t) ≡ raised t
raised-essential [] = refl
raised-essential (found_class n b ∷ t) = omega (arith, raised-essential t)
raised-essential (made_global c b ∷ t) = omega (arith, raised-essential t)
raised-essential (got_method c n g b ∷ t) = omega (arith, raised-essential t)
raised-essential (made_string x b ∷ t) = omega (arith, raised-essential t)
raised-essential (made_object c m a b ∷ t) = omega (arith, raised-essential t)
raised-essential (_ ∷ t) = omega (arith, raised-essential t)

newest-essential : (t : Trace) → newest (essential t) ≡ newest t
newest-essential [] = refl
newest-essential (found_class n b ∷ t) = newest-essential t
newest-essential (made_global c b ∷ t) = newest-essential t
newest-essential (got_method c n g b ∷ t) = newest-essential t
newest-essential (made_string x b ∷ t) = newest-essential t
newest-essential (made_object c m a b ∷ t) = newest-essential t
newest-essential (threw obj ∷ t) = refl
newest-essential (threw_new c m ∷ t) = refl
newest-essential (_ ∷ t) = newest-essential t

raised-append : (xs ys : Trace) → raised (xs ++ ys) ≡ raised xs + raised ys
raised-append [] ys = omega arith
raised-append (e ∷ xs) ys = omega (arith, raised-append xs ys)

module _ {A : Type 0} {s : State} {run : Run A} {a : A} {events : Trace} where
  raised-Does : (d : Does s run a events) → raised d.after.trace ≡ raised events + raised s.trace
  raised-Does d = omega (
    arith,
    raised-essential d.after.trace,
    raised-essential s.trace,
    raised-append events (essential s.trace),
    ap raised d.traced,
  )

errno_object :
    (function : Text) (err : ℤ) (t : Trace)
    → newest (thrown (errno_exception function err) ∷ t) ≡ Java.errno_exception function err
errno_object function err t =
    let e : text_eq errno_name errno_name ≡ true = (text_eq_iff errno_name errno_name).1 refl in
    rw e

module _ {A : Type 0} {s : State} {run : Run A} {a : A} where
  pub settle-returned :
      {events : Trace} (d : Does s run a events)
      → raised events ≡ 0
      → settle s run ≡ returned a d.after
  unfolding settle
  settle-returned d quiet =
      let e : (raised d.after.trace == raised s.trace) ≡ true =
        let c = raised-Does d in ground arith in
      rw (d.runs, e, settle)

  pub settle-threw :
      {events : Trace} (function : Text) (err : ℤ)
      (d : Does s run a (thrown (errno_exception function err) ∷ events))
      → settle s run ≡ Java.threw (Java.errno_exception function err) d.after
  unfolding settle
  settle-threw {events} function err d =
      let e : (raised d.after.trace == raised s.trace) ≡ false =
        let c = raised-Does d in ground arith in
      let f : newest d.after.trace ≡ Java.errno_exception function err =
        sym (newest-essential d.after.trace)
        ∙ ap newest d.traced
        ∙ errno_object function err (events ++ essential s.trace) in
      rw (d.runs, e, f, settle)

-- A native method on a descriptor, by its events.
settle-Settled :
    {s : State} {run : Run ℤ} (function : Text) (r : Reply) (v : ℤ) (events : Trace)
    (Good : ℤ → Type 0)
    → raised events ≡ 0
    → Does s run v (errno_raised function r ++ events)
    → (is_negative r.result ≡ false → Good v)
    → Settled (λ w t. Good w × IsReady t) (settle s run)
settle-Settled function r v events Good quiet d good = elim (Bool-cases (is_negative r.result)) [
  | inl e ↦ let c = rw e at d in rw (settle-threw function r.error c) tt
  | inr e ↦ let c = rw e at d in rw (settle-returned c quiet) (good e, c.ready)
]

settle-Ready :
    {s : State} {run : Run ℤ} (function : Text) (r : Reply) (v : ℤ) (events : Trace)
    → raised events ≡ 0
    → Does s run v (errno_raised function r ++ events)
    → Settled (λ w t. IsReady t) (settle s run)
settle-Ready function r v events quiet d = elim (Bool-cases (is_negative r.result)) [
  | inl e ↦ let c = rw e at d in rw (settle-threw function r.error c) tt
  | inr e ↦ let c = rw e at d in rw (settle-returned c quiet) c.ready
]

-- The value of a call that is told to count.
outcome-Counts :
    (m size : ℕ) (codes : List ℕ) (result error : ℤ)
    → size ≤ m
    → (elim result [ pos n ↦ leb n size | negsuc n ↦ one_of codes error ]) ≡ true
    → is_negative result ≡ false
    → Counts m (if is_negative result then neg_int error else result)
outcome-Counts m size codes (pos n) error le h e = ground arith
outcome-Counts m size codes (negsuc n) error le h e = cc

word-le : (m : ℕ) → to_word (pos m) ≤ m
unfolding to_word
word-le m = omega arith

-- What follows a native method that returned.
Settled-continue :
    {S A B : Type 0} (Good : A → S → Type 0) (Next : B → S → Type 0) (r : Java S A) (f : A → S → B)
    → Settled Good r
    → ((a : A) (s : S) → Good a s → Next (f a s) s)
    → Settled Next (continue r λ a s. returned (f a s) s)
Settled-continue Good Next (returned a s) f h next = next a s h
Settled-continue Good Next (Java.threw (Java.errno_exception function err) s) f h next = tt
Settled-continue Good Next (Java.threw _ s) f h next = absurd h
Settled-continue Good Next died f h next = absurd h
Settled-continue Good Next unfinished f h next = absurd h

outcome-WriteCounts :
    (m size : ℕ) (codes : List ℕ) (result error : ℤ)
    → m ≡ size
    → (elim result [ pos n ↦ leb n size | negsuc n ↦ one_of codes error ]) ≡ true
    → (0 < size → is_code result 0 ≡ false)
    → is_negative result ≡ false
    → WriteCounts m (if is_negative result then neg_int error else result)
outcome-WriteCounts m size codes (pos n) error same h on e =
    (ground arith, λ some. let moved = on (omega arith) in ground arith)
outcome-WriteCounts m size codes (negsuc n) error same h on e = cc

-- A server that writes some bytes of any, when it does not fail.
pub record WritesSome (env : Env) : Type 0 where
  pub moves :
      (t : Trace) (fd : ℤ) (p : Ptr) (size : ℕ)
      → 0 < size
      → is_code (env.reply t (smbc_write fd p size)).result 0 ≡ false

module _ {env : Env} (healthy : IsHealthy env) (follows : FollowsHeader env) (pointer : Ptr)
    (buffer : ℕ) (filled : Trace → Text → Text)
    (kept : (t : Trace) (contents : Text) → length (filled t contents) ≡ length contents) where
  seeks-Settled :
      (fd offset whence : ℤ) (s : State)
      → IsReady s
      → Settled (λ _ t. IsReady t) ((native_file env pointer buffer filled).seek fd offset whence s)
  unfolding native_file
  seeks-Settled fd offset whence s ready =
      let r = env.reply s.trace (smbc_lseek fd (to_int32 offset) whence) in
      settle-Ready (bytes "seek") r (outcome r r.result) _ refl
        (seek_lem healthy (FollowsHeader-SetsErrno follows) ready pointer fd offset whence)

  -- Over what libsmbclient.h documents, in a healthy JVM, the native methods count from any state
  -- whose class references are right.
  pub native_file-IsCounting : IsCounting (native_file env pointer buffer filled) IsReady
  unfolding native_file allows
  native_file-IsCounting = record {
    reads = λ fd contents m s ready.
        let p = env.get_direct_buffer_address s.trace buffer in
        let c = smbc_read fd p (to_word (pos m)) in
        let t = got_buffer buffer p ∷ s.trace in
        let r = env.reply t c in
        Settled-continue (λ v t. Counts m v × IsReady t) _ _ _
          (settle-Settled (bytes "read") r (outcome r r.result) _ (Counts m) refl
            (read_lem healthy (FollowsHeader-SetsErrno follows) ready pointer fd buffer (pos m))
            λ e.
              outcome-Counts m (to_word (pos m)) Files.read_errors r.result r.error (word-le m)
                (follows.documented t c) e)
          λ v u (count, still). ((count, kept u.trace contents), still);
    seeks = seeks-Settled;
  }

  -- The same of writes, over a server that writes some bytes of any.
  pub native_file-IsWriting :
      WritesSome env → IsWriting (native_file env pointer buffer filled) IsReady
  unfolding native_file allows to_word
  native_file-IsWriting some = record {
    writes = λ fd contents m s small ready.
        let p = env.get_direct_buffer_address s.trace buffer in
        let size = to_word (pos m) in
        let c = smbc_write fd p size in
        let t = got_buffer buffer p ∷ s.trace in
        let r = env.reply t c in
        let same : m ≡ size = omega arith in
        settle-Settled (bytes "write") r (outcome r r.result) _ (WriteCounts m) refl
          (write_lem healthy (FollowsHeader-SetsErrno follows) ready pointer fd buffer (pos m))
          (outcome-WriteCounts m size Files.write_errors r.result r.error same
            (follows.documented t c) (some.moves t fd p size));
    seeks = seeks-Settled;
  }
