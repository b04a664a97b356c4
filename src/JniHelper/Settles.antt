-- ===== src/JniHelper/Settles.antt =====
-- Runs of native methods (jni_helper/JniHelper.cc) that give back each string they get: what they are,
-- and the counts for the events of each method.
use my_stest.Base.{
  ℕ, ◌+◌, ℤ, ◌≡◌, refl, ap, sym, ◌∙◌, true, false, [], ◌∷◌, ◌++◌, arith, Bool, if◌then◌else◌,
  is_negative, Text, pos, negsuc, Option, some, none,
}
use my_stest.World.Calls.{
  JString, Trace, Call, Reply, called, allocated, deleted, got_chars, released_chars, found_class,
  made_global, got_method, made_string, made_object, deleted_ref, threw_new, threw, got_buffer, Env,
  Dirent, smbc_open,
}
use my_stest.World.State.{State, Run, ok, and_then}
use my_stest.Libsmbclient.Contexts.{
  Usage, usage, is_initialised, context_call, context_calls, usage-append,
}
use my_stest.JniHelper.Ready.{IsReady, SameMemory, essential, Does}
use my_stest.JniHelper.Balance.{got_by, gets, released_by, releases, Balanced}
use my_stest.JniHelper.Throws.{
  Policy, Exception, file_not_found, auth_failed, errno_exception, exception_for, thrown,
}
use my_stest.JniHelper.Tail.{raised, path_events}
use my_stest.JniHelper.Policies.{open_file_policy}
use my_stest.JniHelper.OpenLaws.{opened_events}
use my_stest.JniHelper.HandleLaws.{errno_raised, entry_events}

-- The run returns with the statics ready, the memory as before, and every string released as often
-- as it was got. While an initialised context is in use it keeps the rules on contexts, and changes
-- nothing in their usage.
pub record Settles (s : State) (run : Run (Unit {0})) : Type 0 where
  pub after : State
  pub runs : run ≡ ok tt after
  pub ready : IsReady after
  pub kept : SameMemory s after
  pub balanced : Balanced s after
  pub legal :
      (u : Usage)
      → is_initialised (u.phase u.current) ≡ true
      → usage s.trace ≡ some u
      → usage after.trace ≡ some u

-- Events that get each string as often as they release it, and call nothing that takes a context.
pub record Even (t : Trace) : Type 0 where
  pub counts : (r : ℕ) → (gets r t ≡ releases r t) × (context_calls t ≡ 0)

-- The lookups of classes and the making of objects do not count.
counts-essential :
    (r : ℕ) (t : Trace)
    → (gets r (essential t) ≡ gets r t) × (releases r (essential t) ≡ releases r t)
counts-essential r [] = (refl, refl)
counts-essential r (called c a ∷ t) = omega (arith, counts-essential r t)
counts-essential r (allocated p ∷ t) = omega (arith, counts-essential r t)
counts-essential r (deleted p ∷ t) = omega (arith, counts-essential r t)
counts-essential r (got_chars j true ∷ t) = omega (arith, counts-essential r t)
counts-essential r (got_chars j false ∷ t) = omega (arith, counts-essential r t)
counts-essential r (released_chars j ∷ t) = omega (arith, counts-essential r t)
counts-essential r (found_class n b ∷ t) = omega (arith, counts-essential r t)
counts-essential r (made_global c b ∷ t) = omega (arith, counts-essential r t)
counts-essential r (got_method c n g b ∷ t) = omega (arith, counts-essential r t)
counts-essential r (made_string x b ∷ t) = omega (arith, counts-essential r t)
counts-essential r (made_object c m a b ∷ t) = omega (arith, counts-essential r t)
counts-essential r (deleted_ref x ∷ t) = omega (arith, counts-essential r t)
counts-essential r (threw_new c x ∷ t) = omega (arith, counts-essential r t)
counts-essential r (threw e ∷ t) = omega (arith, counts-essential r t)
counts-essential r (got_buffer b p ∷ t) = omega (arith, counts-essential r t)

usage-essential : (t : Trace) → usage (essential t) ≡ usage t
unfolding usage
usage-essential [] = refl
usage-essential (called c a ∷ t) = rw (usage-essential t)
usage-essential (_ ∷ t) = usage-essential t

counts-append :
    (r : ℕ) (t u : Trace)
    → (gets r (t ++ u) ≡ gets r t + gets r u)
      × (releases r (t ++ u) ≡ releases r t + releases r u)
      × (context_calls (t ++ u) ≡ context_calls t + context_calls u)
counts-append r [] u = omega arith
counts-append r (e ∷ t) u = omega (arith, counts-append r t u)

-- A throw does not count.
counts-thrown :
    (r : ℕ) (x : Exception)
    → (got_by r (thrown x) ≡ 0)
      × (released_by r (thrown x) ≡ 0)
      × (context_calls (thrown x ∷ []) ≡ 0)
counts-thrown r (file_not_found m) = (refl, refl, refl)
counts-thrown r auth_failed = (refl, refl, refl)
counts-thrown r (errno_exception f n) = (refl, refl, refl)

counts-raised :
    (r : ℕ) (b : Bool) (x : Exception)
    → let t : Trace = if b then thrown x ∷ [] else [] in
      (gets r t ≡ 0) × (releases r t ≡ 0) × (context_calls t ≡ 0)
counts-raised r true x = omega (arith, counts-thrown r x)
counts-raised r false x = (refl, refl, refl)

-- A method whose events are even settles.
pub Does-Settles :
    {A : Type 0} {s : State} {run : Run A} {a : A} {events : Trace}
    → Does s run a events
    → Even events
    → Settles s (and_then run λ _ t. ok tt t)
Does-Settles {s} {events} d even = record {
  after = d.after;
  runs = rw d.runs;
  ready = d.ready;
  kept = d.kept;
  balanced = λ r.
      let (g, l) = counts-essential r d.after.trace in
      let (g', l') = counts-essential r s.trace in
      let (g'', l'', _) = counts-append r events (essential s.trace) in
      let (e, _) = even.counts r in
      let p : gets r (essential d.after.trace) ≡ gets r (events ++ essential s.trace) =
        rw d.traced in
      let q : releases r (essential d.after.trace) ≡ releases r (events ++ essential s.trace) =
        rw d.traced in
      omega arith;
  legal = λ u h e.
      let (_, none_of) = even.counts 0 in
      sym (usage-essential d.after.trace)
      ∙ (ap usage d.traced
          ∙ usage-append events (essential s.trace) u h none_of (usage-essential s.trace ∙ e));
}

-- Events that neither get nor release a string, and call nothing that takes a context.
abbrev pub Mute : Trace → Type 0
Mute t = (r : ℕ) → (gets r t ≡ 0) × (releases r t ≡ 0) × (context_calls t ≡ 0)

pub raised-Mute : (p : Policy) (a : Reply) → Mute (raised p a)
raised-Mute p a r = counts-raised r (is_negative a.result) (exception_for p a.error)

-- What stands between the getting and the release of one string.
pub one-Even :
    (got : Bool) (uri : JString) (m n l : Trace)
    → Mute m
    → Mute n
    → Mute l
    → Even (
        if got
        then released_chars uri ∷ (m ++ (n ++ (l ++ got_chars uri true ∷ [])))
        else got_chars uri false ∷ [])
one-Even false uri m n l h k o = record { counts = λ r. (refl, refl) }
one-Even true uri m n l h k o = record {
  counts = λ r. omega (
    arith,
    h r,
    k r,
    o r,
    counts-append r m (n ++ (l ++ got_chars uri true ∷ [])),
    counts-append r n (l ++ got_chars uri true ∷ []),
    counts-append r l (got_chars uri true ∷ []),
  );
}

-- The same for two strings, released in either order.
pub two-Even :
    (got also : Bool) (x y first second : JString) (m n : Trace)
    → ((r : ℕ)
        → released_by r (released_chars first) + released_by r (released_chars second)
          ≡ released_by r (released_chars x) + released_by r (released_chars y))
    → Mute m
    → Mute n
    → Even (
        if got
        then (if also
            then released_chars first
              ∷ released_chars second
              ∷ (m ++ (n ++ got_chars y true ∷ got_chars x true ∷ []))
            else released_chars x ∷ got_chars y false ∷ got_chars x true ∷ [])
        else got_chars x false ∷ [])
two-Even false also x y first second m n o h k = record { counts = λ r. (refl, refl) }
two-Even true false x y first second m n o h k = record { counts = λ r. omega arith }
two-Even true true x y first second m n o h k = record {
  counts = λ r. omega (
    arith,
    h r,
    k r,
    o r,
    counts-append r m (n ++ got_chars y true ∷ got_chars x true ∷ []),
    counts-append r n (got_chars y true ∷ got_chars x true ∷ []),
  );
}

Mute-Even : (m n : Trace) → Mute m → Mute n → Even (m ++ n)
Mute-Even m n h k = record { counts = λ r. omega (arith, h r, k r, counts-append r m n) }

pub path-Even :
    (got : Bool) (uri : JString) (c : Call) (a : Reply) (p : Policy)
    → context_call c ≡ 0
    → Even (if got then path_events uri c a p else got_chars uri false ∷ [])
path-Even got uri c a p e =
    one-Even got uri (raised p a) [] (called c a ∷ []) (raised-Mute p a) (λ _. (refl, refl, refl))
      (λ _. (refl, refl, omega (arith, e)))

pub closed-Mute :
    (b : Bool) (c : Call) (a : Reply)
    → context_call c ≡ 0
    → Mute (if b then [] else called c a ∷ [])
closed-Mute true c a e r = (refl, refl, refl)
closed-Mute false c a e r = (refl, refl, omega (arith, e))

pub opened-Mute :
    (env : Env) (t : Trace) (uri : Text) (flag : ℤ) → Mute (opened_events env t uri flag)
opened-Mute env t uri (pos flag) r =
    let a = env.reply t (smbc_open uri flag 0) in
    omega (
      arith,
      raised-Mute (open_file_policy uri) a r,
      counts-append r (raised (open_file_policy uri) a) (called (smbc_open uri flag 0) a ∷ []),
    )
opened-Mute env t uri (negsuc n) r = (refl, refl, refl)

pub errno-Even :
    (function : Text) (a : Reply) (n : Trace) → Mute n → Even (errno_raised function a ++ n)
errno-Even function a n h =
    Mute-Even (errno_raised function a) n
      (λ r. counts-raised r (is_negative a.result) (errno_exception function a.error)) h

pub closed_dir-Even :
    (b : Bool) (x : Exception) (c : Call) (a : Reply)
    → context_call c ≡ 0
    → Even (if b then called c a ∷ [] else thrown x ∷ called c a ∷ [])
closed_dir-Even true x c a e = record { counts = λ r. omega arith }
closed_dir-Even false x c a e = record { counts = λ r. omega (arith, counts-thrown r x) }

pub entry-Even : (e : Option Dirent) (n : Trace) → Mute n → Even (entry_events e ++ n)
entry-Even none n h = record { counts = λ r. omega (arith, h r) }
entry-Even (some e) n h = record { counts = λ r. omega (arith, h r) }
