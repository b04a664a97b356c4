-- ===== src/JniHelper/Ready.antt =====
-- What the native methods rely on, and how their effects are described (jni_helper/JniHelper.cc,
-- jni_helper/JavaClassCache.cc).
use my_stest.Base.{
  ◌≡◌, refl, ◌∙◌, true, false, Option, none, some, [], ◌∷◌, ◌++◌, append_assoc, Text, lookup, ℤ,
  is_negative, is_code, IsPositive,
}
use my_stest.World.Calls.{
  Jclass, global_ref, local_ref, MethodId, Trace, found_class, made_global, got_method, made_string,
  made_object, Env, Call, smbc_closedir,
}
use my_stest.World.State.{
  State, Site, directory_entry_site, file_not_found_site, errno_site, auth_failed_site,
  struct_stat_site, Run, ok, and_then,
}
use my_stest.JniHelper.Objects.{
  directory_entry_name, file_not_found_name, errno_name, auth_failed_name, struct_stat_name,
  init_name,
}

-- The class that a `static` local of each function holds.
abbrev pub site_name : Site → Text
site_name directory_entry_site = directory_entry_name
site_name file_not_found_site = file_not_found_name
site_name errno_site = errno_name
site_name auth_failed_site = auth_failed_name
site_name struct_stat_site = struct_stat_name

-- A JVM that has the five classes with their constructors, and memory.
pub record IsHealthy (env : Env) : Type 0 where
  pub finds : (t : Trace) (i : Site) → env.find_class t (site_name i) ≡ true
  pub globalises : (t : Trace) (i : Site) → env.new_global_ref t (local_ref (site_name i)) ≡ true
  pub has_constructor :
      (t : Trace) (i : Site) (signature : Text)
      → env.get_method_id t (global_ref (site_name i)) init_name signature ≡ true
  pub makes_string : (t : Trace) (text : Text) → env.new_string_utf t text ≡ true
  pub makes_object :
      (t : Trace) (c : Jclass) (m : MethodId) (args : _) → env.new_object t c m args ≡ true

-- libsmbclient leaves a positive error number in `errno` whenever it reports a failure.
pub record SetsErrno (env : Env) : Type 0 where
  pub on_negative :
      (t : Trace) (c : Call)
      → is_negative (env.reply t c).result ≡ true
      → IsPositive (env.reply t c).error
  pub on_closedir :
      (t : Trace) (dh : ℤ)
      → is_code (env.reply t (smbc_closedir dh)).result 0 ≡ false
      → IsPositive (env.reply t (smbc_closedir dh)).error

-- A cached class is the global reference to the class of its key.
abbrev pub Cached : Text → Option (Option Jclass) → Type 0
Cached name none = Unit {0}
Cached name (some none) = Unit {0}
Cached name (some (some c)) = c ≡ global_ref name

-- A `static` class is unset, or the global reference to its function's class.
abbrev pub HeldClass : Site → Option (Option Jclass) → Type 0
HeldClass i none = Unit {0}
HeldClass i (some none) = ⊥
HeldClass i (some (some c)) = c ≡ global_ref (site_name i)

-- A `static` constructor is unset, or there.
abbrev pub HeldMethod : Option (Option MethodId) → Type 0
HeldMethod none = Unit {0}
HeldMethod (some none) = ⊥
HeldMethod (some (some m)) = Unit {0}

pub record IsReady (s : State) : Type 0 where
  pub cached : (name : Text) → Cached name (lookup name s.class_cache)
  pub classes : (i : Site) → HeldClass i (s.class_statics i)
  pub methods : (i : Site) → HeldMethod (s.method_statics i)

-- The events other than the lookups of classes and the making of objects.
abbrev pub essential : Trace → Trace
essential [] = []
essential (found_class n b ∷ t) = essential t
essential (made_global c b ∷ t) = essential t
essential (got_method c n g b ∷ t) = essential t
essential (made_string x b ∷ t) = essential t
essential (made_object c m a b ∷ t) = essential t
essential (e ∷ t) = e ∷ essential t

-- Events and error numbers do not matter to it.
pub still :
    {s : State} {t : Trace} {e : ℤ} → IsReady s → IsReady (record s { trace = t; errno = e })
still h = record { cached = h.cached; classes = h.classes; methods = h.methods }

-- The caches and the clients are as before.
pub record SameMemory (s t : State) : Type 0 where
  pub caches : t.caches ≡ s.caches
  pub clients : t.clients ≡ s.clients
  pub credential_cache : t.credential_cache ≡ s.credential_cache

-- From `s` the run returns `a`. Its essential events are `events`, the newest first; it leaves the
-- memory alone and the statics ready.
pub record Does {A : Type 0} (s : State) (run : Run A) (a : A) (events : Trace) : Type 0 where
  pub after : State
  pub runs : run ≡ ok a after
  pub traced : essential after.trace ≡ events ++ essential s.trace
  pub ready : IsReady after
  pub kept : SameMemory s after

module _ {A B : Type 0} {s : State} {run : Run A} {a : A} {events : Trace} where
  pub Does-bind :
      {b : B} {more : Trace} (k : A → State → Run B)
      → Does s run a events
      → ((t : State) → IsReady t → Does t (k a t) b more)
      → Does s (and_then run k) b (more ++ events)
  Does-bind {more} k d next =
      let n = next d.after d.ready in
      record {
        after = n.after;
        runs = rw d.runs n.runs;
        traced = n.traced ∙ rw (d.traced, append_assoc);
        ready = n.ready;
        kept = record {
          caches = n.kept.caches ∙ d.kept.caches;
          clients = n.kept.clients ∙ d.kept.clients;
          credential_cache = n.kept.credential_cache ∙ d.kept.credential_cache;
        };
      }

module _ {A B : Type 0} {s : State} {run : Run A} {a : A} where
  -- The first run only looks up classes or makes objects.
  pub Does-quiet :
      {b : B} {more : Trace} (k : A → State → Run B)
      → Does s run a []
      → ((t : State) → IsReady t → Does t (k a t) b more)
      → Does s (and_then run k) b more
  Does-quiet k d next =
      let n = next d.after d.ready in
      record {
        after = n.after;
        runs = rw d.runs n.runs;
        traced = n.traced ∙ rw d.traced;
        ready = n.ready;
        kept = record {
          caches = n.kept.caches ∙ d.kept.caches;
          clients = n.kept.clients ∙ d.kept.clients;
          credential_cache = n.kept.credential_cache ∙ d.kept.credential_cache;
        };
      }

module _ {A : Type 0} {s : State} where
  -- A run that has returned.
  pub Does-ok :
      {t : State} {events : Trace} (a : A)
      → IsReady t
      → essential t.trace ≡ events ++ essential s.trace
      → SameMemory s t
      → Does s (ok a t) a events
  Does-ok {t} a h e m = record { after = t; runs = refl; traced = e; ready = h; kept = m }

  -- A run that has returned, with new events and another error number at most.
  pub Does-trace :
      {t : Trace} {e : ℤ} {events : Trace} (a : A)
      → IsReady s
      → essential t ≡ events ++ essential s.trace
      → Does s (ok a (record s { trace = t; errno = e })) a events
  Does-trace a h e =
      Does-ok a (record { cached = h.cached; classes = h.classes; methods = h.methods }) e
        (record { caches = refl; clients = refl; credential_cache = refl })

  -- A run that only returns.
  pub Does-pure : (a : A) → IsReady s → Does s (ok a s) a []
  Does-pure a h = record {
    after = s;
    runs = refl;
    traced = refl;
    ready = h;
    kept = record { caches = refl; clients = refl; credential_cache = refl };
  }

  -- The first event, if it is an essential one.
  pub Does-after :
      {t : State} {run : Run A} {a : A} {more : Trace} (events : Trace)
      → Does t run a more
      → essential t.trace ≡ events ++ essential s.trace
      → SameMemory s t
      → Does s run a (more ++ events)
  Does-after events d e m = record {
    after = d.after;
    runs = d.runs;
    traced = d.traced ∙ rw (e, append_assoc);
    ready = d.ready;
    kept = record {
      caches = d.kept.caches ∙ m.caches;
      clients = d.kept.clients ∙ m.clients;
      credential_cache = d.kept.credential_cache ∙ m.credential_cache;
    };
  }
