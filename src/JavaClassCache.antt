-- ===== src/JavaClassCache.antt =====
-- `JavaClassCache` (app/src/main/cpp/jni_helper/JavaClassCache.cc) and the `static` locals of
-- JniHelper.cc that hold what it returns.
use my_stest.Base.{Option, none, some, Text, lookup, insert}
use my_stest.World.Calls.{Jclass, MethodId}
use my_stest.World.State.{State, Site, site_eq, Cmd, pure, ◌>>=◌, ◌>>◌, gets, modify}
use my_stest.World.Jni.{find_class, new_global_ref}
use my_stest.Base.{if◌then◌else◌}

abbrev store_class : Text → Option Jclass → State → State
store_class name c s = record s { class_cache = insert name c s.class_cache }

-- `jclass &value = cache_[name]`: a missing entry is made, with NULL.
slot : Text → Cmd (Option Jclass)
slot name = do
  found ← gets (λ s. lookup name s.class_cache)
  elim found [ none ↦ do modify (store_class name none); pure none | some value ↦ pure value ]

-- The assignment through `value` after the class was found.
globalise : Text → Option Jclass → Cmd (Option Jclass)
globalise name none = pure none
globalise name (some local) = do
  global ← new_global_ref local
  modify (store_class name global)
  pure global

fill : Text → Option Jclass → Cmd (Option Jclass)
unfolding globalise
fill name none = do local ← find_class name; globalise name local
fill name (some value) = pure (some value)

unfoldable pub get : Text → Cmd (Option Jclass)
unfolding slot fill
get name = do value ← slot name; fill name value

-- `static const jclass c = init`
unfoldable pub static_class : Site → Cmd (Option Jclass) → Cmd (Option Jclass)
static_class site init = do
  held ← gets (λ s. s.class_statics site)
  elim held [
    | some c ↦ pure c
    | none ↦ do
      c ← init
      modify λ s. record s {
        class_statics = λ i. if site_eq i site then some c else s.class_statics i;
      }
      pure c
  ]

-- `static const jmethodID m = init`
unfoldable pub static_method : Site → Cmd (Option MethodId) → Cmd (Option MethodId)
static_method site init = do
  held ← gets (λ s. s.method_statics site)
  elim held [
    | some m ↦ pure m
    | none ↦ do
      m ← init
      modify λ s. record s {
        method_statics = λ i. if site_eq i site then some m else s.method_statics i;
      }
      pure m
  ]
