-- ===== src/World/State.antt =====
-- The memory of the bridge, and commands over it.
use my_stest.Base.{ℕ, ℤ, Bool, true, false, Option, none, some, ◌∷◌, Text, Dict}
use my_stest.Base.{◌==◌, if◌then◌else◌}
use my_stest.World.Calls.{Ptr, Jclass, MethodId, Event, Trace, Env}

-- `struct CredentialTuple`
pub record CredentialTuple : Type 0 where
  pub workgroup : Text
  pub username : Text
  pub password : Text

-- `class CredentialCache`
pub record CredentialCache : Type 0 where
  pub credential_map : Dict CredentialTuple

-- `class SambaClient`
pub record Client : Type 0 where
  pub samba_context : Ptr

-- `class JavaClassCache`: a reference to the class of each name, NULL too.
abbrev pub ClassCache : Type 0
ClassCache = Dict (Option Jclass)

-- The functions that keep a class and a constructor in `static` locals.
pub data Site : Type 0 where
  directory_entry_site file_not_found_site errno_site auth_failed_site struct_stat_site : Site

abbrev pub site_eq : Site → Site → Bool
site_eq directory_entry_site directory_entry_site = true
site_eq file_not_found_site file_not_found_site = true
site_eq errno_site errno_site = true
site_eq auth_failed_site auth_failed_site = true
site_eq struct_stat_site struct_stat_site = true
site_eq _ _ = false

-- A `static` local is unset until its function runs first, and keeps that first value, NULL too.
pub record State : Type 0 where
  pub trace : Trace
  pub errno : ℤ
  pub class_cache : ClassCache
  pub class_statics : Site → Option (Option Jclass)
  pub method_statics : Site → Option (Option MethodId)
  pub caches : Ptr → Option CredentialCache
  pub clients : Ptr → Option Client
  pub credential_cache : Ptr

-- The end of a run: a value; `exit(status)`; or a use of NULL or of a dead object, which C++ and
-- JNI leave undefined.
pub data Run (A : Type 0) : Type 0 where
  ok : A → State → Run A
  exited : ℕ → State → Run A
  fault : Run A

abbrev pub Cmd : Type 0 → Type 0
Cmd A = Env → State → Run A

abbrev pub pure : {A : Type 0} → A → Cmd A
pure a env s = ok a s

module _ {A B : Type 0} where
  abbrev pub and_then : Run A → (A → State → Run B) → Run B
  and_then (ok a s) k = k a s
  and_then (exited n s) k = exited n s
  and_then fault k = fault

  infixl 5 ◌>>=◌ ◌>>◌
  abbrev pub ◌>>=◌ : Cmd A → (A → Cmd B) → Cmd B
  ◌>>=◌ m k env s = and_then (m env s) λ a t. k a env t

  abbrev pub ◌>>◌ : Cmd A → Cmd B → Cmd B
  m >> n = m >>= λ _. n

abbrev pub update {ℓ} : {A : Type ℓ} → (Ptr → A) → Ptr → A → Ptr → A
update f p a q = if q == p then a else f q

-- A use of a pointer that holds no object.
abbrev pub require : {A : Type 0} → Option A → Cmd A
require none env s = fault
require (some a) env s = ok a s

abbrev pub gets : {A : Type 0} → (State → A) → Cmd A
gets f env s = ok (f s) s

abbrev pub modify : (State → State) → Cmd (Unit {0})
modify f env s = ok tt (f s)

abbrev pub log : Event → State → State
log e s = record s { trace = e ∷ s.trace }

abbrev pub emit : Event → Cmd (Unit {0})
emit e = modify (log e)
