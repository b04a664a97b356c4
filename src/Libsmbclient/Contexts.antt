-- ===== src/Libsmbclient/Contexts.antt =====
-- How libsmbclient.h asks its callers to use contexts, as a monitor of the calls: a state that each
-- call moves on, or a breach.
use my_stest.Base.{
  ℕ, ◌+◌, ◌≡◌, refl, ◌++◌, arith, Bool, true, false, Option, none, some, [], ◌∷◌, ◌||◌, ◌&&◌, ◌==◌,
  if◌then◌else◌, is_code,
}
use my_stest.World.Calls.{
  Ptr, Call, Reply, Event, Trace, called, smbc_new_context, smbc_free_context, smbc_set_debug,
  smbc_set_function_auth_data, smbc_set_option_use_kerberos,
  smbc_set_option_fallback_after_kerberos, smbc_init_context, smbc_set_context, setenv,
}
use my_stest.World.State.{update}
use my_stest.World.Libc.{enoent}
use my_stest.Libsmbclient.Errors.{ebadf, enomem, ebusy, one_of}

-- A context, or NULL with ENOMEM.
unfoldable pub new_context_allows : Reply → Bool
new_context_allows r = if r.pointer == 0 then one_of (enomem ∷ []) r.error else true

-- The given context, or NULL with EBADF for NULL, with ENOMEM or with ENOENT.
unfoldable pub init_context_allows : Ptr → Reply → Bool
init_context_allows c r =
    if r.pointer == 0
    then (c == 0 && one_of (ebadf ∷ []) r.error) || one_of (enomem ∷ enoent ∷ []) r.error
    else r.pointer == c

-- 0, or 1 with EBUSY, or with EBADF for NULL.
unfoldable pub free_context_allows : Ptr → Reply → Bool
free_context_allows c r =
    is_code r.result 0
    || (is_code r.result 1
        && (one_of (ebusy ∷ []) r.error || (c == 0 && one_of (ebadf ∷ []) r.error)))

-- What has become of an address as a context.
pub data Phase : Type 0 where
  unknown created initialised freed : Phase

abbrev pub is_live : Phase → Bool
is_live unknown = false
is_live created = true
is_live initialised = true
is_live freed = false

abbrev pub is_created : Phase → Bool
is_created created = true
is_created _ = false

abbrev pub is_initialised : Phase → Bool
is_initialised initialised = true
is_initialised _ = false

-- The contexts, and the one that the calls without a context argument use.
pub record Usage : Type 0 where
  pub phase : Ptr → Phase
  pub current : Ptr

abbrev pub unused : Usage
unused = record { phase = λ _. unknown; current = 0 }

unfoldable pub new_context_rule : Reply → Usage → Option Usage
new_context_rule r u =
    some (if r.pointer == 0 then u else record u { phase = update u.phase r.pointer created })

-- Only a context obtained from `smbc_new_context` is freed, and once.
unfoldable pub free_context_rule : Ptr → Reply → Usage → Option Usage
free_context_rule c r u =
    if is_live (u.phase c)
    then some (if is_code r.result 0 then record u { phase = update u.phase c freed } else u)
    else none

-- The setters want a context.
unfoldable pub option_rule : Ptr → Usage → Option Usage
option_rule c u = if is_live (u.phase c) then some u else none

unfoldable pub init_context_rule : Ptr → Reply → Usage → Option Usage
init_context_rule c r u =
    if is_created (u.phase c)
    then some (if r.pointer == 0 then u else record u { phase = update u.phase c initialised })
    else none

-- NULL, or an initialised context.
unfoldable pub set_context_rule : Ptr → Usage → Option Usage
set_context_rule c u =
    if c == 0 || is_initialised (u.phase c) then some (record u { current = c }) else none

-- A call on files wants an initialised context in use.
unfoldable pub file_rule : Usage → Option Usage
file_rule u = if is_initialised (u.phase u.current) then some u else none

unfoldable pub use_of : Call → Reply → Usage → Option Usage
unfolding new_context_rule free_context_rule option_rule init_context_rule set_context_rule
    file_rule
use_of smbc_new_context r u = new_context_rule r u
use_of (smbc_free_context c shutdown) r u = free_context_rule c r u
use_of (smbc_set_debug c debug) r u = option_rule c u
use_of (smbc_set_function_auth_data c) r u = option_rule c u
use_of (smbc_set_option_use_kerberos c b) r u = option_rule c u
use_of (smbc_set_option_fallback_after_kerberos c b) r u = option_rule c u
use_of (smbc_init_context c) r u = init_context_rule c r u
use_of (smbc_set_context c) r u = set_context_rule c u
use_of (setenv name value overwrite) r u = some u
use_of _ r u = file_rule u

-- The use of libsmbclient in a history; `none` after a breach.
unfoldable pub usage : Trace → Option Usage
unfolding use_of
usage [] = some unused
usage (called c r ∷ t) = elim (usage t) [ none ↦ none | some u ↦ use_of c r u ]
usage (e ∷ t) = usage t

-- The calls that take a context.
abbrev pub context_call : Call → ℕ
context_call smbc_new_context = 1
context_call (smbc_free_context c shutdown) = 1
context_call (smbc_set_debug c debug) = 1
context_call (smbc_set_function_auth_data c) = 1
context_call (smbc_set_option_use_kerberos c b) = 1
context_call (smbc_set_option_fallback_after_kerberos c b) = 1
context_call (smbc_init_context c) = 1
context_call (smbc_set_context c) = 1
context_call _ = 0

abbrev context_event : Event → ℕ
context_event (called c r) = context_call c
context_event _ = 0

abbrev pub context_calls : Trace → ℕ
context_calls [] = 0
context_calls (e ∷ t) = context_event e + context_calls t

-- Any other call is within the rules while an initialised context is in use, and changes nothing.
use_of-file :
    (k : Call) (r : Reply) (u : Usage)
    → is_initialised (u.phase u.current) ≡ true
    → context_call k ≡ 0
    → use_of k r u ≡ some u
unfolding use_of
use_of-file (setenv name value overwrite) r u h e = refl
use_of-file _ r u h e = ground arith

pub usage-append :
    (events t : Trace) (u : Usage)
    → is_initialised (u.phase u.current) ≡ true
    → context_calls events ≡ 0
    → usage t ≡ some u
    → usage (events ++ t) ≡ some u
unfolding usage
usage-append [] t u h e q = q
usage-append (called k r ∷ events) t u h e q =
    rw (usage-append events t u h (omega arith) q) (use_of-file k r u h (omega arith))
usage-append (_ ∷ events) t u h e q = usage-append events t u h (omega arith) q
