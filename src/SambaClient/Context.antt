-- ===== src/SambaClient/Context.antt =====
-- `SambaClient::Init` and the destructor (samba_client/SambaClient.cc). `this` is an address.
use my_stest.Base.{ℕ, Bool, true, false, some, is_code, ◌==◌, if◌then◌else◌}
use my_stest.World.Calls.{
  Ptr, smbc_new_context, smbc_free_context, smbc_set_debug, smbc_set_function_auth_data,
  smbc_set_option_use_kerberos, smbc_set_option_fallback_after_kerberos, smbc_init_context,
  smbc_set_context,
}
use my_stest.World.State.{Client, exited, Cmd, pure, ◌>>=◌, ◌>>◌, update, require, gets, modify}
use my_stest.World.Libc.{call}

unfoldable pub read_client : Ptr → Cmd Client
read_client this = do found ← gets (λ s. s.clients this); require found

-- `sambaContext = context`
unfoldable pub set_samba_context : Ptr → Ptr → Cmd (Unit {0})
unfolding read_client
set_samba_context this context = do
  c ← read_client this
  modify λ s. record s {
    clients = update s.clients this (some (record c { samba_context = context }));
  }

-- `credentialCache_ = cache`
unfoldable pub set_credential_cache : Ptr → Cmd (Unit {0})
set_credential_cache cache = modify λ s. record s { credential_cache = cache }

-- `exit(status)`
unfoldable pub exit : ℕ → Cmd (Unit {0})
exit status env s = exited status s

-- `Init` past the creation of the context.
unfoldable pub init_context : Ptr → Bool → Ptr → Cmd Bool
unfolding set_credential_cache
init_context context debug cache = do
  call (smbc_set_debug context debug)
  call (smbc_set_function_auth_data context)
  call (smbc_set_option_use_kerberos context true)
  call (smbc_set_option_fallback_after_kerberos context true)
  done ← call (smbc_init_context context)
  if done.pointer == 0
      then (do call (smbc_free_context context false); pure false)
      else do call (smbc_set_context context); set_credential_cache cache; pure true

unfoldable pub init : Ptr → Bool → Ptr → Cmd Bool
unfolding init_context set_samba_context
init this debug cache = do
  context ← call smbc_new_context
  set_samba_context this context.pointer
  if context.pointer == 0 then pure false else init_context context.pointer debug cache

-- `~SambaClient`
unfoldable pub destroy : Ptr → Cmd (Unit {0})
unfolding read_client set_samba_context exit
destroy this = do
  c ← read_client this
  if c.samba_context == 0 then set_samba_context this 0 else do
    r ← call (smbc_free_context c.samba_context true)
    if is_code r.result 0 then set_samba_context this 0 else exit 1
