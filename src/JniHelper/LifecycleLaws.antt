-- ===== src/JniHelper/LifecycleLaws.antt =====
-- What `nativeInit` and `nativeDestroy` (jni_helper/JniHelper.cc), and the methods of
-- samba_client/SambaClient.cc below them, do with the Samba context.
use my_stest.Base.{
  ℕ, ◌+◌, ◌≡◌, refl, ◌≢◌, true, false, Bool, some, none, [], ◌∷◌, ◌==◌, if◌then◌else◌, arith,
  is_code, ap, ◌∙◌,
}
use my_stest.World.Calls.{
  Ptr, Env, Trace, Event, called, smbc_free_context, smbc_new_context, smbc_init_context,
}
use my_stest.World.State.{State, ok}
use my_stest.World.Libc.{call, new_client, free_client}
use my_stest.JniHelper.Lifecycle.{native_init, native_destroy}

-- How often a context was handed to `smbc_free_context`.
abbrev pub frees_of : Ptr → Event → ℕ
frees_of c (called (smbc_free_context d b) r) = if d == c then 1 else 0
frees_of c _ = 0

abbrev pub frees : Ptr → Trace → ℕ
frees c [] = 0
frees c (e ∷ t) = frees_of c e + frees c t

-- The allocator and libsmbclient give a client and a context, `smbc_init_context` fails, and the
-- context is freed without a shutdown of its connections.
pub record FailsToInit (env : Env) (client context : Ptr) : Type 0 where
  pub client_not_null : client ≢ 0
  pub context_not_null : context ≢ 0
  pub allocates : (t : Trace) → env.new_address t ≡ client
  pub creates : (t : Trace) → (env.reply t smbc_new_context).pointer ≡ context
  pub fails : (t : Trace) → (env.reply t (smbc_init_context context)).pointer ≡ 0
  pub frees_first :
      (t : Trace) → is_code (env.reply t (smbc_free_context context false)).result 0 ≡ true

-- The allocator and libsmbclient give a client and a context, and everything works.
pub record Works (env : Env) (client context : Ptr) : Type 0 where
  pub client_not_null : client ≢ 0
  pub context_not_null : context ≢ 0
  pub allocates : (t : Trace) → env.new_address t ≡ client
  pub creates : (t : Trace) → (env.reply t smbc_new_context).pointer ≡ context
  pub initialises : (t : Trace) → (env.reply t (smbc_init_context context)).pointer ≡ context
  pub frees_well :
      (t : Trace) (b : Bool) → is_code (env.reply t (smbc_free_context context b)).result 0 ≡ true

module _ (env : Env) {client context : Ptr} (works : Works env client context) where
  -- When all calls work, `nativeInit` returns the client's address, the client holds the context,
  -- `credentialCache_` is the given cache, and no context was freed.
  pub native_init_lem :
      (s : State) (debug : Bool) (cache : Ptr)
      → (after : State) × (native_init debug cache env s ≡ ok client after)
        × (after.clients client ≡ some (record { samba_context = context }))
        × (after.credential_cache ≡ cache)
        × (frees context after.trace ≡ frees context s.trace)
  unfolding native_init call new_client free_client
  native_init_lem s debug cache =
      let self : (client == client) ≡ true = ground arith in
      let made : (context == 0) ≡ false = let h = works.context_not_null in ground arith in
      simp (works.allocates, works.creates, works.initialises, works.frees_well, self, made)
        (_, refl, rw self, refl, omega arith)

  -- `nativeDestroy` of a client that holds the context frees the context once and the client's
  -- memory; a null pointer is left alone.
  pub native_destroy_lem :
      (s : State)
      → s.clients client ≡ some (record { samba_context = context })
      → (after : State) × (native_destroy client env s ≡ ok tt after)
        × (after.clients client ≡ none)
        × (frees context after.trace ≡ 1 + frees context s.trace)
        × (native_destroy 0 env s ≡ ok tt s)
  unfolding native_destroy call new_client free_client
  native_destroy_lem s alive =
      let self : (client == client) ≡ true = ground arith in
      let live : (client == 0) ≡ false = let h = works.client_not_null in ground arith in
      let made : (context == 0) ≡ false = let h = works.context_not_null in ground arith in
      simp (works.frees_well, self, live, made, alive) (_, refl, rw self, ground arith, refl)

  -- `nativeInit` and then `nativeDestroy` of what it returned frees the context exactly once.
  native_destroy-native_init :
      (s : State) (debug : Bool) (cache : Ptr)
      → (between after : State) × (native_init debug cache env s ≡ ok client between)
        × (native_destroy client env between ≡ ok tt after)
        × (after.clients client ≡ none)
        × (frees context after.trace ≡ 1 + frees context s.trace)
  native_destroy-native_init s debug cache =
      let (between, init, alive, _, same) = native_init_lem s debug cache in
      let (after, done, gone, freed, _) = native_destroy_lem between alive in
      (between, after, init, done, gone, freed ∙ ap (λ n. 1 + n) same)
