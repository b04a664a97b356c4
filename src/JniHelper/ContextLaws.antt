-- ===== src/JniHelper/ContextLaws.antt =====
-- The native methods (jni_helper/JniHelper.cc) and samba_client/SambaClient.cc below them against the
-- rules of samba_includes/libsmbclient.h on contexts.
use my_stest.Base.{
  ◌≡◌, refl, ◌≢◌, ap, ◌∙◌, Bool, true, false, some, none, ◌∷◌, ◌==◌, arith, is_code, Bool-cases,
  inl, inr, ◌⊎◌,
}
use my_stest.World.Calls.{
  Ptr, Call, Reply, Env, Trace, called, allocated, deleted, smbc_new_context, smbc_free_context,
  smbc_set_debug, smbc_set_function_auth_data, smbc_set_option_use_kerberos,
  smbc_set_option_fallback_after_kerberos, smbc_init_context, smbc_set_context,
}
use my_stest.World.State.{State, Run, ok, exited, update}
use my_stest.World.Libc.{call, new_client, free_client}
use my_stest.Libsmbclient.Contexts.{Phase, created, initialised, freed, Usage, usage, use_of}
use my_stest.Libsmbclient.Turns.{in_turn, in_turn-made}
use my_stest.JniHelper.Ready.{IsReady}
use my_stest.JniHelper.Lifecycle.{native_init}
use my_stest.JniHelper.LifecycleLaws.{FailsToInit, Works}

-- The calls of `Init` up to that of `smbc_init_context`, after the allocation of the client.
abbrev pub setup : Ptr → Ptr → Bool → Reply → Reply → Reply → Reply → Reply → Reply → Trace → Trace
setup client c debug r1 r2 r3 r4 r5 r6 t =
    called (smbc_init_context c) r6
    ∷ called (smbc_set_option_fallback_after_kerberos c true) r5
    ∷ called (smbc_set_option_use_kerberos c true) r4
    ∷ called (smbc_set_function_auth_data c) r3
    ∷ called (smbc_set_debug c debug) r2
    ∷ called smbc_new_context r1
    ∷ allocated client
    ∷ t

pub usage-called :
    (k : Call) (r : Reply) (t : Trace) (u v : Usage)
    → usage t ≡ some u
    → use_of k r u ≡ some v
    → usage (called k r ∷ t) ≡ some v
unfolding usage
usage-called k r t u v e f = rw (e, f)

usage-allocated : (p : Ptr) (t : Trace) → usage (allocated p ∷ t) ≡ usage t
unfolding usage
usage-allocated p t = refl

pub usage-deleted : (p : Ptr) (t : Trace) → usage (deleted p ∷ t) ≡ usage t
unfolding usage
usage-deleted p t = refl

-- The usage in which an address is a context in a phase.
abbrev pub as_phase : Ptr → Phase → Usage → Usage
as_phase c p u = record u { phase = update u.phase c p }

module _ (client c : Ptr) (debug : Bool) (r1 r2 r3 r4 r5 r6 : Reply) (not_null : c ≢ 0)
    (made : r1.pointer ≡ c) (t : Trace) (u : Usage) (e : usage t ≡ some u) where
  -- Up to the setters, the context is created.
  usage-setters :
      usage (
        called (smbc_set_option_fallback_after_kerberos c true) r5
        ∷ called (smbc_set_option_use_kerberos c true) r4
        ∷ called (smbc_set_function_auth_data c) r3
        ∷ called (smbc_set_debug c debug) r2
        ∷ called smbc_new_context r1
        ∷ allocated client
        ∷ t)
      ≡ some (as_phase c created u)
  unfolding use_of
  usage-setters =
      let v = as_phase c created u in
      let self : (c == c) ≡ true = ground arith in
      let live : (c == 0) ≡ false = ground arith in
      usage-called (smbc_set_option_fallback_after_kerberos c true) r5 _ v v
        (usage-called (smbc_set_option_use_kerberos c true) r4 _ v v
          (usage-called (smbc_set_function_auth_data c) r3 _ v v
            (usage-called (smbc_set_debug c debug) r2 _ v v
              (usage-called smbc_new_context r1 (allocated client ∷ t) u v
                (usage-allocated client t ∙ e) (rw (made, live)))
              (rw self))
            (rw self))
          (rw self))
        (rw self)

  usage-setup_failed :
      r6.pointer ≡ 0
      → usage (setup client c debug r1 r2 r3 r4 r5 r6 t) ≡ some (as_phase c created u)
  unfolding use_of
  usage-setup_failed failed =
      let v = as_phase c created u in
      let self : (c == c) ≡ true = ground arith in
      usage-called (smbc_init_context c) r6 _ v v usage-setters (rw (self, failed))

  usage-setup :
      r6.pointer ≡ c
      → usage (setup client c debug r1 r2 r3 r4 r5 r6 t)
        ≡ some (as_phase c initialised (as_phase c created u))
  unfolding use_of
  usage-setup worked =
      let v = as_phase c created u in
      let self : (c == c) ≡ true = ground arith in
      let live : (c == 0) ≡ false = ground arith in
      usage-called (smbc_init_context c) r6 _ v (as_phase c initialised v) usage-setters
        (rw (self, worked, live))

-- The end of a `nativeInit` in which `smbc_init_context` failed: it returns 0, or the second call of
-- `smbc_free_context` ended the process.
record InitFailed (s : State) (run : Run Ptr) (client c : Ptr) (debug : Bool) : Type 0 where
  r1 : Reply
  r2 : Reply
  r3 : Reply
  r4 : Reply
  r5 : Reply
  r6 : Reply
  first : Reply
  second : Reply
  after : State
  runs : (run ≡ ok 0 after) ⊎ (run ≡ exited 1 after)
  used :
      usage after.trace
      ≡ usage (
          called (smbc_free_context c true) second
          ∷ called (smbc_free_context c false) first
          ∷ setup client c debug r1 r2 r3 r4 r5 r6 s.trace)
  made : r1.pointer ≡ c
  failed : r6.pointer ≡ 0
  freed_first : is_code first.result 0 ≡ true

native_init-InitFailed :
    (env : Env) (s : State) (debug : Bool) (cache : Ptr) {client context : Ptr}
    → FailsToInit env client context
    → InitFailed s (native_init debug cache env s) client context debug
unfolding native_init call new_client free_client
native_init-InitFailed env s debug cache {client} {context} f =
    let self : (client == client) ≡ true = ground arith in
    let live : (client == 0) ≡ false = let h = f.client_not_null in ground arith in
    let made : (context == 0) ≡ false = let h = f.context_not_null in ground arith in
    let after_call : Call → Trace → Trace = λ k t. called k (env.reply t k) ∷ t in
    let t = after_call (smbc_free_context context false) (
      after_call (smbc_init_context context) (
        after_call (smbc_set_option_fallback_after_kerberos context true) (
          after_call (smbc_set_option_use_kerberos context true) (
            after_call (smbc_set_function_auth_data context) (
              after_call (smbc_set_debug context debug)
                (after_call smbc_new_context (allocated client ∷ s.trace))))))) in
    elim (Bool-cases (is_code (env.reply t (smbc_free_context context true)).result 0)) [
      | inl e ↦
          simp (f.allocates, f.creates, f.fails, self, live, made, e)
            (record {
              r1 = _;
              r2 = _;
              r3 = _;
              r4 = _;
              r5 = _;
              r6 = _;
              first = _;
              second = _;
              after = _;
              runs = inl refl;
              used = usage-deleted client _;
              made = f.creates _;
              failed = f.fails _;
              freed_first = f.frees_first _;
            })
      | inr e ↦
          simp (f.allocates, f.creates, f.fails, self, live, made, e)
            (record {
              r1 = _;
              r2 = _;
              r3 = _;
              r4 = _;
              r5 = _;
              r6 = _;
              first = _;
              second = _;
              after = _;
              runs = inr refl;
              used = refl;
              made = f.creates _;
              failed = f.fails _;
              freed_first = f.frees_first _;
            })
    ]

usage-breach :
    (k : Call) (r : Reply) (t : Trace) (u : Usage)
    → usage t ≡ some u
    → use_of k r u ≡ none
    → usage (called k r ∷ t) ≡ none
unfolding usage
usage-breach k r t u e f = rw (e, f)

-- From a history that kept the rules of libsmbclient.h on contexts, when the allocator gives an
-- object and `smbc_new_context` a context, `smbc_init_context` fails, and `smbc_free_context` without shutdown frees that context with
-- the answer 0: whatever the destructor's call of `smbc_free_context` answers, `nativeInit` returns 0
-- or exits the process with status 1, and has broken the rules: the context that `Init` freed is
-- handed to `smbc_free_context` again.
pub native_init-usage_breach :
    (env : Env) (s : State) (debug : Bool) (cache : Ptr) {client context : Ptr} {u : Usage}
    → FailsToInit env client context
    → usage s.trace ≡ some u
    → (after : State) × ((native_init debug cache env s ≡ ok 0 after)
        ⊎ (native_init debug cache env s ≡ exited 1 after))
      × (usage after.trace ≡ none)
unfolding use_of
native_init-usage_breach env s debug cache {client} {context = c} {u} f e =
    let i = native_init-InitFailed env s debug cache f in
    let self : (c == c) ≡ true = ground arith in
    let v = as_phase c created u in
    let t = setup client c debug i.r1 i.r2 i.r3 i.r4 i.r5 i.r6 s.trace in
    let set_up : usage t ≡ some v =
      usage-setup_failed client c debug i.r1 i.r2 i.r3 i.r4 i.r5 i.r6 f.context_not_null i.made
        s.trace u e i.failed in
    let first = called (smbc_free_context c false) i.first ∷ t in
    let once : usage first ≡ some (as_phase c freed v) =
      usage-called (smbc_free_context c false) i.first t v (as_phase c freed v) set_up
        (rw (self, i.freed_first)) in
    (
      i.after,
      i.runs,
      i.used
          ∙ usage-breach (smbc_free_context c true) i.second first (as_phase c freed v) once
              (rw self),
    )

-- The end of a `nativeInit` in which all calls worked.
pub record InitDone (s : State) (run : Run Ptr) (client c cache : Ptr) : Type 0 where
  pub after : State
  pub runs : run ≡ ok client after
  pub alive : after.clients client ≡ some (record { samba_context = c })
  pub points : after.credential_cache ≡ cache
  pub ready : IsReady s → IsReady after
  pub legal :
      (u : Usage)
      → usage s.trace ≡ some u
      → usage after.trace
        ≡ some (record (as_phase c initialised (as_phase c created u)) { current = c })
  pub alone : in_turn s.trace ≡ some none → in_turn after.trace ≡ some (some c)

in_turn-setup :
    (client c : Ptr) (debug : Bool) (r1 r2 r3 r4 r5 r6 r7 : Reply) (t : Trace)
    → r1.pointer ≡ c
    → in_turn t ≡ some none
    → in_turn (called (smbc_set_context c) r7 ∷ setup client c debug r1 r2 r3 r4 r5 r6 t)
      ≡ some (some c)
unfolding in_turn
in_turn-setup client c debug r1 r2 r3 r4 r5 r6 r7 t made e =
    in_turn-made r1 (allocated client ∷ t) e ∙ ap (λ p. some (some p)) made

usage-set_context :
    (c : Ptr) (r : Reply) (t : Trace) (u : Usage)
    → usage t ≡ some (as_phase c initialised u)
    → usage (called (smbc_set_context c) r ∷ t)
      ≡ some (record (as_phase c initialised u) { current = c })
unfolding use_of
usage-set_context c r t u e =
    let self : (c == c) ≡ true = ground arith in
    usage-called (smbc_set_context c) r t (as_phase c initialised u) _ e
      (elim (Bool-cases (c == 0)) [ inl z ↦ rw z | inr z ↦ rw (z, self) ])

pub native_init-InitDone :
    (env : Env) (s : State) (debug : Bool) (cache : Ptr) {client context : Ptr}
    → Works env client context
    → InitDone s (native_init debug cache env s) client context cache
unfolding native_init call new_client free_client
native_init-InitDone env s debug cache {client} {context = c} w =
    let self : (client == client) ≡ true = ground arith in
    let made : (c == 0) ≡ false = let h = w.context_not_null in ground arith in
    simp (w.allocates, w.creates, w.initialises, self, made)
      (record {
        after = _;
        runs = refl;
        alive = rw self;
        points = refl;
        ready = λ h. record { cached = h.cached; classes = h.classes; methods = h.methods };
        legal = λ u e. usage-set_context c _ _ (as_phase c created u) (
            usage-setup client c debug _ _ _ _ _ _ w.context_not_null (w.creates _) s.trace u e
              (w.initialises _));
        alone = λ e. in_turn-setup client c debug _ _ _ _ _ _ _ s.trace (w.creates _) e;
      })
