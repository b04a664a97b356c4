-- ===== src/JniHelper/LifetimeLaws.antt =====
-- The life of a client: `nativeInit`, any calls on files, `nativeDestroy` (jni_helper/JniHelper.cc).
use my_stest.Base.{
  ◌≡◌, refl, ◌∙◌, ap, Bool, true, false, some, none, List, ◌∷◌, ◌==◌, arith, is_code,
}
use my_stest.World.Calls.{Ptr, Env, Reply, Trace, called, deleted, smbc_free_context}
use my_stest.World.State.{State, Run, ok}
use my_stest.World.Libc.{call, free_client}
use my_stest.Libsmbclient.Contexts.{initialised, created, freed, is_live, Usage, usage, use_of}
use my_stest.JniHelper.Ready.{IsHealthy, SetsErrno, IsReady}
use my_stest.JniHelper.Lifecycle.{native_init, native_destroy}
use my_stest.JniHelper.LifecycleLaws.{Works}
use my_stest.JniHelper.Balance.{Balanced}
use my_stest.JniHelper.Session.{Request, AreGiven, perform_all}
use my_stest.JniHelper.SessionLaws.{perform_all-Settles}
use my_stest.JniHelper.ContextLaws.{as_phase, usage-called, usage-deleted, native_init-InitDone}

pub record DestroyDone (s : State) (run : Run (Unit {0})) (client c : Ptr) : Type 0 where
  pub after : State
  pub runs : run ≡ ok tt after
  pub gone : after.clients client ≡ none
  pub freeing : Reply
  pub traced : after.trace ≡ deleted client ∷ called (smbc_free_context c true) freeing ∷ s.trace
  pub well : is_code freeing.result 0 ≡ true

pub native_destroy-DestroyDone :
    (env : Env) (s : State) {client context : Ptr}
    → Works env client context
    → s.clients client ≡ some (record { samba_context = context })
    → DestroyDone s (native_destroy client env s) client context
unfolding native_destroy call free_client
native_destroy-DestroyDone env s {client} {context} w alive =
    let self : (client == client) ≡ true = ground arith in
    let live : (client == 0) ≡ false = let h = w.client_not_null in ground arith in
    let made : (context == 0) ≡ false = let h = w.context_not_null in ground arith in
    simp (w.frees_well, live, made, alive)
      (record {
        after = _;
        runs = refl;
        gone = rw self;
        freeing = _;
        traced = refl;
        well = w.frees_well _ _;
      })

pub usage-free :
    (c client : Ptr) (r : Reply) (t : Trace) (u : Usage)
    → is_live (u.phase c) ≡ true
    → is_code r.result 0 ≡ true
    → usage t ≡ some u
    → usage (deleted client ∷ called (smbc_free_context c true) r ∷ t) ≡ some (as_phase c freed u)
unfolding use_of
usage-free c client r t u live well e =
    usage-deleted client (called (smbc_free_context c true) r ∷ t)
    ∙ usage-called (smbc_free_context c true) r t u (as_phase c freed u) e (rw (live, well))

-- From a history that kept the rules of libsmbclient.h on contexts, in a healthy JVM, where all
-- calls on the context work and libsmbclient sets `errno`: `nativeInit`, any sequence of methods on
-- paths and descriptors with C strings as modes, and `nativeDestroy` all return. The whole keeps the
-- rules, ends with the context freed and the client gone, and each string that the methods between
-- got was released as often.
pub lifetime-legal :
    {env : Env} (s : State) (debug : Bool) (cache : Ptr) {client context : Ptr} {u : Usage}
    → Works env client context
    → IsHealthy env
    → SetsErrno env
    → IsReady s
    → usage s.trace ≡ some u
    → (qs : List Request) → AreGiven qs
    → (begun done after : State) × (v : Usage) × (native_init debug cache env s ≡ ok client begun)
      × (perform_all qs env begun ≡ ok tt done)
      × (native_destroy client env done ≡ ok tt after)
      × (after.clients client ≡ none)
      × Balanced begun done
      × (usage after.trace ≡ some v)
      × (v.phase context ≡ freed)
lifetime-legal {env} s debug cache {client} {context = c} {u} w healthy sets ready e qs given =
    let i = native_init-InitDone env s debug cache w in
    let n = perform_all-Settles healthy sets qs i.after (i.ready ready) given in
    let self : (c == c) ≡ true = ground arith in
    let v : Usage = record (as_phase c initialised (as_phase c created u)) { current = c } in
    let used : usage n.after.trace ≡ some v = n.legal v (rw self) (i.legal u e) in
    let d =
      native_destroy-DestroyDone env n.after w (ap (λ f. f client) n.kept.clients ∙ i.alive) in
    (
      i.after,
      n.after,
      d.after,
      as_phase c freed v,
      i.runs,
      n.runs,
      d.runs,
      d.gone,
      n.balanced,
      ap usage d.traced ∙ usage-free c client d.freeing n.after.trace v (rw self) d.well used,
      rw self,
    )
