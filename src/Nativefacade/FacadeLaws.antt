-- ===== src/Nativefacade/FacadeLaws.antt =====
-- Any number of calls of `reset` of NativeSambaFacade.java.
use my_stest.Base.{ℕ, zero, suc, ◌≡◌, ◌∙◌, ap, Bool, true, false, none, some, ◌==◌, arith}
use my_stest.World.Calls.{Ptr, Env}
use my_stest.World.State.{State, Run, ok}
use my_stest.Libsmbclient.Contexts.{is_live, Usage, usage, freed}
use my_stest.Libsmbclient.Turns.{in_turn, in_turn-freed}
use my_stest.JniHelper.LifecycleLaws.{Works}
use my_stest.JniHelper.ContextLaws.{as_phase, native_init-InitDone}
use my_stest.JniHelper.LifetimeLaws.{native_destroy-DestroyDone, usage-free}
use my_stest.Nativefacade.Facade.{reset, resets}

-- The run returns a live client with a live context, and the rules on contexts were kept.
record IsReset (run : Run Ptr) (client c : Ptr) : Type 0 where
  after : State
  runs : run ≡ ok client after
  alive : after.clients client ≡ some (record { samba_context = c })
  kept : Usage
  legal : usage after.trace ≡ some kept
  alone : in_turn after.trace ≡ some (some c)
  live : is_live (kept.phase c) ≡ true

module _ {env : Env} {client c : Ptr} (w : Works env client c) (debug : Bool) (cache : Ptr) where
  first_reset :
      (s : State) (u : Usage)
      → usage s.trace ≡ some u
      → in_turn s.trace ≡ some none
      → IsReset (reset debug cache 0 env s) client c
  unfolding reset
  first_reset s u e none_yet =
      let i = native_init-InitDone env s debug cache w in
      let self : (c == c) ≡ true = ground arith in
      record {
        after = i.after;
        runs = i.runs;
        alive = i.alive;
        kept = _;
        legal = i.legal u e;
        alone = i.alone none_yet;
        live = rw self;
      }

  next_reset :
      (s : State) (u : Usage)
      → s.clients client ≡ some (record { samba_context = c })
      → usage s.trace ≡ some u
      → is_live (u.phase c) ≡ true
      → in_turn s.trace ≡ some (some c)
      → IsReset (reset debug cache client env s) client c
  unfolding reset
  next_reset s u alive e live alone =
      let d = native_destroy-DestroyDone env s w alive in
      let i = native_init-InitDone env d.after debug cache w in
      let made : (client == 0) ≡ false = let h = w.client_not_null in ground arith in
      let self : (c == c) ≡ true = ground arith in
      let used : usage d.after.trace ≡ some (as_phase c freed u) =
        ap usage d.traced ∙ usage-free c client d.freeing s.trace u live d.well e in
      record {
        after = i.after;
        runs = rw (made, d.runs) i.runs;
        alive = i.alive;
        kept = _;
        legal = i.legal (as_phase c freed u) used;
        alone = i.alone (ap in_turn d.traced ∙ in_turn-freed c client true d.freeing s.trace alone);
        live = rw self;
      }

  resets-IsReset :
      (n : ℕ) (s : State) (u : Usage)
      → usage s.trace ≡ some u
      → in_turn s.trace ≡ some none
      → IsReset (resets debug cache (suc n) 0 env s) client c
  unfolding resets
  resets-IsReset zero s u e none_yet = first_reset s u e none_yet
  resets-IsReset (suc n) s u e none_yet =
      let r = resets-IsReset n s u e none_yet in
      let q = next_reset r.after r.kept r.alive r.legal r.live r.alone in
      record {
        after = q.after;
        runs = rw r.runs q.runs;
        alive = q.alive;
        kept = q.kept;
        legal = q.legal;
        alone = q.alone;
        live = q.live;
      }

  -- From a history that kept the rules of libsmbclient.h on contexts and made and freed them in turn,
  -- each before the next, with none left, where all calls on the context work and each object and
  -- context is made at the same address as the one before: any number of calls of `reset`, one at
  -- least, on a facade without a handler all return. The last handler is that of a client that is
  -- alive, with a context that is created and not freed; the whole keeps the rules; and each context
  -- was freed before the next was made, and the last alone is left.
  pub resets-legal :
      (n : ℕ) (s : State) (u : Usage)
      → usage s.trace ≡ some u
      → in_turn s.trace ≡ some none
      → (after : State) × (v : Usage) × (resets debug cache (suc n) 0 env s ≡ ok client after)
        × (after.clients client ≡ some (record { samba_context = c }))
        × (usage after.trace ≡ some v)
        × (is_live (v.phase c) ≡ true)
        × (in_turn after.trace ≡ some (some c))
  resets-legal n s u e none_yet =
      let r = resets-IsReset n s u e none_yet in
      (r.after, r.kept, r.runs, r.alive, r.legal, r.live, r.alone)
