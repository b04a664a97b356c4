-- ===== src/JniHelper/Tail.antt =====
-- What the path methods of jni_helper/JniHelper.cc do, on every branch, in a healthy JVM over a
-- libsmbclient that sets `errno`.
use my_stest.Base.{
  ℤ, ◌≡◌, refl, true, false, [], ◌∷◌, ◌++◌, is_negative, neg_int, Bool-cases, inl, inr,
  if◌then◌else◌, neg_int-negative, neg_int-neg_int,
}
use my_stest.World.Calls.{JString, Call, Reply, Trace, called, got_chars, released_chars, Env}
use my_stest.World.State.{State, ok, Cmd, and_then, pure, log}
use my_stest.SambaClient.Outcomes.{outcome, answered}
use my_stest.JniHelper.Ready.{
  SetsErrno, still, IsReady, essential, SameMemory, Does, Does-trace, Does-pure, Does-bind,
  Does-after,
}
use my_stest.JniHelper.Throws.{Policy, exception_for, thrown}

-- The exception that follows a call, if it failed.
abbrev pub raised : Policy → Reply → Trace
raised p r = if is_negative r.result then thrown (exception_for p r.error) ∷ [] else []

-- A policy's method throws by the policy.
abbrev pub Follows : Env → Policy → (ℤ → Cmd (Unit {0})) → Type 0
Follows env p fail =
    (err : ℤ) (t : State)
    → IsReady t
    → Does t (fail err env t) tt (thrown (exception_for p err) ∷ [])

-- The events of a method that got the bytes of its path and made one call.
abbrev pub path_events : JString → Call → Reply → Policy → Trace
path_events uri c r p = released_chars uri ∷ (raised p r ++ called c r ∷ got_chars uri true ∷ [])

module _ {env : Env} (sets : SetsErrno env) {t : State} where
  -- The test of a result, and the `switch` behind it.
  pub settle-Does :
      (s : State) (c : Call) (w : ℤ) (p : Policy) (fail : ℤ → Cmd (Unit {0}))
      → Follows env p fail
      → let r = env.reply s.trace c in
        (is_negative r.result ≡ false → is_negative w ≡ false)
        → IsReady t
        → Does t
            ((if is_negative (outcome r w) then fail (neg_int (outcome r w)) else pure tt) env t)
            tt
            (raised p r)
  settle-Does s c w p fail follows fine ready =
      elim (Bool-cases (is_negative (env.reply s.trace c).result)) [
        | inl e ↦
            let small = sets.on_negative s.trace c e in
            rw (e, neg_int-negative _ small) (rw (neg_int-neg_int _ small) (follows _ t ready))
        | inr e ↦ rw (e, fine e) (Does-pure tt ready)
      ]

-- A method from the answer of its call on: the test of the result, then the events `last`.
module _ {env : Env} (sets : SetsErrno env) {s t : State} (got : State) (before last : Trace) where
  pub tail-Does :
      {A : Type 0} (c : Call) (w : ℤ) (p : Policy) (fail : ℤ → Cmd (Unit {0})) (v : A)
      → Follows env p fail
      → let r = env.reply got.trace c in
        (is_negative r.result ≡ false → is_negative w ≡ false)
        → IsReady t
        → essential t.trace ≡ before ++ essential s.trace
        → ((u : Trace) → essential (last ++ u) ≡ last ++ essential u)
        → SameMemory s t
        → Does s
            (and_then
              ((if is_negative (outcome r w) then fail (neg_int (outcome r w)) else pure tt) env t)
              (λ _ u. ok v (record u { trace = last ++ u.trace })))
            v
            ((last ++ raised p r) ++ before)
  tail-Does c w p fail v follows fine ready traced plain kept =
      Does-after before
        (Does-bind {more = last} (λ _ u. ok v (record u { trace = last ++ u.trace }))
          (settle-Does sets got c w p fail follows fine ready)
          (λ u h. Does-trace v h (plain u.trace)))
        traced kept

module _ {env : Env} (sets : SetsErrno env) {s : State} (ready : IsReady s) where
  -- A method that got the bytes of its path and made one call.
  pub path-Does :
      {A : Type 0} (uri : JString) (c : Call) (w : ℤ) (p : Policy) (fail : ℤ → Cmd (Unit {0}))
      (v : A)
      → Follows env p fail
      → let got = log (got_chars uri true) s in
        let r = env.reply got.trace c in
        (is_negative r.result ≡ false → is_negative w ≡ false)
        → Does s
            (and_then
              ((if is_negative (outcome r w) then fail (neg_int (outcome r w)) else pure tt) env
                (answered env got c))
              (λ _ t. ok v (log (released_chars uri) t)))
            v
            (path_events uri c r p)
  path-Does uri c w p fail v follows fine =
      let got = log (got_chars uri true) s in
      tail-Does sets got (called c (env.reply got.trace c) ∷ got_chars uri true ∷ [])
        (released_chars uri ∷ []) c w p fail v follows fine (still ready) refl (λ _. refl)
        (record { caches = refl; clients = refl; credential_cache = refl })
