-- ===== src/JniHelper/FileLife.antt =====
-- An open file from openFile to close (jni_helper/JniHelper.cc), by the rules of
-- samba_includes/libsmbclient.h on handles.
use my_stest.Base.{
  HasNoNul, ℕ, ℤ, pos, negsuc, ◌≡◌, refl, ◌∙◌, true, false, some, List, [], ◌∷◌, ◌++◌,
  if◌then◌else◌, is_negative, is_code, arith, Bool-cases, inl, inr, ◌⊎◌, neg_int-negative, bytes,
  Text,
}
use my_stest.World.Calls.{Ptr, JString, Trace, Env, called, got_chars, smbc_open, smbc_close}
use my_stest.World.State.{State, ok}
use my_stest.Libsmbclient.Handles.{Handles, unopened, file, is_file, become, handle_of, handles}
use my_stest.JniHelper.OpenFile.{open_file}
use my_stest.JniHelper.Handles as Methods
use my_stest.JniHelper.Modes.{Access, access, access_flag}
use my_stest.JniHelper.Policies.{open_file_policy}
use my_stest.JniHelper.Ready.{IsHealthy, SetsErrno, IsReady, essential}
use my_stest.JniHelper.Throws.{exception_for, errno_exception}
use my_stest.JniHelper.OpenLaws.{opened_value, opened_events, open_file_lem}
use my_stest.JniHelper.HeaderBounds.{flag_facts}
use my_stest.JniHelper.HandleLife.{
  handles-essential, handles-thrown, handles-Does, call-handles, FileOp, perform_ops, ops-Keeps,
  close-handles,
}

ℤ-cases : (x : ℤ) → ((n : ℕ) × (x ≡ pos n)) ⊎ ((n : ℕ) × (x ≡ negsuc n))
ℤ-cases (pos n) = inl (n, refl)
ℤ-cases (negsuc n) = inr (n, refl)

-- A failure with the handles as they are, or a new handle of a file.
abbrev Opens : Handles → ℤ → Trace → Type 0
Opens h fd t =
    (is_negative fd ≡ true) × (handles t ≡ some h)
    ⊎ (n : ℕ) × (fd ≡ pos n) × (handles t ≡ some (become file (pos n) h))

module _ {env : Env} (healthy : IsHealthy env) (sets : SetsErrno env) (h : Handles) where
  opened-Opens :
      (t : Trace) (uri : Text) (a : Access) (flag : ℤ) (more base : Trace)
      → access_flag a ≡ flag
      → handles (more ++ base) ≡ some h
      → Opens h (opened_value env t uri flag) ((opened_events env t uri flag ++ more) ++ base)
  unfolding handle_of
  opened-Opens t uri a (negsuc n) more base f e =
      inl (refl, handles-thrown (errno_exception (bytes "openFile") (pos 1)) (more ++ base) ∙ e)
  opened-Opens t uri a (pos flag) more base f e =
      let c = smbc_open uri flag 0 in
      let r = env.reply t c in
      let fine = (flag_facts a flag f).0 in
      elim (ℤ-cases r.result) [
        | inl (n, q) ↦
            let fits : is_negative r.result ≡ false = rw q in
            inr (
              n,
              rw fits q,
              rw fits (call-handles c r (more ++ base) h (become file (pos n) h) e (rw (fine, q))),
            )
        | inr (n, q) ↦
            let failed : is_negative r.result ≡ true = rw q in
            inl (
              rw failed (neg_int-negative r.error (sets.on_negative t c failed)),
              rw failed (
                  handles-thrown (exception_for (open_file_policy uri) r.error)
                    (called c r ∷ more ++ base)
                  ∙ call-handles c r (more ++ base) h h e (rw (fine, q))),
            )
      ]

  open_file-Opens :
      (pointer : Ptr) (uri mode : JString) (s : State)
      → HasNoNul mode.chars
      → IsReady s
      → handles s.trace ≡ some h
      → (fd : ℤ) × (begun : State) × (open_file pointer uri mode env s ≡ ok fd begun)
        × IsReady begun
        × Opens h fd begun.trace
  unfolding handles
  open_file-Opens pointer uri mode s plain ready e =
      let d = open_file_lem healthy sets ready pointer uri mode plain in
      let f : handles (essential s.trace) ≡ some h = handles-essential s.trace ∙ e in
      let fd =
        if env.get_string_utf_chars s.trace uri
        then (if env.get_string_utf_chars (got_chars uri true ∷ s.trace) mode
            then opened_value env (got_chars mode true ∷ got_chars uri true ∷ s.trace) uri.chars
                (access_flag (access mode.chars))
            else negsuc 0)
        else negsuc 0 in
      (
        fd,
        d.after,
        d.runs,
        d.ready,
        rw (handles-Does d) (elim (Bool-cases (env.get_string_utf_chars s.trace uri)) [
          | inr x ↦ rw x (inl (refl, f))
          | inl x ↦
              rw x
                (elim (Bool-cases (env.get_string_utf_chars (got_chars uri true ∷ s.trace) mode)) [
                  | inr y ↦ rw y (inl (refl, f))
                  | inl y ↦ rw y (
                      opened-Opens (got_chars mode true ∷ got_chars uri true ∷ s.trace) uri.chars
                        (access mode.chars) (access_flag (access mode.chars))
                        (got_chars mode true ∷ got_chars uri true ∷ []) (essential s.trace) refl f)
                ])
        ]),
      )

-- In a healthy JVM over a libsmbclient that sets `errno`, from a history that kept the rules of
-- libsmbclient.h on handles: `openFile` with a C string as mode returns. If its result is negative,
-- the handles are as before. Else the result is a handle of a file, any sequence of `seek`, `read`
-- and `write` on it and then `close` return too, the rules are kept throughout, and the handles are
-- then those after the opening, without this one if `smbc_close` answered 0.
pub file_life-handles :
    {env : Env}
    → IsHealthy env
    → SetsErrno env
    → (pointer : Ptr) (uri mode : JString) → HasNoNul mode.chars
    → (ops : List FileOp) (s : State) (h : Handles) → IsReady s
    → handles s.trace ≡ some h
    → (fd : ℤ) × (begun : State) × (open_file pointer uri mode env s ≡ ok fd begun)
      × ((is_negative fd ≡ true) × (handles begun.trace ≡ some h)
          ⊎ (done after : State) × (v : Handles) × (is_negative fd ≡ false)
            × (handles begun.trace ≡ some (become file fd h))
            × (perform_ops pointer fd ops env begun ≡ ok tt done)
            × (Methods.close_file pointer fd env done ≡ ok tt after)
            × (handles after.trace ≡ some v)
            × (v ≡ (
                if is_code (env.reply done.trace (smbc_close fd)).result 0
                then become unopened fd (become file fd h)
                else become file fd h)))
file_life-handles {env} healthy sets pointer uri mode plain ops s h ready e =
    let (fd, begun, runs, still, opens) =
      open_file-Opens healthy sets h pointer uri mode s plain ready e in
    (
      fd,
      begun,
      runs,
      elim opens [
        | inl failed ↦ inl failed
        | inr (n, q, there) ↦
            let now = become file fd h in
            let here : handles begun.trace ≡ some now = rw q there in
            let mine : is_file now fd ≡ true = rw q (ground arith) in
            let k = ops-Keeps healthy sets now fd mine pointer ops begun still here in
            let (after, v, closed, handled, is) =
              close-handles healthy sets now fd mine pointer k.after k.ready k.handled in
            inr (k.after, after, v, rw q, here, k.runs, closed, handled, is)
      ],
    )
