-- ===== src/Tests/Lifetime.antt =====
-- The theorems on the life of a client and of an open file, and on the exported functions, at concrete
-- inputs.
use my_stest.Base.{
  ℤ, pos, ◌≡◌, refl, ◌⊎◌, if◌then◌else◌, is_negative, is_code, false, true, some, none, List, [],
  ◌∷◌, arith, bytes,
}
use my_stest.World.Calls.{JString, smbc_close}
use my_stest.World.State.{State, ok, exited}
use my_stest.Libsmbclient.Contexts.{freed, Usage, unused, usage}
use my_stest.JniHelper.Lifecycle.{native_init, native_destroy}
use my_stest.JniHelper.Balance.{Balanced}
use my_stest.JniHelper.Session.{Request, open_dir, read_dir, close_dir, perform_all}
use my_stest.JniHelper.ContextLaws.{native_init-usage_breach}
use my_stest.Libsmbclient.Handles.{Handles, unopened, file, become, handles}
use my_stest.JniHelper.OpenFile.{open_file}
use my_stest.JniHelper.Handles.{close_file}
use my_stest.JniHelper.HandleLife.{FileOp, seek_to, read_into, write_from, perform_ops}
use my_stest.JniHelper.FileLife.{file_life-handles}
use my_stest.JniHelper.LifetimeLaws.{lifetime-legal}
use my_stest.JniHelper.Exports.{jint, facade_open_file, invoke}
use my_stest.JniHelper.ExportLaws.{Fits, Answers, invoke-Answers}
use my_stest.Tests.Setting.{
  success, no_init, serving, serving-IsHealthy, working-SetsErrno, no_init-FailsToInit,
  success-Works, start, start-IsReady, jstring,
}

pub start_usage : usage start.trace ≡ some unused
unfolding usage
start_usage = refl

native_init-usage_breach_example :
    (after : State) × ((native_init true 4 (serving no_init) start ≡ ok 0 after)
      ⊎ (native_init true 4 (serving no_init) start ≡ exited 1 after))
    × (usage after.trace ≡ none)
native_init-usage_breach_example =
    native_init-usage_breach (serving no_init) start true 4 no_init-FailsToInit start_usage

abbrev uri : JString
uri = jstring 1 (bytes "smb://h/s/")

abbrev mode : JString
mode = jstring 2 (b'r' ∷ b'w' ∷ [])

abbrev listing : List Request
listing = open_dir 3 uri ∷ read_dir 3 (pos 0) ∷ close_dir 3 (pos 0) ∷ []

lifetime-legal_example :
    (begun done after : State) × (v : Usage) × (native_init true 4 (serving success) start
      ≡ ok 3 begun)
    × (perform_all listing (serving success) begun ≡ ok tt done)
    × (native_destroy 3 (serving success) done ≡ ok tt after)
    × (after.clients 3 ≡ none)
    × Balanced begun done
    × (usage after.trace ≡ some v)
    × (v.phase 9 ≡ freed)
lifetime-legal_example =
    lifetime-legal start true 4 success-Works (serving-IsHealthy success) working-SetsErrno
      start-IsReady start_usage listing (tt, (tt, (tt, tt)))

success-Fits : Fits (serving success)
success-Fits = record {
  results = λ _ _. omega arith;
  errors = λ _ _. omega arith;
  addresses = λ _. omega arith;
}

invoke-Answers_example :
    Answers jint (invoke facade_open_file (pos 3, (uri, (mode, tt))) (serving success) start)
invoke-Answers_example =
    invoke-Answers (serving-IsHealthy success) working-SetsErrno success-Fits success-Works
      facade_open_file (pos 3, (uri, (mode, tt))) start start-IsReady (omega arith)

start_handles : handles start.trace ≡ some (λ _. unopened)
unfolding handles
start_handles = refl

abbrev ops : List FileOp
ops = seek_to (pos 10) ∷ read_into 7 (pos 100) ∷ write_from 7 (pos 100) ∷ []

file_life-handles_example :
    let env = serving success in
    let h : Handles = λ _. unopened in
    (fd : ℤ) × (begun : State) × (open_file 3 uri mode env start ≡ ok fd begun)
    × ((is_negative fd ≡ true) × (handles begun.trace ≡ some h)
        ⊎ (done after : State) × (v : Handles) × (is_negative fd ≡ false)
          × (handles begun.trace ≡ some (become file fd h))
          × (perform_ops 3 fd ops env begun ≡ ok tt done)
          × (close_file 3 fd env done ≡ ok tt after)
          × (handles after.trace ≡ some v)
          × (v ≡ (
              if is_code (env.reply done.trace (smbc_close fd)).result 0
              then become unopened fd (become file fd h)
              else become file fd h)))
file_life-handles_example =
    file_life-handles (serving-IsHealthy success) working-SetsErrno 3 uri mode (omega arith) ops
      start (λ _. unopened) start-IsReady start_handles
