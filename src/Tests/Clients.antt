-- ===== src/Tests/Clients.antt =====
-- The theorems on the clients of the looper at concrete inputs.
use my_stest.Base.{ℕ, ◌+◌, ◌<◌, pos, ◌≡◌, refl, none, some, [], ◌∷◌, length}
use my_stest.Looper.Values.{value, clear_values}
use my_stest.Looper.FileClient.{
  SmbFile, FileCall, Result, an_int, what, arg1, fill, result, process_message, direct,
}
use my_stest.Looper.ClientLaws.{processed, result-processed}
use my_stest.Looper.Machine.{
  Message, Machine, waiting, notified, enqueue_call, handle_message, notify, finish_call, Label,
  enqueue, handle, finish, Run, here, then,
}
use my_stest.Looper.Atomic.{Server, Moves}
use my_stest.Looper.Progress.{HasObj}
use my_stest.Looper.FileRuns.{initial, at_rest, file_client, file_client-Moves, result-unserved}
use my_stest.Looper.Liveness.{IsAnswered, file_client-IsAnswered}

-- A file of zeros that counts its calls.
abbrev counting : SmbFile ℕ
counting = record {
  read = λ buffer n s. (value (pos 3), s + 1);
  write = λ buffer n s. (value n, s + 1);
  seek = λ offset s. (value offset, s + 1);
  fstat = λ s. (value none, s + 1);
  close = λ s. (value tt, s + 1);
}

abbrev a_read : FileCall
a_read = FileCall.read (some 9) (pos 5)

result-processed_example :
    (result a_read (processed counting 7 a_read 0).0 ≡ (direct counting a_read 0).0)
    × ((processed counting 7 a_read 0).1 ≡ (direct counting a_read 0).1)
result-processed_example = result-processed counting 7 a_read 0

abbrev asked : Machine ℕ FileCall
asked = enqueue_call (file_client counting 7) 2 a_read (initial 0)

one_call : Run (file_client counting 7) (initial 0) (Label.called 2 a_read ∷ []) asked
one_call = then [] (initial 0) _ _ here (enqueue (initial 0) 2 a_read refl)

asked-waits : asked.clients 2 ≡ waiting a_read 0
unfolding enqueue_call
asked-waits = refl

file_client-IsAnswered_example :
    IsAnswered counting 7 0 2 (Label.called 2 a_read ∷ []) (length asked.queue)
file_client-IsAnswered_example =
    file_client-IsAnswered counting 7 0 2 one_call (λ e. cc (asked-waits, e))

result-unserved_example :
    (result a_read (asked.cells 0) ≡ value (an_int (pos 5)))
    × HasObj 0 (finish_call (file_client counting 7) 2 0 asked).queue
    × ((finish_call (file_client counting 7) 2 0 asked).cells 0 ≡ clear_values)
    × (length asked.pool < 20
        → (finish_call (file_client counting 7) 2 0 asked).pool ≡ 0 ∷ asked.pool)
result-unserved_example = result-unserved counting 7 0 2 a_read 0 one_call asked-waits

abbrev sent : Message
sent = record { what = 1; arg1 = pos 0; obj = 0 }

abbrev told : Machine ℕ FileCall
told =
    notify (file_client counting 7) 2 a_read 0
      (handle_message (file_client counting 7) sent [] asked)

asked-queue : asked.queue ≡ sent ∷ []
unfolding enqueue_call what arg1
asked-queue = refl

told-notified : told.clients 2 ≡ notified a_read 0
unfolding notify
told-notified = refl

told-result : result a_read (told.cells 0) ≡ value (an_int (pos 3))
unfolding result enqueue_call what arg1 fill notify handle_message process_message
told-result = refl

three_steps :
    Run
      (file_client counting 7)
      (initial 0)
      (Label.returned 2 (result a_read (told.cells 0)) ∷ Label.silent ∷ Label.called 2 a_read ∷ [])
      (finish_call (file_client counting 7) 2 0 told)
three_steps =
    then _ told _ _
      (then _ asked _ _ one_call (handle asked sent [] 2 a_read asked-queue asked-waits))
      (finish told 2 a_read 0 told-notified)

file_client-Moves_example :
    (a : Server ℕ FileCall Result) × Moves
      (direct counting)
      (at_rest 0)
      (Label.returned 2 (result a_read (told.cells 0)) ∷ Label.silent ∷ Label.called 2 a_read ∷ [])
      a
    × ((finish_call (file_client counting 7) 2 0 told).impl ≡ a.state)
file_client-Moves_example = file_client-Moves counting 7 0 three_steps
