-- ===== src/Looper/FileRuns.antt =====
-- SambaFileClient.java on the looper: runs of any number of clients.
use my_stest.Base.{ℕ, pos, ◌<◌, ◌≡◌, refl, ap, ◌∙◌, none, true, ltb, List, [], ◌∷◌, length, arith}
use my_stest.Looper.Values.{value, clear_values, get_int, get_long, get_obj, checked}
use my_stest.Looper.FileClient.{
  SmbFile, FileCall, Result, an_int, a_long, an_object, nothing, what, arg1, fill, result,
  process_message, direct,
}
use my_stest.Looper.ClientLaws.{result-processed}
use my_stest.Looper.Machine.{
  ClientCode, idle, waiting, Machine, finish_call, release, Label, Run, here, then,
}
use my_stest.Looper.Atomic.{resting, Server, Moves}
use my_stest.Looper.Ownership.{update_self}
use my_stest.Looper.Refinement.{IsFaithful, Simulates, Run-Simulates, Match-waiting}
use my_stest.Looper.Progress.{HasObj, IsQueued, Step-IsQueued}

-- No call has been made yet.
abbrev pub initial : {S : Type 0} → S → Machine S FileCall
initial s = record {
  impl = s;
  cells = λ v. clear_values;
  pool = [];
  made = 0;
  queue = [];
  clients = λ c. idle;
}

abbrev pub at_rest : {S : Type 0} → S → Server S FileCall Result
at_rest s = record { state = s; callers = λ c. resting }

module _ {S : Type 0} (file : SmbFile S) (unsupported : ℕ) where
  abbrev pub file_client : ClientCode S FileCall Result
  file_client = record {
    what = what;
    arg1 = arg1;
    fill = fill;
    result = result;
    process = process_message file unsupported;
  }

  file_client-IsFaithful : IsFaithful file_client (direct file)
  file_client-IsFaithful = record {
    result_same = λ k s. (result-processed file unsupported k s).0;
    state_same = λ k s. (result-processed file unsupported k s).1;
  }

  initial-Simulates : (s : S) → Simulates file_client (direct file) (initial s) (at_rest s)
  initial-Simulates s = record {
    owned = record {
      pooled = tt;
      unmade = λ v h. refl;
      held_made = λ c v h. absurd h;
      one_holder = λ c d v h k. absurd h;
      awaited = tt;
    };
    same_state = refl;
    matches = λ c. tt;
  }

  -- In every run of any number of clients of a SmbFile, of the looper and of the pool of values, in
  -- which each `wait` ends by a `notify`: the calls and the returns, with their results and exceptions,
  -- are in the order of a run of a server that does each call of the SmbFile at once and alone, between
  -- its start and its return; and the state behind the looper is that server's.
  pub file_client-Moves :
      (s : S) {labels : List (Label FileCall Result)} {l : Machine S FileCall}
      → Run file_client (initial s) labels l
      → (a : Server S FileCall Result) × Moves (direct file) (at_rest s) labels a
        × (l.impl ≡ a.state)
  file_client-Moves s run =
      let (a, moves, h) =
        Run-Simulates file_client (direct file) file_client-IsFaithful (initial s) (at_rest s)
          (initial-Simulates s) run in
      (a, moves, h.same_state)

  pub Run-IsOwned :
      (s : S) {labels : List (Label FileCall Result)} {l : Machine S FileCall}
      → Run file_client (initial s) labels l
      → (a : Server S FileCall Result) × Simulates file_client (direct file) l a
  Run-IsOwned s run =
      let (a, moves, h) =
        Run-Simulates file_client (direct file) file_client-IsFaithful (initial s) (at_rest s)
          (initial-Simulates s) run in
      (a, h)

  pub Run-IsQueued :
      (s : S) {labels : List (Label FileCall Result)} {l : Machine S FileCall}
      → Run file_client (initial s) labels l
      → IsQueued file_client l
  Run-IsQueued s here = λ d call v e. cc e
  Run-IsQueued s (then labels l label l' run step) =
      Step-IsQueued file_client (Run-IsOwned s run).1.owned (Run-IsQueued s run) step

-- What a client makes of values that the looper has not processed.
abbrev pub unserved : FileCall → Result
unserved (FileCall.read buffer max_len) = an_int max_len
unserved (FileCall.write buffer length) = an_int (pos 0)
unserved (FileCall.seek offset) = a_long offset
unserved FileCall.fstat = an_object none
unserved FileCall.close = nothing

result-fill : (call : FileCall) → result call (fill call clear_values) ≡ value (unserved call)
unfolding result fill get_int get_long get_obj checked
result-fill (FileCall.read buffer max_len) = refl
result-fill (FileCall.write buffer length) = refl
result-fill (FileCall.seek offset) = refl
result-fill FileCall.fstat = refl
result-fill FileCall.close = refl

module _ {S : Type 0} (file : SmbFile S) (unsupported : ℕ) where
  -- After every run of clients of a SmbFile, of the looper and of the pool in which each `wait` has ended
  -- by a `notify`, a client whose `wait` ends without one, before the looper has processed its message: it returns, and throws nothing, for a read the number of bytes that it asked for, for a
  -- write 0, for a seek the offset that it asked for, for a stat null; then its values are clear, and
  -- in the pool if that has fewer than 20, while the message that holds them is still in the queue.
  pub result-unserved :
      (s : S) (c : ℕ) (call : FileCall) (v : ℕ) {labels : List (Label FileCall Result)}
      {l : Machine S FileCall}
      → Run (file_client file unsupported) (initial s) labels l
      → l.clients c ≡ waiting call v
      → (result call (l.cells v) ≡ value (unserved call))
        × HasObj v (finish_call (file_client file unsupported) c v l).queue
        × ((finish_call (file_client file unsupported) c v l).cells v ≡ clear_values)
        × (length l.pool < 20
            → (finish_call (file_client file unsupported) c v l).pool ≡ v ∷ l.pool)
  unfolding finish_call release
  result-unserved s c call v {labels} {l} run waits =
      let (a, h) = Run-IsOwned file unsupported s run in
      let (calls, filled) =
        Match-waiting (file_client file unsupported) (direct file) l.cells call v (a.callers c)
          (rw waits at (h.matches c)) in
      (
        ap (result call) filled ∙ result-fill call,
        Run-IsQueued file unsupported s run c call v waits,
        update_self l.cells v clear_values,
        λ room. let e : ltb (length l.pool) 20 ≡ true = ground arith in rw e,
      )
