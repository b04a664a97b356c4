-- ===== src/Looper/Atomic.antt =====
-- What the looper promises: each call takes effect at one moment between its start and its end, one
-- call at a time.
use my_stest.Base.{ℕ, ◌≡◌, List, [], ◌∷◌}
use my_stest.Looper.Values.{Ended}
use my_stest.Looper.Machine.{update, Label, called, returned, silent}

pub data Status (Call Result : Type 0) : Type 0 where
  resting : Status Call Result
  calling : Call → Status Call Result
  answered : Ended Result → Status Call Result

pub record Server (S Call Result : Type 0) : Type 0 where
  pub state : S
  pub callers : ℕ → Status Call Result

module _ {S Call Result : Type 0} (direct : Call → S → Ended Result × S) where
  pub data Move : Server S Call Result → Label Call Result → Server S Call Result → Type 0 where
    call :
        (a : Server S Call Result) (c : ℕ) (k : Call)
        → a.callers c ≡ resting
        → Move a (called c k) (record a { callers = update a.callers c (calling k) })
    serve :
        (a : Server S Call Result) (c : ℕ) (k : Call)
        → a.callers c ≡ calling k
        → Move a silent (record {
          state = (direct k a.state).1;
          callers = update a.callers c (answered (direct k a.state).0);
        })
    answer :
        (a : Server S Call Result) (c : ℕ) (r : Ended Result)
        → a.callers c ≡ answered r
        → Move a (returned c r) (record a { callers = update a.callers c resting })

  pub data Moves (start : Server S Call Result)
      : List (Label Call Result) → Server S Call Result → Type 0 where
    here : Moves start [] start
    then :
        (labels : List (Label Call Result)) (a : Server S Call Result) (label : Label Call Result)
        (a' : Server S Call Result)
        → Moves start labels a
        → Move a label a'
        → Moves start (label ∷ labels) a'
