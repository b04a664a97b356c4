-- ===== src/Looper/Machine.antt =====
-- The clients, the pool of values and the queue of the looper: BaseClient.java and MessageValues.java.
use my_stest.Base.{ℕ, suc, ℤ, ◌≡◌, ◌≢◌, ltb, ◌==◌, if◌then◌else◌, List, [], ◌∷◌, ◌++◌, length}
use my_stest.Looper.Values.{Ended, MessageValues, clear_values}

-- The code of a client and of its handler, for the calls of one interface: the `what` and `arg1` of a
-- call's message, the values with its arguments, what is returned of the values, `processMessage`.
pub record ClientCode (S Call Result : Type 0) : Type 0 where
  pub what : Call → ℕ
  pub arg1 : Call → ℤ
  pub fill : Call → MessageValues → MessageValues
  pub result : Call → MessageValues → Ended Result
  pub process : ℕ → ℤ → MessageValues → S → MessageValues × S

pub record Message : Type 0 where
  pub what : ℕ
  pub arg1 : ℤ
  pub obj : ℕ

-- Where the thread of a client is: in no call; in `wait`, on values; behind it, notified.
pub data Phase (Call : Type 0) : Type 0 where
  idle : Phase Call
  waiting notified : Call → ℕ → Phase Call

-- All objects MessageValues, those of the pool, how many were made, the queue of the looper's thread,
-- the clients' threads, and the state behind the interface.
pub record Machine (S Call : Type 0) : Type 0 where
  pub impl : S
  pub cells : ℕ → MessageValues
  pub pool : List ℕ
  pub made : ℕ
  pub queue : List Message
  pub clients : ℕ → Phase Call

abbrev pub update : {A : Type 0} → (ℕ → A) → ℕ → A → ℕ → A
update f i a j = if i == j then a else f j

-- `POOL.acquire()`, or else a new object: the object, the pool left, the number of objects made.
unfoldable pub obtain : List ℕ → ℕ → ℕ × List ℕ × ℕ
obtain [] made = (made, [], suc made)
obtain (v ∷ pool) made = (v, pool, made)

-- `POOL.release`, of a pool of 20.
unfoldable pub release : ℕ → List ℕ → List ℕ
release v pool = if ltb (length pool) 20 then v ∷ pool else pool

module _ {S Call Result : Type 0} (code : ClientCode S Call Result) where
  -- A call up to the `wait` in `enqueue`, from where on the looper can take the message, with values
  -- that were obtained.
  unfoldable pub enqueue_with : ℕ → List ℕ → ℕ → ℕ → Call → Machine S Call → Machine S Call
  enqueue_with v pool made c call l = record l {
    cells = update l.cells v (code.fill call (l.cells v));
    pool = pool;
    made = made;
    queue = l.queue ++ record { what = code.what call; arg1 = code.arg1 call; obj = v } ∷ [];
    clients = update l.clients c (waiting call v);
  }

  unfoldable pub enqueue_call : ℕ → Call → Machine S Call → Machine S Call
  unfolding obtain enqueue_with
  enqueue_call c call l =
      let (v, pool, made) = obtain l.pool l.made in enqueue_with v pool made c call l

  -- `handleMessage` up to the `notify`.
  unfoldable pub handle_message : Message → List Message → Machine S Call → Machine S Call
  handle_message m rest l =
      let (w, t) = code.process m.what m.arg1 (l.cells m.obj) l.impl in
      record l { impl = t; cells = update l.cells m.obj w; queue = rest }

  -- The `notify` for a client that waits.
  unfoldable pub notify : ℕ → Call → ℕ → Machine S Call → Machine S Call
  notify c call v l = record l { clients = update l.clients c (notified call v) }

  -- The end of the call: the result is read, and `close` clears the values and gives them back.
  unfoldable pub finish_call : ℕ → ℕ → Machine S Call → Machine S Call
  unfolding release
  finish_call c v l = record l {
    cells = update l.cells v clear_values;
    pool = release v l.pool;
    clients = update l.clients c idle;
  }

pub data Label (Call Result : Type 0) : Type 0 where
  called : ℕ → Call → Label Call Result
  returned : ℕ → Ended Result → Label Call Result
  silent : Label Call Result

-- The steps of the threads when no `wait` ends without a `notify`.
pub data Step {S Call Result : Type 0} (code : ClientCode S Call Result)
    : Machine S Call → Label Call Result → Machine S Call → Type 0 where
  enqueue :
      (l : Machine S Call) (c : ℕ) (call : Call)
      → l.clients c ≡ idle
      → Step code l (called c call) (enqueue_call code c call l)
  handle :
      (l : Machine S Call) (m : Message) (rest : List Message) (c : ℕ) (call : Call)
      → l.queue ≡ m ∷ rest
      → l.clients c ≡ waiting call m.obj
      → Step code l silent (notify code c call m.obj (handle_message code m rest l))
  unheard :
      (l : Machine S Call) (m : Message) (rest : List Message)
      → l.queue ≡ m ∷ rest
      → ((c : ℕ) (call : Call) → l.clients c ≢ waiting call m.obj)
      → Step code l silent (handle_message code m rest l)
  finish :
      (l : Machine S Call) (c : ℕ) (call : Call) (v : ℕ)
      → l.clients c ≡ notified call v
      → Step code l (returned c (code.result call (l.cells v))) (finish_call code c v l)

-- Any number of steps, with their labels in order.
pub data Run {S Call Result : Type 0} (code : ClientCode S Call Result) (start : Machine S Call)
    : List (Label Call Result) → Machine S Call → Type 0 where
  here : Run code start [] start
  then :
      (labels : List (Label Call Result)) (l : Machine S Call) (label : Label Call Result)
      (l' : Machine S Call)
      → Run code start labels l
      → Step code l label l'
      → Run code start (label ∷ labels) l'
