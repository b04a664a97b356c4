-- ===== src/Looper/Liveness.antt =====
-- Each call on the looper comes to its end: BaseClient.java and SambaFileClient.java.
use my_stest.Base.{
  ℕ, zero, suc, ◌≤◌, ◌≡◌, ◌≢◌, refl, sym, ap, ◌∙◌, inl, inr, List, [], ◌∷◌, length, arith,
}
use my_stest.Looper.Values.{Ended}
use my_stest.Looper.FileClient.{SmbFile, FileCall, Result}
use my_stest.Looper.Machine.{
  Message, Phase, idle, waiting, notified, Machine, handle_message, notify, finish_call, Label,
  handle, finish, Run, then,
}
use my_stest.Looper.Ownership.{update_self, update_other, eq_or_ne}
use my_stest.Looper.Progress.{HasObj, HasObj-rest}
use my_stest.Looper.FileRuns.{initial, file_client, Run-IsOwned, Run-IsQueued}

-- Steps of the looper behind a run.
abbrev pub silents : ℕ → List (Label FileCall Result) → List (Label FileCall Result)
silents zero labels = labels
silents (suc n) labels = silents n (Label.silent ∷ labels)

module _ {S : Type 0} (file : SmbFile S) (unsupported : ℕ) where
  -- The run goes on by at most so many steps of the looper and then the return of the client.
  pub record IsAnswered (s : S) (c : ℕ) (labels : List (Label FileCall Result)) (bound : ℕ)
      : Type 0 where
    pub steps : ℕ
    pub few : steps ≤ bound
    pub outcome : Ended Result
    pub after : Machine S FileCall
    pub run :
        Run
          (file_client file unsupported)
          (initial s)
          (Label.returned c outcome ∷ silents steps labels)
          after
    pub free : after.clients c ≡ idle

  finished-idle :
      (l : Machine S FileCall) (c v : ℕ)
      → (finish_call (file_client file unsupported) c v l).clients c ≡ idle
  unfolding finish_call
  finished-idle l c v = update_self l.clients c idle

  told-notified :
      (l : Machine S FileCall) (c d v : ℕ) (call : FileCall)
      → c ≡ d
      → (notify (file_client file unsupported) c call v l).clients d ≡ notified call v
  unfolding notify
  told-notified l c d v call e = rw (sym e) (update_self l.clients c (notified call v))

  still-waiting :
      (l : Machine S FileCall) (m : Message) (rest : List Message) (c d v : ℕ)
      (its_call call : FileCall)
      → c ≢ d
      → l.clients d ≡ waiting call v
      → (notify
            (file_client file unsupported)
            c
            its_call
            m.obj
            (handle_message (file_client file unsupported) m rest l)).clients
          d
        ≡ waiting call v
  unfolding notify handle_message
  still-waiting l m rest c d v its_call call ne e =
      update_other l.clients c (notified its_call m.obj) d ne ∙ e

  rest-queue :
      (l : Machine S FileCall) (m : Message) (rest : List Message) (c : ℕ) (call : FileCall)
      → (notify
          (file_client file unsupported)
          c
          call
          m.obj
          (handle_message (file_client file unsupported) m rest l)).queue
        ≡ rest
  unfolding notify handle_message
  rest-queue l m rest c call = refl

  module _ (s : S) (c : ℕ) (call : FileCall) (v : ℕ) where
    queue-IsAnswered :
        (queue : List Message) (labels : List (Label FileCall Result)) (l : Machine S FileCall)
        → Run (file_client file unsupported) (initial s) labels l
        → l.queue ≡ queue
        → HasObj v queue
        → l.clients c ≡ waiting call v
        → IsAnswered s c labels (length queue)
    queue-IsAnswered [] labels l run first has waits = absurd has
    queue-IsAnswered (m ∷ rest) labels l run first has waits =
        let o = (Run-IsOwned file unsupported s run).1.owned in
        let a = (rw first at o.awaited).0 in
        let l' =
          notify (file_client file unsupported) a.client a.its_call m.obj
            (handle_message (file_client file unsupported) m rest l) in
        let more =
          then labels l Label.silent l' run (handle l m rest a.client a.its_call first a.waits) in
        elim (eq_or_ne m.obj v) [
          | inl same ↦
              let own : a.client ≡ c =
                o.one_holder a.client c v (rw a.waits same) (rw waits refl) in
              let told : l'.clients c ≡ notified a.its_call m.obj =
                told-notified (handle_message (file_client file unsupported) m rest l) a.client c
                  m.obj a.its_call own in
              record {
                steps = 1;
                few = omega arith;
                outcome = _;
                after = _;
                run = then _ l' _ _ more (finish l' c a.its_call m.obj told);
                free = finished-idle l' c m.obj;
              }
          | inr ne ↦
              let other : a.client ≢ c = λ e.
                let x : waiting a.its_call m.obj ≡ waiting call v =
                  sym a.waits ∙ ap l.clients e ∙ waits in
                ne (cc x) in
              let r =
                queue-IsAnswered rest (Label.silent ∷ labels) l' more
                  (rest-queue l m rest a.client a.its_call) (HasObj-rest v m rest ne has)
                  (still-waiting l m rest a.client c v a.its_call call other waits) in
              record {
                steps = suc r.steps;
                few = omega (arith, r.few);
                outcome = r.outcome;
                after = r.after;
                run = r.run;
                free = r.free;
              }
        ]

  -- After every run of any number of clients of a SmbFile, of the looper and of the pool of values, in
  -- which each `wait` ends by a `notify`, and in which some client is in a call: at most as many steps
  -- of the looper as there are messages in the queue, and then a step of that client alone, end its
  -- call, and the client is in no call.
  pub file_client-IsAnswered :
      (s : S) (c : ℕ) {labels : List (Label FileCall Result)} {l : Machine S FileCall}
      → Run (file_client file unsupported) (initial s) labels l
      → l.clients c ≢ idle
      → IsAnswered s c labels (length l.queue)
  file_client-IsAnswered s c {labels} {l} run busy = by_phase (l.clients c) refl
    where
      by_phase : (p : Phase FileCall) → l.clients c ≡ p → IsAnswered s c labels (length l.queue)
      by_phase idle e = absurd (busy e)
      by_phase (waiting call v) e =
          queue-IsAnswered s c call v l.queue labels l run refl
            (Run-IsQueued file unsupported s run c call v e) e
      by_phase (notified call v) e = record {
        steps = 0;
        few = omega arith;
        outcome = _;
        after = _;
        run = then labels l _ _ run (finish l c call v e);
        free = finished-idle l c v;
      }
