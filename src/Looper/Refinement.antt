-- ===== src/Looper/Refinement.antt =====
-- The looper's machine (BaseClient.java, MessageValues.java) refines the atomic server.
use my_stest.Base.{ℕ, ◌≡◌, ◌≢◌, refl, sym, ap, ◌∙◌, inl, inr, List, ◌∷◌}
use my_stest.Looper.Values.{Ended, MessageValues, clear_values}
use my_stest.Looper.Machine.{
  ClientCode, Message, Phase, idle, waiting, notified, Machine, update, obtain, enqueue_with,
  enqueue_call, handle_message, notify, finish_call, Label, Step, enqueue, handle, unheard, finish,
  Run, here, then,
}
use my_stest.Looper.Atomic.{Status, resting, calling, answered, Server, Move, Moves}
use my_stest.Looper.Ownership.{
  update_self, update_other, eq_or_ne, Holds, IsOwned, obtain-IsObtained,
}
use my_stest.Looper.Preservation.{
  enqueue_with-IsOwned, its_message, handle-IsOwned, finish_call-IsOwned,
}

module _ {S Call Result : Type 0} (code : ClientCode S Call Result)
    (direct : Call → S → Ended Result × S) where
  -- A call through a message with clear values ends as the call itself does.
  pub record IsFaithful : Type 0 where
    pub result_same :
        (k : Call) (s : S)
        → code.result k (code.process (code.what k) (code.arg1 k) (code.fill k clear_values) s).0
          ≡ (direct k s).0
    pub state_same :
        (k : Call) (s : S)
        → (code.process (code.what k) (code.arg1 k) (code.fill k clear_values) s).1 ≡ (direct k s).1

  abbrev pub Match : (ℕ → MessageValues) → Phase Call → Status Call Result → Type 0
  Match cells idle resting = Unit {0}
  Match cells (waiting call v) (calling k) = (k ≡ call) × (cells v ≡ code.fill call clear_values)
  Match cells (notified call v) (answered r) = r ≡ code.result call (cells v)
  Match cells _ _ = ⊥

  pub record Simulates (l : Machine S Call) (a : Server S Call Result) : Type 0 where
    pub owned : IsOwned code l
    pub same_state : l.impl ≡ a.state
    pub matches : (c : ℕ) → Match l.cells (l.clients c) (a.callers c)

  Match-idle :
      (cells : ℕ → MessageValues) (s : Status Call Result) → Match cells idle s → s ≡ resting
  Match-idle cells resting h = refl
  Match-idle cells (calling k) h = absurd h
  Match-idle cells (answered r) h = absurd h

  pub Match-waiting :
      (cells : ℕ → MessageValues) (call : Call) (v : ℕ) (s : Status Call Result)
      → Match cells (waiting call v) s
      → (s ≡ calling call) × (cells v ≡ code.fill call clear_values)
  Match-waiting cells call v resting h = absurd h
  Match-waiting cells call v (calling k) (e, f) = (ap calling e, f)
  Match-waiting cells call v (answered r) h = absurd h

  Match-notified :
      (cells : ℕ → MessageValues) (call : Call) (v : ℕ) (s : Status Call Result)
      → Match cells (notified call v) s
      → s ≡ answered (code.result call (cells v))
  Match-notified cells call v resting h = absurd h
  Match-notified cells call v (calling k) h = absurd h
  Match-notified cells call v (answered r) e = ap answered e

  -- Only the values that a client holds count for it.
  Match-frame :
      (cells cells' : ℕ → MessageValues) (p : Phase Call) (s : Status Call Result)
      → ((v : ℕ) → Holds p v → cells' v ≡ cells v)
      → Match cells p s
      → Match cells' p s
  Match-frame cells cells' idle resting f h = tt
  Match-frame cells cells' idle (calling k) f h = h
  Match-frame cells cells' idle (answered r) f h = h
  Match-frame cells cells' (waiting call v) resting f h = h
  Match-frame cells cells' (waiting call v) (calling k) f (e, g) = (e, f v refl ∙ g)
  Match-frame cells cells' (waiting call v) (answered r) f h = h
  Match-frame cells cells' (notified call v) resting f h = h
  Match-frame cells cells' (notified call v) (calling k) f h = h
  Match-frame cells cells' (notified call v) (answered r) f e =
      e ∙ ap (code.result call) (sym (f v refl))

  Match-update :
      (l : Machine S Call) (a : Server S Call Result) (cells' : ℕ → MessageValues) (c : ℕ)
      (p : Phase Call) (s : Status Call Result)
      → ((d : ℕ) → Match l.cells (l.clients d) (a.callers d))
      → Match cells' p s
      → ((d v : ℕ) → c ≢ d → Holds (l.clients d) v → cells' v ≡ l.cells v)
      → (d : ℕ) → Match cells' (update l.clients c p d) (update a.callers c s d)
  Match-update l a cells' c p s h new frame d = elim (eq_or_ne c d) [
    | inl e ↦ rw (sym e) (rw (update_self l.clients c p, update_self a.callers c s) new)
    | inr ne ↦
        rw (update_other l.clients c p d ne, update_other a.callers c s d ne)
          (Match-frame l.cells cells' (l.clients d) (a.callers d) (λ v k. frame d v ne k) (h d))
  ]

  abbrev Simulated : Server S Call Result → Label Call Result → Machine S Call → Type 0
  Simulated a label l' = (a' : Server S Call Result) × Move direct a label a' × Simulates l' a'

  enqueue-Simulates :
      (l : Machine S Call) (a : Server S Call Result) (c : ℕ) (call : Call)
      → Simulates l a
      → l.clients c ≡ idle
      → Simulated a (Label.called c call) (enqueue_call code c call l)
  unfolding enqueue_call enqueue_with
  enqueue-Simulates l a c call h rests =
      let b = obtain-IsObtained code l l.pool h.owned h.owned.pooled in
      let x = (obtain l.pool l.made).0 in
      (
        record a { callers = update a.callers c (calling call) },
        Move.call a c call (Match-idle l.cells (a.callers c) (rw rests at (h.matches c))),
        record {
          owned = enqueue_with-IsOwned code l h.owned c call rests x _ _ b;
          same_state = h.same_state;
          matches =
              Match-update l a _ c (waiting call x) (calling call) h.matches
                (refl, update_self l.cells x _ ∙ ap (code.fill call) b.clear_before)
                (λ d v ne k. update_other l.cells x _ v (λ e. b.held_by_none d (rw e k)));
        },
      )

  finish-Simulates :
      (l : Machine S Call) (a : Server S Call Result) (c : ℕ) (call : Call) (x : ℕ)
      → Simulates l a
      → l.clients c ≡ notified call x
      → Simulated a (Label.returned c (code.result call (l.cells x))) (finish_call code c x l)
  unfolding finish_call
  finish-Simulates l a c call x h told =
      let o = h.owned in
      (
        record a { callers = update a.callers c resting },
        Move.answer a c _ (Match-notified l.cells call x (a.callers c) (rw told at (h.matches c))),
        record {
          owned = finish_call-IsOwned code l o c call x told;
          same_state = h.same_state;
          matches = Match-update l a _ c idle resting h.matches tt (λ d v ne k.
              update_other l.cells x clear_values v (λ e. ne (o.one_holder c d v (rw told e) k)));
        },
      )

  module _ (faithful : IsFaithful) where
    handle-Simulates :
        (l : Machine S Call) (a : Server S Call Result) (m : Message) (rest : List Message) (c : ℕ)
        (call : Call)
        → Simulates l a
        → l.queue ≡ m ∷ rest
        → l.clients c ≡ waiting call m.obj
        → Simulated a Label.silent (notify code c call m.obj (handle_message code m rest l))
    unfolding notify handle_message
    handle-Simulates l a m rest c call h first waits =
        let o = h.owned in
        let (is_calling, filled) =
          Match-waiting l.cells call m.obj (a.callers c) (rw waits at (h.matches c)) in
        let (its_what, its_arg1) = its_message code l o m rest first c call waits in
        let same : code.process m.what m.arg1 (l.cells m.obj) l.impl
            ≡ code.process (code.what call) (code.arg1 call) (code.fill call clear_values) a.state =
          rw (its_what, its_arg1, filled, h.same_state) in
        (
          record {
            state = (direct call a.state).1;
            callers = update a.callers c (answered (direct call a.state).0);
          },
          Move.serve a c call is_calling,
          record {
            owned = handle-IsOwned code l o m rest first c call waits;
            same_state = ap (λ p. p.1) same ∙ faithful.state_same call a.state;
            matches =
                Match-update l a _ c (notified call m.obj) (answered (direct call a.state).0)
                  h.matches
                  (sym (faithful.result_same call a.state)
                    ∙ ap (code.result call)
                        (sym (update_self l.cells m.obj _ ∙ ap (λ p. p.0) same)))
                  (λ d v ne k.
                    update_other l.cells m.obj _ v (λ e. ne (o.one_holder c d v (rw waits e) k)));
          },
        )

    Step-Simulates :
        {l l' : Machine S Call} {label : Label Call Result} {a : Server S Call Result}
        → Simulates l a
        → Step code l label l'
        → Simulated a label l'
    Step-Simulates {a} h (enqueue l c call rests) = enqueue-Simulates l a c call h rests
    Step-Simulates {a} h (handle l m rest c call first waits) =
        handle-Simulates l a m rest c call h first waits
    Step-Simulates {a} h (unheard l m rest first nobody) =
        let owned = rw first at h.owned.awaited in
        absurd (nobody owned.0.client owned.0.its_call owned.0.waits)
    Step-Simulates {a} h (finish l c call x told) = finish-Simulates l a c call x h told

    -- From a machine that simulates a server, by a code that is faithful to the calls of its interface:
    -- the labels of every run are those of a run of the server, which the machine simulates at the end.
    pub Run-Simulates :
        (start : Machine S Call) (server : Server S Call Result)
        → Simulates start server
        → {labels : List (Label Call Result)} {l : Machine S Call} → Run code start labels l
        → (a : Server S Call Result) × Moves direct server labels a × Simulates l a
    Run-Simulates start server h here = (server, Moves.here, h)
    Run-Simulates start server h (then labels l label l' run step) =
        let (a, moves, s) = Run-Simulates start server h run in
        let (a', move, s') = Step-Simulates s step in
        (a', Moves.then labels a label a' moves move, s')
