-- ===== src/Looper/Progress.antt =====
-- No call is lost: the message of each waiting client is in the queue (BaseClient.java).
use my_stest.Base.{ℕ, ◌≡◌, ◌≢◌, ◌⊎◌, refl, sym, ap, ◌∙◌, inl, inr, List, [], ◌∷◌, ◌++◌}
use my_stest.Looper.Machine.{
  ClientCode, Message, Phase, idle, waiting, notified, Machine, update, obtain, enqueue_with,
  enqueue_call, handle_message, notify, finish_call, Label, Step, enqueue, handle, unheard, finish,
}
use my_stest.Looper.Ownership.{update_self, update_other, eq_or_ne, IsOwned}

-- A message about these values is in the queue.
abbrev pub HasObj : ℕ → List Message → Type 0
HasObj v [] = ⊥
HasObj v (m ∷ queue) = (m.obj ≡ v) ⊎ HasObj v queue

HasObj-append :
    (v : ℕ) (m : Message) (queue : List Message) → HasObj v queue → HasObj v (queue ++ m ∷ [])
HasObj-append v m [] h = absurd h
HasObj-append v m (n ∷ queue) (inl e) = inl e
HasObj-append v m (n ∷ queue) (inr h) = inr (HasObj-append v m queue h)

HasObj-last : (m : Message) (queue : List Message) → HasObj m.obj (queue ++ m ∷ [])
HasObj-last m [] = inl refl
HasObj-last m (n ∷ queue) = inr (HasObj-last m queue)

pub HasObj-rest :
    (v : ℕ) (m : Message) (rest : List Message) → m.obj ≢ v → HasObj v (m ∷ rest) → HasObj v rest
HasObj-rest v m rest ne (inl e) = absurd (ne e)
HasObj-rest v m rest ne (inr h) = h

module _ {Call : Type 0} where
  -- Which values a client waits on after one client's phase has changed.
  waits-update :
      (clients : ℕ → Phase Call) (c : ℕ) (p : Phase Call) (d : ℕ) (call : Call) (v : ℕ)
      → update clients c p d ≡ waiting call v
      → (p ≡ waiting call v) ⊎ ((c ≢ d) × (clients d ≡ waiting call v))
  waits-update clients c p d call v e = elim (eq_or_ne c d) [
    | inl same ↦ inl (rw (update_self clients c p) at (rw (sym same) at e))
    | inr ne ↦ inr (ne, rw (update_other clients c p d ne) at e)
  ]

module _ {S Call Result : Type 0} (code : ClientCode S Call Result) where
  abbrev pub IsQueued : Machine S Call → Type 0
  IsQueued l = (d : ℕ) (call : Call) (v : ℕ) → l.clients d ≡ waiting call v → HasObj v l.queue

  pub Step-IsQueued :
      {l l' : Machine S Call} {label : Label Call Result}
      → IsOwned code l
      → IsQueued l
      → Step code l label l'
      → IsQueued l'
  unfolding enqueue_call enqueue_with notify handle_message finish_call
  Step-IsQueued o h (enqueue l c call rests) d k v e =
      let x = (obtain l.pool l.made).0 in
      elim (waits-update l.clients c (waiting call x) d k v e) [
        | inl new ↦
            let same : x ≡ v = cc new in
            rw (sym same) (
              HasObj-last (record { what = code.what call; arg1 = code.arg1 call; obj = x })
                l.queue)
        | inr (ne, old) ↦ HasObj-append v _ l.queue (h d k v old)
      ]
  Step-IsQueued o h (handle l m rest c call first waits) d k v e =
      elim (waits-update l.clients c (notified call m.obj) d k v e) [
        | inl new ↦ cc new
        | inr (ne, old) ↦
            HasObj-rest v m rest
              (λ same. ne (o.one_holder c d m.obj (rw waits refl) (rw old (sym same))))
              (rw first at (h d k v old))
      ]
  Step-IsQueued o h (unheard l m rest first nobody) d k v e =
      HasObj-rest v m rest (λ same. nobody d k (e ∙ ap (waiting k) (sym same)))
        (rw first at (h d k v e))
  Step-IsQueued o h (finish l c call x told) d k v e =
      elim (waits-update l.clients c idle d k v e) [
        | inl new ↦ cc new
        | inr (ne, old) ↦ h d k v old
      ]
