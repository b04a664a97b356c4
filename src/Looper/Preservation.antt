-- ===== src/Looper/Preservation.antt =====
-- Each step of the machine of BaseClient.java keeps the ownership of the values.
use my_stest.Base.{
  ℕ, ◌≡◌, ◌≢◌, ◌⊎◌, refl, sym, ap, ◌∙◌, Bool-cases, inl, inr, ltb, List, [], ◌∷◌, length, arith,
}
use my_stest.Looper.Values.{clear_values}
use my_stest.Looper.Machine.{
  ClientCode, Message, Phase, idle, waiting, notified, Machine, update, release, enqueue_with,
  handle_message, notify, finish_call,
}
use my_stest.Looper.Ownership.{
  update_self, update_other, eq_or_ne, Holds, IsFree, Lacks, AreFree, LacksObj, IsAwaited,
  AreAwaited, IsOwned, IsObtained, AreAwaited-update, AreAwaited-append, AreAwaited-LacksObj,
}

-- Who holds values after one client's phase has changed.
pub Holds-update :
    {Call : Type 0} (clients : ℕ → Phase Call) (c : ℕ) (p : Phase Call) (d v : ℕ)
    → Holds (update clients c p d) v
    → ((c ≡ d) × Holds p v) ⊎ ((c ≢ d) × Holds (clients d) v)
Holds-update clients c p d v h = elim (eq_or_ne c d) [
  | inl e ↦ inl (e, rw (update_self clients c p) at (rw (sym e) at h))
  | inr ne ↦ inr (ne, rw (update_other clients c p d ne) at h)
]

module _ {S Call Result : Type 0} (code : ClientCode S Call Result) where
  AreFree-map :
      (l l' : Machine S Call) (pool : List ℕ)
      → ((v : ℕ) → IsFree code l v → IsFree code l' v)
      → AreFree code l pool
      → AreFree code l' pool
  AreFree-map l l' [] f h = tt
  AreFree-map l l' (v ∷ pool) f (free, lacks, h) = (f v free, lacks, AreFree-map l l' pool f h)

  AreFree-but :
      (l l' : Machine S Call) (x : ℕ) (pool : List ℕ)
      → Lacks code x pool
      → ((v : ℕ) → x ≢ v → IsFree code l v → IsFree code l' v)
      → AreFree code l pool
      → AreFree code l' pool
  AreFree-but l l' x [] none f h = tt
  AreFree-but l l' x (v ∷ pool) (ne, none) f (free, lacks, h) =
      (f v (λ e. ne (sym e)) free, lacks, AreFree-but l l' x pool none f h)

  AreFree-Lacks :
      (l : Machine S Call) (c x : ℕ) (pool : List ℕ)
      → Holds (l.clients c) x
      → AreFree code l pool
      → Lacks code x pool
  AreFree-Lacks l c x [] held h = tt
  AreFree-Lacks l c x (v ∷ pool) held (free, lacks, h) =
      (λ e. free.unheld c (rw e held), AreFree-Lacks l c x pool held h)

  module _ (l : Machine S Call) (o : IsOwned code l) (c : ℕ) (call : Call)
      (rests : l.clients c ≡ idle) where
    pub enqueue_with-IsOwned :
        (x : ℕ) (pool : List ℕ) (made : ℕ)
        → IsObtained code l x pool made
        → IsOwned code (enqueue_with code x pool made c call l)
    unfolding enqueue_with
    enqueue_with-IsOwned x pool made b = record {
      pooled =
          AreFree-but l _ x pool b.lacked
            (λ v ne free. record {
              is_made = omega (arith, free.is_made, b.grown);
              is_clear = update_other l.cells x (code.fill call (l.cells x)) v ne ∙ free.is_clear;
              unheld = λ d h. elim (Holds-update l.clients c (waiting call x) d v h) [
                | inl (e, held) ↦ ne held
                | inr (other, held) ↦ free.unheld d held
              ];
            })
            b.left_free;
      unmade = λ v h.
          update_other l.cells x (code.fill call (l.cells x)) v
            (λ e. absurd (omega (arith, e, b.within, h)))
          ∙ o.unmade v (omega (arith, b.grown, h));
      held_made = λ d v h. elim (Holds-update l.clients c (waiting call x) d v h) [
        | inl (e, held) ↦ omega (arith, held, b.within)
        | inr (other, held) ↦ omega (arith, o.held_made d v held, b.grown)
      ];
      one_holder = λ d e v h k. elim (Holds-update l.clients c (waiting call x) d v h) [
        | inl (is_d, held) ↦ elim (Holds-update l.clients c (waiting call x) e v k) [
          | inl (is_e, held') ↦ sym is_d ∙ is_e
          | inr (other, held') ↦ absurd (b.held_by_none e (rw held held'))
        ]
        | inr (other, held) ↦ elim (Holds-update l.clients c (waiting call x) e v k) [
          | inl (is_e, held') ↦ absurd (b.held_by_none d (rw held' held))
          | inr (other', held') ↦ o.one_holder d e v held held'
        ]
      ];
      awaited =
          let none =
            AreAwaited-LacksObj code l.clients x l.queue (λ d k e. b.held_by_none d (rw e refl))
              o.awaited in
          AreAwaited-append code (update l.clients c (waiting call x)) _ l.queue
            (record {
              client = c;
              its_call = call;
              waits = update_self l.clients c (waiting call x);
              its_what = refl;
              its_arg1 = refl;
            })
            none
            (AreAwaited-update code l.clients c x (waiting call x) l.queue
              (λ w h. absurd (rw rests at h)) none o.awaited);
    }

  module _ (l : Machine S Call) (o : IsOwned code l) (m : Message) (rest : List Message)
      (first : l.queue ≡ m ∷ rest) (c : ℕ) (call : Call)
      (waits : l.clients c ≡ waiting call m.obj) where
    holder : Holds (l.clients c) m.obj
    holder = rw waits refl

    queued : IsAwaited code l.clients m × LacksObj code m.obj rest × AreAwaited code l.clients rest
    queued = rw first at o.awaited

    -- The message is that of the client's call.
    pub its_message : (m.what ≡ code.what call) × (m.arg1 ≡ code.arg1 call)
    its_message =
        let (a, once, more) = queued in
        let same : c ≡ a.client = o.one_holder c a.client m.obj holder (rw a.waits refl) in
        let e : waiting call m.obj ≡ waiting a.its_call m.obj =
          sym waits ∙ ap l.clients same ∙ a.waits in
        let k : call ≡ a.its_call = cc e in
        (a.its_what ∙ ap code.what (sym k), a.its_arg1 ∙ ap code.arg1 (sym k))

    pub handle-IsOwned : IsOwned code (notify code c call m.obj (handle_message code m rest l))
    unfolding notify handle_message
    handle-IsOwned =
        let (a, once, more) = queued in
        let p = notified call m.obj in
        let held_before : (d v : ℕ) → Holds (update l.clients c p d) v → Holds (l.clients d) v =
          λ d v h. elim (Holds-update l.clients c p d v h) [
            | inl (e, held) ↦ rw (sym e) (rw waits held)
            | inr (other, held) ↦ held
          ] in
        record {
          pooled =
              AreFree-map l _ l.pool
                (λ v free. record {
                  is_made = free.is_made;
                  is_clear =
                      update_other l.cells m.obj _ v (λ e. free.unheld c (rw waits e))
                      ∙ free.is_clear;
                  unheld = λ d h. free.unheld d (held_before d v h);
                })
                o.pooled;
          unmade = λ v h.
              update_other l.cells m.obj _ v
                (λ e. absurd (omega (arith, e, h, o.held_made c m.obj holder)))
              ∙ o.unmade v h;
          held_made = λ d v h. o.held_made d v (held_before d v h);
          one_holder = λ d e v h k. o.one_holder d e v (held_before d v h) (held_before e v k);
          awaited =
              AreAwaited-update code l.clients c m.obj p rest (λ w h. sym (rw waits at h)) once
                more;
        }

  module _ (l : Machine S Call) (o : IsOwned code l) (c : ℕ) (call : Call) (x : ℕ)
      (told : l.clients c ≡ notified call x) where
    told_holder : Holds (l.clients c) x
    told_holder = rw told refl

    held_after : (d v : ℕ) → Holds (update l.clients c idle d) v → (c ≢ d) × Holds (l.clients d) v
    held_after d v h = elim (Holds-update l.clients c idle d v h) [
      | inl (e, held) ↦ absurd held
      | inr (other, held) ↦ (other, held)
    ]

    still_free : (v : ℕ) → IsFree code l v → IsFree code (finish_call code c x l) v
    unfolding finish_call
    still_free v free = record {
      is_made = free.is_made;
      is_clear =
          update_other l.cells x clear_values v (λ e. free.unheld c (rw told e)) ∙ free.is_clear;
      unheld = λ d h. free.unheld d (held_after d v h).1;
    }

    freed : IsFree code (finish_call code c x l) x
    unfolding finish_call
    freed = record {
      is_made = o.held_made c x told_holder;
      is_clear = update_self l.cells x clear_values;
      unheld = λ d h.
          let (other, held) = held_after d x h in other (o.one_holder c d x told_holder held);
    }

    released : AreFree code (finish_call code c x l) (release x l.pool)
    unfolding release
    released =
        let kept = AreFree-map l (finish_call code c x l) l.pool still_free o.pooled in
        elim (Bool-cases (ltb (length l.pool) 20)) [
          | inl e ↦ rw e (freed, AreFree-Lacks l c x l.pool told_holder o.pooled, kept)
          | inr e ↦ rw e kept
        ]

    pub finish_call-IsOwned : IsOwned code (finish_call code c x l)
    unfolding finish_call
    finish_call-IsOwned = record {
      pooled = released;
      unmade = λ v h. elim (eq_or_ne x v) [
        | inl e ↦ absurd (omega (arith, e, h, o.held_made c x told_holder))
        | inr ne ↦ update_other l.cells x clear_values v ne ∙ o.unmade v h
      ];
      held_made = λ d v h. o.held_made d v (held_after d v h).1;
      one_holder = λ d e v h k. o.one_holder d e v (held_after d v h).1 (held_after e v k).1;
      awaited =
          AreAwaited-update code l.clients c x idle l.queue (λ w h. sym (rw told at h))
            (AreAwaited-LacksObj code l.clients x l.queue
              (λ d k e.
                let same : c ≡ d = o.one_holder c d x told_holder (rw e refl) in
                let clash : notified call x ≡ waiting k x = sym told ∙ ap l.clients same ∙ e in
                cc clash)
              o.awaited)
            o.awaited;
    }
