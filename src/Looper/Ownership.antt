-- ===== src/Looper/Ownership.antt =====
-- Who holds which MessageValues: the invariant of the machine of BaseClient.java.
use my_stest.Base.{
  ℕ, ◌≤◌, ◌<◌, ◌≡◌, ◌≢◌, ◌⊎◌, refl, sym, ap, ◌∙◌, true, false, Bool-cases, inl, inr, ◌==◌, List, [],
  ◌∷◌, ◌++◌, arith,
}
use my_stest.Looper.Values.{clear_values}
use my_stest.Looper.Machine.{
  ClientCode, Message, Phase, idle, waiting, notified, Machine, update, obtain,
}

module _ {A : Type 0} (f : ℕ → A) (i : ℕ) (a : A) where
  pub update_self : update f i a i ≡ a
  update_self = let e : (i == i) ≡ true = ground arith in rw e

  pub update_other : (j : ℕ) → i ≢ j → update f i a j ≡ f j
  update_other j ne = let e : (i == j) ≡ false = ground arith in rw e

pub eq_or_ne : (i j : ℕ) → (i ≡ j) ⊎ (i ≢ j)
eq_or_ne i j = elim (Bool-cases (i == j)) [
  | inl e ↦ inl (ground arith)
  | inr e ↦ inr (λ h. ground arith)
]

-- The thread of the client holds the values.
abbrev pub Holds : {Call : Type 0} → Phase Call → ℕ → Type 0
Holds idle v = ⊥
Holds (waiting call w) v = w ≡ v
Holds (notified call w) v = w ≡ v

module _ {S Call Result : Type 0} (code : ClientCode S Call Result) where
  -- Values that no client holds, and that are clear.
  pub record IsFree (l : Machine S Call) (v : ℕ) : Type 0 where
    pub is_made : v < l.made
    pub is_clear : l.cells v ≡ clear_values
    pub unheld : (c : ℕ) → ¬ Holds (l.clients c) v

  abbrev pub Lacks : ℕ → List ℕ → Type 0
  Lacks v [] = Unit {0}
  Lacks v (w ∷ pool) = (w ≢ v) × Lacks v pool

  -- The objects of the pool are free, and each stands there once.
  abbrev pub AreFree : Machine S Call → List ℕ → Type 0
  AreFree l [] = Unit {0}
  AreFree l (v ∷ pool) = IsFree l v × Lacks v pool × AreFree l pool

  abbrev pub LacksObj : ℕ → List Message → Type 0
  LacksObj v [] = Unit {0}
  LacksObj v (m ∷ queue) = (m.obj ≢ v) × LacksObj v queue

  -- A client waits for the message, which is that of its call.
  pub record IsAwaited (clients : ℕ → Phase Call) (m : Message) : Type 0 where
    pub client : ℕ
    pub its_call : Call
    pub waits : clients client ≡ waiting its_call m.obj
    pub its_what : m.what ≡ code.what its_call
    pub its_arg1 : m.arg1 ≡ code.arg1 its_call

  abbrev pub AreAwaited : (ℕ → Phase Call) → List Message → Type 0
  AreAwaited clients [] = Unit {0}
  AreAwaited clients (m ∷ queue) =
      IsAwaited clients m × LacksObj m.obj queue × AreAwaited clients queue

  pub record IsOwned (l : Machine S Call) : Type 0 where
    pub pooled : AreFree l l.pool
    pub unmade : (v : ℕ) → l.made ≤ v → l.cells v ≡ clear_values
    pub held_made : (c v : ℕ) → Holds (l.clients c) v → v < l.made
    pub one_holder : (c d v : ℕ) → Holds (l.clients c) v → Holds (l.clients d) v → c ≡ d
    pub awaited : AreAwaited l.clients l.queue

  -- What `obtain` gives is free, and in the pool no more.
  pub record IsObtained (l : Machine S Call) (v : ℕ) (pool : List ℕ) (made : ℕ) : Type 0 where
    pub clear_before : l.cells v ≡ clear_values
    pub held_by_none : (c : ℕ) → ¬ Holds (l.clients c) v
    pub within : v < made
    pub grown : l.made ≤ made
    pub lacked : Lacks v pool
    pub left_free : AreFree l pool

  pub obtain-IsObtained :
      (l : Machine S Call) (pool : List ℕ)
      → IsOwned l
      → AreFree l pool
      → IsObtained l (obtain pool l.made).0 (obtain pool l.made).1 (obtain pool l.made).2
  unfolding obtain
  obtain-IsObtained l [] o free = record {
    clear_before = o.unmade l.made (omega arith);
    held_by_none = λ c h. absurd (omega (arith, o.held_made c l.made h));
    within = omega arith;
    grown = omega arith;
    lacked = tt;
    left_free = tt;
  }
  obtain-IsObtained l (v ∷ pool) o (f, lacks, free) = record {
    clear_before = f.is_clear;
    held_by_none = f.unheld;
    within = f.is_made;
    grown = omega arith;
    lacked = lacks;
    left_free = free;
  }

  -- A client that waits on other values keeps waiting when one client's phase changes.
  pub AreAwaited-update :
      (clients : ℕ → Phase Call) (c v : ℕ) (p : Phase Call) (queue : List Message)
      → ((w : ℕ) → Holds (clients c) w → w ≡ v)
      → LacksObj v queue
      → AreAwaited clients queue
      → AreAwaited (update clients c p) queue
  AreAwaited-update clients c v p [] only lacks h = tt
  AreAwaited-update clients c v p (m ∷ queue) only (ne, lacks) (a, once, h) = (
    record {
      client = a.client;
      its_call = a.its_call;
      waits = elim (eq_or_ne c a.client) [
        | inl e ↦ absurd (ne (only m.obj (rw (e, a.waits) refl)))
        | inr other ↦ update_other clients c p a.client other ∙ a.waits
      ];
      its_what = a.its_what;
      its_arg1 = a.its_arg1;
    },
    once,
    AreAwaited-update clients c v p queue only lacks h,
  )

  LacksObj-append :
      (v : ℕ) (m : Message) (queue : List Message)
      → m.obj ≢ v
      → LacksObj v queue
      → LacksObj v (queue ++ m ∷ [])
  LacksObj-append v m [] ne h = (ne, tt)
  LacksObj-append v m (n ∷ queue) ne (other, h) = (other, LacksObj-append v m queue ne h)

  pub AreAwaited-append :
      (clients : ℕ → Phase Call) (m : Message) (queue : List Message)
      → IsAwaited clients m
      → LacksObj m.obj queue
      → AreAwaited clients queue
      → AreAwaited clients (queue ++ m ∷ [])
  AreAwaited-append clients m [] a lacks h = (a, tt, tt)
  AreAwaited-append clients m (n ∷ queue) a (ne, lacks) (b, once, h) = (
    b,
    LacksObj-append n.obj m queue (λ e. ne (sym e)) once,
    AreAwaited-append clients m queue a lacks h,
  )

  -- No message is about values that nobody waits on.
  pub AreAwaited-LacksObj :
      (clients : ℕ → Phase Call) (v : ℕ) (queue : List Message)
      → ((c : ℕ) (call : Call) → clients c ≢ waiting call v)
      → AreAwaited clients queue
      → LacksObj v queue
  AreAwaited-LacksObj clients v [] none h = tt
  AreAwaited-LacksObj clients v (m ∷ queue) none (a, once, h) = (
    λ e. none a.client a.its_call (a.waits ∙ ap (waiting a.its_call) e),
    AreAwaited-LacksObj clients v queue none h,
  )
