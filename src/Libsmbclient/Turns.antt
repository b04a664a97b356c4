-- ===== src/Libsmbclient/Turns.antt =====
-- One Samba context at a time, as a monitor of the calls of samba_includes/libsmbclient.h.
use my_stest.Base.{◌≡◌, Bool, Option, none, some, [], ◌∷◌, ◌==◌, if◌then◌else◌, arith}
use my_stest.World.Calls.{Ptr, Reply, Trace, called, deleted, smbc_new_context, smbc_free_context}

-- The context there is, if any; `none` after a context was made while there was one, or another was
-- freed.
unfoldable pub in_turn : Trace → Option (Option Ptr)
in_turn [] = some none
in_turn (called smbc_new_context r ∷ t) = elim (in_turn t) [
  | none ↦ none
  | some before ↦ elim before [ none ↦ some (some r.pointer) | some c ↦ none ]
]
in_turn (called (smbc_free_context c shutdown) r ∷ t) = elim (in_turn t) [
  | none ↦ none
  | some before ↦ elim before [ none ↦ none | some d ↦ if c == d then some none else none ]
]
in_turn (e ∷ t) = in_turn t

pub in_turn-made :
    (r : Reply) (t : Trace)
    → in_turn t ≡ some none
    → in_turn (called smbc_new_context r ∷ t) ≡ some (some r.pointer)
unfolding in_turn
in_turn-made r t e = rw e

pub in_turn-freed :
    (c client : Ptr) (shutdown : Bool) (r : Reply) (t : Trace)
    → in_turn t ≡ some (some c)
    → in_turn (deleted client ∷ called (smbc_free_context c shutdown) r ∷ t) ≡ some none
unfolding in_turn
in_turn-freed c client shutdown r t e = ground (arith, e)
