-- ===== src/Tests/Resets.antt =====
-- The theorem on the resets of NativeSambaFacade.java at a concrete input.
use my_stest.Base.{◌≡◌, refl, true, none, some}
use my_stest.World.State.{State, ok}
use my_stest.Libsmbclient.Contexts.{is_live, Usage, unused, usage}
use my_stest.Libsmbclient.Turns.{in_turn}
use my_stest.Nativefacade.Facade.{resets}
use my_stest.Nativefacade.FacadeLaws.{resets-legal}
use my_stest.Tests.Setting.{success, serving, success-Works, start}
use my_stest.Tests.Lifetime.{start_usage}

start_turn : in_turn start.trace ≡ some none
unfolding in_turn
start_turn = refl

resets-legal_example :
    (after : State) × (v : Usage) × (resets true 4 3 0 (serving success) start ≡ ok 3 after)
    × (after.clients 3 ≡ some (record { samba_context = 9 }))
    × (usage after.trace ≡ some v)
    × (is_live (v.phase 9) ≡ true)
    × (in_turn after.trace ≡ some (some 9))
resets-legal_example = resets-legal success-Works true 4 2 start unused start_usage start_turn
