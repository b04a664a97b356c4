-- ===== src/Nativefacade/Facade.antt =====
-- `reset` of NativeSambaFacade.java.
use my_stest.Base.{ℕ, zero, suc, Bool, ◌==◌, if◌then◌else◌}
use my_stest.World.Calls.{Ptr}
use my_stest.World.State.{Cmd, pure, ◌>>=◌, ◌>>◌}
use my_stest.JniHelper.Lifecycle.{native_init, native_destroy}

-- From one `mNativeHandler` to the next; neither native method throws.
unfoldable pub reset : Bool → Ptr → Ptr → Cmd Ptr
reset debug cache handler = do
  if handler == 0 then pure tt else native_destroy handler
  native_init debug cache

-- So many calls of `reset`.
unfoldable pub resets : Bool → Ptr → ℕ → Ptr → Cmd Ptr
unfolding reset
resets debug cache zero handler = pure handler
resets debug cache (suc n) handler = do h ← resets debug cache n handler; reset debug cache h
