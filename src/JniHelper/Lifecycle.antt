-- ===== src/JniHelper/Lifecycle.antt =====
-- `NativeSambaFacade.nativeInit` and `nativeDestroy` (jni_helper/JniHelper.cc).
use my_stest.Base.{Bool, ◌==◌, if◌then◌else◌}
use my_stest.SambaClient.Context
use my_stest.World.Calls.{Ptr}
use my_stest.World.State.{Cmd, pure, ◌>>=◌, ◌>>◌}
use my_stest.World.Libc.{new_client, free_client}

-- `delete client`: nothing for NULL; else the destructor, and the memory goes back.
unfoldable pub delete_client : Ptr → Cmd (Unit {0})
unfolding Context.destroy
delete_client pointer =
    if pointer == 0 then pure tt else do Context.destroy pointer; free_client pointer

-- The object's address, or 0.
unfoldable pub native_init : Bool → Ptr → Cmd Ptr
unfolding Context.init delete_client
native_init debug cache_pointer = do
  client ← new_client (record { samba_context = 0 })
  done ← Context.init client debug cache_pointer
  if done then pure client else do delete_client client; pure 0

unfoldable pub native_destroy : Ptr → Cmd (Unit {0})
unfolding delete_client
native_destroy pointer = delete_client pointer
