-- ===== src/Provider/NativeTransfers.antt =====
-- The transfers of SambaProxyFileCallback.java over the native methods of SambaFile
-- (jni_helper/JniHelper.cc).
use my_stest.Base.{ℕ, ◌+◌, ◌^◌, ◌≤◌, ◌<◌, ℤ, pos, ◌≡◌, Text, length}
use my_stest.World.Calls.{Ptr, Trace, Env}
use my_stest.World.State.{State}
use my_stest.Libsmbclient.Contract.{FollowsHeader}
use my_stest.JniHelper.Ready.{IsHealthy, IsReady}
use my_stest.Nativefacade.Java.{capacity, Store}
use my_stest.Nativefacade.NativeFile.{Settled}
use my_stest.Nativefacade.Bridge.{native_file}
use my_stest.Nativefacade.BridgeLaws.{WritesSome, native_file-IsCounting, native_file-IsWriting}
use my_stest.Provider.Transfers.{on_read, on_write}
use my_stest.Provider.TransferEnds.{Upto, on_read-Settled}
use my_stest.Provider.WriteEnds.{Exactly, on_write-Settled}

module _ {env : Env} (healthy : IsHealthy env) (follows : FollowsHeader env) (pointer : Ptr)
    (buffer : ℕ) (filled : Trace → Text → Text)
    (kept : (t : Trace) (contents : Text) → length (filled t contents) ≡ length contents)
    (offset : ℤ) (size : ℕ) (x : Store State) (small : size < 2 ^ 31) (room : size ≤ length x.array)
    (cleared : x.buffer.position ≡ 0) (ready : IsReady x.native) where
  -- In a healthy JVM, over a libsmbclient that answers as libsmbclient.h documents and that keeps
  -- within the buffer, from a state whose class references are right: `onRead` of `size` bytes with a
  -- cleared buffer, for an array with room for them, ends within `size + 1` turns of its loop over
  -- the native methods. It returns a number of bytes from 0 to `size`, with the array as long as
  -- before and the buffer clear, or throws an ErrnoException; no index is out of bounds.
  pub on_read-native_file :
      Settled
        (λ v y. Upto size (length x.array) v y × (y.buffer.position ≡ 0))
        (on_read (native_file env pointer buffer filled) (size + 1) offset (pos size) x)
  on_read-native_file =
      on_read-Settled (native_file env pointer buffer filled) IsReady
        (native_file-IsCounting healthy follows pointer buffer filled kept) offset size x small room
        cleared ready

  -- In a healthy JVM, over a libsmbclient that answers as libsmbclient.h documents and whose writes of
  -- some bytes never write none, from a state whose class references are right: `onWrite` of `size`
  -- bytes of an array that has them, through a cleared buffer of some capacity, ends within
  -- `size + 1` turns of its loop over the native methods. It returns `size`, with the array as long
  -- as before and the buffer clear, or throws an ErrnoException; no index is out of bounds.
  pub on_write-native_file :
      WritesSome env
      → 0 < capacity x.buffer
      → Settled
          (λ v y. Exactly size (length x.array) v y × (y.buffer.position ≡ 0))
          (on_write (native_file env pointer buffer filled) (size + 1) offset (pos size) x)
  on_write-native_file some space =
      on_write-Settled (native_file env pointer buffer filled) IsReady
        (native_file-IsWriting healthy follows pointer buffer filled kept some) offset size x small
        room space cleared ready
