-- ===== src/Nativefacade/Java.antt =====
-- Java methods over a store: how they end, and the objects that SambaFile.java and
-- SambaProxyFileCallback.java work on.
use my_stest.Base.{ℕ, ℤ, Text, length}

-- What a method throws. An IOException has a cause.
pub data Throwable : Type 0 where
  errno_exception : Text → ℤ → Throwable
  io_exception : Throwable → Throwable
  index_out_of_bounds buffer_underflow buffer_overflow other : Throwable

-- The end of a method: a value; an exception; the death of the process; or, for a loop on fuel, no
-- end within the fuel.
pub data Java (S A : Type 0) : Type 0 where
  returned : A → S → Java S A
  threw : Throwable → S → Java S A
  died unfinished : Java S A

module _ {S A B : Type 0} where
  abbrev pub continue : Java S A → (A → S → Java S B) → Java S B
  continue (returned a s) k = k a s
  continue (threw e s) k = threw e s
  continue died k = died
  continue unfinished k = unfinished

module _ {S A : Type 0} where
  -- `catch`, of any exception.
  abbrev pub catching : Java S A → (Throwable → Throwable) → Java S A
  catching (returned a s) h = returned a s
  catching (threw e s) h = threw (h e) s
  catching died h = died
  catching unfinished h = unfinished

  -- `finally`
  abbrev pub finally : Java S A → (S → S) → Java S A
  finally (returned a s) h = returned a (h s)
  finally (threw e s) h = threw e (h s)
  finally died h = died
  finally unfinished h = unfinished

-- A method of a part of the store.
module _ {S A B : Type 0} where
  abbrev pub within : Java S A → (S → B) → Java B A
  within (returned a s) put = returned a (put s)
  within (threw e s) put = threw e (put s)
  within died put = died
  within unfinished put = unfinished

-- `ByteBuffer.allocateDirect`: its position, and its memory, to whose end it is limited.
pub record ByteBuffer : Type 0 where
  pub position : ℕ
  pub contents : Text

abbrev pub capacity : ByteBuffer → ℕ
capacity b = length b.contents

-- `class SambaFile`
pub record FileObject : Type 0 where
  pub native_fd : ℤ
  pub offset : ℤ

-- The state of the native side, and the objects of one open file: its SambaFile, the buffer of a
-- transfer, and the caller's array.
pub record Store (S : Type 0) : Type 0 where
  pub native : S
  pub file : FileObject
  pub buffer : ByteBuffer
  pub array : Text
