-- ===== src/JniHelper/Callbacks.antt =====
-- The callback templates of base/Callback.h and jni_helper/JniCallback.h, which nothing in the
-- library instantiates. A pack of arguments is one product type.
use my_stest.Base.{ℤ}
use my_stest.World.Calls.{Ptr}
use my_stest.World.State.{Cmd}

-- `operator()` of a `Callback<Us...>`, which its classes define.
pub record Callback (Us : Type 0) : Type 0 where
  pub operator : Us → Cmd ℤ

-- The `JNIEnv` and a Java object.
pub record JniContext (T : Type 0) : Type 0 where
  pub env : Ptr
  pub instance_of : T

pub record JniCallback (T Us : Type 0) : Type 0 where
  pub context : JniContext T
  pub callback : JniContext T → Us → Cmd ℤ

-- A `JniCallback` as a `Callback`.
abbrev pub as_callback : {T Us : Type 0} → JniCallback T Us → Callback Us
as_callback c = record { operator = λ args. c.callback c.context args }
