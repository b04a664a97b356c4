-- ===== src/Looper/Values.antt =====
-- MessageValues.java: what a client and the looper pass to one another.
use my_stest.Base.{ℕ, ℤ, pos, Option, none, some}

-- How a method ends; objects and exceptions are references.
pub data Ended (A : Type 0) : Type 0 where
  value : A → Ended A
  io_exception : ℕ → Ended A
  runtime_exception : ℕ → Ended A

abbrev pub mapped : {A B : Type 0} → (A → B) → Ended A → Ended B
mapped f (value a) = value (f a)
mapped f (io_exception e) = io_exception e
mapped f (runtime_exception e) = runtime_exception e

pub record MessageValues : Type 0 where
  pub obj : Option ℕ
  pub int : ℤ
  pub long : ℤ
  pub exception : Option ℕ
  pub runtime : Option ℕ

-- A new object, and what `close` makes of any.
abbrev pub clear_values : MessageValues
clear_values = record { obj = none; int = pos 0; long = pos 0; exception = none; runtime = none }

-- `checkException`, and then a value.
unfoldable pub checked : {A : Type 0} → MessageValues → A → Ended A
checked v a = elim v.exception [
  | some e ↦ io_exception e
  | none ↦ elim v.runtime [ some e ↦ runtime_exception e | none ↦ value a ]
]

unfoldable pub get_obj : MessageValues → Ended (Option ℕ)
unfolding checked
get_obj v = checked v v.obj

unfoldable pub get_int : MessageValues → Ended ℤ
unfolding checked
get_int v = checked v v.int

unfoldable pub get_long : MessageValues → Ended ℤ
unfolding checked
get_long v = checked v v.long

abbrev pub set_obj : Option ℕ → MessageValues → MessageValues
set_obj o v = record v { obj = o }

abbrev pub set_int : ℤ → MessageValues → MessageValues
set_int n v = record v { int = n }

abbrev pub set_long : ℤ → MessageValues → MessageValues
set_long n v = record v { long = n }

-- A method on a state that ends, and what follows a value.
abbrev pub Method : Type 0 → Type 0 → Type 0
Method S A = S → Ended A × S

infixl 5 ◌>>=◌
abbrev pub ◌>>=◌ : {S A B : Type 0} → Method S A → (A → Method S B) → Method S B
◌>>=◌ m f s =
    let (e, t) = m s in
    elim e [
      | value a ↦ f a t
      | io_exception x ↦ (io_exception x, t)
      | runtime_exception x ↦ (runtime_exception x, t)
    ]

abbrev pub pure : {S A : Type 0} → A → Method S A
pure a s = (value a, s)

-- A getter, in a method.
abbrev pub got : {S A : Type 0} → Ended A → Method S A
got e s = (e, s)
