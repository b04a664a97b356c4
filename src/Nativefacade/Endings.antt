-- ===== src/Nativefacade/Endings.antt =====
-- How the methods of SambaFile.java end, and in what state an exception leaves the native side.
use my_stest.Base.{◌≡◌, refl}
use my_stest.Nativefacade.Java.{
  Throwable, errno_exception, io_exception, Java, returned, threw, died, unfinished, continue,
  catching, within,
}
use my_stest.Nativefacade.SambaFile.{wrapped}
use my_stest.Nativefacade.FileLaws.{Wrapped}

-- A method ends by a value with a property, or by an ErrnoException in a state with another one.
abbrev pub Ends : {S A : Type 0} → (S → Type 0) → (A → S → Type 0) → Java S A → Type 0
Ends Bad Good (returned a s) = Good a s
Ends Bad Good (threw (errno_exception function err) s) = Bad s
Ends Bad Good _ = ⊥

-- The same with an IOException over an ErrnoException.
abbrev pub WrappedEnds : {S A : Type 0} → (S → Type 0) → (A → S → Type 0) → Java S A → Type 0
WrappedEnds Bad Good (returned a s) = Good a s
WrappedEnds Bad Good (threw (io_exception (errno_exception function err)) s) = Bad s
WrappedEnds Bad Good _ = ⊥

-- An exception with what it shows.
pub Ends-threw :
    {S A Shown : Type 0} (Bad : S → Type 0) (Good : A → S → Type 0) (r : Java S A)
    → Ends Bad Good r
    → ((e : Throwable) (t : S) → r ≡ threw e t → Shown)
    → Ends (λ s. Bad s × Shown) Good r
Ends-threw Bad Good (returned a s) h show = h
Ends-threw Bad Good (threw (errno_exception function err) s) h show =
    (h, show (errno_exception function err) s refl)
Ends-threw Bad Good (threw _ s) h show = absurd h
Ends-threw Bad Good died h show = absurd h
Ends-threw Bad Good unfinished h show = absurd h

module _ {T A : Type 0} (Bad : T → Type 0) (Good : A → T → Type 0) where
  pub WrappedEnds-Wrapped : (r : Java T A) → WrappedEnds Bad Good r → Wrapped Good r
  WrappedEnds-Wrapped (returned a s) h = h
  WrappedEnds-Wrapped (threw (io_exception (errno_exception function err)) s) h = tt
  WrappedEnds-Wrapped (threw _ s) h = absurd h
  WrappedEnds-Wrapped died h = absurd h
  WrappedEnds-Wrapped unfinished h = absurd h

module _ {S T A B : Type 0} (Bad : S → Type 0) (Good : A → S → Type 0) (BadNext : T → Type 0)
    (Next : B → T → Type 0) where
  pub native-WrappedEnds :
      (put : S → T) (k : A → T → Java T B) (r : Java S A)
      → Ends Bad Good r
      → ((s : S) → Bad s → BadNext (put s))
      → ((a : A) (s : S) → Good a s → WrappedEnds BadNext Next (k a (put s)))
      → WrappedEnds BadNext Next (continue (catching (within r put) wrapped) k)
  native-WrappedEnds put k (returned a s) h bad next = next a s h
  native-WrappedEnds put k (threw (errno_exception function err) s) h bad next = bad s h
  native-WrappedEnds put k (threw (io_exception e) s) h bad next = absurd h
  native-WrappedEnds put k (threw Throwable.index_out_of_bounds s) h bad next = absurd h
  native-WrappedEnds put k (threw Throwable.buffer_underflow s) h bad next = absurd h
  native-WrappedEnds put k (threw Throwable.buffer_overflow s) h bad next = absurd h
  native-WrappedEnds put k (threw Throwable.other s) h bad next = absurd h
  native-WrappedEnds put k died h bad next = absurd h
  native-WrappedEnds put k unfinished h bad next = absurd h
