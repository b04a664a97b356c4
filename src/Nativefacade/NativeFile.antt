-- ===== src/Nativefacade/NativeFile.antt =====
-- The native methods of SambaFile.java as its Java code sees them.
use my_stest.Base.{ℕ, ℤ, pos, negsuc, ◌≤◌, ◌<◌, ◌^◌, ◌≡◌, Text, length}
use my_stest.Nativefacade.Java.{errno_exception, Java, returned, threw}

-- `read` leaves new contents in the buffer's memory.
pub record NativeFile (S : Type 0) : Type 0 where
  pub read : (fd : ℤ) (contents : Text) (maxlen : ℤ) → S → Java S (ℤ × Text)
  pub write : (fd : ℤ) (contents : Text) (length : ℤ) → S → Java S ℤ
  pub seek : (fd offset whence : ℤ) → S → Java S ℤ
  pub close : (fd : ℤ) → S → Java S (Unit {0})

-- A method ends by a value with a property, or by an ErrnoException.
abbrev pub Settled : {S A : Type 0} → (A → S → Type 0) → Java S A → Type 0
Settled Good (returned a s) = Good a s
Settled Good (threw (errno_exception function err) s) = Unit {0}
Settled Good _ = ⊥

abbrev pub Counts : ℕ → ℤ → Type 0
Counts m (pos k) = k ≤ m
Counts m (negsuc k) = ⊥

-- A count of bytes read, and the buffer as long as before.
abbrev pub ReadCounts : ℕ → Text → ℤ × Text → Type 0
ReadCounts m contents (v, left) = Counts m v × (length left ≡ length contents)

-- A count of bytes written, and some if there were any.
abbrev pub WriteCounts : ℕ → ℤ → Type 0
WriteCounts m (pos k) = (k ≤ m) × (0 < m → 0 < k)
WriteCounts m (negsuc k) = ⊥

-- From a valid state, counts are within what was asked for, there is no failure but an
-- ErrnoException, and the next state is valid.
pub record IsCounting {S : Type 0} (n : NativeFile S) (Valid : S → Type 0) : Type 0 where
  pub reads :
      (fd : ℤ) (contents : Text) (m : ℕ) (s : S)
      → Valid s
      → Settled (λ p t. ReadCounts m contents p × Valid t) (n.read fd contents (pos m) s)
  pub seeks :
      (fd offset whence : ℤ) (s : S)
      → Valid s
      → Settled (λ _ t. Valid t) (n.seek fd offset whence s)

-- From a valid state, each write of some bytes writes one at least, there is no failure but an
-- ErrnoException, and the next state is valid.
pub record IsWriting {S : Type 0} (n : NativeFile S) (Valid : S → Type 0) : Type 0 where
  pub writes :
      (fd : ℤ) (contents : Text) (m : ℕ) (s : S)
      → m < 2 ^ 31
      → Valid s
      → Settled (λ v t. WriteCounts m v × Valid t) (n.write fd contents (pos m) s)
  pub seeks :
      (fd offset whence : ℤ) (s : S)
      → Valid s
      → Settled (λ _ t. Valid t) (n.seek fd offset whence s)
