-- ===== src/Browsing/Consumption.antt =====
-- How many bytes the readers of BroadcastUtils.java take from any bytes.
use my_stest.Base.{
  ℕ, zero, suc, ◌+◌, ◌≤◌, ℤ, pos, negsuc, ◌≡◌, refl, Bool-cases, inl, inr, leb, Text, [], ◌∷◌,
  length, arith,
}
use my_stest.Provider.Slices.{length-drop}
use my_stest.Browsing.Packets.{
  Parse, Parser, parsed, underflow, browsing_exception, ◌>>=◌, pure, get_byte, get_char, get_bytes,
  skip, skip_bytes,
}

-- What holds, if the parser reads, of the value and of the number of bytes read.
abbrev pub Ensures : {A : Type 0} → Text → Parse A → (A → ℕ → Type 0) → Type 0
Ensures unread (parsed a rest) P = (k : ℕ) × (length rest + k ≡ length unread) × P a k
Ensures unread underflow P = Unit {0}
Ensures unread browsing_exception P = Unit {0}

pub record Consumes {A : Type 0} (m : Parser A) (P : A → ℕ → Type 0) : Type 0 where
  pub each : (unread : Text) → Ensures unread (m unread) P

Ensures-later :
    {A : Type 0} (P : A → ℕ → Type 0) (u r : Text) (k : ℕ) (e : Parse A)
    → length r + k ≡ length u
    → Ensures r e (λ a j. P a (k + j))
    → Ensures u e P
Ensures-later P u r k (parsed a rest) h (j, e, p) = (k + j, omega arith, p)
Ensures-later P u r k underflow h p = tt
Ensures-later P u r k browsing_exception h p = tt

Ensures-parse :
    {A B : Type 0} (P : A → ℕ → Type 0) (Q : B → ℕ → Type 0) (f : A → Parser B) (u : Text)
    (e : Parse A)
    → Ensures u e P
    → ((a : A) (k : ℕ) → P a k → Consumes (f a) (λ b j. Q b (k + j)))
    → Ensures u (◌>>=◌ (λ _. e) f []) Q
Ensures-parse P Q f u (parsed a rest) (k, e, p) h =
    Ensures-later Q u rest k (f a rest) e ((h a k p).each rest)
Ensures-parse P Q f u underflow p h = tt
Ensures-parse P Q f u browsing_exception p h = tt

pub >>=-Consumes :
    {A B : Type 0} (P : A → ℕ → Type 0) (Q : B → ℕ → Type 0) (m : Parser A) (f : A → Parser B)
    → Consumes m P
    → ((a : A) (k : ℕ) → P a k → Consumes (f a) (λ b j. Q b (k + j)))
    → Consumes (m >>= f) Q
>>=-Consumes P Q m f c h = record { each = λ u. Ensures-parse P Q f u (m u) (c.each u) h }

Ensures-mono :
    {A : Type 0} (P Q : A → ℕ → Type 0) (u : Text) (e : Parse A)
    → Ensures u e P
    → ((a : A) (k : ℕ) → P a k → Q a k)
    → Ensures u e Q
Ensures-mono P Q u (parsed a rest) (k, e, p) h = (k, e, h a k p)
Ensures-mono P Q u underflow p h = tt
Ensures-mono P Q u browsing_exception p h = tt

pub Consumes-mono :
    {A : Type 0} (P Q : A → ℕ → Type 0) (m : Parser A)
    → Consumes m P
    → ((a : A) (k : ℕ) → P a k → Q a k)
    → Consumes m Q
Consumes-mono P Q m c h = record { each = λ u. Ensures-mono P Q u (m u) (c.each u) h }

-- Exactly so many bytes, and at least so many.
abbrev pub Exactly : {A : Type 0} → ℕ → A → ℕ → Type 0
Exactly n a k = k ≡ n

abbrev pub AtLeast : {A : Type 0} → ℕ → A → ℕ → Type 0
AtLeast n a k = n ≤ k

pub pure-Consumes : {A : Type 0} (a : A) → Consumes (pure a) (Exactly 0)
pure-Consumes a = record { each = λ u. (0, omega arith, refl) }

get_byte_each : (u : Text) → Ensures u (get_byte u) (Exactly 1)
unfolding get_byte
get_byte_each [] = tt
get_byte_each (b ∷ u) = (1, omega arith, refl)

pub get_byte-Consumes : Consumes get_byte (Exactly 1)
get_byte-Consumes = record { each = get_byte_each }

get_char_each : (u : Text) → Ensures u (get_char u) (Exactly 2)
unfolding get_char
get_char_each [] = tt
get_char_each (b ∷ []) = tt
get_char_each (b ∷ c ∷ u) = (2, omega arith, refl)

pub get_char-Consumes : Consumes get_char (Exactly 2)
get_char-Consumes = record { each = get_char_each }

pub get_bytes-Consumes : (n : ℕ) → Consumes (get_bytes n) (Exactly n)
unfolding get_bytes
get_bytes-Consumes n = record {
  each = λ u. elim (Bool-cases (leb n (length u))) [
    | inl e ↦ rw e (
        let l = length-drop n u in let room : n ≤ length u = ground arith in (n, omega arith, refl))
    | inr e ↦ rw e tt
  ];
}

skip-Consumes : (n : ℕ) → Consumes (skip n) (Exactly n)
unfolding skip
skip-Consumes zero = pure-Consumes tt
skip-Consumes (suc n) = >>=-Consumes (Exactly 1) (Exactly (suc n)) _ _ get_byte-Consumes λ a k h.
    Consumes-mono (Exactly n) (λ b j. Exactly (suc n) b (k + j)) _ (skip-Consumes n)
      λ b j h'. omega arith

pub skip_bytes-Consumes : (n : ℕ) → Consumes (skip_bytes (pos n)) (Exactly n)
unfolding skip_bytes
skip_bytes-Consumes n = skip-Consumes n

pub signed_skip-Consumes : (n : ℤ) → Consumes (skip_bytes n) (AtLeast 0)
unfolding skip_bytes
signed_skip-Consumes (pos n) =
    Consumes-mono (Exactly n) (AtLeast 0) _ (skip-Consumes n) λ a k h. omega arith
signed_skip-Consumes (negsuc n) =
    Consumes-mono (Exactly 0) (AtLeast 0) _ (pure-Consumes tt) λ a k h. omega arith
