-- ===== src/Browsing/Names.antt =====
-- Server names as the entries of a response hold them, and as BroadcastUtils.java shows them.
use my_stest.Base.{
  ℕ, zero, suc, ◌<◌, ◌≡◌, refl, ap, true, false, leb, ltb, Text, [], ◌∷◌, ◌++◌, arith,
}
use my_stest.Browsing.Responses.{ascii, trim, trim_start, trim_end}

-- Printable ASCII without spaces.
abbrev pub IsName : Text → Type 0
IsName [] = Unit {0}
IsName (c ∷ cs) = (32 < c) × (c < 128) × IsName cs

abbrev pub spaces : ℕ → Text
spaces zero = []
spaces (suc n) = 32 ∷ spaces n

ascii-padded : (s : Text) (n : ℕ) → IsName s → ascii (s ++ spaces n) ≡ s ++ spaces n
unfolding ascii
ascii-padded [] zero h = refl
ascii-padded [] (suc n) h = ap (λ cs. 32 ∷ cs) (ascii-padded [] n h)
ascii-padded (c ∷ s) n (more, low, h) =
    let e : ltb c 128 ≡ true = ground arith in
    rw (e, ascii) (ap (λ cs. c ∷ cs) (ascii-padded s n h))

trim_start-spaces : (n : ℕ) → trim_start (spaces n) ≡ []
unfolding trim_start
trim_start-spaces zero = refl
trim_start-spaces (suc n) = trim_start-spaces n

trim_end-spaces : (n : ℕ) → trim_end (spaces n) ≡ []
unfolding trim_end
trim_end-spaces zero = refl
trim_end-spaces (suc n) = rw (trim_end-spaces n)

trim_end-padded : (s : Text) (n : ℕ) → IsName s → trim_end (s ++ spaces n) ≡ s
unfolding trim_end
trim_end-padded [] n h = trim_end-spaces n
trim_end-padded (c ∷ []) n (more, low, h) =
    let e : leb c 32 ≡ false = ground arith in rw (trim_end-spaces n, trim_end) (rw e)
trim_end-padded (c ∷ d ∷ s) n (more, low, h) = rw (trim_end-padded (d ∷ s) n h, trim_end)

-- A name that spaces fill up to the size of its field is shown as it is.
pub trim-padded : (s : Text) (n : ℕ) → IsName s → trim (ascii (s ++ spaces n)) ≡ s
unfolding trim trim_start
trim-padded [] n h = rw (ascii-padded [] n h, trim_start-spaces)
trim-padded (c ∷ s) n (more, low, h) =
    let e : leb c 32 ≡ false = ground arith in
    rw (ascii-padded (c ∷ s) n (more, low, h), e, trim_start)
      (trim_end-padded (c ∷ s) n (more, low, h))
