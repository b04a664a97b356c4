-- ===== src/Provider/Slices.antt =====
-- Lists cut at native numbers, as a transfer fills an array (SambaProxyFileCallback.java).
use my_stest.Base.{
  ℕ, zero, suc, ◌+◌, ◌-◌, ◌≤◌, ◌≡◌, refl, sym, ap, ◌∙◌, Text, [], ◌∷◌, ◌++◌, append_assoc, length,
  length-append, take, drop, arith,
}
use my_stest.Provider.Transfers.{splice}

pub length-drop : (k : ℕ) (xs : Text) → length (drop k xs) ≡ length xs - k
length-drop zero xs = omega arith
length-drop (suc k) [] = omega arith
length-drop (suc k) (x ∷ xs) = omega (arith, length-drop k xs)

pub length-take : (k : ℕ) (xs : Text) → k ≤ length xs → length (take k xs) ≡ k
length-take zero xs h = refl
length-take (suc k) [] h = omega arith
length-take (suc k) (x ∷ xs) h = omega (arith, length-take k xs)

pub length-splice :
    (at : ℕ) (xs old : Text) → at + length xs ≤ length old → length (splice at xs old) ≡ length old
length-splice at xs old h =
    rw (length-append, length-append, length-take at old (omega arith), length-drop) (omega arith)

pub drop-drop : (t k : ℕ) (xs : Text) → drop k (drop t xs) ≡ drop (t + k) xs
drop-drop zero k xs = let e : 0 + k ≡ k = omega arith in rw e
drop-drop (suc t) zero [] = let e : suc t + 0 ≡ suc t = omega arith in rw e
drop-drop (suc t) (suc k) [] = let e : suc t + suc k ≡ suc (t + suc k) = omega arith in rw e
drop-drop (suc t) k (x ∷ xs) =
    let e : suc t + k ≡ suc (t + k) = omega arith in rw e (drop-drop t k xs)

pub take-add : (t k : ℕ) (xs : Text) → take (t + k) xs ≡ take t xs ++ take k (drop t xs)
take-add zero k xs = let e : 0 + k ≡ k = omega arith in rw e
take-add (suc t) zero [] = let e : suc t + 0 ≡ suc t = omega arith in rw e
take-add (suc t) (suc k) [] = let e : suc t + suc k ≡ suc (t + suc k) = omega arith in rw e
take-add (suc t) k (x ∷ xs) =
    let e : suc t + k ≡ suc (t + k) = omega arith in rw e (ap (λ ys. x ∷ ys) (take-add t k xs))

pub take-append-length : (w r : Text) → take (length w) (w ++ r) ≡ w
take-append-length [] r = refl
take-append-length (x ∷ w) r = ap (λ ys. x ∷ ys) (take-append-length w r)

drop-append-length : (w r : Text) (k : ℕ) → drop (length w + k) (w ++ r) ≡ drop k r
drop-append-length [] r k = let e : 0 + k ≡ k = omega arith in rw e
drop-append-length (x ∷ w) r k =
    let e : suc (length w) + k ≡ suc (length w + k) = omega arith in rw e (drop-append-length w r k)

-- More taken than there is.
pub take-all : (t n : ℕ) (xs : Text) → length xs ≤ t → t ≤ n → take n xs ≡ take t xs
take-all zero zero xs h le = refl
take-all zero (suc n) [] h le = refl
take-all zero (suc n) (x ∷ xs) h le = absurd (omega arith)
take-all (suc t) zero xs h le = absurd (omega arith)
take-all (suc t) (suc n) [] h le = refl
take-all (suc t) (suc n) (x ∷ xs) h le =
    ap (λ ys. x ∷ ys) (take-all t n xs (omega arith) (omega arith))

-- Bytes put behind those that are there.
pub splice-append :
    (w u old : Text) (t : ℕ)
    → length w ≡ t
    → splice t u (w ++ drop t old) ≡ (w ++ u) ++ drop (t + length u) old
splice-append w u old t e =
    let size = length w in
    rw (← e) (rw (take-append-length, drop-append-length, drop-drop, append_assoc))

pub length-take-length : (k : ℕ) (xs : Text) → length (take k xs) ≤ length xs
length-take-length zero xs = omega arith
length-take-length (suc k) [] = omega arith
length-take-length (suc k) (x ∷ xs) = omega (arith, length-take-length k xs)

pub take-long : (n : ℕ) (xs : Text) → length xs ≤ n → take n xs ≡ xs
take-long zero [] h = refl
take-long zero (x ∷ xs) h = absurd (omega arith)
take-long (suc n) [] h = refl
take-long (suc n) (x ∷ xs) h = ap (λ ys. x ∷ ys) (take-long n xs (omega arith))

pub take-append-left : (k : ℕ) (w r : Text) → k ≤ length w → take k (w ++ r) ≡ take k w
take-append-left zero w r h = refl
take-append-left (suc k) [] r h = absurd (omega arith)
take-append-left (suc k) (x ∷ w) r h = ap (λ ys. x ∷ ys) (take-append-left k w r (omega arith))

-- The first bytes of a take are the first bytes.
take-take : (k m : ℕ) (xs : Text) → (j : ℕ) × (take k (take m xs) ≡ take j xs)
take-take zero m xs = (0, refl)
take-take (suc k) zero xs = (0, refl)
take-take (suc k) (suc m) [] = (0, refl)
take-take (suc k) (suc m) (x ∷ xs) = let (j, e) = take-take k m xs in (suc j, ap (λ ys. x ∷ ys) e)

-- So are the first bytes of a later part, behind those before it.
pub take-take-add :
    (t k : ℕ) (xs : Text)
    → (j : ℕ → ℕ) × ((few : ℕ) → take t xs ++ take few (take k (drop t xs)) ≡ take (j few) xs)
take-take-add t k xs = (
  λ few. t + (take-take few k (drop t xs)).0,
  λ few.
      ap (λ ys. take t xs ++ ys) (take-take few k (drop t xs)).1
      ∙ sym (take-add t (take-take few k (drop t xs)).0 xs),
)
