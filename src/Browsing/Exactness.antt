-- ===== src/Browsing/Exactness.antt =====
-- Readers that take an encoding whole: parts of BroadcastUtils.java's parser against the bytes that
-- they read.
use my_stest.Base.{
  ℕ, zero, suc, ◌+◌, ◌-◌, ◌*◌, ◌≤◌, ◌<◌, pos, ◌≡◌, refl, sym, ap, true, false, Bool-cases, inl, inr,
  ltb, leb, Text, [], ◌∷◌, ◌++◌, append_assoc, length, length-append, take, drop, arith,
}
use my_stest.Provider.Slices.{length-take}
use my_stest.Browsing.Packets.{
  Parse, Parser, parsed, underflow, ◌>>=◌, ◌>>◌, pure, get_byte, get_char, get_bytes, skip,
  skip_bytes,
}

take-append-left : (k : ℕ) (w v : Text) → k < length w → take k (w ++ v) ≡ take k w
take-append-left k [] v h = absurd (omega arith)
take-append-left zero (x ∷ w) v h = refl
take-append-left (suc k) (x ∷ w) v h = ap (λ ys. x ∷ ys) (take-append-left k w v (omega arith))

take-append-right :
    (k : ℕ) (w v : Text) → length w ≤ k → take k (w ++ v) ≡ w ++ take (k - length w) v
take-append-right k [] v h = let e : k - 0 ≡ k = omega arith in rw e
take-append-right zero (x ∷ w) v h = absurd (omega arith)
take-append-right (suc k) (x ∷ w) v h =
    let e : suc k - suc (length w) ≡ k - length w = omega arith in
    rw e (ap (λ ys. x ∷ ys) (take-append-right k w v (omega arith)))

take-length-append : (w rest : Text) → take (length w) (w ++ rest) ≡ w
take-length-append [] rest = refl
take-length-append (x ∷ w) rest = ap (λ ys. x ∷ ys) (take-length-append w rest)

drop-length-append : (w rest : Text) → drop (length w) (w ++ rest) ≡ rest
drop-length-append [] rest = refl
drop-length-append (x ∷ w) rest = drop-length-append w rest

pub length-take-lt : (k : ℕ) (w : Text) → k < length w → length (take k w) ≡ k
length-take-lt k [] h = absurd (omega arith)
length-take-lt zero (x ∷ w) h = refl
length-take-lt (suc k) (x ∷ w) h = omega (arith, length-take-lt k w)

-- The reader takes exactly these bytes, whatever follows them, and no part of them is enough.
pub record Reads {A : Type 0} (m : Parser A) (w : Text) (a : A) : Type 0 where
  pub whole : (rest : Text) → m (w ++ rest) ≡ parsed a rest
  pub cut : (k : ℕ) → k < length w → m (take k w) ≡ underflow

pub pure-Reads : {A : Type 0} (a : A) → Reads (pure a) [] a
pure-Reads a = record { whole = λ rest. refl; cut = λ k h. absurd (omega arith) }

-- What follows a reader that has read.
pub >>=-parsed :
    {A B : Type 0} (m : Parser A) (f : A → Parser B) (w rest : Text) (a : A) (end : Parse B)
    → Reads m w a
    → f a rest ≡ end
    → (m >>= f) (w ++ rest) ≡ end
>>=-parsed m f w rest a end first then = rw (first.whole, ◌>>=◌) then

pub >>=-Reads :
    {A B : Type 0} (m : Parser A) (f : A → Parser B) (w v : Text) (a : A) (b : B)
    → Reads m w a
    → Reads (f a) v b
    → Reads (m >>= f) (w ++ v) b
>>=-Reads m f w v a b first then = record {
  whole = λ rest. rw (append_assoc, first.whole, ◌>>=◌) (then.whole rest);
  cut = λ k h. elim (Bool-cases (ltb k (length w))) [
    | inl e ↦
        let within : k < length w = ground arith in
        rw (take-append-left k w v within, first.cut k within, ◌>>=◌)
    | inr e ↦
        let past : length w ≤ k = ground arith in
        rw (take-append-right k w v past, first.whole, ◌>>=◌)
          (then.cut (k - length w) (omega (arith, length-append w v)))
  ];
}

pub get_byte-Reads : (b : ℕ) → Reads get_byte (b ∷ []) b
unfolding get_byte
get_byte-Reads b = record { whole = λ rest. refl; cut = λ k h. let e : k ≡ 0 = omega arith in rw e }

get_char-cut : (b c k : ℕ) → k < 2 → get_char (take k (b ∷ c ∷ [])) ≡ underflow
unfolding get_char
get_char-cut b c zero h = refl
get_char-cut b c (suc zero) h = refl
get_char-cut b c (suc (suc k)) h = absurd (omega arith)

pub get_char-Reads : (b c : ℕ) → Reads get_char (b ∷ c ∷ []) (b * 256 + c)
unfolding get_char
get_char-Reads b c = record { whole = λ rest. refl; cut = λ k h. get_char-cut b c k (omega arith) }

all_bytes-Reads : (w : Text) → Reads (get_bytes (length w)) w w
unfolding get_bytes
all_bytes-Reads w = record {
  whole = λ rest.
      let room : leb (length w) (length (w ++ rest)) ≡ true =
        let e = length-append w rest in ground arith in
      rw (room, take-length-append, drop-length-append);
  cut = λ k h.
      let short : leb (length w) (length (take k w)) ≡ false =
        let e = length-take-lt k w h in ground arith in
      rw short;
}

pub get_bytes-Reads : (n : ℕ) (w : Text) → length w ≡ n → Reads (get_bytes n) w w
get_bytes-Reads n w e = rw (← e) (all_bytes-Reads w)

pub skip-Reads : (w : Text) → Reads (skip (length w)) w tt
unfolding skip
skip-Reads [] = pure-Reads tt
skip-Reads (x ∷ w) =
    >>=-Reads get_byte (λ _. skip (length w)) (x ∷ []) w x tt (get_byte-Reads x) (skip-Reads w)

pub skip_bytes-Reads : (n : ℕ) (w : Text) → length w ≡ n → Reads (skip_bytes (pos n)) w tt
unfolding skip_bytes
skip_bytes-Reads n w e = rw (← e) (skip-Reads w)

take-append-drop : (n : ℕ) (w v : Text) → take n w ++ (drop n w ++ v) ≡ w ++ v
take-append-drop zero w v = refl
take-append-drop (suc n) [] v = refl
take-append-drop (suc n) (x ∷ w) v = ap (λ ys. x ∷ ys) (take-append-drop n w v)

-- Bytes that are skipped, before more of the same field.
pub skip_more-Reads :
    {B : Type 0} (k : Parser B) (n : ℕ) (w v : Text) (b : B)
    → n ≤ length w
    → Reads k (drop n w ++ v) b
    → Reads (skip_bytes (pos n) >> k) (w ++ v) b
skip_more-Reads k n w v b room then = rw (sym (take-append-drop n w v)) (
    >>=-Reads (skip_bytes (pos n)) (λ _. k) (take n w) (drop n w ++ v) tt b
      (skip_bytes-Reads n (take n w) (length-take n w room)) then)

-- Bytes that are skipped, to the end of their field.
pub skip_all-Reads :
    {B : Type 0} (k : Parser B) (n : ℕ) (w v : Text) (b : B)
    → length w ≡ n
    → Reads k v b
    → Reads (skip_bytes (pos n) >> k) (w ++ v) b
skip_all-Reads k n w v b size then =
    >>=-Reads (skip_bytes (pos n)) (λ _. k) w v tt b (skip_bytes-Reads n w size) then
