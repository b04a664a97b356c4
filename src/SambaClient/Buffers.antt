-- ===== src/SambaClient/Buffers.antt =====
-- How `GetAuthData` (samba_client/SambaClient.cc) fills one buffer.
use my_stest.Base.{
  HasNoNul, ℕ, suc, ◌≤◌, ◌<◌, ◌≡◌, refl, some, [], ◌∷◌, ◌++◌, Text, arith, length, drop, ap, ◌==◌,
  if◌then◌else◌,
}
use my_stest.SambaClient.Auth.{padded, strncpy, put_nul, fill}

-- The text that a C program reads from a buffer: the bytes up to the first NUL.
unfoldable pub read_text : Text → Text
read_text [] = []
read_text (c ∷ s) = let rest = c ∷ read_text s in if c == 0 then [] else rest

padded_lem : (s : Text) → HasNoNul s → padded (length s) s ≡ s
unfolding padded
padded_lem [] h = refl
padded_lem (c ∷ s) h = ground (arith, padded_lem s h.1)

put_nul-append :
    (s buffer : Text)
    → length s < length buffer
    → put_nul (s ++ drop (length s) buffer) (length s)
      ≡ some (s ++ 0 ∷ drop (suc (length s)) buffer)
unfolding put_nul
put_nul-append [] [] h = elim h [ ]
put_nul-append [] (c ∷ buffer) h = refl
put_nul-append (d ∷ s) [] h = elim h [ ]
put_nul-append (d ∷ s) (c ∷ buffer) h = rw (put_nul-append s buffer (omega arith)) refl

strncpy_lem :
    (buffer s : Text) (n : ℕ)
    → n ≤ length buffer
    → strncpy buffer s n ≡ some (padded n s ++ drop n buffer)
unfolding strncpy
strncpy_lem buffer s n h = ground arith

-- The buffer with the text, its NUL, and the bytes behind as they were.
abbrev pub copied : Text → Text → Text
copied buffer s = s ++ 0 ∷ drop (suc (length s)) buffer

-- A text that is shorter than the buffer is copied with its NUL, and the bytes behind are left.
pub fill_lem :
    (buffer s : Text)
    → HasNoNul s
    → length s < length buffer
    → fill buffer s ≡ some (copied buffer s)
unfolding fill
fill_lem buffer s plain fits =
    rw (strncpy_lem buffer s (length s) (omega arith), fill)
      (rw (padded_lem s plain) (put_nul-append s buffer fits))

read_text-append : (s rest : Text) → HasNoNul s → read_text (s ++ 0 ∷ rest) ≡ s
unfolding read_text
read_text-append [] rest h = refl
read_text-append (c ∷ s) rest h = ground (arith, read_text-append s rest h.1)

length-copied :
    (buffer s : Text) → length s < length buffer → length (copied buffer s) ≡ length buffer
length-copied [] [] h = elim h [ ]
length-copied (c ∷ buffer) [] h = refl
length-copied [] (d ∷ s) h = elim h [ ]
length-copied (c ∷ buffer) (d ∷ s) h = ap suc (length-copied buffer s (omega arith))

drop-copied :
    (buffer s : Text) → drop (suc (length s)) (copied buffer s) ≡ drop (suc (length s)) buffer
drop-copied buffer [] = refl
drop-copied [] (d ∷ s) = drop-copied [] s
drop-copied (c ∷ buffer) (d ∷ s) = drop-copied buffer s

-- After the copy the buffer reads as the text; its size and the bytes behind the NUL are as before.
pub record Filled (before after s : Text) : Type 0 where
  pub reads : read_text after ≡ s
  pub same_size : length after ≡ length before
  pub rest_kept : drop (suc (length s)) after ≡ drop (suc (length s)) before

pub copied-Filled :
    (buffer s : Text) → HasNoNul s → length s < length buffer → Filled buffer (copied buffer s) s
copied-Filled buffer s plain fits = record {
  reads = read_text-append s _ plain;
  same_size = length-copied buffer s fits;
  rest_kept = drop-copied buffer s;
}
