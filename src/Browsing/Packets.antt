-- ===== src/Browsing/Packets.antt =====
-- `java.nio.ByteBuffer` as BroadcastUtils.java uses it: a buffer that is read from its position on,
-- and one of a fixed size that is written.
use my_stest.Base.{
  ℕ, zero, suc, ◌+◌, ◌-◌, ◌*◌, ◌/◌, ◌%◌, ◌^◌, ℤ, pos, negsuc, Option, none, some, Text, [], ◌∷◌,
  if◌then◌else◌, ◌++◌, length, take, drop, ltb, leb, to_word,
}

-- The end of a method that reads `unread`, the bytes from the position to the limit.
pub data Parse (A : Type 0) : Type 0 where
  parsed : A → Text → Parse A
  underflow browsing_exception : Parse A

abbrev pub Parser : Type 0 → Type 0
Parser A = Text → Parse A

infixl 5 ◌>>=◌ ◌>>◌
abbrev pub ◌>>=◌ : {A B : Type 0} → Parser A → (A → Parser B) → Parser B
◌>>=◌ m f unread = elim (m unread) [
  | parsed a rest ↦ f a rest
  | underflow ↦ underflow
  | browsing_exception ↦ browsing_exception
]

abbrev pub ◌>>◌ : {B : Type 0} → Parser (Unit {0}) → Parser B → Parser B
m >> k = m >>= λ _. k

abbrev pub pure : {A : Type 0} → A → Parser A
pure a unread = parsed a unread

abbrev pub throw : {A : Type 0} → Parser A
throw unread = browsing_exception

-- A Java `byte` from its bits.
unfoldable pub signed_byte : ℕ → ℤ
signed_byte b = if ltb b 128 then pos b else negsuc (255 - b)

-- `get()`
unfoldable pub get_byte : Parser ℕ
get_byte [] = underflow
get_byte (b ∷ rest) = parsed b rest

-- `getChar()`, with the first byte the more significant.
unfoldable pub get_char : Parser ℕ
get_char [] = underflow
get_char (b ∷ []) = underflow
get_char (b ∷ c ∷ rest) = parsed (b * 256 + c) rest

-- `get(array, 0, size)`
unfoldable pub get_bytes : ℕ → Parser Text
get_bytes size unread =
    if leb size (length unread) then parsed (take size unread) (drop size unread) else underflow

-- `skipBytes`
unfoldable pub skip : ℕ → Parser (Unit {0})
unfolding get_byte
skip zero = pure tt
skip (suc n) = do _ ← get_byte; skip n

unfoldable pub skip_bytes : ℤ → Parser (Unit {0})
unfolding skip
skip_bytes (pos n) = skip n
skip_bytes (negsuc n) = pure tt

-- A buffer that is written: its array and its position. `none` is a BufferOverflowException.
pub record Output : Type 0 where
  pub position : ℕ
  pub contents : Text

abbrev pub Writer : Type 0
Writer = Output → Option Output

infixl 5 ◌>=>◌
abbrev pub ◌>=>◌ : Writer → Writer → Writer
◌>=>◌ m k o = elim (m o) [ none ↦ none | some o' ↦ k o' ]

abbrev pub zeros : ℕ → Text
zeros zero = []
zeros (suc n) = 0 ∷ zeros n

-- `ByteBuffer.allocate(size)`
abbrev pub allocate : ℕ → Output
allocate size = record { position = 0; contents = zeros size }

-- Bytes put at the position.
unfoldable pub put_bytes : Text → Writer
put_bytes bs o =
    let end = o.position + length bs in
    if leb end (length o.contents)
    then some (record {
      position = end;
      contents = take o.position o.contents ++ bs ++ drop end o.contents;
    })
    else none

-- `put`, of the low eight bits.
unfoldable pub put_byte : ℕ → Writer
unfolding put_bytes
put_byte b = put_bytes (b % 256 ∷ [])

-- `(char) x`
unfoldable pub to_char : ℤ → ℕ
unfolding to_word
to_char x = to_word x % 2 ^ 16

-- `putChar`
unfoldable pub put_char : ℕ → Writer
unfolding put_bytes
put_char c = put_bytes ((c / 256 % 256) ∷ (c % 256) ∷ [])
