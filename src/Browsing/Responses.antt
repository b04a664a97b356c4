-- ===== src/Browsing/Responses.antt =====
-- `extractServers` of BroadcastUtils.java.
use my_stest.Base.{
  ℕ, zero, suc, ℤ, pos, negsuc, Bool, true, false, Text, List, [], ◌∷◌, if◌then◌else◌, ◌++◌, ltb,
  leb, ◌==◌, ◌||◌,
}
use my_stest.Browsing.Packets.{
  parsed, underflow, browsing_exception, Parser, ◌>>=◌, ◌>>◌, pure, throw, signed_byte, get_byte,
  get_char, get_bytes, skip_bytes,
}

abbrev pub file_server_node_type : ℕ
file_server_node_type = 0x20

abbrev pub server_name_length : ℕ
server_name_length = 15

-- The characters of `new String(bytes, US_ASCII)`: what is no ASCII is U+FFFD.
unfoldable pub ascii : Text → Text
ascii [] = []
ascii (b ∷ bs) = (if ltb b 128 then b else 0xfffd) ∷ ascii bs

-- `String.trim`: the characters up to the space are dropped at both ends.
unfoldable pub trim_start : Text → Text
trim_start [] = []
trim_start (c ∷ cs) = elim (leb c 32) [ true ↦ trim_start cs | false ↦ c ∷ cs ]

unfoldable pub trim_end : Text → Text
trim_end [] = []
trim_end (c ∷ cs) = elim (trim_end cs) [
  | [] ↦ if leb c 32 then [] else c ∷ []
  | d ∷ ds ↦ c ∷ d ∷ ds
]

unfoldable pub trim : Text → Text
unfolding trim_start trim_end
trim s = trim_end (trim_start s)

-- The rounds that are left of the loop over the entries. A list grows at its end: the names found
-- so far stand before those of the rounds to come.
unfoldable pub entries : ℕ → List Text → Parser (List Text)
unfolding get_bytes get_byte skip_bytes ascii trim
entries zero servers = pure servers
entries (suc n) servers = do
  name_array ← get_bytes server_name_length
  let server_name = ascii name_array
  type ← get_byte
  let servers' = if type == file_server_node_type then servers ++ trim server_name ∷ [] else servers
  skip_bytes (pos 2)
  entries n servers'

-- `i < count` with `i` from 0 on.
abbrev pub rounds : ℤ → ℕ
rounds (pos n) = n
rounds (negsuc n) = 0

-- From behind the transaction id to the length of the name that was asked for.
unfoldable pub read_name_length : Parser ℕ
unfolding get_byte skip_bytes
read_name_length = do
  skip_bytes (pos 2)
  skip_bytes (pos 2)
  skip_bytes (pos 2)
  skip_bytes (pos 2)
  skip_bytes (pos 2)
  get_byte

-- From there to the status.
unfoldable pub read_node_status : ℕ → Parser ℕ
unfolding get_char skip_bytes signed_byte
read_node_status name_length = do skip_bytes (signed_byte name_length); skip_bytes (pos 1); get_char

-- From there to the end.
unfoldable pub read_list : Parser (List Text)
unfolding get_byte skip_bytes signed_byte entries
read_list = do
  skip_bytes (pos 2)
  skip_bytes (pos 4)
  skip_bytes (pos 2)
  address_list_entry_count ← get_byte
  entries (rounds (signed_byte address_list_entry_count)) []

-- The part behind the transaction id.
unfoldable pub extract_rest : Parser (List Text)
unfolding read_name_length read_node_status read_list
extract_rest = do
  name_length ← read_name_length
  node_status ← read_node_status name_length
  if (node_status == 0x20) || (node_status == 0x21) then pure tt else throw
  read_list

-- `transId != expectedTransId`, of an `int` from a char and any other.
abbrev pub same_id : ℕ → ℤ → Bool
same_id c (pos n) = c == n
same_id c (negsuc n) = false

unfoldable pub read_servers : ℤ → Parser (List Text)
unfolding get_char extract_rest
read_servers expected_trans_id = do
  trans_id ← get_char
  if same_id trans_id expected_trans_id then extract_rest else pure []

-- What `extractServers` returns or throws.
pub data Extracted : Type 0 where
  servers : List Text → Extracted
  negative_response : Extracted

unfoldable pub extract_servers : Text → ℤ → Extracted
unfolding read_servers
extract_servers packet expected_trans_id = elim (read_servers expected_trans_id packet) [
  | parsed found rest ↦ servers found
  | underflow ↦ servers []
  | browsing_exception ↦ negative_response
]
