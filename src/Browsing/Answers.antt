-- ===== src/Browsing/Answers.antt =====
-- Node status responses as the servers of a network send them, byte by byte, for BroadcastUtils.java
-- to parse.
use my_stest.Base.{
  ℕ, ◌-◌, ◌/◌, ◌%◌, ◌≤◌, ◌<◌, ◌≡◌, ◌⊎◌, ◌==◌, if◌then◌else◌, Text, List, [], ◌∷◌, ◌++◌, length,
}
use my_stest.Browsing.Names.{IsName, spaces}

-- An entry of the list: a name in a field of 15 bytes, the type of its node, two bytes of flags.
pub record Entry : Type 0 where
  pub name : Text
  pub kind : ℕ
  pub flag_high : ℕ
  pub flag_low : ℕ

abbrev pub entry_name : Entry → Text
entry_name e = e.name ++ spaces (15 - length e.name)

abbrev pub entry_bytes : Entry → Text
entry_bytes e = entry_name e ++ e.kind ∷ e.flag_high ∷ e.flag_low ∷ []

abbrev pub list_bytes : List Entry → Text
list_bytes [] = []
list_bytes (e ∷ es) = entry_bytes e ++ list_bytes es

-- A response: the flags and counts of its header, the name that was asked for and the byte behind
-- it, the type, the fields up to the list, and the list.
pub record Answer : Type 0 where
  pub header : Text
  pub asked : Text
  pub null : ℕ
  pub type_low : ℕ
  pub fields : Text
  pub names : List Entry

-- The bytes behind the transaction id up to the type.
abbrev pub head_bytes : Answer → Text
head_bytes a = a.header ++ length a.asked ∷ []

abbrev pub type_bytes : Answer → Text
type_bytes a = a.asked ++ a.null ∷ 0 ∷ a.type_low ∷ []

-- The bytes behind the transaction id, with a given count of entries and given bytes behind it.
abbrev pub counted_bytes : Answer → ℕ → Text → Text
counted_bytes a count v = head_bytes a ++ (type_bytes a ++ (a.fields ++ count ∷ v))

abbrev pub answer_bytes : Answer → Text
answer_bytes a = counted_bytes a (length a.names) (list_bytes a.names)

-- A response to the transaction of an id.
abbrev pub packet_bytes : ℕ → Text → Text
packet_bytes t v = (t / 256) ∷ (t % 256) ∷ v

-- The types of nodes that serve files, in the order of the list.
abbrev pub file_servers : List Entry → List Text
file_servers [] = []
file_servers (e ∷ es) = if e.kind == 0x20 then e.name ∷ file_servers es else file_servers es

abbrev pub AreNames : List Entry → Type 0
AreNames [] = Unit {0}
AreNames (e ∷ es) = IsName e.name × (length e.name ≤ 15) × AreNames es

-- A response with the sizes of its fields up to the type.
pub record HasHead (a : Answer) : Type 0 where
  pub header_size : length a.header ≡ 10
  pub asked_size : length a.asked < 128

-- A positive response.
pub record IsPositiveAnswer (a : Answer) : Type 0 where
  pub head : HasHead a
  pub type_known : (a.type_low ≡ 0x20) ⊎ (a.type_low ≡ 0x21)
  pub fields_size : length a.fields ≡ 8
  pub are_names : AreNames a.names
