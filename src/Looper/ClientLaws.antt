-- ===== src/Looper/ClientLaws.antt =====
-- A call through a message against the call itself: SambaFileClient.java.
use my_stest.Base.{ℕ, ◌≡◌, arith}
use my_stest.Looper.Values.{MessageValues, clear_values}
use my_stest.Looper.FileClient.{
  SmbFile, FileCall, what, arg1, fill, result, process_message, direct,
}

module _ {S : Type 0} (file : SmbFile S) (unsupported : ℕ) where
  -- The values after the looper has processed a call whose message had clear values, and the state.
  abbrev pub processed : FileCall → S → MessageValues × S
  processed c = process_message file unsupported (what c) (arg1 c) (fill c clear_values)

  -- For every call of SambaFileClient with values that were clear, on every state: what the client
  -- returns or throws after the looper has processed its message, and the state left, are those of the
  -- method called directly, its IOExceptions and RuntimeExceptions included.
  pub result-processed :
      (c : FileCall) (s : S)
      → (result c (processed c s).0 ≡ (direct file c s).0)
        × ((processed c s).1 ≡ (direct file c s).1)
  unfolding result process_message direct what arg1 fill
  result-processed (FileCall.read buffer max_len) s = ground arith
  result-processed (FileCall.write buffer length) s = ground arith
  result-processed (FileCall.seek offset) s = ground arith
  result-processed FileCall.fstat s = ground arith
  result-processed FileCall.close s = ground arith
