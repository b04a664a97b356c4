-- ===== src/JniHelper/Balance.antt =====
-- How often the bytes of each Java string were got and released (jni_helper/JniHelper.cc).
use my_stest.Base.{ℕ, ◌+◌, ◌≡◌, true, [], ◌∷◌, ◌==◌, if◌then◌else◌}
use my_stest.World.Calls.{Event, Trace, got_chars, released_chars}
use my_stest.World.State.{State}

-- The successful `GetStringUTFChars` for the string of a reference.
abbrev pub got_by : ℕ → Event → ℕ
got_by r (got_chars j true) = if j.ref == r then 1 else 0
got_by r _ = 0

abbrev pub gets : ℕ → Trace → ℕ
gets r [] = 0
gets r (e ∷ t) = got_by r e + gets r t

-- The `ReleaseStringUTFChars` for it.
abbrev pub released_by : ℕ → Event → ℕ
released_by r (released_chars j) = if j.ref == r then 1 else 0
released_by r _ = 0

abbrev pub releases : ℕ → Trace → ℕ
releases r [] = 0
releases r (e ∷ t) = released_by r e + releases r t

-- Between two states each string was released as often as it was got.
abbrev pub Balanced : State → State → Type 0
Balanced s t = (r : ℕ) → gets r t.trace + releases r s.trace ≡ gets r s.trace + releases r t.trace
