-- ===== src/CredentialCache/Laws.antt =====
-- What a `CredentialCache` (credential_cache/CredentialCache.cc) answers after each change.
use my_stest.Base.{
  ◌≡◌, refl, Text, text_eq, if◌then◌else◌, lookup-insert, lookup-erase, Bool-cases, inl, inr, List,
  [], ◌∷◌,
}
use my_stest.World.State.{CredentialTuple, CredentialCache}
use my_stest.CredentialCache.{empty_tuple, get, put, remove}

-- A put is seen under its key alone.
pub get-put :
    (c : CredentialCache) (k j : Text) (t : CredentialTuple)
    → get (put c k t) j ≡ (if text_eq k j then t else get c j)
unfolding get put
get-put c k j t =
    rw (lookup-insert j k t c.credential_map, get)
      (elim (Bool-cases (text_eq k j)) [ inl e ↦ rw e | inr e ↦ rw e ])

-- A removed key answers the empty tuple; every other key is as before.
pub get-remove :
    (c : CredentialCache) (k j : Text)
    → get (remove c k) j ≡ (if text_eq k j then empty_tuple else get c j)
unfolding get remove
get-remove c k j =
    rw (lookup-erase j k c.credential_map, get)
      (elim (Bool-cases (text_eq k j)) [ inl e ↦ rw e | inr e ↦ rw e ])

-- A change of the cache.
pub data Change : Type 0 where
  putting : Text → CredentialTuple → Change
  removing : Text → Change

abbrev pub apply : CredentialCache → Change → CredentialCache
apply c (putting k t) = put c k t
apply c (removing k) = remove c k

abbrev pub apply_all : CredentialCache → List Change → CredentialCache
apply_all c [] = c
apply_all c (x ∷ xs) = apply_all (apply c x) xs

-- What the last change of a key leaves, read from the list of changes alone.
abbrev pub last_change : Text → CredentialTuple → List Change → CredentialTuple
last_change j before [] = before
last_change j before (putting k t ∷ xs) = last_change j (if text_eq k j then t else before) xs
last_change j before (removing k ∷ xs) =
    last_change j (if text_eq k j then empty_tuple else before) xs

-- After any sequence of puts and removals from a cache, each key answers what its last change left,
-- and what the cache answered before if there was none.
pub get-apply_all :
    (xs : List Change) (c : CredentialCache) (j : Text)
    → get (apply_all c xs) j ≡ last_change j (get c j) xs
get-apply_all [] c j = refl
get-apply_all (putting k t ∷ xs) c j = rw (get-apply_all xs (put c k t) j, get-put)
get-apply_all (removing k ∷ xs) c j = rw (get-apply_all xs (remove c k) j, get-remove)
