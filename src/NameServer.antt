-- ===== src/NameServer.antt =====
-- programs/nameserver/src/main.c and programs/nameserver/include/nameserver/nameserver.h: a table from
-- the hashes of names to endpoints, and the requests on it.
pub mod Table
pub mod Bind
pub mod Latest
pub mod Requests
pub mod Hash
mod Tests
use c4_os.Prelude.{
  ℕ, zero, suc, ◌+◌, ◌*◌, ◌-◌, ◌%◌, ◌^◌, Bool, true, false, ◌&&◌, List, [], ◌∷◌, ◌++◌, ◌==◌, ltb,
  if◌then◌else◌,
}

-- `name_entry_t`; a free entry's hash is 0.
pub record NameEntry : Type 0 where
  pub hash : ℕ
  pub endpoint : ℕ

abbrev pub max_name_entries : ℕ
max_name_entries = 512

-- The memory from the array `names` on, by entry.
abbrev pub Names : Type 0
Names = ℕ → NameEntry

-- The loop of `bind_name`, over the entries left from `i` on: the entry of the name, or else the
-- first free one, or else the one behind the array.
unfoldable pub find_slot : ℕ → ℕ → ℕ → Names → ℕ
find_slot zero i name m = i
find_slot (suc n) i name m =
    let rest = find_slot n (i + 1) name m in
    if (m i).hash == 0 then i else if name == (m i).hash then i else rest

unfoldable pub bind_name : ℕ → ℕ → Names → Names
bind_name obj name m =
    let slot = find_slot max_name_entries 0 name m in
    λ j. if j == slot then record { hash = name; endpoint = obj } else m j

-- The loop of `lookup_name`.
unfoldable pub lookup_from : ℕ → ℕ → ℕ → Names → ℕ
lookup_from zero i name m = 0
lookup_from (suc n) i name m =
    let rest = lookup_from n (i + 1) name m in
    if (m i).hash == 0 then 0 else if name == (m i).hash then (m i).endpoint else rest

unfoldable pub lookup_name : ℕ → Names → ℕ
lookup_name name m = lookup_from max_name_entries 0 name m

-- What the server asks of the kernel.
pub data Action : Type 0 where
  cspace_grant : ℕ → ℕ → Action
  cspace_remove : ℕ → Action
  lookup_failed : ℕ → Action

-- `obj > 0` of an `int32_t`.
abbrev pub is_positive : ℕ → Bool
is_positive w = ltb 0 w && ltb w (2 ^ 31)

-- The second message on a client's endpoint; of `NAME_BIND`, with the object that follows.
pub data Request : Type 0 where
  name_lookup : ℕ → Request
  name_bind : ℕ → ℕ → Request
  name_unbind : Request
  unknown : Request

-- The other server's answer to `nameserver_lookup_hash` is a parameter.
module _ (remote : ℕ → ℕ) where
  unfoldable pub handle_lookup : ℕ → ℕ → Bool → Names → List Action
  handle_lookup responseq name forward m =
      let obj = lookup_name name m in
      let far = remote name in
      let done = cspace_remove responseq ∷ [] in
      if is_positive obj
      then cspace_grant obj responseq ∷ done
      else if forward && is_positive far
      then cspace_grant far responseq ∷ cspace_remove far ∷ done
      else lookup_failed responseq ∷ done

  -- One round of the loop of `main`, for the client's endpoint `temp`.
  unfoldable pub serve : Bool → ℕ → Request → Names → Names × List Action
  serve forward temp (name_lookup name) m =
      (m, handle_lookup temp name forward m ++ cspace_remove temp ∷ [])
  serve forward temp (name_bind name obj) m = (bind_name obj name m, cspace_remove temp ∷ [])
  serve forward temp name_unbind m = (m, cspace_remove temp ∷ [])
  serve forward temp unknown m = (m, cspace_remove temp ∷ [])

-- A `char` is signed, and as an `int` added to an `unsigned`.
abbrev pub char_to_int : ℕ → ℕ
char_to_int c = if ltb c 128 then c else c + 2 ^ 32 - 2 ^ 8

-- The loop of `nameserver_hash` over the characters before the final 0.
unfoldable pub hash_from : ℕ → List ℕ → ℕ
hash_from hash [] = hash
hash_from hash (c ∷ cs) =
    hash_from (((hash * 2 ^ 7 % 2 ^ 32 + hash) % 2 ^ 32 + char_to_int c) % 2 ^ 32) cs

unfoldable pub nameserver_hash : List ℕ → ℕ
nameserver_hash str = hash_from 757 str
