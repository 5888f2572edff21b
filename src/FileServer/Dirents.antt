-- ===== src/FileServer/Dirents.antt =====
-- The bytes of the filesystem's buffer, and the entries of a directory in them.
use c4_os.Prelude.{
  ℕ, zero, suc, ◌+◌, ◌-◌, ◌*◌, ◌/◌, ◌%◌, ◌^◌, Bool, true, false, Option, none, some, List, [], ◌∷◌,
  length, ltb, ◌==◌, if◌then◌else◌, add32,
}

unfoldable pub translate_type : ℕ → ℕ
translate_type ext_type =
    if ext_type == 1 then 1 else if ext_type == 2 then 2 else if ext_type == 7 then 3 else 0

-- A byte of a memory of words, the lowest first.
unfoldable pub byte_at : (ℕ → ℕ) → ℕ → ℕ
byte_at words i = words (i / 4) / 2 ^ (8 * (i % 4)) % 2 ^ 8

unfoldable pub bytes_from : ℕ → ℕ → (ℕ → ℕ) → List ℕ
bytes_from zero i words = []
bytes_from (suc n) i words = byte_at words i ∷ bytes_from n (i + 1) words

unfoldable pub with_byte : ℕ → ℕ → (ℕ → ℕ) → ℕ → ℕ
with_byte i value words k =
    let old = byte_at words i in
    let scale = 2 ^ (8 * (i % 4)) in
    if k == i / 4 then words k - old * scale + value * scale else words k

unfoldable pub with_bytes : ℕ → List ℕ → (ℕ → ℕ) → ℕ → ℕ
with_bytes i [] words = words
with_bytes i (x ∷ xs) words = with_bytes (i + 1) xs (with_byte i x words)

-- The fields of a directory's entry: `inode`, `size`, `name_length`, `type` and `name`.
unfoldable pub dirent_inode : (ℕ → ℕ) → ℕ → ℕ
dirent_inode words at =
    byte_at words at
    + byte_at words (at + 1) * 2 ^ 8
    + byte_at words (at + 2) * 2 ^ 16
    + byte_at words (at + 3) * 2 ^ 24

unfoldable pub dirent_size : (ℕ → ℕ) → ℕ → ℕ
dirent_size words at = byte_at words (at + 4) + byte_at words (at + 5) * 2 ^ 8

unfoldable pub name_length : (ℕ → ℕ) → ℕ → ℕ
name_length words at = byte_at words (at + 6)

unfoldable pub dirent_type : (ℕ → ℕ) → ℕ → ℕ
dirent_type words at = byte_at words (at + 7)

-- The loop of `name_matches` over the bytes of the name.
unfoldable pub same_bytes : (ℕ → ℕ) → ℕ → List ℕ → Bool
same_bytes words i [] = true
same_bytes words i (x ∷ xs) =
    let rest = same_bytes words (i + 1) xs in if x == byte_at words i then rest else false

unfoldable pub name_matches : (ℕ → ℕ) → ℕ → List ℕ → Bool
name_matches words at name =
    if name_length words at == length name then same_bytes words (at + 8) name else false

-- The inner loop of `handle_find_name`, over the entries of a block of `size` bytes.
unfoldable pub find_entry : ℕ → (ℕ → ℕ) → ℕ → ℕ → List ℕ → Option (Option ℕ)
find_entry zero words size i name = none
find_entry (suc fuel) words size i name =
    let rest = find_entry fuel words size (add32 i (dirent_size words i)) name in
    if ltb i size then (if name_matches words i name then some (some i) else rest) else some none
