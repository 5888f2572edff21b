-- ===== src/FileServer/Names.antt =====
-- The search of a name in a block of a directory.
use c4_os.Prelude.{
  ℕ, zero, suc, ◌+◌, ◌^◌, ◌<◌, ◌≡◌, ◌≢◌, refl, sym, ap, ap₂, arith, true, false, Option, none, some,
  List, [], ◌∷◌, length, ltb, ◌==◌, add32, Bool-cases, ==-same, inl, inr, ◌⊎◌,
}
use c4_os.FileServer.{
  byte_at, bytes_from, dirent_size, name_length, same_bytes, name_matches, find_entry,
}

-- The name of the entry at `at`.
abbrev pub entry_name : (ℕ → ℕ) → ℕ → List ℕ
entry_name words at = bytes_from (name_length words at) (at + 8) words

-- The entries that begin at `ps` fill the bytes from `i` to `size`, one after the other.
abbrev pub AreEntries : (ℕ → ℕ) → ℕ → ℕ → List ℕ → Type 0
AreEntries words size i [] = i ≡ size
AreEntries words size i (p ∷ ps) =
    (i ≡ p) × (p < size) × AreEntries words size (p + dirent_size words p) ps

-- What is found is the first of the entries with the name; before it there is none.
abbrev pub IsFirst : (ℕ → ℕ) → List ℕ → List ℕ → Option ℕ → Type 0
IsFirst words name [] found = found ≡ none
IsFirst words name (p ∷ ps) found =
    ((entry_name words p ≡ name) × (found ≡ some p))
    ⊎ ((entry_name words p ≢ name) × IsFirst words name ps found)

head_of : ℕ → List ℕ → ℕ
head_of d [] = d
head_of d (x ∷ xs) = x

tail_of : List ℕ → List ℕ
tail_of [] = []
tail_of (x ∷ xs) = xs

same_bytes-bytes_from :
    (words : ℕ → ℕ) (i : ℕ) (name : List ℕ)
    → ((same_bytes words i name ≡ true) × (bytes_from (length name) i words ≡ name))
      ⊎ ((same_bytes words i name ≡ false) × (bytes_from (length name) i words ≢ name))
unfolding same_bytes bytes_from head_of tail_of
same_bytes-bytes_from words i [] = inl (refl, refl)
same_bytes-bytes_from words i (x ∷ xs) = elim (Bool-cases (x == byte_at words i)) [
  | inr e ↦ rw e (inr (refl, λ z. ground (arith, e, ap (head_of 0) z)))
  | inl e ↦ elim (same_bytes-bytes_from words (i + 1) xs) [
    | inl rest ↦ rw e (inl (rest.0, ap₂ (λ y ys. y ∷ ys) (==-same x (byte_at words i) e) rest.1))
    | inr rest ↦ rw e (inr (rest.0, λ z. rest.1 (ap tail_of z)))
  ]
]

pub length-bytes_from : (n i : ℕ) (words : ℕ → ℕ) → length (bytes_from n i words) ≡ n
unfolding bytes_from
length-bytes_from zero i words = refl
length-bytes_from (suc n) i words = omega (arith, length-bytes_from n (i + 1) words)

name_matches-entry_name :
    (words : ℕ → ℕ) (at : ℕ) (name : List ℕ)
    → ((name_matches words at name ≡ true) × (entry_name words at ≡ name))
      ⊎ ((name_matches words at name ≡ false) × (entry_name words at ≢ name))
unfolding name_matches
name_matches-entry_name words at name = elim (Bool-cases (name_length words at == length name)) [
  | inr e ↦ rw e (
      inr (
        refl,
        λ z.
            ground (arith, e, ap length z, length-bytes_from (name_length words at) (at + 8) words),
      ))
  | inl e ↦
      let f : name_length words at ≡ length name =
        sym (==-same (name_length words at) (length name) e) in
      rw e (rw f (same_bytes-bytes_from words (at + 8) name))
]

dirent_size_bound : (words : ℕ → ℕ) (at : ℕ) → dirent_size words at < 2 ^ 16
unfolding dirent_size byte_at
dirent_size_bound words at = omega arith

-- In a block that entries fill, the search ends, with a round for each entry and one more, and finds
-- the first entry whose name is the one that is looked for, or none if no entry has it.
pub find_entry-IsFirst :
    (fuel size i : ℕ) (words : ℕ → ℕ) (name ps : List ℕ)
    → length ps < fuel
    → size < 2 ^ 16
    → AreEntries words size i ps
    → (found : Option ℕ) × (find_entry fuel words size i name ≡ some found)
      × IsFirst words name ps found
unfolding find_entry
find_entry-IsFirst zero size i words name ps enough small entries = absurd (omega (arith, enough))
find_entry-IsFirst (suc fuel) size i words name [] enough small entries =
    let e : ltb i size ≡ false = ground (arith, entries) in rw e (none, refl, refl)
find_entry-IsFirst (suc fuel) size i words name (p ∷ ps) enough small entries =
    let e : ltb i size ≡ true = ground (arith, entries.0, entries.1) in
    let f : i ≡ p = entries.0 in
    elim (name_matches-entry_name words p name) [
      | inl same ↦ (some p, rw (e, f) (rw same.0 refl), inl (same.1, refl))
      | inr other ↦
          let g : add32 p (dirent_size words p) ≡ p + dirent_size words p =
            omega (arith, entries.1, small, dirent_size_bound words p) in
          let rest =
            find_entry-IsFirst fuel size (p + dirent_size words p) words name ps
              (omega (arith, enough)) small entries.2 in
          (rest.0, rw (e, f) (rw (other.0, g) rest.1), inr (other.1, rest.2))
    ]
