-- ===== src/Strings.antt =====
-- libraries/c4rt/libc/string.c: the runtime library's own memory and string routines. Loops that run
-- to a final 0 count their rounds down from `fuel`, and give `none` when it runs out.
pub mod Memory
pub mod Text
pub mod Compare
pub mod Copy
mod Tests
use c4_os.Prelude.{
  ℕ, zero, suc, ◌+◌, ◌-◌, ◌%◌, ◌^◌, Bool, true, false, ◌&&◌, ◌||◌, Option, none, some, ◌==◌, ltb,
  if◌then◌else◌, sub32,
}

-- The bytes by address.
abbrev pub Memory : Type 0
Memory = ℕ → ℕ

unfoldable pub store : Memory → ℕ → ℕ → ℕ → ℕ
store m a b j = if j == a then b else m j

-- The loop of `memcpy` over the rounds left.
unfoldable pub memcpy_from : ℕ → ℕ → ℕ → ℕ → Memory → Memory
memcpy_from zero i d s m = m
memcpy_from (suc n) i d s m = memcpy_from n (i + 1) d s (store m (d + i) (m (s + i)))

unfoldable pub memcpy : ℕ → ℕ → ℕ → Memory → Memory
memcpy d s n m = memcpy_from n 0 d s m

unfoldable pub memset_from : ℕ → ℕ → ℕ → ℕ → Memory → Memory
memset_from zero i s c m = m
memset_from (suc n) i s c m = memset_from n (i + 1) s c (store m (s + i) (c % 2 ^ 8))

unfoldable pub memset : ℕ → ℕ → ℕ → Memory → Memory
memset s c n m = memset_from n 0 s c m

-- The loop of `strlen`.
unfoldable pub strlen_from : ℕ → ℕ → ℕ → Memory → Option ℕ
strlen_from zero i s m = none
strlen_from (suc fuel) i s m =
    let rest = strlen_from fuel (i + 1) s m in if m (s + i) == 0 then some i else rest

unfoldable pub strlen : ℕ → ℕ → Memory → Option ℕ
strlen fuel s m = strlen_from fuel 0 s m

-- A `char` is signed: its value as an `int`, and its place in the order.
abbrev pub char_to_int : ℕ → ℕ
char_to_int c = if ltb c 128 then c else c + 2 ^ 32 - 2 ^ 8

abbrev pub char_lt : ℕ → ℕ → Bool
char_lt a b = ltb ((a + 128) % 2 ^ 8) ((b + 128) % 2 ^ 8)

abbrev pub minus_one : ℕ
minus_one = 2 ^ 32 - 1

-- `*s1 - *s2`
abbrev pub char_diff : ℕ → ℕ → ℕ
char_diff a b = sub32 (char_to_int a) (char_to_int b)

unfoldable pub strcmp : ℕ → ℕ → ℕ → Memory → Option ℕ
strcmp zero s1 s2 m = none
strcmp (suc fuel) s1 s2 m =
    let rest = strcmp fuel (s1 + 1) (s2 + 1) m in
    if m s1 == 0 || m s2 == 0
    then some (char_diff (m s1) (m s2))
    else if m s1 == m s2
    then rest
    else if char_lt (m s1) (m s2)
    then some minus_one
    else some 1

-- The loop runs on at most `n` rounds.
unfoldable pub strncmp : ℕ → ℕ → ℕ → Memory → ℕ
strncmp s1 s2 zero m = char_diff (m s1) (m s2)
strncmp s1 s2 (suc n) m =
    let rest = strncmp (s1 + 1) (s2 + 1) n m in
    if m s1 == 0 || m s2 == 0
    then char_diff (m s1) (m s2)
    else if m s1 == m s2
    then rest
    else if char_lt (m s1) (m s2)
    then minus_one
    else 1

-- The outer option is the fuel's; the inner is null where the character is not found. `c` is a
-- `char` as an `int`.
unfoldable pub strchr : ℕ → ℕ → ℕ → Memory → Option (Option ℕ)
strchr zero s c m = none
strchr (suc fuel) s c m =
    let rest = strchr fuel (s + 1) c m in
    if m s == 0 then some none else if char_to_int (m s) == c then some (some s) else rest

-- The loop of `strlcpy` over the rounds left: where it stops, and the memory.
unfoldable pub strlcpy_from : ℕ → ℕ → ℕ → ℕ → Memory → ℕ × Memory
strlcpy_from zero i d s m = (i, m)
strlcpy_from (suc n) i d s m =
    let rest = strlcpy_from n (i + 1) d s (store m (d + i) (m (s + i))) in
    if m (s + i) == 0 then (i, m) else rest

unfoldable pub strlcpy : ℕ → ℕ → ℕ → ℕ → Memory → Option ℕ × Memory
strlcpy fuel d s n m =
    let (i, copied) = strlcpy_from (n - 1) 0 d s m in
    let ended = store copied (d + i) 0 in
    if n == 0 then (strlen fuel s m, m) else (strlen fuel s ended, ended)
