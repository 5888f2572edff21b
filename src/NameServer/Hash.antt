-- ===== src/NameServer/Hash.antt =====
-- `nameserver_hash`, the 32-bit remainder of a number written to the base 129.
use c4_os.Prelude.{ℕ, ◌+◌, ◌*◌, ◌%◌, ◌^◌, ◌≡◌, refl, arith, List, [], ◌∷◌}
use c4_os.NameServer.{char_to_int, hash_from, nameserver_hash}

-- The digits after `n`, to the base 129, without a bound.
unfoldable pub number_from : ℕ → List ℕ → ℕ
number_from n [] = n
number_from n (c ∷ cs) = number_from (n * 129 + char_to_int c) cs

hash_from-number_from :
    (cs : List ℕ) (h n : ℕ) → h ≡ n % 2 ^ 32 → hash_from h cs ≡ number_from n cs % 2 ^ 32
unfolding hash_from number_from
hash_from-number_from [] h n e = e
hash_from-number_from (c ∷ cs) h n e =
    hash_from-number_from cs (((h * 2 ^ 7 % 2 ^ 32 + h) % 2 ^ 32 + char_to_int c) % 2 ^ 32)
      (n * 129 + char_to_int c) (ground (arith, e))

-- The hash of a name is the number that its characters write to the base 129 after the digit 757,
-- without its bits from 32 on: no step of the loop loses anything else.
pub nameserver_hash-number_from :
    (str : List ℕ) → nameserver_hash str ≡ number_from 757 str % 2 ^ 32
unfolding nameserver_hash
nameserver_hash-number_from str = hash_from-number_from str 757 757 refl
