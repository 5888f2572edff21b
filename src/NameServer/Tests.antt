-- ===== src/NameServer/Tests.antt =====
-- Runs of the name server of programs/nameserver/src/main.c.
use c4_os.Prelude.{ℕ, suc, ◌+◌, ◌≡◌, refl, List, [], ◌∷◌, arith, true}
use c4_os.NameServer.{
  Names, max_name_entries, bind_name, find_slot, lookup_from, lookup_name, name_lookup, serve,
  nameserver_hash, hash_from,
}
use c4_os.NameServer.Table.{IsFilled}
use c4_os.NameServer.Latest.{bind_all, latest, lookup_name-latest, bind_name-full}
use c4_os.NameServer.Requests.{Answers, serve-Answers}

-- The hash of `/dev`.
hash_dev : nameserver_hash (47 ∷ 100 ∷ 101 ∷ 118 ∷ []) ≡ 3574762339
unfolding nameserver_hash hash_from
hash_dev = refl

abbrev three : List (ℕ × ℕ)
three = (7, 30) ∷ (9, 20) ∷ (7, 10) ∷ []

lookup_three : lookup_name 7 (bind_all three) ≡ 30
unfolding bind_all bind_name find_slot lookup_name lookup_from
lookup_three = refl

lookup_name-latest_example : lookup_name 9 (bind_all three) ≡ latest 9 three
lookup_name-latest_example =
    lookup_name-latest three 9 (omega arith) (
      (λ e. absurd (omega arith)),
      ((λ e. absurd (omega arith)), ((λ e. absurd (omega arith)), tt)),
    )

abbrev crowd : Names
crowd = λ i. record { hash = suc i; endpoint = i }

crowd-IsFilled : IsFilled max_name_entries crowd
crowd-IsFilled = record {
  taken = λ i low e. absurd (omega arith);
  free = λ i low high. absurd (omega arith);
}

bind_name-full_example :
    (bind_name 3 1000 crowd max_name_entries ≡ record { hash = 1000; endpoint = 3 })
    × (lookup_name 1000 (bind_name 3 1000 crowd) ≡ 0)
bind_name-full_example =
    bind_name-full crowd 3 1000 crowd-IsFilled (λ e. absurd (omega arith))
      (λ j low e. absurd (omega arith))

abbrev ten_more : ℕ → ℕ
ten_more n = n + 10

serve-Answers_example :
    Answers ten_more true 5
      (name_lookup 8)
      (bind_all three)
      (serve ten_more true 5 (name_lookup 8) (bind_all three)).1
serve-Answers_example = serve-Answers ten_more true 5 (name_lookup 8) (bind_all three)
