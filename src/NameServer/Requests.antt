-- ===== src/NameServer/Requests.antt =====
-- Every request's answer.
use c4_os.Prelude.{
  ℕ, ◌+◌, ◌≡◌, refl, arith, List, [], ◌∷◌, Bool, ◌&&◌, Bool-cases, inl, inr, ◌==◌, if◌then◌else◌,
}
use c4_os.NameServer.{
  Names, Action, cspace_grant, cspace_remove, lookup_failed, is_positive, lookup_name,
  handle_lookup, Request, name_lookup, name_bind, name_unbind, unknown, serve,
}

-- How often a reply goes to the endpoint.
unfoldable pub replies_to : ℕ → List Action → ℕ
replies_to port [] = 0
replies_to port (cspace_grant obj p ∷ xs) =
    let rest = replies_to port xs in if p == port then rest + 1 else rest
replies_to port (cspace_remove p ∷ xs) = replies_to port xs
replies_to port (lookup_failed p ∷ xs) =
    let rest = replies_to port xs in if p == port then rest + 1 else rest

-- What the client of a lookup is granted.
abbrev pub granted : (ℕ → ℕ) → Bool → ℕ → Names → ℕ
granted remote forward name m =
    if is_positive (lookup_name name m)
    then lookup_name name m
    else if forward && is_positive (remote name)
    then remote name
    else 0

-- The first action on a request, and whether there is a reply.
abbrev pub Answers : (ℕ → ℕ) → Bool → ℕ → Request → Names → List Action → Type 0
Answers remote forward temp (name_lookup name) m [] = ⊥
Answers remote forward temp (name_lookup name) m (a ∷ xs) =
    (a ≡ (
      if granted remote forward name m == 0
      then lookup_failed temp
      else cspace_grant (granted remote forward name m) temp))
    × (replies_to temp xs ≡ 0)
Answers remote forward temp (name_bind name obj) m xs = xs ≡ cspace_remove temp ∷ []
Answers remote forward temp name_unbind m xs = xs ≡ cspace_remove temp ∷ []
Answers remote forward temp unknown m xs = xs ≡ cspace_remove temp ∷ []

module _ (remote : ℕ → ℕ) where
  -- A lookup is answered exactly once, first of all: with the object bound here, else, where requests
  -- are forwarded, with the other server's, else with a failure. A bind, an unbind and an
  -- unknown request have no reply; their endpoint is only removed.
  pub serve-Answers :
      (forward : Bool) (temp : ℕ) (request : Request) (m : Names)
      → Answers remote forward temp request m (serve remote forward temp request m).1
  unfolding serve handle_lookup replies_to
  serve-Answers forward temp (name_lookup name) m =
      let obj = lookup_name name m in
      elim (Bool-cases (is_positive obj)) [
        | inl here ↦ rw here (ground (arith, here), refl)
        | inr gone ↦ rw gone (elim (Bool-cases (forward && is_positive (remote name))) [
          | inl far ↦ rw far (ground (arith, gone, far), refl)
          | inr none ↦ rw none (ground (arith, gone, none), refl)
        ])
      ]
  serve-Answers forward temp (name_bind name obj) m = refl
  serve-Answers forward temp name_unbind m = refl
  serve-Answers forward temp unknown m = refl
