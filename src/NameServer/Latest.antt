-- ===== src/NameServer/Latest.antt =====
-- Sequences of calls of `bind_name`: the table as a finite map from hashes to endpoints, and what
-- happens when it is full.
use c4_os.Prelude.{
  ℕ, suc, ◌≤◌, ◌<◌, ◌≡◌, ◌≢◌, inl, inr, refl, ap, sym, ◌∙◌, arith, List, [], ◌∷◌, ◌==◌,
  if◌then◌else◌, length, All, max,
}
use c4_os.NameServer.{Names, max_name_entries, find_slot, bind_name, lookup_name}
use c4_os.NameServer.Table.{IsFilled, lookup_name-slot}
use c4_os.NameServer.Bind.{
  slot_of-IsSlot, bind_name-here, bind_name-IsFilled, hash-other, bind_name-lookup,
}

-- The calls of `bind_name` in a list, the latest first, on the table of zeros that the server
-- starts with.
unfoldable pub bind_all : List (ℕ × ℕ) → Names
bind_all [] = λ i. record { hash = 0; endpoint = 0 }
bind_all (b ∷ bs) = bind_name b.1 b.0 (bind_all bs)

-- The latest object bound to the name.
unfoldable pub latest : ℕ → List (ℕ × ℕ) → ℕ
latest name [] = 0
latest name (b ∷ bs) = if name == b.0 then b.1 else latest name bs

record IsBound (bs : List (ℕ × ℕ)) : Type 0 where
  used : ℕ
  filled : IsFilled used (bind_all bs)
  few : used ≤ length bs

slot_of-le :
    (used name : ℕ) (m : Names) (f : IsFilled used m) (few : used ≤ max_name_entries)
    → find_slot max_name_entries 0 name m ≤ used
slot_of-le used name m f few = ground (arith, (slot_of-IsSlot used m f few name).here)

bind_all-IsBound :
    (bs : List (ℕ × ℕ)) → length bs ≤ max_name_entries → All (λ b. b.0 ≢ 0) bs → IsBound bs
unfolding bind_all
bind_all-IsBound [] short named = record {
  used = 0;
  filled = record { taken = λ i h. absurd (omega arith); free = λ i low high. refl };
  few = omega arith;
}
bind_all-IsBound (b ∷ bs) short named =
    let r = bind_all-IsBound bs (omega arith) named.1 in
    let shorter = r.few in
    let few : r.used ≤ max_name_entries = omega arith in
    let top = slot_of-le r.used b.0 (bind_all bs) r.filled few in
    record {
      used = max r.used (suc (find_slot max_name_entries 0 b.0 (bind_all bs)));
      filled =
          bind_name-IsFilled r.used (bind_all bs) r.filled few b.1 b.0 named.0
            (omega (arith, top, shorter));
      few = omega (arith, top, shorter);
    }

-- After up to 512 calls of `bind_name`, with hashes that are not 0, on the table that the server
-- starts with, `lookup_name` returns what was last bound to the hash, and 0 where nothing was.
pub lookup_name-latest :
    (bs : List (ℕ × ℕ)) (name : ℕ)
    → length bs ≤ max_name_entries
    → All (λ b. b.0 ≢ 0) bs
    → lookup_name name (bind_all bs) ≡ latest name bs
unfolding bind_all latest bind_all-IsBound
lookup_name-latest [] name short named =
    lookup_name-slot 0 name 0 (bind_all []) (bind_all-IsBound [] short named).filled (omega arith)
      (record { other = λ j low high. absurd (omega arith); here = inl refl })
lookup_name-latest (b ∷ bs) name short named =
    let r = bind_all-IsBound bs (omega arith) named.1 in
    let shorter = r.few in
    let few : r.used ≤ max_name_entries = omega arith in
    let top = slot_of-le r.used b.0 (bind_all bs) r.filled few in
    bind_name-lookup r.used (bind_all bs) r.filled few b.1 b.0 named.0 name
      (omega (arith, top, shorter))
    ∙ ap (λ (o : ℕ). if name == b.0 then b.1 else o)
        (lookup_name-latest bs name (omega arith) named.1)

-- With all 512 entries taken and none of them of the name, whose hash is not 0, `bind_name` writes
-- the entry behind the array, and a lookup of the name still finds nothing.
pub bind_name-full :
    (m : Names) (obj name : ℕ)
    → IsFilled max_name_entries m
    → name ≢ 0
    → ((j : ℕ) → j < max_name_entries → (m j).hash ≢ name)
    → (bind_name obj name m max_name_entries ≡ record { hash = name; endpoint = obj })
      × (lookup_name name (bind_name obj name m) ≡ 0)
bind_name-full m obj name f named apart =
    let few : max_name_entries ≤ max_name_entries = omega arith in
    let s = slot_of-IsSlot max_name_entries m f few name in
    let behind : find_slot max_name_entries 0 name m ≡ max_name_entries = elim s.here [
      | inl e ↦ e
      | inr (low, e) ↦ absurd (apart _ low e)
    ] in
    let stays : (j : ℕ) → j < max_name_entries → (bind_name obj name m j).hash ≡ (m j).hash =
      λ j low. hash-other max_name_entries m f few obj name named j (omega (arith, behind)) in
    (
      ap (bind_name obj name m) (sym behind)
          ∙ bind_name-here max_name_entries m f few obj name named,
      lookup_name-slot max_name_entries name max_name_entries (bind_name obj name m)
          (record {
            taken = λ i low z. f.taken i low (sym (stays i low) ∙ z);
            free = λ i low high. absurd (omega arith);
          })
          few
          (record {
            other = λ j low high z. apart j high (sym (stays j high) ∙ z);
            here = inl refl;
          }),
    )
