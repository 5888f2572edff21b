-- ===== src/NameServer/Bind.antt =====
-- What `bind_name` does to the table, and to the answers of `lookup_name`.
use native.Mathlib.Decide.{ℕ_discrete}
use c4_os.Prelude.{
  ℕ, suc, ◌≤◌, ◌<◌, ◌≡◌, ◌≢◌, inl, inr, refl, ap, sym, ◌∙◌, arith, ◌==◌, if◌then◌else◌, max,
}
use c4_os.NameServer.{NameEntry, Names, max_name_entries, find_slot, bind_name, lookup_name}
use c4_os.NameServer.Table.{IsFilled, IsSlot, find_slot-IsSlot, lookup_name-slot}

module _ (used : ℕ) (m : Names) (f : IsFilled used m) (few : used ≤ max_name_entries) where
  abbrev slot_of : ℕ → ℕ
  slot_of name = find_slot max_name_entries 0 name m

  pub slot_of-IsSlot : (name : ℕ) → IsSlot used name m (slot_of name) 0
  slot_of-IsSlot name = find_slot-IsSlot used max_name_entries 0 name m f (omega arith) few refl

  module _ (obj name : ℕ) (named : name ≢ 0) where
    pub bind_name-here :
        (bind_name obj name m (slot_of name)) ≡ record { hash = name; endpoint = obj }
    unfolding bind_name
    bind_name-here = ground arith

    bind_name-other : (j : ℕ) → j ≢ slot_of name → bind_name obj name m j ≡ m j
    unfolding bind_name
    bind_name-other j h = ground (arith, h)

    pub bind_name-IsFilled :
        slot_of name < max_name_entries
        → IsFilled (max used (suc (slot_of name))) (bind_name obj name m)
    bind_name-IsFilled room =
        let s = slot_of-IsSlot name in
        record {
          taken = λ i low. elim (ℕ_discrete i (slot_of name)) [
            | yes e ↦ λ z. named (
                sym (ap (λ (c : NameEntry). c.hash) (ap (bind_name obj name m) e ∙ bind_name-here))
                ∙ z)
            | no ne ↦ λ z.
                f.taken i (ground (arith, s.here, low, ne))
                  (sym (ap (λ (c : NameEntry). c.hash) (bind_name-other i ne)) ∙ z)
          ];
          free = λ i high top.
              let ne : i ≢ slot_of name = ground (arith, high) in
              ap (λ (c : NameEntry). c.hash) (bind_name-other i ne)
              ∙ f.free i (ground (arith, high)) top;
        }

    -- The slots of the table after the bind.
    bind_name-IsSlot :
        slot_of name < max_name_entries
        → IsSlot (max used (suc (slot_of name))) name (bind_name obj name m) (slot_of name) 0
    bind_name-IsSlot room =
        let s = slot_of-IsSlot name in
        record {
          other = λ j low high z. s.other j low high (
              sym (
                ap (λ (c : NameEntry). c.hash)
                  (bind_name-other j (λ e. absurd (omega (arith, e, high)))))
              ∙ z);
          here = inr (ground arith, ap (λ (c : NameEntry). c.hash) bind_name-here);
        }

    pub hash-other : (j : ℕ) → j ≢ slot_of name → (bind_name obj name m j).hash ≡ (m j).hash
    hash-other j h = ap (λ (c : NameEntry). c.hash) (bind_name-other j h)

    hash-here : (bind_name obj name m (slot_of name)).hash ≡ name
    hash-here = ap (λ (c : NameEntry). c.hash) bind_name-here

    -- An entry without another name stays without it.
    apart-other :
        (other j : ℕ) → other ≢ name → (m j).hash ≢ other → (bind_name obj name m j).hash ≢ other
    apart-other other j ne h = elim (ℕ_discrete j (slot_of name)) [
      | yes e ↦ λ z. ne (sym z ∙ ap (λ (k : ℕ). (bind_name obj name m k).hash) e ∙ hash-here)
      | no nj ↦ λ z. h (sym (hash-other j nj) ∙ z)
    ]

    module _ (room : slot_of name < max_name_entries) (other : ℕ) (ne : other ≢ name) where
      bind_name-absent : slot_of other ≡ used → lookup_name other (bind_name obj name m) ≡ 0
      bind_name-absent e =
          let s = slot_of-IsSlot name in
          let o = slot_of-IsSlot other in
          let used' = max used (suc (slot_of name)) in
          let w : IsSlot used' other (bind_name obj name m) used' 0 = record {
            other = λ j low high. elim (ℕ_discrete j (slot_of name)) [
              | yes ej ↦
                  λ z. ne (sym z ∙ ap (λ (k : ℕ). (bind_name obj name m k).hash) ej ∙ hash-here)
              | no nj ↦ apart-other other j ne (o.other j low (ground (arith, s.here, high, nj, e)))
            ];
            here = inl refl;
          } in
          let l =
            lookup_name-slot used' other used' (bind_name obj name m) (bind_name-IsFilled room)
              (ground arith) w in
          ground (arith, l)

      bind_name-present :
          slot_of other < used
          → (m (slot_of other)).hash ≡ other
          → lookup_name other (bind_name obj name m) ≡ (m (slot_of other)).endpoint
      bind_name-present low e =
          let s = slot_of-IsSlot name in
          let o = slot_of-IsSlot other in
          let used' = max used (suc (slot_of name)) in
          let moved : slot_of other ≢ slot_of name = λ q. elim s.here [
            | inl free ↦ absurd (omega (arith, free, q, low))
            | inr taken ↦ ne (sym e ∙ ap (λ (k : ℕ). (m k).hash) q ∙ taken.1)
          ] in
          let w : IsSlot used' other (bind_name obj name m) (slot_of other) 0 = record {
            other = λ j l h. apart-other other j ne (o.other j l h);
            here = inr (ground (arith, low), hash-other (slot_of other) moved ∙ e);
          } in
          let l =
            lookup_name-slot used' other (slot_of other) (bind_name obj name m)
              (bind_name-IsFilled room) (ground arith) w in
          let same = ap (λ (c : NameEntry). c.endpoint) (bind_name-other (slot_of other) moved) in
          ground (arith, l, same, low)

    -- The table after a bind answers for the name with the object, for any other as before.
    pub bind_name-lookup :
        (other : ℕ)
        → slot_of name < max_name_entries
        → lookup_name other (bind_name obj name m)
          ≡ (if other == name then obj else lookup_name other m)
    bind_name-lookup other room = elim (ℕ_discrete other name) [
      | yes e ↦
          let used' = max used (suc (slot_of name)) in
          let l =
            lookup_name-slot used' name (slot_of name) (bind_name obj name m)
              (bind_name-IsFilled room) (ground arith) (bind_name-IsSlot room) in
          let here = ap (λ (c : NameEntry). c.endpoint) bind_name-here in
          let bound : lookup_name name (bind_name obj name m) ≡ obj = ground (arith, l, here) in
          ap (λ (k : ℕ). lookup_name k (bind_name obj name m)) e ∙ bound ∙ ground (arith, e)
      | no ne ↦
          let o = slot_of-IsSlot other in
          let before = lookup_name-slot used other (slot_of other) m f few o in
          elim o.here [
            | inl e ↦ ground (arith, bind_name-absent room other ne e, before, ne)
            | inr (low, e) ↦ ground (arith, bind_name-present room other ne low e, before, ne)
          ]
    ]
