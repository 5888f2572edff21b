-- ===== src/NameServer/Table.antt =====
-- The table of names as a finite map.
use native.Mathlib.Decide.{dec_lt, ℕ_discrete}
use mathlib.Core.Path.{subst}
use c4_os.Prelude.{
  ℕ, zero, suc, ◌+◌, ◌≤◌, ◌<◌, ◌≡◌, ◌≢◌, ◌⊎◌, inl, inr, refl, ap, sym, ◌∙◌, arith, ltb,
  if◌then◌else◌,
}
use c4_os.NameServer.{Names, max_name_entries, find_slot, lookup_from, lookup_name}

-- The first `used` entries are taken, the others of the array free.
pub record IsFilled (used : ℕ) (m : Names) : Type 0 where
  pub taken : (i : ℕ) → i < used → (m i).hash ≢ 0
  pub free : (i : ℕ) → used ≤ i → i < max_name_entries → (m i).hash ≡ 0

-- An entry of the name, or the first free one.
pub record IsSlot (used name : ℕ) (m : Names) (slot i : ℕ) : Type 0 where
  pub other : (j : ℕ) → i ≤ j → j < slot → (m j).hash ≢ name
  pub here : (slot ≡ used) ⊎ ((slot < used) × ((m slot).hash ≡ name))

find_slot-stop :
    (n i name : ℕ) (m : Names)
    → ((m i).hash ≡ 0) ⊎ ((m i).hash ≡ name)
    → find_slot (suc n) i name m ≡ i
unfolding find_slot
find_slot-stop n i name m h = ground (arith, h)

find_slot-next :
    (n i name : ℕ) (m : Names)
    → (m i).hash ≢ 0
    → (m i).hash ≢ name
    → find_slot (suc n) i name m ≡ find_slot n (i + 1) name m
unfolding find_slot
find_slot-next n i name m h g = ground (arith, h, g)

pub find_slot-IsSlot :
    (used n i name : ℕ) (m : Names)
    → IsFilled used m
    → i ≤ used
    → used ≤ max_name_entries
    → i + n ≡ max_name_entries
    → IsSlot used name m (find_slot n i name m) i
unfolding find_slot
find_slot-IsSlot used zero i name m f low high sum = record {
  other = λ j a b. absurd (omega arith);
  here = inl (omega arith);
}
find_slot-IsSlot used (suc n) i name m f low high sum = elim (dec_lt i used) [
  | no np ↦
      let e = find_slot-stop n i name m (inl (f.free i (omega arith) (omega arith))) in
      subst (λ slot. IsSlot used name m slot i) (sym e)
        (record { other = λ j a b. absurd (omega arith); here = inl (omega arith) })
  | yes p ↦ elim (ℕ_discrete (m i).hash name) [
    | yes e ↦
        subst (λ slot. IsSlot used name m slot i) (sym (find_slot-stop n i name m (inr e)))
          (record { other = λ j a b. absurd (omega arith); here = inr (p, e) })
    | no ne ↦
        let r = find_slot-IsSlot used n (i + 1) name m f (omega arith) high (omega arith) in
        subst (λ slot. IsSlot used name m slot i) (sym (find_slot-next n i name m (f.taken i p) ne))
          (record {
            other = λ j a b. elim (ℕ_discrete j i) [
              | yes e ↦ λ q. ne (ap (λ (k : ℕ). (m k).hash) (sym e) ∙ q)
              | no nq ↦ r.other j (omega arith) b
            ];
            here = r.here;
          })
  ]
]

-- A name that no taken entry has.
lookup_from-absent :
    (used n i name : ℕ) (m : Names)
    → IsFilled used m
    → i + n ≡ max_name_entries
    → ((j : ℕ) → i ≤ j → j < used → (m j).hash ≢ name)
    → lookup_from n i name m ≡ 0
unfolding lookup_from
lookup_from-absent used zero i name m f sum apart = refl
lookup_from-absent used (suc n) i name m f sum apart = elim (dec_lt i used) [
  | no np ↦ let e = f.free i (omega arith) (omega arith) in ground (arith, e)
  | yes p ↦
      let a = f.taken i p in
      let b = apart i (omega arith) p in
      let next : lookup_from (suc n) i name m ≡ lookup_from n (i + 1) name m =
        ground (arith, a, b) in
      next
      ∙ lookup_from-absent used n (i + 1) name m f (omega arith)
          (λ j low high. apart j (omega arith) high)
]

-- The first entry of a name.
lookup_from-present :
    (used n i slot name : ℕ) (m : Names)
    → IsFilled used m
    → i + n ≡ max_name_entries
    → used ≤ max_name_entries
    → i ≤ slot
    → slot < used
    → (m slot).hash ≡ name
    → ((j : ℕ) → i ≤ j → j < slot → (m j).hash ≢ name)
    → lookup_from n i name m ≡ (m slot).endpoint
unfolding lookup_from
lookup_from-present used zero i slot name m f sum few low high e apart = absurd (omega arith)
lookup_from-present used (suc n) i slot name m f sum few low high e apart =
    elim (ℕ_discrete i slot) [
      | yes same ↦
          let a = f.taken slot high in
          let here : lookup_from (suc n) slot name m ≡ (m slot).endpoint = ground (arith, a, e) in
          ap (λ (k : ℕ). lookup_from (suc n) k name m) same ∙ here
      | no ne ↦
          let a = f.taken i (omega arith) in
          let b = apart i (omega arith) (omega arith) in
          let next : lookup_from (suc n) i name m ≡ lookup_from n (i + 1) name m =
            ground (arith, a, b) in
          next
          ∙ lookup_from-present used n (i + 1) slot name m f (omega arith) few (omega arith) high e
              (λ j l h. apart j (omega arith) h)
    ]

-- The two outcomes of a lookup, by the first entry of the name.
pub lookup_name-slot :
    (used name slot : ℕ) (m : Names)
    → IsFilled used m
    → used ≤ max_name_entries
    → IsSlot used name m slot 0
    → lookup_name name m ≡ (if ltb slot used then (m slot).endpoint else 0)
unfolding lookup_name
lookup_name-slot used name slot m f few s =
    elim s.here
      as (λ h.
        lookup_from max_name_entries 0 name m ≡ (if ltb slot used then (m slot).endpoint else 0)) [
          | inl free ↦
              let none : lookup_from max_name_entries 0 name m ≡ 0 =
                lookup_from-absent used max_name_entries 0 name m f refl
                  (λ j low high. s.other j low (omega arith)) in
              ground (arith, none)
          | inr (high, e) ↦
              let found =
                lookup_from-present used max_name_entries 0 slot name m f refl few (omega arith)
                  high e s.other in
              ground (arith, found)
        ]
