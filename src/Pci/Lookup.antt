-- ===== src/Pci/Lookup.antt =====
-- What `pci_lookup` finds.
use native.Mathlib.Decide.{dec_lt}
use c4_os.Prelude.{
  ℕ, zero, suc, ◌+◌, ◌≤◌, ◌<◌, ◌≡◌, refl, ap, sym, ◌∙◌, arith, Bool, true, false, ◌&&◌, ◌==◌, not,
  Option, none, some, Bool-cases, inl, inr, ◌⊎◌,
}
use c4_os.Pci.Places.{has_device, vendor_of-at, device_of-at}
use c4_os.Pci.{
  PciDevice, pci_device, pci_invalid_device, vendor_of, device_of, lookup_functions, lookup_slots,
  lookup_buses, pci_lookup,
}

module _ (config : ℕ → ℕ) (vendor_id device_id : ℕ) where
  -- A place with the device asked for.
  abbrev matches : ℕ → ℕ → ℕ → Bool
  matches b s f =
      not (vendor_of config b s f == 0xffff)
      && (vendor_id == vendor_of config b s f && device_id == device_of config b s f)

  -- A slot is passed over when its function 0 has no device.
  abbrev in_use : ℕ → ℕ → Bool
  in_use b s = not (vendor_of config b s 0 == 0xffff)

  -- A device that was found at a place.
  record IsMatch (b s f : ℕ) (dev : PciDevice) : Type 0 where
    same : dev ≡ pci_device b s f
    found : (in_use b s && matches b s f) ≡ true

  abbrev NoMatch : ℕ → ℕ → ℕ → Type 0
  NoMatch b s f = (in_use b s && matches b s f) ≡ false

  -- What each loop's result says of the places from its start on.
  abbrev AfterFunctions : ℕ → ℕ → ℕ → ℕ → Option PciDevice → Type 0
  AfterFunctions b s f n none = (g : ℕ) → f ≤ g → g < f + n → NoMatch b s g
  AfterFunctions b s f n (some dev) = (g : ℕ) × (g < f + n) × IsMatch b s g dev

  abbrev AfterSlots : ℕ → ℕ → ℕ → Option PciDevice → Type 0
  AfterSlots b s n none = (t g : ℕ) → s ≤ t → t < s + n → g < 7 → NoMatch b t g
  AfterSlots b s n (some dev) = (t g : ℕ) × (t < s + n) × (g < 7) × IsMatch b t g dev

  abbrev AfterBuses : ℕ → ℕ → Option PciDevice → Type 0
  AfterBuses b n none = (c t g : ℕ) → b ≤ c → c < b + n → t < 32 → g < 7 → NoMatch c t g
  AfterBuses b n (some dev) = (c t g : ℕ) × (c < b + n) × (t < 32) × (g < 7) × IsMatch c t g dev

  more_functions :
      (b s f n : ℕ) (r : Option PciDevice)
      → NoMatch b s f
      → AfterFunctions b s (f + 1) n r
      → AfterFunctions b s f (suc n) r
  more_functions b s f n none here after = λ g low high. elim (dec_lt f g) [
    | yes above ↦ after g (omega arith) (omega arith)
    | no at ↦ let e : g ≡ f = omega arith in rw e here
  ]
  more_functions b s f n (some dev) here (g, below, is) = (g, omega arith, is)

  functions_lem :
      (n f b s : ℕ)
      → (f ≡ 0) ⊎ (in_use b s ≡ true)
      → AfterFunctions b s f n (lookup_functions config vendor_id device_id b s n f)
  unfolding lookup_functions
  functions_lem zero f b s start = λ g low high. absurd (omega arith)
  functions_lem (suc n) f b s start = elim (Bool-cases (vendor_of config b s f == 0xffff)) [
    | inl absent ↦ elim (Bool-cases (f == 0)) [
      | inl first ↦
          let e : f ≡ 0 = ground (arith, first) in
          let unused : in_use b s ≡ false =
            ap (λ (t : ℕ). not (vendor_of config b s t == 0xffff)) (sym e) ∙ ap not absent in
          rw (absent, first) (λ g low high. rw unused refl)
      | inr later ↦
          let used : in_use b s ≡ true = ground (arith, start, later) in
          let none_here : NoMatch b s f = ground (arith, absent) in
          rw (absent, later)
            (more_functions b s f n (lookup_functions config vendor_id device_id b s n (f + 1))
              none_here (functions_lem n (f + 1) b s (inr used)))
    ]
    | inr present ↦
        let used : in_use b s ≡ true = elim start [
          | inl first ↦
              ap (λ (t : ℕ). not (vendor_of config b s t == 0xffff)) (sym first) ∙ ap not present
          | inr known ↦ known
        ] in
        elim (Bool-cases
          (vendor_id == vendor_of config b s f && device_id == device_of config b s f)) [
            | inl hit ↦
                rw (present, hit)
                  (
                    f,
                    omega arith,
                    record { same = refl; found = ground (arith, used, present, hit) },
                  )
            | inr miss ↦
                let none_here : NoMatch b s f = ground (arith, miss) in
                rw (present, miss)
                  (more_functions b s f n
                    (lookup_functions config vendor_id device_id b s n (f + 1)) none_here
                    (functions_lem n (f + 1) b s (inr used)))
          ]
  ]

  more_slots :
      (b s n : ℕ) (r rest : Option PciDevice)
      → AfterFunctions b s 0 7 r
      → AfterSlots b (s + 1) n rest
      → AfterSlots b s (suc n) (elim r [ some dev ↦ some dev | none ↦ rest ])
  more_slots b s n (some dev) rest (g, below, is) after =
      (s, g, omega arith, omega (arith, below), is)
  more_slots b s n none none here after = λ t g low high small. elim (dec_lt s t) [
    | yes above ↦ after t g (omega arith) (omega arith) small
    | no at ↦ let e : t ≡ s = omega arith in rw e (here g (omega arith) (omega arith))
  ]
  more_slots b s n none (some dev) here (t, g, below, small, is) = (t, g, omega arith, small, is)

  slots_lem : (n s b : ℕ) → AfterSlots b s n (lookup_slots config vendor_id device_id b n s)
  unfolding lookup_slots
  slots_lem zero s b = λ t g low high small. absurd (omega arith)
  slots_lem (suc n) s b =
      more_slots b s n (lookup_functions config vendor_id device_id b s 7 0)
        (lookup_slots config vendor_id device_id b n (s + 1)) (functions_lem 7 0 b s (inl refl))
        (slots_lem n (s + 1) b)

  more_buses :
      (b n : ℕ) (r rest : Option PciDevice)
      → AfterSlots b 0 32 r
      → AfterBuses (b + 1) n rest
      → AfterBuses b (suc n) (elim r [ some dev ↦ some dev | none ↦ rest ])
  more_buses b n (some dev) rest (t, g, below, small, is) after =
      (b, t, g, omega arith, omega (arith, below), small, is)
  more_buses b n none none here after = λ c t g low high slots small. elim (dec_lt b c) [
    | yes above ↦ after c t g (omega arith) (omega arith) slots small
    | no at ↦
        let e : c ≡ b = omega arith in rw e (here t g (omega arith) (omega (arith, slots)) small)
  ]
  more_buses b n none (some dev) here (c, t, g, below, slots, small, is) =
      (c, t, g, omega arith, slots, small, is)

  buses_lem : (n b : ℕ) → AfterBuses b n (lookup_buses config vendor_id device_id n b)
  unfolding lookup_buses
  buses_lem zero b = λ c t g low high slots small. absurd (omega arith)
  buses_lem (suc n) b =
      more_buses b n (lookup_slots config vendor_id device_id b 32 0)
        (lookup_buses config vendor_id device_id n (b + 1)) (slots_lem 32 0 b) (buses_lem n (b + 1))

-- What the code tests at a place, by the addresses.
found-has_device :
    (config : ℕ → ℕ) (vendor_id device_id b s f : ℕ)
    → b < 256
    → s < 32
    → f < 7
    → (in_use config vendor_id device_id b s && matches config vendor_id device_id b s f)
      ≡ has_device config vendor_id device_id b s f
found-has_device config vendor_id device_id b s f hb hs hf =
    let first = vendor_of-at config b s 0 hb hs (omega arith) in
    let vendor = vendor_of-at config b s f hb hs (omega arith) in
    let device = device_of-at config b s f hb hs (omega arith) in rw (first, vendor, device) refl

-- What a result of `pci_lookup` says of the bus.
abbrev pub IsAnswer : (ℕ → ℕ) → ℕ → ℕ → PciDevice → Type 0
IsAnswer config vendor_id device_id dev =
    ((dev.valid ≡ true)
      × (dev.bus < 256)
      × (dev.slot < 32)
      × (dev.func < 7)
      × (has_device config vendor_id device_id dev.bus dev.slot dev.func ≡ true))
    ⊎ ((dev.valid ≡ false)
        × ((b s f : ℕ)
            → b < 256
            → s < 32
            → f < 7
            → has_device config vendor_id device_id b s f ≡ false))

-- `pci_lookup` gives a valid device exactly when one with the vendor and the number asked for stands at
-- one of the first seven functions of a slot whose function 0 has a device too, by what the data port
-- gives for the documented address of each place, and then gives the place of such a one.
pub pci_lookup-IsAnswer :
    (config : ℕ → ℕ) (vendor_id device_id : ℕ)
    → IsAnswer config vendor_id device_id (pci_lookup config vendor_id device_id)
unfolding pci_lookup
pci_lookup-IsAnswer config vendor_id device_id =
    go (lookup_buses config vendor_id device_id 256 0) (buses_lem config vendor_id device_id 256 0)
  where
    at_place :
        (b s f : ℕ) (dev : PciDevice)
        → b < 256
        → s < 32
        → f < 7
        → IsMatch config vendor_id device_id b s f dev
        → IsAnswer config vendor_id device_id dev
    at_place b s f dev hb hs hf is =
        let bus : dev.bus ≡ b = ap (λ (d : PciDevice). d.bus) is.same ∙ omega (arith, hb) in
        let slot : dev.slot ≡ s = ap (λ (d : PciDevice). d.slot) is.same ∙ omega (arith, hs) in
        let func : dev.func ≡ f = ap (λ (d : PciDevice). d.func) is.same ∙ omega (arith, hf) in
        let found = sym (found-has_device config vendor_id device_id b s f hb hs hf) ∙ is.found in
        inl (
          ap (λ (d : PciDevice). d.valid) is.same,
          omega (arith, bus, hb),
          omega (arith, slot, hs),
          omega (arith, func, hf),
          (λ i. has_device config vendor_id device_id (bus i) (slot i) (func i)) ∙ found,
        )

    go :
        (r : Option PciDevice)
        → AfterBuses config vendor_id device_id 0 256 r
        → IsAnswer config vendor_id device_id
            (elim r as (λ r. PciDevice) [ some d ↦ d | none ↦ pci_invalid_device ])
    go none after = inr (
      refl,
      λ b s f hb hs hf.
          sym (found-has_device config vendor_id device_id b s f hb hs hf)
          ∙ after b s f (omega arith) (omega arith) hs hf,
    )
    go (some dev) (b, s, f, hb, hs, hf, is) = at_place b s f dev (omega (arith, hb)) hs hf is
