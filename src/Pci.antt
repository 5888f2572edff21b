-- ===== src/Pci.antt =====
-- programs/initprogs/src/pci.c: looking for devices on the bus. What the configuration ports answer
-- to an address is a parameter.
mod Places
pub mod Lookup
pub mod Numbers
mod Tests
use Prim.Native.Nat.{bit_or}
use c4_os.Prelude.{
  ℕ, zero, suc, ◌+◌, ◌-◌, ◌*◌, ◌/◌, ◌%◌, ◌^◌, Bool, true, false, ◌&&◌, ◌==◌, ltb, if◌then◌else◌,
  Option, none, some, List, [], ◌∷◌, ◌++◌, get_or,
}

-- `pci_device_t`.
pub record PciDevice : Type 0 where
  pub bus : ℕ
  pub slot : ℕ
  pub func : ℕ
  pub valid : Bool

abbrev pub pci_device : ℕ → ℕ → ℕ → PciDevice
pci_device b s f = record { bus = b % 2 ^ 8; slot = s % 2 ^ 8; func = f % 2 ^ 8; valid = true }

abbrev pub pci_invalid_device : PciDevice
pci_invalid_device = record { bus = 0; slot = 0; func = 0; valid = false }

abbrev pub config_vendor : ℕ
config_vendor = 0

abbrev pub config_device : ℕ
config_device = 2

-- What is written to the address port; `offset & 0xfc` is the offset's multiple of 4.
unfoldable pub conf_address : PciDevice → ℕ → ℕ
conf_address dev offset =
    let place = bit_or (bit_or (dev.bus * 2 ^ 16) (dev.slot * 2 ^ 11)) (dev.func * 2 ^ 8) in
    bit_or (bit_or 0x8000_0000 place) (offset / 4 % 2 ^ 6 * 4)

-- `config` is what the data port gives for the address written before.
module _ (config : ℕ → ℕ) where
  unfoldable pub conf_read_dword : PciDevice → ℕ → ℕ
  unfolding conf_address
  conf_read_dword dev offset = config (conf_address dev offset)

  unfoldable pub conf_read_word : PciDevice → ℕ → ℕ
  unfolding conf_read_dword
  conf_read_word dev offset = conf_read_dword dev offset / 2 ^ (offset % 4 * 8) % 2 ^ 16

  unfoldable pub conf_read_byte : PciDevice → ℕ → ℕ
  unfolding conf_read_dword
  conf_read_byte dev offset = conf_read_dword dev offset / 2 ^ (offset % 4 * 8) % 2 ^ 8

  -- The test of `pci_lookup` for one place: the device's vendor and number.
  abbrev pub vendor_of : ℕ → ℕ → ℕ → ℕ
  vendor_of b s f = conf_read_word (pci_device b s f) config_vendor

  abbrev pub device_of : ℕ → ℕ → ℕ → ℕ
  device_of b s f = conf_read_word (pci_device b s f) config_device

  -- The three loops of `pci_lookup`, over the rounds left. A result ends them all.
  unfoldable pub lookup_functions : ℕ → ℕ → ℕ → ℕ → ℕ → ℕ → Option PciDevice
  lookup_functions vendor_id device_id b s zero f = none
  lookup_functions vendor_id device_id b s (suc n) f =
      let rest = lookup_functions vendor_id device_id b s n (f + 1) in
      if vendor_of b s f == 0xffff
      then if f == 0 then none else rest
      else if vendor_id == vendor_of b s f && device_id == device_of b s f
      then some (pci_device b s f)
      else rest

  unfoldable pub lookup_slots : ℕ → ℕ → ℕ → ℕ → ℕ → Option PciDevice
  lookup_slots vendor_id device_id b zero s = none
  lookup_slots vendor_id device_id b (suc n) s =
      let rest = lookup_slots vendor_id device_id b n (s + 1) in
      elim (lookup_functions vendor_id device_id b s 7 0) [ some dev ↦ some dev | none ↦ rest ]

  unfoldable pub lookup_buses : ℕ → ℕ → ℕ → ℕ → Option PciDevice
  lookup_buses vendor_id device_id zero b = none
  lookup_buses vendor_id device_id (suc n) b =
      let rest = lookup_buses vendor_id device_id n (b + 1) in
      elim (lookup_slots vendor_id device_id b 32 0) [ some dev ↦ some dev | none ↦ rest ]

  unfoldable pub pci_lookup : ℕ → ℕ → PciDevice
  pci_lookup vendor_id device_id = elim (lookup_buses vendor_id device_id 256 0) [
    | some dev ↦ dev
    | none ↦ pci_invalid_device
  ]

-- The characters of a digit: `d + '0'`, and `"0123456789abcdef"[d]`.
abbrev pub num_char : ℕ → ℕ
num_char d = d + 48

abbrev hex_chars : List ℕ
hex_chars = 48 ∷ 49 ∷ 50 ∷ 51 ∷ 52 ∷ 53 ∷ 54 ∷ 55 ∷ 56 ∷ 57 ∷ 97 ∷ 98 ∷ 99 ∷ 100 ∷ 101 ∷ 102 ∷ []

unfoldable pub hex_char : ℕ → ℕ
hex_char d = get_or hex_chars d 0

-- The loop of `print_num` and `print_hex`, on fuel: the characters, that of the lowest digit first,
-- as they lie in `buf`.
unfoldable pub digits_from : (ℕ → ℕ) → ℕ → ℕ → ℕ → List ℕ
digits_from char base zero n = []
digits_from char base (suc fuel) n =
    let rest = digits_from char base fuel (n / base) in
    if n == 0 then [] else char (n % base) ∷ rest

-- The characters in the order of the second loop.
unfoldable pub backward : List ℕ → List ℕ → List ℕ
backward [] out = out
backward (c ∷ cs) out = backward cs (c ∷ out)

-- A number has at most 32 digits.
abbrev pub digit_fuel : ℕ
digit_fuel = 32

-- For 0, the character `'0'`.
unfoldable pub number_digits : (ℕ → ℕ) → ℕ → ℕ → List ℕ
number_digits char base n = if n == 0 then 48 ∷ [] else digits_from char base digit_fuel n

unfoldable pub print_num : ℕ → List ℕ
unfolding backward
print_num n = backward (number_digits num_char 10 n) []

unfoldable pub print_hex : ℕ → List ℕ
unfolding backward hex_char
print_hex n = backward (number_digits hex_char 16 n) []
