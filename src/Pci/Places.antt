-- ===== src/Pci/Places.antt =====
-- The addresses of the configuration mechanism, as they are documented: bit 31 is set, the bus is in
-- the bits from 16 on, the slot in those from 11 on and the function in those from 8 on.
use Prim.Native.Nat.{bit_or}
use c4_os.Prelude.Bits.{bit_or_shifted}
use c4_os.Prelude.{ℕ, ◌+◌, ◌*◌, ◌/◌, ◌%◌, ◌^◌, ◌<◌, ◌≡◌, ◌∙◌, ap, arith, Bool, ◌&&◌, ◌==◌, not}
use c4_os.Pci.{pci_device, conf_address, conf_read_dword, conf_read_word, vendor_of, device_of}

abbrev pub place : ℕ → ℕ → ℕ → ℕ
place b s f = 2 ^ 31 + b * 2 ^ 16 + s * 2 ^ 11 + f * 2 ^ 8

-- The first double word of a function's configuration: the vendor in its lower half, the device in
-- its upper half.
abbrev pub vendor_at : (ℕ → ℕ) → ℕ → ℕ → ℕ → ℕ
vendor_at config b s f = config (place b s f) % 2 ^ 16

abbrev pub device_at : (ℕ → ℕ) → ℕ → ℕ → ℕ → ℕ
device_at config b s f = config (place b s f) / 2 ^ 16 % 2 ^ 16

-- A device with the numbers asked for at a place, in a slot whose function 0 has a device.
abbrev pub has_device : (ℕ → ℕ) → ℕ → ℕ → ℕ → ℕ → ℕ → Bool
has_device config vendor_id device_id b s f =
    not (vendor_at config b s 0 == 0xffff)
    && (not (vendor_at config b s f == 0xffff)
        && (vendor_id == vendor_at config b s f && device_id == device_at config b s f))

fields :
    (b s f : ℕ)
    → b < 256
    → s < 32
    → f < 8
    → bit_or (bit_or (b * 2 ^ 16) (s * 2 ^ 11)) (f * 2 ^ 8) ≡ b * 2 ^ 16 + s * 2 ^ 11 + f * 2 ^ 8
fields b s f small_b small_s small_f =
    let e : b * 2 ^ 16 + s * 2 ^ 11 ≡ (b * 32 + s) * 2 ^ 11 = omega arith in
    ap (λ (x : ℕ). bit_or x (f * 2 ^ 8)) (bit_or_shifted 16 b (s * 2 ^ 11) (omega arith) ∙ e)
    ∙ bit_or_shifted 11 (b * 32 + s) (f * 2 ^ 8) (omega arith)
    ∙ omega arith

pub conf_address_lem :
    (b s f offset : ℕ)
    → b < 256
    → s < 32
    → f < 8
    → offset < 4
    → conf_address (pci_device b s f) offset ≡ place b s f
unfolding conf_address
conf_address_lem b s f offset small_b small_s small_f low =
    let b_byte : b % 2 ^ 8 ≡ b = omega (arith, small_b) in
    let s_byte : s % 2 ^ 8 ≡ s = omega (arith, small_s) in
    let f_byte : f % 2 ^ 8 ≡ f = omega (arith, small_f) in
    let first : offset / 4 % 2 ^ 6 * 4 ≡ 0 = omega (arith, low) in
    let at : ℕ = b * 2 ^ 8 + s * 2 ^ 3 + f in
    let sum : b * 2 ^ 16 + s * 2 ^ 11 + f * 2 ^ 8 ≡ at * 2 ^ 8 = omega arith in
    let all : 128 * 2 ^ 24 + at * 2 ^ 8 ≡ (2 ^ 23 + at) * 2 ^ 8 = omega arith in
    rw (b_byte, s_byte, f_byte, first)
      (ap (λ (x : ℕ). bit_or (bit_or 0x8000_0000 x) 0) (fields b s f small_b small_s small_f ∙ sum)
        ∙ ap (λ (x : ℕ). bit_or x 0)
            (bit_or_shifted 24 128 (at * 2 ^ 8) (omega (arith, small_b, small_s, small_f)) ∙ all)
        ∙ bit_or_shifted 8 (2 ^ 23 + at) 0 (omega arith)
        ∙ omega arith)

module _ (config : ℕ → ℕ) (b s f : ℕ) (small_b : b < 256) (small_s : s < 32) (small_f : f < 8) where
  pub vendor_of-at : vendor_of config b s f ≡ vendor_at config b s f
  unfolding conf_read_word conf_read_dword
  vendor_of-at =
      ap (λ (a : ℕ). config a / 2 ^ (0 % 4 * 8) % 2 ^ 16)
        (conf_address_lem b s f 0 small_b small_s small_f (omega arith))
      ∙ omega arith

  pub device_of-at : device_of config b s f ≡ device_at config b s f
  unfolding conf_read_word conf_read_dword
  device_of-at =
      ap (λ (a : ℕ). config a / 2 ^ (2 % 4 * 8) % 2 ^ 16)
        (conf_address_lem b s f 2 small_b small_s small_f (omega arith))
