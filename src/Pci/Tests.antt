-- ===== src/Pci/Tests.antt =====
-- Runs of the bus scan of programs/initprogs.
use c4_os.Prelude.{if◌then◌else◌, ◌==◌, ℕ, ◌≡◌, refl, [], ◌∷◌}
use c4_os.Pci.{
  pci_device, conf_address, pci_lookup, number_digits, digits_from, backward, print_num,
}
use c4_os.Pci.Lookup.{IsAnswer, pci_lookup-IsAnswer}

-- A bus with one device, at function 0 of slot 2.
abbrev one_device : ℕ → ℕ
one_device address = if address == 0x8000_1000 then 0x8139_10ec else 0xffff_ffff

addressed : conf_address (pci_device 1 2 3) 0x2e ≡ 0x8001_132c
unfolding conf_address
addressed = refl

thousand : print_num 1024 ≡ 49 ∷ 48 ∷ 50 ∷ 52 ∷ []
unfolding print_num number_digits digits_from backward
thousand = refl

pci_lookup-IsAnswer_example :
    IsAnswer one_device 0x10ec 0x8139 (pci_lookup one_device 0x10ec 0x8139)
pci_lookup-IsAnswer_example = pci_lookup-IsAnswer one_device 0x10ec 0x8139
