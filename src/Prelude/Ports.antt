-- ===== src/Prelude/Ports.antt =====
-- The input and output ports of the machine, libraries/c4rt/src/io.c, whose assembly is not modelled.
use Prim.Native.Nat.{ℕ}

-- What the kernel calls for ports do with the machine: a value read, and the machine after.
pub record Ports {ℓ} (D : Type ℓ) : Type ℓ where
  pub in_byte : ℕ → D → ℕ × D
  pub out_byte : ℕ → ℕ → D → D
  pub in_word : ℕ → D → ℕ × D
  pub out_word : ℕ → ℕ → D → D
  pub in_dword : ℕ → D → ℕ × D
