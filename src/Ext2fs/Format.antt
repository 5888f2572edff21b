-- ===== src/Ext2fs/Format.antt =====
-- Blocks on the disk, from the sizes in the superblock.
use native.Mathlib.Nat.{pow-suc, mul-le-mul_right, mul_assoc, mul_comm, add-mul}
use c4_os.Prelude.{ℕ, zero, suc, ◌+◌, ◌*◌, ◌^◌, ◌≤◌, ◌<◌, ◌≡◌, ◌∙◌, refl, ap, arith}
use c4_os.Ext2fs.{Ext2fs, block_size, block_to_sector, block_size_to_sectors, max_block}
use c4_os.Ext2fs.Access.{IsFormatted}

pow-shift : (s : ℕ) → 2 ^ (s + 10) ≡ 1024 * 2 ^ s
pow-shift zero = refl
pow-shift (suc s) =
    let e : suc s + 10 ≡ suc (s + 10) = omega arith in
    rw e (omega (arith, pow-suc 2 (s + 10), pow-suc 2 s, pow-shift s))

block_size-sectors : (fs : Ext2fs) → block_size fs ≡ 512 * block_size_to_sectors fs
unfolding block_size block_size_to_sectors
block_size-sectors fs = let e = pow-shift fs.superblock.block_shift in rw e (omega arith)

block_to_sector-start :
    (fs : Ext2fs) (b : ℕ)
    → b * block_size fs < 2 ^ 32
    → fs.block_device_start + b * block_size_to_sectors fs < 2 ^ 32
    → block_to_sector fs b ≡ fs.block_device_start + b * block_size_to_sectors fs
unfolding block_to_sector
block_to_sector-start fs b small low =
    let k : ℕ = block_size_to_sectors fs in
    let e : b * block_size fs ≡ 512 * (b * k) =
      ap (λ (x : ℕ). b * x) (block_size-sectors fs)
      ∙ omega (arith, mul_comm b (512 * k), mul_assoc 512 k b, mul_comm k b) in
    omega (arith, e, small, low)

-- If the whole filesystem, with the block after the last that is let through, has less than 2 ^ 32
-- bytes and lies on the disk, its blocks follow each other.
pub sizes-IsFormatted :
    (fs : Ext2fs) (capacity : ℕ)
    → (max_block fs + 1) * block_size fs < 2 ^ 32
    → fs.block_device_start + (max_block fs + 1) * block_size_to_sectors fs ≤ capacity
    → capacity < 2 ^ 32
    → IsFormatted fs capacity
sizes-IsFormatted fs capacity bytes inside low = record {
  room = λ b small. let there = place b small in omega (arith, there.0, there.1, inside);
  in_order = λ b c below small.
      let here = place b (omega (arith, below, small)) in
      let there = place c small in
      omega (
        arith,
        here.0,
        there.0,
        mul-le-mul_right {m = b + 1} {n = c} (block_size_to_sectors fs) (omega (arith, below)),
        add-mul b 1 (block_size_to_sectors fs),
      );
}
  where
    place :
        (b : ℕ)
        → b ≤ max_block fs
        → (block_to_sector fs b ≡ fs.block_device_start + b * block_size_to_sectors fs)
          × (b * block_size_to_sectors fs + block_size_to_sectors fs
              ≤ (max_block fs + 1) * block_size_to_sectors fs)
    place b small =
        let k : ℕ = block_size_to_sectors fs in
        let n : ℕ = max_block fs + 1 in
        let e : b * k + k ≤ n * k =
          omega
            (arith, mul-le-mul_right {m = b + 1} {n = n} k (omega (arith, small)), add-mul b 1 k) in
        let f : b * block_size fs ≤ n * block_size fs =
          mul-le-mul_right {m = b} {n = n} (block_size fs) (omega (arith, small)) in
        (block_to_sector-start fs b (omega (arith, f, bytes)) (omega (arith, e, inside, low)), e)
