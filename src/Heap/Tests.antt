-- ===== src/Heap/Tests.antt =====
-- The allocator on a region of two blocks, an empty heap and a list of three blocks.
use c4_os.Prelude.{
  ◌+◌, ◌-◌, ◌*◌, ◌^◌, ◌≤◌, ◌<◌, ◌≡◌, ◌≢◌, ◌⊎◌, refl, arith, some, [], ◌∷◌, ◌==◌, Bool-cases, inl,
  inr, if◌then◌else◌,
}
use c4_os.Heap.{
  Heap, alloc, free, node_unlink, bucket_spillover, bucket_index, max_buckets, node_size,
  status_used,
}
use c4_os.Heap.Sizes.{bucket_index_lem}
use c4_os.Heap.Lists.{FreeList}
use c4_os.Heap.Unlink.{node_unlink-FreeList}
use c4_os.Heap.Chains.{Region}
use c4_os.Heap.Spill.{cut, bucket_spillover-Region}
use c4_os.Heap.Free.{Freed, free_lem}
use c4_os.Heap.Supply.{AreSorted}
use c4_os.Heap.Leave.{AreLists, AreInside}
use c4_os.Heap.Take.{IsAllocated, alloc_lem}

-- A block in use at 4096 and a free one at 12288, each of 8192 bytes.
abbrev two_blocks : Heap
two_blocks = record {
  start = 4096;
  pages = 4;
  requests = (4096, 4) ∷ [];
  buckets = λ b. if b == 13 then 12288 else 0;
  previous = λ n. 0;
  next = λ n. 0;
  phys_next = λ n. if n == 4096 then 12288 else 0;
  phys_prev = λ n. if n == 12288 then 4096 else 0;
  status = λ n. if n == 4096 then 2 else 1;
  bucket = λ n. 13;
}

abbrev no_blocks : Heap
no_blocks = record {
  start = 4096;
  pages = 0;
  requests = [];
  buckets = λ b. 0;
  previous = λ n. 0;
  next = λ n. 0;
  phys_next = λ n. 0;
  phys_prev = λ n. 0;
  status = λ n. 0;
  bucket = λ n. 0;
}

abbrev three_free : Heap
three_free = record no_blocks {
  buckets = λ b. if b == 5 then 32 else 0;
  next = λ n. if n == 32 then 64 else if n == 64 then 96 else 0;
  previous = λ n. if n == 64 then 32 else if n == 96 then 64 else 0;
  bucket = λ n. 5;
}

bucket_index_lem_example :
    (100 + 20 ≤ 2 ^ bucket_index 100) × (2 ^ bucket_index 100 < 2 * (100 + 20))
bucket_index_lem_example = bucket_index_lem 100 (omega arith)

two_blocks-Region : Region two_blocks 4096 20480 (4096 ∷ 12288 ∷ [])
two_blocks-Region = (refl, refl, refl, (refl, refl, refl, refl))

free_lem_example :
    ((two_blocks.status (4116 - node_size) ≢ status_used)
      × (free 3 4116 two_blocks ≡ some two_blocks))
    ⊎ ((two_blocks.status (4116 - node_size) ≡ status_used)
        × Freed two_blocks 4096 20480 (4116 - node_size) (free 3 4116 two_blocks))
free_lem_example =
    free_lem 3 4116 4096 20480 two_blocks (4096 ∷ 12288 ∷ []) (omega arith) (omega arith) refl
      two_blocks-Region

bucket_spillover-Region_example :
    Region (bucket_spillover 5 13 two_blocks) 4096 20480 (cut 8 13 12288 (4096 ∷ 12288 ∷ []))
    × ((bucket_spillover 5 13 two_blocks).bucket 12288 ≡ 5)
    × ((bucket_spillover 5 13 two_blocks).buckets 5 ≡ 12288)
bucket_spillover-Region_example =
    bucket_spillover-Region two_blocks 5 13 4096 20480 (4096 ∷ 12288 ∷ []) (omega arith)
      (omega arith) (λ e. omega (arith, e)) refl refl two_blocks-Region

three_free-FreeList : FreeList three_free 5 (32 ∷ 64 ∷ 96 ∷ [])
three_free-FreeList = ground arith

node_unlink-FreeList_example : FreeList (node_unlink 64 three_free) 5 (32 ∷ 96 ∷ [])
node_unlink-FreeList_example =
    node_unlink-FreeList three_free 64 (32 ∷ 64 ∷ 96 ∷ []) three_free-FreeList refl

two_blocks-AreSorted : AreSorted two_blocks
two_blocks-AreSorted b some_block = ground (arith, some_block)

two_blocks-AreLists : AreLists two_blocks
two_blocks-AreLists b = elim (Bool-cases (b == 13)) [
  | inl e ↦ (12288 ∷ [], rw e ((refl, λ z. omega (arith, z), refl, refl), (refl, tt)))
  | inr e ↦ ([], rw e (refl, tt))
]

two_blocks-AreInside : AreInside 4096 two_blocks
two_blocks-AreInside b = ground arith

alloc_lem_example :
    ((100 + node_size ≤ 2 ^ max_buckets)
      × IsAllocated 4096 100 two_blocks (alloc 4096 100 two_blocks))
    ⊎ ((2 ^ max_buckets < 100 + node_size) × (alloc 4096 100 two_blocks ≡ (0, two_blocks)))
alloc_lem_example =
    alloc_lem 4096 100 two_blocks (omega arith) two_blocks-AreSorted two_blocks-AreLists
      (omega arith, refl, omega arith) two_blocks-AreInside
