-- ===== src/Heap.antt =====
-- The allocator of `libraries/c4rt/src/alloc.c` and `include/c4alloc/c4alloc.h`: blocks of powers of
-- two, each with a header, kept in one list of free blocks for each size.
--
-- A pointer is its address and `NULL` is 0. The memory of the headers is a map for each field of
-- `c4a_node_t`, from the address of the header. `page_size` is the kernel's `PAGE_SIZE`.
mod Sizes
mod Lists
mod Unlink
mod Chains
mod Split
mod Spill
mod Merge
mod Join
mod Coalesce
mod Free
mod Supply
mod Leave
mod Take
mod Tests
pub use Sizes.{bucket_index}
use c4_os.Prelude.{
  ℕ, zero, suc, ◌+◌, ◌-◌, ◌*◌, ◌/◌, ◌%◌, ◌^◌, Bool, true, false, ◌||◌, Option, none, some, List, [],
  ◌∷◌, ltb, ◌==◌, if◌then◌else◌, add32,
}

abbrev pub max_buckets : ℕ
max_buckets = 14

abbrev pub status_free : ℕ
status_free = 1

abbrev pub status_used : ℕ
status_used = 2

-- `sizeof( c4a_node_t )`: four pointers and two numbers of 16 bits.
abbrev pub node_size : ℕ
node_size = 20

-- `buckets` holds the starts of the lists. `requests` are the pages asked of the pager, the last
-- request first.
pub record Heap : Type 0 where
  pub start : ℕ
  pub pages : ℕ
  pub requests : List (ℕ × ℕ)
  pub buckets : ℕ → ℕ
  pub previous : ℕ → ℕ
  pub next : ℕ → ℕ
  pub phys_next : ℕ → ℕ
  pub phys_prev : ℕ → ℕ
  pub status : ℕ → ℕ
  pub bucket : ℕ → ℕ

abbrev pub put : ℕ → ℕ → (ℕ → ℕ) → ℕ → ℕ
put a v f x = if x == a then v else f x

abbrev pub write_start : ℕ → ℕ → Heap → Heap
write_start b v m = record m { buckets = put b v m.buckets }

abbrev pub write_previous : ℕ → ℕ → Heap → Heap
write_previous n v m = record m { previous = put n v m.previous }

abbrev pub write_next : ℕ → ℕ → Heap → Heap
write_next n v m = record m { next = put n v m.next }

abbrev pub write_phys_next : ℕ → ℕ → Heap → Heap
write_phys_next n v m = record m { phys_next = put n v m.phys_next }

abbrev pub write_phys_prev : ℕ → ℕ → Heap → Heap
write_phys_prev n v m = record m { phys_prev = put n v m.phys_prev }

abbrev pub write_status : ℕ → ℕ → Heap → Heap
write_status n v m = record m { status = put n v m.status }

abbrev pub write_bucket : ℕ → ℕ → Heap → Heap
write_bucket n v m = record m { bucket = put n v m.bucket }

unfoldable pub unlink_start : ℕ → Heap → Heap
unlink_start n m = if n == m.buckets (m.bucket n) then write_start (m.bucket n) (m.next n) m else m

unfoldable pub unlink_before : ℕ → Heap → Heap
unlink_before n m = if m.previous n == 0 then m else write_next (m.previous n) (m.next n) m

unfoldable pub unlink_after : ℕ → Heap → Heap
unlink_after n m = if m.next n == 0 then m else write_previous (m.next n) (m.previous n) m

unfoldable pub node_unlink : ℕ → Heap → Heap
node_unlink n m =
    let m1 = unlink_after n (unlink_before n (unlink_start n m)) in
    write_next n 0 (write_previous n 0 m1)

unfoldable pub bucket_insert : ℕ → ℕ → Heap → Heap
bucket_insert b n m =
    let m1 = if m.buckets b == 0 then m else write_previous (m.buckets b) n m in
    write_start b n (write_previous n 0 (write_next n (m1.buckets b) m1))

unfoldable pub bucket_pop : ℕ → Heap → ℕ × Heap
bucket_pop index m =
    let ret : ℕ = m.buckets index in if ret == 0 then (ret, m) else (ret, node_unlink ret m)

-- A block of the largest size at `temp`, in the loop of `c4a_grow`.
unfoldable pub grow_step : ℕ → ℕ → Heap → Heap
grow_step pages temp m =
    let m1 : Heap = record m { requests = (temp, pages) ∷ m.requests } in
    let m2 : Heap = write_bucket temp max_buckets (write_status temp status_free m1) in
    let m3 : Heap = write_previous temp 0 (write_next temp 0 m2) in
    bucket_insert max_buckets temp (write_phys_next temp 0 (write_phys_prev temp 0 m3))

unfoldable pub grow_loop : ℕ → ℕ → ℕ → ℕ → ℕ → Heap → Heap
grow_loop zero page_size pages temp end m = m
grow_loop (suc fuel) page_size pages temp end m =
    let rest =
      grow_loop fuel page_size pages (add32 temp (pages * page_size)) end
        (grow_step pages temp m) in
    if ltb temp end then rest else m

-- The fuel is the size of the new region, which is one step of the loop.
unfoldable pub grow : ℕ → Heap → Heap
grow page_size m =
    let pages = 2 ^ max_buckets / page_size in
    let temp = add32 m.start (m.pages * page_size) in
    let end = add32 m.start ((m.pages + pages) * page_size) in
    let m1 : Heap = record m { pages = add32 m.pages pages } in
    grow_loop (2 ^ max_buckets) page_size pages temp end m1

-- The first list from `k` on, of `left` lists, that holds a block.
unfoldable pub find_from : ℕ → ℕ → Heap → Option ℕ
find_from zero k m = none
find_from (suc left) k m =
    let rest = find_from left (suc k) m in if m.buckets k == 0 then rest else some k

unfoldable pub found_or_grow : ℕ → Option ℕ → Heap → ℕ × Heap
found_or_grow page_size (some k) m = (k, m)
found_or_grow page_size none m = (max_buckets, grow page_size m)

unfoldable pub find_upwards_bucket : ℕ → ℕ → Heap → ℕ × Heap
find_upwards_bucket page_size index m =
    found_or_grow page_size (find_from (suc max_buckets - index) index m) m

unfoldable pub split_node : ℕ → Heap → ℕ × Heap
split_node node m =
    let temp : ℕ = node + 2 ^ (m.bucket node - 1) in
    let m1 : Heap = write_bucket node (m.bucket node - 1) m in
    let m2 : Heap = write_status temp (m1.status node) (write_bucket temp (m1.bucket node) m1) in
    let m3 : Heap = write_previous temp node (write_next temp (m2.next node) m2) in
    let m4 : Heap = write_phys_prev temp node (write_next node temp m3) in
    let m5 : Heap = write_phys_next node temp (write_phys_next temp (m4.phys_next node) m4) in
    let after : ℕ = m5.phys_next temp in
    if after == 0 then (temp, m5) else (temp, write_phys_prev after temp m5)

-- The loop of `c4a_bucket_spillover`, with `i - lower` rounds left.
unfoldable pub spill_loop : ℕ → ℕ → ℕ → Heap → Heap
spill_loop zero i node m = m
spill_loop (suc left) i node m =
    let split = split_node node m in
    spill_loop left (i - 1) node (bucket_insert (i - 1) split.0 split.1)

unfoldable pub bucket_spillover : ℕ → ℕ → Heap → Heap
bucket_spillover lower upper m =
    let popped = bucket_pop upper m in
    bucket_insert lower popped.0 (spill_loop (upper - lower) upper popped.0 popped.1)

unfoldable pub get_node_from_bucket : ℕ → ℕ → Heap → ℕ × Heap
get_node_from_bucket page_size index m =
    let popped = bucket_pop index m in
    let upper = find_upwards_bucket page_size (index + 1) popped.1 in
    let again = bucket_pop index (bucket_spillover index upper.0 upper.1) in
    if popped.0 == 0 then (again.0, node_unlink again.0 again.1) else popped

unfoldable pub alloc : ℕ → ℕ → Heap → ℕ × Heap
alloc page_size size m =
    let index = bucket_index size in
    let got = get_node_from_bucket page_size index m in
    if ltb max_buckets index
    then (0, m)
    else (got.0 + node_size, write_status got.0 status_used got.1)

unfoldable pub can_coalesce : ℕ → ℕ → Heap → Bool
can_coalesce node next m =
    if node == 0
    then false
    else if next == 0
    then false
    else if m.status node == status_free
    then (if m.status next == status_free then m.bucket node == m.bucket next else false)
    else false

-- The two blocks as one, once they may be.
unfoldable pub join : ℕ → ℕ → Heap → Heap
join a b m =
    let m1 = node_unlink b (node_unlink a m) in
    let m2 = write_bucket a (m1.bucket a + 1) m1 in
    let m3 = write_phys_next a (m2.phys_next b) m2 in
    if m3.phys_next a == 0 then m3 else write_phys_prev (m3.phys_next a) a m3

unfoldable pub do_coalesce : ℕ → ℕ → Heap → Bool × Heap
do_coalesce a b m = if can_coalesce a b m then (true, join a b m) else (false, m)

unfoldable pub coalesce : ℕ → ℕ → Heap → Option (ℕ × Heap)
coalesce zero node m = none
coalesce (suc fuel) node m =
    let left = do_coalesce (m.phys_prev node) node m in
    let node1 : ℕ = if left.0 then m.phys_prev node else node in
    let right = do_coalesce node1 (left.1.phys_next node1) left.1 in
    let rest = coalesce fuel node1 right.1 in
    if left.0 || right.0 then rest else some (node1, right.1)

-- The last step of `c4a_free`.
unfoldable pub insert_free : Option (ℕ × Heap) → Option Heap
insert_free none = none
insert_free (some (node, m)) = some (bucket_insert (m.bucket node) node m)

unfoldable pub free : ℕ → ℕ → Heap → Option Heap
free fuel ptr m =
    let node = ptr - node_size in
    let m1 = write_previous node 0 (write_next node 0 (write_status node status_free m)) in
    let freed = insert_free (coalesce fuel node m1) in
    if m.status node == status_used then freed else some m

unfoldable pub heap_init : ℕ → Heap → Heap
heap_init location m = record m { start = location; pages = 0; buckets = λ b. 0 }
