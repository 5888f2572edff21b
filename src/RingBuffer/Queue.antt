-- ===== src/RingBuffer/Queue.antt =====
-- What a ring promises: a bounded FIFO of bytes, oldest first, and calls on it.
use c4_os.Prelude.{
  ℕ, ◌-◌, Bool, true, false, Option, none, some, List, [], ◌∷◌, ◌++◌, ltb, if◌then◌else◌, length,
  take, drop, min,
}
use c4_os.RingBuffer.{RingBuf, put_byte, get_byte, write, read}

pub data Op : Type 0 where
  put : ℕ → Op
  get : Op
  put_all : List ℕ → Op
  get_all : ℕ → Op

pub data Reply : Type 0 where
  stored : Bool → Reply
  taken : Option ℕ → Reply
  count : ℕ → Reply
  chunk : ℕ → List ℕ → Reply

-- The bounded queue.
unfoldable pub enqueue : ℕ → List ℕ → ℕ → Bool × List ℕ
enqueue limit q x = if ltb (length q) limit then (true, q ++ x ∷ []) else (false, q)

unfoldable pub dequeue : List ℕ → Option ℕ × List ℕ
dequeue [] = (none, [])
dequeue (x ∷ q) = (some x, q)

unfoldable pub answer : ℕ → List ℕ → Op → Reply × List ℕ
unfolding enqueue dequeue
answer limit q (put x) = let (done, q') = enqueue limit q x in (stored done, q')
answer limit q get = let (out, q') = dequeue q in (taken out, q')
answer limit q (put_all xs) =
    let n = limit - length q in (count (min n (length xs)), q ++ take n xs)
answer limit q (get_all n) = (chunk (min n (length q)) (take n q), drop n q)

unfoldable pub answers : ℕ → List ℕ → List Op → List Reply
answers limit q [] = []
answers limit q (op ∷ ops) = let (r, q') = answer limit q op in r ∷ answers limit q' ops

-- The same calls on the ring of the code.
unfoldable pub call : RingBuf → Op → Reply × RingBuf
unfolding put_byte get_byte write read
call buf (put x) = let (done, buf') = put_byte buf x in (stored done, buf')
call buf get = let (out, buf') = get_byte buf in (taken out, buf')
call buf (put_all xs) = let (n, buf') = write buf xs in (count n, buf')
call buf (get_all n) = let (m, out, buf') = read buf n in (chunk m out, buf')

unfoldable pub calls : RingBuf → List Op → List Reply
calls buf [] = []
calls buf (op ∷ ops) = let (r, buf') = call buf op in r ∷ calls buf' ops
