-- ===== src/FileServer/Answers.antt =====
-- What the server puts into the ring for a request to read.
use c4_os.Prelude.{
  ℕ, zero, suc, ◌+◌, ◌-◌, ◌/◌, ◌%◌, ◌^◌, ◌≤◌, ◌<◌, ◌≡◌, ◌⊎◌, ◌∙◌, refl, ap, arith, true, false,
  some, List, [], ◌∷◌, ◌++◌, length, take, ltb, leb, if◌then◌else◌, add32, Bool-cases, inl, inr,
  min,
}
use c4_os.RingBuffer.{RingBuf, can_write, write}
use c4_os.RingBuffer.Bounds.{IsValid, used}
use c4_os.RingBuffer.Bulk.{write_lem}
use c4_os.RingBuffer.Refine.{contents}
use c4_os.RingBuffer.Space.{can_write-can_read}
use c4_os.Ext2fs.{BlockDevice, Io, Ext2fs, block_size, inode_read_block}
use c4_os.FileServer.{
  answered, completed, failed, error_queue_full, ClientState, Conn, lower_size, bytes_from, advance,
  sent_block, read_block_of, handle_read_block,
}
use c4_os.FileServer.Names.{length-bytes_from}

take-all : (n : ℕ) (xs : List ℕ) → length xs ≤ n → take n xs ≡ xs
take-all zero [] small = refl
take-all zero (x ∷ xs) small = absurd (omega (arith, small))
take-all (suc n) [] small = refl
take-all (suc n) (x ∷ xs) small = ap (λ ys. x ∷ ys) (take-all n xs (omega (arith, small)))

-- The bytes that a request gets: those up to the end of the file, and not more than a block has.
abbrev pub to_send : Ext2fs → ClientState → ℕ
to_send fs cli = min (block_size fs) (lower_size cli.e2node - cli.index)

-- The bytes that fit into a ring.
abbrev pub room : RingBuf → ℕ
room ring = ring.size - 1 - used ring

to_send_min : (b d : ℕ) → (if ltb b d then b else d) ≡ min b d
to_send_min b d = ground arith

-- The ring has the bytes of the block behind what it held, and the client's place moves on by them.
pub record IsSent {ℓ} {D : Type ℓ} (fs : Ext2fs) (conn : Conn D) (cli : ClientState) (io1 : Io D)
    (conn' : Conn D) : Type ℓ where
  pub sent_bytes :
      contents conn'.ring
      ≡ contents conn.ring ++ bytes_from (to_send fs cli) (cli.index % block_size fs) io1.buffer
  pub sent_valid : IsValid conn'.ring
  pub sent_place : conn'.prog_data ≡ some record cli { index = cli.index + to_send fs cli }
  pub sent_io : conn'.io ≡ io1

module _ {ℓ} {D : Type ℓ} (dev : BlockDevice D) (fs : Ext2fs) (conn : Conn D) (cli : ClientState)
    (io1 : Io D) (client : conn.prog_data ≡ some cli) (valid : IsValid conn.ring)
    (fits : (conn.ring.read_index ≤ conn.ring.write_index) ⊎ (2 ^ 32 % conn.ring.size ≡ 0))
    (short : lower_size cli.e2node < 2 ^ 32)
    (block : inode_read_block dev fs cli.e2node (cli.index / block_size fs) conn.io
      ≡ some (true, io1)) where
  send_block :
      cli.index < lower_size cli.e2node
      → to_send fs cli ≤ room conn.ring
      → (conn' : Conn D) × (sent_block dev fs cli conn.ring
            (cli.index % block_size fs)
            (to_send fs cli)
            (some (true, io1))
          ≡ some (completed (to_send fs cli) 0 0, conn'))
        × IsSent fs conn cli io1 conn'
  unfolding sent_block advance
  send_block inside enough =
      let n : ℕ = to_send fs cli in
      let src : List ℕ = bytes_from n (cli.index % block_size fs) io1.buffer in
      let w = write_lem src valid in
      let size = length-bytes_from n (cli.index % block_size fs) io1.buffer in
      let e : (write conn.ring src).0 ≡ n = omega (arith, w.0, size, enough) in
      let f : add32 cli.index n ≡ cli.index + n = omega (arith, inside, short) in
      rw (e, f)
        (
          _,
          refl,
          record {
            sent_bytes =
                w.1
                ∙ ap (λ xs. contents conn.ring ++ xs)
                    (take-all (room conn.ring) src (omega (arith, size, enough)));
            sent_valid = w.2;
            sent_place = refl;
            sent_io = refl;
          },
        )

  with_client : handle_read_block dev fs conn ≡ read_block_of dev fs conn (some cli)
  unfolding handle_read_block
  with_client = ap (λ c. read_block_of dev fs conn c) client

  at_end :
      leb (lower_size cli.e2node) cli.index ≡ true
      → read_block_of dev fs conn (some cli) ≡ some (completed 0 0 0, conn)
  unfolding read_block_of answered
  at_end e = rw e refl

  no_room :
      leb (lower_size cli.e2node) cli.index ≡ false
      → can_write conn.ring (to_send fs cli) ≡ false
      → read_block_of dev fs conn (some cli) ≡ some (failed error_queue_full, conn)
  unfolding read_block_of answered
  no_room e f = rw (e, to_send_min (block_size fs) (lower_size cli.e2node - cli.index)) (rw f refl)

  some_room :
      leb (lower_size cli.e2node) cli.index ≡ false
      → can_write conn.ring (to_send fs cli) ≡ true
      → read_block_of dev fs conn (some cli)
        ≡ sent_block dev fs cli conn.ring
            (cli.index % block_size fs)
            (to_send fs cli)
            (some (true, io1))
  unfolding read_block_of answered
  some_room e f =
      rw (e, to_send_min (block_size fs) (lower_size cli.e2node - cli.index)) (rw (f, block) refl)

  -- A request to read, of a client with a node of less than 2 ^ 32 bytes, when the block of its place
  -- can be read and the ring is valid, and either what it holds does not go round its end or its size
  -- divides 2 ^ 32 (a ring of 4084 bytes, as `connman.c` has it, is only covered while it is not
  -- wrapped): at the end of the file nothing is sent; without room in the ring the answer is an error
  -- and nothing changes; and otherwise the answer is the number of bytes sent, which the ring has
  -- behind those it held, and the next request goes on after them.
  pub handle_read_block_lem :
      ((lower_size cli.e2node ≤ cli.index)
        × (handle_read_block dev fs conn ≡ some (completed 0 0 0, conn)))
      ⊎ ((room conn.ring < to_send fs cli)
          × (handle_read_block dev fs conn ≡ some (failed error_queue_full, conn)))
      ⊎ ((to_send fs cli ≤ room conn.ring)
          × ((conn' : Conn D) × (handle_read_block dev fs conn
                ≡ some (completed (to_send fs cli) 0 0, conn'))
              × IsSent fs conn cli io1 conn'))
  handle_read_block_lem = elim (Bool-cases (leb (lower_size cli.e2node) cli.index)) [
    | inl e ↦ inl (ground (arith, e), with_client ∙ at_end e)
    | inr e ↦
        let inside : cli.index < lower_size cli.e2node = ground (arith, e) in
        let can = (can_write-can_read (to_send fs cli) valid fits).0 in
        elim (Bool-cases (can_write conn.ring (to_send fs cli))) [
          | inr f ↦ inr (inl (ground (arith, f, can), with_client ∙ no_room e f))
          | inl f ↦
              let enough : to_send fs cli ≤ room conn.ring = ground (arith, f, can) in
              let sent = send_block inside enough in
              inr (inr (enough, (sent.0, with_client ∙ some_room e f ∙ sent.1, sent.2)))
        ]
  ]
