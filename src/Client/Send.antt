-- ===== src/Client/Send.antt =====
-- The mbuf of a request: what it carries, and that it goes back to the pools.
use mlx5_netperf.Prelude.{
  ℕ, zero, suc, ◌+◌, ◌*◌, ◌^◌, ◌≤◌, ◌<◌, ◌≡◌, ◌⊎◌, inl, inr, refl, ap, ap₂, sym, ◌∙◌, none, some,
  List, [], ◌∷◌, ◌++◌, arith, ◌==◌, true, length, take, drop,
}
use mlx5_netperf.Prelude.Word.{u32, u64, add32, add64}
use mlx5_netperf.Prelude.Outcome.{ok}
use mlx5_netperf.Mbuf.{Mbuf, tx_completion, init, copy}
use mlx5_netperf.Mempool.{Mempool, alloc}
use mlx5_netperf.Mempool.Stack.{IsValid, available, pop, alloc_refines}
use mlx5_netperf.Completion.{World, mbuf_free}
use mlx5_netperf.Completion.Chain.{Linked, Holds, mbuf_free_tx}
use mlx5_netperf.Headers.{in_memory, le32}
use mlx5_netperf.Requests.{ClientRequest}
use mlx5_netperf.Server.{read, write}
use mlx5_netperf.Server.Memory.{write_apart, read-write_apart, read-write_self, read-add}
use mlx5_netperf.Server.Packet.{update}
use mlx5_netperf.Client.{
  Config, State, words, request_bytes, client_payload_size, payload_of, prepare,
}

take-words :
    (n : ℕ) (xs rest : List ℕ) → n ≤ length xs → take (8 * n) (words xs ++ rest) ≡ words (take n xs)
take-words zero xs rest h = refl
take-words (suc n) [] rest h = elim h [ ]
take-words (suc n) (x ∷ xs) rest h =
    ap (λ k. take k (words (x ∷ xs) ++ rest)) {x = 8 * suc n}
      {y = suc (suc (suc (suc (suc (suc (suc (suc (8 * n))))))))} (omega arith)
    ∙ ap (λ l. words (x ∷ []) ++ l) (take-words n xs rest (omega arith))

length-words : (xs : List ℕ) → length (words xs) ≡ 8 * length xs
length-words [] = omega arith
length-words (x ∷ xs) = omega (arith, length-words xs)

length-take_all : (n : ℕ) (xs : List ℕ) → n ≤ length xs → length (take n xs) ≡ n
length-take_all zero xs h = refl
length-take_all (suc n) [] h = elim h [ ]
length-take_all (suc n) (x ∷ xs) h = ap suc (length-take_all n xs (omega arith))

-- What a packet carries of its request: the number, the padding, and the segments it asks for.
abbrev pub asked : Config → ClientRequest → List ℕ
asked c r = le32 r.packet_id ++ (le32 r.id_padding ++ words (take c.num_segments r.segment_offsets))

equals : (n : ℕ) → (n == n) ≡ true
equals n = ground arith

payload_of_lem :
    (c : Config) (r : ClientRequest) (rs : List ClientRequest)
    → c.num_segments ≤ length r.segment_offsets
    → c.num_segments < 2 ^ 32
    → payload_of c (r ∷ rs) ≡ ok (asked c r)
unfolding payload_of client_payload_size request_bytes
payload_of_lem c r rs h small =
    let size : u64 (8 * (c.num_segments + 1))
        ≡ suc (suc (suc (suc (suc (suc (suc (suc (8 * c.num_segments)))))))) =
      omega arith in
    let whole : length (words (take c.num_segments r.segment_offsets)) ≡ 8 * c.num_segments =
      omega (
        arith,
        length-words (take c.num_segments r.segment_offsets),
        length-take_all c.num_segments r.segment_offsets h,
      ) in
    let enough = equals (suc (suc (suc (suc (suc (suc (suc (suc (8 * c.num_segments))))))))) in
    rw (size, take-words c.num_segments r.segment_offsets (request_bytes rs) h, whole, enough) refl

-- The descriptor of a packet of `n` bytes in a transmit buffer.
abbrev pub filled : Config → Mbuf → ℕ → ℕ → Mbuf
filled c b buffer n = record b {
  head = buffer;
  data_ptr = buffer;
  head_len = 16384;
  len = n;
  release = tx_completion;
  lkey = c.tx_lkey;
}

-- The pools give `pkt` and `buffer` next.
pub record Ready (w : World) (pkt buffer : ℕ) (mbufs buffers : List ℕ) : Type 0 where
  pub mbufs_valid : IsValid w.mbuf_mempool
  pub buffers_valid : IsValid w.tx_buf_mempool
  pub next_mbuf : available w.mbuf_mempool ≡ pkt ∷ mbufs
  pub next_buffer : available w.tx_buf_mempool ≡ buffer ∷ buffers

one_taken : (p p' : Mempool) (x : ℕ) → IsValid p → alloc p ≡ ok (some x, p') → 1 ≤ p'.allocated
unfolding alloc
one_taken p p' x v h = ground (arith, h)

-- Taking an item that is there.
take_item :
    (p : Mempool) (x : ℕ) (xs : List ℕ)
    → IsValid p
    → available p ≡ x ∷ xs
    → (p' : Mempool) × (alloc p ≡ ok (some x, p')) × Holds p' 1 × (available p' ≡ xs)
take_item p x xs v e =
    let (p', done, valid, rest) = alloc_refines p v in
    let taken = done ∙ ap (λ l. ok ((pop l).0, p')) e in
    (p', taken, (valid, one_taken p p' x v taken), rest ∙ ap (λ l. (pop l).1) e)

-- Two writes, one behind the other, leave all other bytes alone.
outside :
    (m : ℕ → ℕ) (a k n x : ℕ) (xs ys : List ℕ)
    → length xs ≡ k
    → k + length ys ≡ n
    → (x < a) ⊎ (a + n ≤ x)
    → write (write m a xs) (a + k) ys x ≡ m x
outside m a k n x xs ys e f (inl h) =
    write_apart (write m a xs) (a + k) x ys (inl (omega arith))
    ∙ write_apart m a x xs (inl (omega arith))
outside m a k n x xs ys e f (inr h) =
    write_apart (write m a xs) (a + k) x ys (inr (omega arith))
    ∙ write_apart m a x xs (inr (omega arith))

-- With an mbuf and a buffer free, the client makes a packet of the header's 44 bytes and of what it
-- asks for, in the next free buffer, changes no other byte of memory and no other mbuf, and takes
-- both from their pools. The requests hold the segments asked for, and the buffer does not run over
-- the end of the addresses.
pub prepare_lem :
    (c : Config) (s : State) (r : ClientRequest) (rs : List ClientRequest) (pkt buffer : ℕ)
    (mbufs buffers : List ℕ)
    → Ready s.world pkt buffer mbufs buffers
    → drop s.current s.requests ≡ r ∷ rs
    → c.num_segments ≤ length r.segment_offsets
    → c.num_segments < 2 ^ 16
    → length (in_memory c.header) ≡ 44
    → buffer + 2 ^ 20 < 2 ^ 64
    → (n : ℕ) × (memory : ℕ → ℕ) × (mbuf_pool buffer_pool : Mempool) × (n ≡ 52 + 8 * c.num_segments)
      × (prepare c s
          ≡ ok (
            some pkt,
            record s {
              memory = memory;
              world = record (s.world) {
                heap = update s.world.heap pkt (filled c (s.world.heap pkt) buffer n);
                mbuf_mempool = mbuf_pool;
                tx_buf_mempool = buffer_pool;
              };
            },
          ))
      × (read memory buffer n ≡ in_memory c.header ++ asked c r)
      × ((x : ℕ) → (x < buffer) ⊎ (buffer + n ≤ x) → memory x ≡ s.memory x)
      × (Holds mbuf_pool 1 × (available mbuf_pool ≡ mbufs))
      × (Holds buffer_pool 1 × (available buffer_pool ≡ buffers))
unfolding prepare init copy
prepare_lem c s r rs pkt buffer mbufs buffers ready at room small header fits =
    let (mbuf_pool, taken, valid, rest) =
      take_item s.world.mbuf_mempool pkt mbufs ready.mbufs_valid ready.next_mbuf in
    let (buffer_pool, found, valid', rest') =
      take_item s.world.tx_buf_mempool buffer buffers ready.buffers_valid ready.next_buffer in
    let bytes = in_memory c.header in
    let payload = asked c r in
    let behind : length payload ≡ 8 + 8 * c.num_segments = omega (
      arith,
      length-words (take c.num_segments r.segment_offsets),
      length-take_all c.num_segments r.segment_offsets room,
    ) in
    let n : ℕ = 52 + 8 * c.num_segments in
    let start : add64 buffer 0 ≡ buffer = omega arith in
    let second : add64 buffer 44 ≡ buffer + 44 = omega arith in
    let len : add32 (add32 0 (u32 (length bytes))) (u32 (length payload)) ≡ n =
      omega (arith, header, behind) in
    let first_memory = write s.memory buffer bytes in
    let memory = write first_memory (buffer + 44) payload in
    let front : read memory buffer 44 ≡ bytes =
      read-write_apart first_memory buffer (buffer + 44) 44 payload (inl (omega arith))
      ∙ ap (read first_memory buffer) (sym header)
      ∙ read-write_self s.memory buffer bytes in
    let back : read memory (buffer + 44) (length payload) ≡ payload =
      read-write_self first_memory (buffer + 44) payload in
    (
      n,
      memory,
      mbuf_pool,
      buffer_pool,
      refl,
      rw (taken, found, at, payload_of_lem c r rs room (omega arith), start, second, len, start)
          refl,
      ap (read memory buffer) {x = n} {y = 44 + length payload} (omega (arith, behind))
          ∙ read-add memory buffer 44 (length payload)
          ∙ ap₂ ◌++◌ front back,
      λ x away. outside s.memory buffer 44 n x bytes payload header (omega (arith, behind)) away,
      (valid, rest),
      (valid', rest'),
    )

-- Making a packet and freeing its mbuf, as the completion of its send does, restores both pools:
-- the free mbufs and the free buffers are the same as before, in the same order. The conditions are
-- those for making the packet, an mbuf that no other follows, and at least one round.
pub prepare-mbuf_free :
    (c : Config) (s : State) (r : ClientRequest) (rs : List ClientRequest) (pkt buffer rounds : ℕ)
    (mbufs buffers : List ℕ)
    → Ready s.world pkt buffer mbufs buffers
    → drop s.current s.requests ≡ r ∷ rs
    → c.num_segments ≤ length r.segment_offsets
    → c.num_segments < 2 ^ 16
    → length (in_memory c.header) ≡ 44
    → buffer + 2 ^ 20 < 2 ^ 64
    → (s.world.heap pkt).next ≡ none
    → 0 < rounds
    → (s' : State) × (w : World) × (prepare c s ≡ ok (some pkt, s'))
      × (mbuf_free rounds s'.world pkt ≡ ok w)
      × (available w.mbuf_mempool ≡ available s.world.mbuf_mempool)
      × (available w.tx_buf_mempool ≡ available s.world.tx_buf_mempool)
unfolding Linked
prepare-mbuf_free c s r rs pkt buffer rounds mbufs buffers ready at room small header fits alone
      some_round =
    let (n, memory, mbuf_pool, buffer_pool, size, done, carried, rest, (v, a), (v', a')) =
      prepare_lem c s r rs pkt buffer mbufs buffers ready at room small header fits in
    let b = filled c (s.world.heap pkt) buffer n in
    let heap = update s.world.heap pkt b in
    let w : World = record (s.world) {
      heap = heap;
      mbuf_mempool = mbuf_pool;
      tx_buf_mempool = buffer_pool;
    } in
    let here : heap pkt ≡ b = rw (equals pkt) refl in
    let (buffers', mbufs', freed, (_, back, _), (_, back', _)) =
      mbuf_free_tx (pkt ∷ []) rounds w pkt (ap (λ x. x.release) here) some_round
        (refl, ap (λ x. x.next) here ∙ alone) v' v in
    (
      record s { memory = memory; world = w },
      record w { tx_buf_mempool = buffers'; mbuf_mempool = mbufs' },
      done,
      freed,
      back' ∙ ap (λ l. pkt ∷ l) a ∙ sym ready.next_mbuf,
      back
          ∙ ap₂ (λ h l. h ∷ l) {x = (heap pkt).head} (ap (λ x. x.head) here) a'
          ∙ sym ready.next_buffer,
    )
