-- ===== src/Requests/Offsets.antt =====
-- The requests of the client: their numbers, and the segments that they ask for.
use native.Mathlib.Decide.{dec_lt}
use mlx5_netperf.Prelude.Count.{occurs}
use mlx5_netperf.Prelude.Update.{get_elem?-set}
use mlx5_netperf.Prelude.{
  ℕ, zero, suc, ◌+◌, ◌-◌, ◌*◌, ◌≤◌, ◌<◌, ◌≡◌, refl, sym, ◌∙◌, ap, List, [], ◌∷◌, some, arith, true,
  ltb, leb, ◌&&◌, if◌then◌else◌, length, length-set, get_elem?, get_or, set, get_elem?-of_lt,
}
use mlx5_netperf.Prelude.Word.{u32}
use mlx5_netperf.Prelude.Outcome.{ok}
use mlx5_netperf.Requests.{fill_offsets, fill_requests, ClientRequest, initialize_client_requests}
use mlx5_netperf.Requests.Chase.{EachOnce, initialize_pointer_chasing_lem}

-- The segment that is reached from another by following `k` pointers.
abbrev pub chase : List ℕ → ℕ → ℕ → ℕ
chase pointers zero region = region
chase pointers (suc k) region = chase pointers k (get_or pointers region 0)

get_or_lem : (xs : List ℕ) (i : ℕ) {x : ℕ} → get_elem? xs i ≡ some x → get_or xs i 0 ≡ x
get_or_lem [] i h = absurd cc
get_or_lem (x ∷ xs) zero h = cc
get_or_lem (x ∷ xs) (suc i) h = get_or_lem xs i h

chase_add :
    (pointers : List ℕ) (k l region : ℕ)
    → chase pointers (k + l) region ≡ chase pointers l (chase pointers k region)
chase_add pointers zero l region =
    ap (λ n. chase pointers n region) {x = 0 + l} {y = l} (omega arith)
chase_add pointers (suc k) l region =
    ap (λ n. chase pointers n region) {x = suc k + l} {y = suc (k + l)} (omega arith)
    ∙ chase_add pointers k l (get_or pointers region 0)

module _ (len : ℕ) (pointers : List ℕ) (once : EachOnce len pointers) where
  -- One step stays inside the array.
  step :
      (region : ℕ)
      → region < len
      → (next : ℕ) × (get_elem? pointers region ≡ some next)
        × (get_or pointers region 0 ≡ next)
        × (next < len)
  step region h =
      let (next, read) = get_elem?-of_lt pointers region (omega (arith, once.0)) in
      (
        next,
        read,
        get_or_lem pointers region read,
        ground (arith, occurs pointers region read, once.1 next),
      )

  chase_lt : (k region : ℕ) → region < len → chase pointers k region < len
  chase_lt zero region h = h
  chase_lt (suc k) region h =
      let (next, read, value, below) = step region h in rw value (chase_lt k next below)

  offsets_step :
      (left i region next : ℕ) (offsets : List ℕ)
      → get_elem? pointers region ≡ some next
      → i < length offsets
      → fill_offsets (suc left) i pointers region offsets
        ≡ fill_offsets left (suc i) pointers next (set offsets i region)
  unfolding fill_offsets
  offsets_step left i region next offsets read h = ground (arith, read)

  offsets_lem :
      (left i region : ℕ) (offsets : List ℕ)
      → region < len
      → i + left ≤ length offsets
      → (offsets' : List ℕ) × (fill_offsets left i pointers region offsets
          ≡ ok (chase pointers left region, offsets'))
        × (length offsets' ≡ length offsets)
        × ((k : ℕ)
            → get_elem? offsets' k ≡ (
                if leb i k && ltb k (i + left)
                then some (chase pointers (k - i) region)
                else get_elem? offsets k))
  unfolding fill_offsets
  offsets_lem zero i region offsets h p = (offsets, refl, refl, λ k. ground arith)
  offsets_lem (suc left) i region offsets h p =
      let (next, read, value, below) = step region h in
      let (old, there) = get_elem?-of_lt offsets i (omega arith) in
      let (offsets', done, same, reads) =
        offsets_lem left (suc i) next (set offsets i region) below
          (omega (arith, length-set offsets i region)) in
      (
        offsets',
        offsets_step left i region next offsets read (omega arith)
            ∙ done
            ∙ ap (λ r. ok (chase pointers left r, offsets')) (sym value),
        same ∙ length-set offsets i region,
        λ k. elim (dec_lt k i) [
          | yes p ↦ ground (arith, reads k, get_elem?-set offsets i k region there)
          | no p ↦ elim (dec_lt i k) [
            | yes q ↦
                let same_place : chase pointers (k - i) region ≡ chase pointers (k - suc i) next =
                  ap (λ n. chase pointers n region) {x = k - i} {y = suc (k - suc i)} (omega arith)
                  ∙ ap (chase pointers (k - suc i)) value in
                ground (arith, reads k, get_elem?-set offsets i k region there, same_place)
            | no q ↦
                let first : chase pointers (k - i) region ≡ region =
                  ap (λ n. chase pointers n region) {x = k - i} {y = 0} (omega arith) in
                ground (arith, reads k, get_elem?-set offsets i k region there, first)
          ]
        ],
      )

  -- Request `n` of the list has its number and the `num` segments that follow in the chase.
  abbrev Asks : List ClientRequest → ℕ → ℕ → ℕ → ℕ → ℕ → Type 0
  Asks requests iter region num n k =
      (r : ClientRequest) × (get_elem? requests n ≡ some r)
      × (r.packet_id ≡ u32 (iter + n))
      × (get_elem? r.segment_offsets k ≡ some (chase pointers (n * num + k) region))

  requests_lem :
      (left iter region timestamp num : ℕ) (blank : List ℕ)
      → region < len
      → num ≤ length blank
      → (requests : List ClientRequest) × (fill_requests left iter timestamp num pointers region
            blank
          ≡ ok requests)
        × (length requests ≡ left)
        × ((n k : ℕ) → n < left → k < num → Asks requests iter region num n k)
  unfolding fill_requests
  requests_lem zero iter region timestamp num blank h p =
      ([], refl, refl, λ n k below inside. absurd (omega arith))
  requests_lem (suc left) iter region timestamp num blank h p =
      let (offsets, filled, same, reads) = offsets_lem num 0 region blank h (omega arith) in
      let (requests, done, count, later) =
        requests_lem left (suc iter) (chase pointers num region) timestamp num blank
          (chase_lt num region h) p in
      let first : ClientRequest = record {
        timestamp_offset = timestamp;
        packet_id = u32 iter;
        id_padding = 0;
        segment_offsets = offsets;
      } in
      (
        first ∷ requests,
        rw (filled, done) refl,
        ap suc count,
        asks first requests offsets reads later,
      )
    where
      asks :
          (first : ClientRequest) (requests : List ClientRequest) (offsets : List ℕ)
          → ((k : ℕ)
              → get_elem? offsets k ≡ (
                  if leb 0 k && ltb k (0 + num)
                  then some (chase pointers (k - 0) region)
                  else get_elem? blank k))
          → ((n k : ℕ)
              → n < left
              → k < num
              → Asks requests (suc iter) (chase pointers num region) num n k)
          → (n k : ℕ) → n < suc left
          → k < num
          → Asks
              (record {
                timestamp_offset = timestamp;
                packet_id = u32 iter;
                id_padding = 0;
                segment_offsets = offsets;
              }
                ∷ requests)
              iter
              region
              num
              n
              k
      asks first requests offsets reads later zero k below inside = (
        _,
        refl,
        ap u32 {x = iter} {y = iter + 0} (omega arith),
        ground (
          arith,
          reads k,
          ap (λ n. chase pointers n region) {x = 0 * num + k} {y = k - 0} (omega arith),
        ),
      )
      asks first requests offsets reads later (suc n) k below inside =
          let (r, found, number, segment) = later n k (omega arith) inside in
          (
            r,
            found,
            number ∙ ap u32 {x = suc iter + n} {y = iter + suc n} (omega arith),
            segment
                ∙ ap some (
                    sym (chase_add pointers num (n * num + k) region)
                    ∙ ap (λ n. chase pointers n region) {x = num + (n * num + k)}
                        {y = suc n * num + k} (grind arith)),
          )

-- On an array of `len` segments, at least one, with room for at most 32 offsets in a request and
-- memory for everything, `initialize_client_requests` makes the requests that it was asked for.
-- Request `n` carries its number modulo 2^32, and its segments are the next ones of one chase that
-- starts at segment 0 and follows pointers that name every segment exactly once; each is a segment
-- of the array.
pub initialize_client_requests_lem :
    (rand : ℕ → ℕ) (memory blank : List ℕ)
    (num_requests timestamp segment_size num_segments len n k : ℕ)
    → 0 < segment_size
    → 0 < len
    → length memory ≡ len
    → num_segments ≤ length blank
    → n < num_requests
    → k < num_segments
    → (pointers : List ℕ) × (requests : List ClientRequest) × (r : ClientRequest)
      × (initialize_client_requests rand true
            (some memory)
            true
            blank
            num_requests
            timestamp
            segment_size
            num_segments
            (len * segment_size)
          ≡ ok requests)
      × EachOnce len pointers
      × (length requests ≡ num_requests)
      × (get_elem? requests n ≡ some r)
      × (r.packet_id ≡ u32 n)
      × (get_elem? r.segment_offsets k ≡ some (chase pointers (n * num_segments + k) 0))
      × (chase pointers (n * num_segments + k) 0 < len)
unfolding initialize_client_requests
initialize_client_requests_lem rand memory blank num_requests timestamp segment_size num_segments
      len n k p q m room below inside =
    let (pointers, chased, once) =
      initialize_pointer_chasing_lem rand len segment_size memory p q m in
    let (requests, filled, count, asks) =
      requests_lem len pointers once num_requests 0 0 timestamp num_segments blank q room in
    let (r, found, number, segment) = asks n k below inside in
    (
      pointers,
      requests,
      r,
      rw chased filled,
      once,
      count,
      found,
      number ∙ ap u32 {x = 0 + n} {y = n} (omega arith),
      segment,
      chase_lt len pointers once (n * num_segments + k) 0 q,
    )
