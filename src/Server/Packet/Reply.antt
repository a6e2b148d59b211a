-- ===== src/Server/Packet/Reply.antt =====
-- The reply that points into the working set: what is built for a request, and its release.
use mlx5_netperf.Prelude.{
  ℕ, ◌+◌, ◌*◌, ◌≤◌, ◌<◌, ◌≡◌, refl, sym, ap, ap₂, ◌∙◌, Bool, true, false, none, some, List, [], ◌∷◌,
  map, arith, ◌==◌, if◌then◌else◌, length, get_elem?, set, ==→≡,
}
use mathlib.Core.Path.{subst}
use mlx5_netperf.Prelude.Count.{occurrences, occurrences-append, last, last_occurs, absent}
use mlx5_netperf.Prelude.Word.{u32, u64}
use mlx5_netperf.Prelude.Outcome.{ok}
use mlx5_netperf.Mbuf.{Mbuf}
use mlx5_netperf.Mempool.{Mempool}
use mlx5_netperf.Mempool.Stack.{IsValid, available}
use mlx5_netperf.Refcnt.{Refcnts}
use mlx5_netperf.Completion.{World}
use mlx5_netperf.Completion.Chain.{Linked}
use mlx5_netperf.Headers.{RequestHeader, request_at, parse_outgoing_request_header}
use mlx5_netperf.Server.{Config, State, read}
use mlx5_netperf.Server.Packet.{update, finish_chain, built, zero_copy_loop, zero_copy_packet}
use mlx5_netperf.Server.Packet.Raised.{Room, Raised}
use mlx5_netperf.Server.Packet.Chained.{
  view, segment_view, Chain, Distinct, Taken, Built, zero_copy_loop_lem, first_of,
}

-- A write that keeps what `f` reads of an mbuf keeps it of all.
kept {ℓ} :
    {X : Type ℓ} (f : Mbuf → X) (heap : ℕ → Mbuf) (m : ℕ) (b : Mbuf)
    → f b ≡ f (heap m)
    → (a : ℕ) → f (update heap m b a) ≡ f (heap a)
kept {X = X} f heap m b h a = by_case (a == m) refl
  where
    by_case : (t : Bool) → (a == m) ≡ t → f (if t then b else heap a) ≡ f (heap a)
    by_case true e = h ∙ ap (λ x. f (heap x)) (sym (==→≡ a m e))
    by_case false e = refl

at_self : (heap : ℕ → Mbuf) (m : ℕ) (b : Mbuf) → update heap m b m ≡ b
at_self heap m b = ground arith

-- What finishing a chain changes: the last mbuf's `next`, and the counts of the first.
module _ (c : Config) (heap : ℕ → Mbuf) (m : ℕ) (ms : List ℕ) where
  abbrev counted : ℕ → Mbuf
  counted = update heap m (record (heap m) { nb_segs = u32 c.num_segments })

  abbrev ended : ℕ → Mbuf
  ended = update counted (last m ms) (record (counted (last m ms)) { next = none })

  finished-view : (a : ℕ) → view (finish_chain c heap m ms a) ≡ view (heap a)
  unfolding finish_chain
  finished-view a =
      kept view ended m _ refl a
      ∙ kept view counted (last m ms) _ refl a
      ∙ kept view heap m _ refl a

  finished-next :
      (a : ℕ) → (finish_chain c heap m ms a).next ≡ (if a == last m ms then none else (heap a).next)
  unfolding finish_chain
  finished-next a = kept Mbuf.next ended m _ refl a ∙ at_last (a == last m ms)
    where
      at_last :
          (b : Bool)
          → (if b then record (counted (last m ms)) { next = none } else counted a).next
            ≡ (if b then none else (heap a).next)
      at_last true = refl
      at_last false = kept Mbuf.next heap m _ refl a

  finished-first :
      ((finish_chain c heap m ms m).nb_segs ≡ u32 c.num_segments)
      × ((finish_chain c heap m ms m).pkt_len ≡ u32 (c.segment_size * c.num_segments))
  unfolding finish_chain
  finished-first = (
    ap Mbuf.nb_segs (at_self ended m _)
        ∙ kept Mbuf.nb_segs counted (last m ms) _ refl m
        ∙ ap Mbuf.nb_segs (at_self heap m _),
    ap Mbuf.pkt_len (at_self ended m _),
  )

  finished-other :
      (a : ℕ) → (a == m) ≡ false → (a == last m ms) ≡ false → finish_chain c heap m ms a ≡ heap a
  unfolding finish_chain
  finished-other a h k = rw (h, k) refl

linked :
    (heap heap' : ℕ → Mbuf) (m : ℕ) (ms : List ℕ)
    → Chain heap (m ∷ ms)
    → Distinct (m ∷ ms)
    → ((a : ℕ) → (heap' a).next ≡ (if a == last m ms then none else (heap a).next))
    → Linked heap' (some m) (m ∷ ms)
unfolding Chain Linked
linked heap heap' m [] chain distinct h = (refl, ground (arith, h m))
linked heap heap' m (x ∷ xs) (next, chain) distinct h =
    let later = linked heap heap' x xs chain (λ a. omega (arith, distinct a)) h in
    let not_last = absent m (last x xs) (x ∷ xs) (ground (arith, distinct m)) (last_occurs x xs) in
    (refl, (h m ∙ ap (λ b. if b then none else (heap m).next) not_last ∙ next, later.1))

map-view :
    (heap heap' : ℕ → Mbuf) (ms : List ℕ)
    → ((a : ℕ) → view (heap' a) ≡ view (heap a))
    → map (λ m. view (heap' m)) ms ≡ map (λ m. view (heap m)) ms
map-view heap heap' [] h = refl
map-view heap heap' (m ∷ ms) h = ap₂ (λ x l. x ∷ l) (h m) (map-view heap heap' ms h)

-- The header of the reply, but for the checksum.
abbrev pub reply_header : Config → State → ℕ → RequestHeader → RequestHeader
reply_header c s request h =
    parse_outgoing_request_header h (request_at (read s.memory (s.world.heap request).data_ptr 58))
      (u64 (c.num_segments * c.segment_size + 16))

packet_step :
    (c : Config) (s : State) (w : World) (pkt_idx request sum m : ℕ) (segments ms : List ℕ)
    (h : RequestHeader)
    → get_elem? s.request_headers pkt_idx ≡ some h
    → zero_copy_loop c s.world (reply_header c s request h).checksum none segments
      ≡ ok (some (m ∷ ms), w, sum)
    → zero_copy_packet c s pkt_idx request segments
      ≡ ok (
        built m,
        record s {
          world = record w { heap = finish_chain c w.heap m ms };
          request_headers =
              set s.request_headers pkt_idx
                (record (reply_header c s request h) { checksum = sum });
        },
      )
unfolding zero_copy_packet
packet_step c s w pkt_idx request sum m segments ms h e k = rw (e, zero_copy_packet, k) refl

-- The chain `m ∷ ms` answers with the segments `vs`: it is linked to its end, each mbuf is all of
-- its segment in the working set and is released by counting that segment down, and the first
-- mbuf has the number of segments and their total length.
pub record Answers (c : Config) (total : ℕ) (heap : ℕ → Mbuf) (m : ℕ) (ms vs : List ℕ)
    : Type 0 where
  pub linked_to_end : Linked heap (some m) (m ∷ ms)
  pub segments_sent : map (λ a. view (heap a)) (m ∷ ms) ≡ map (segment_view c total) vs
  pub segments_counted : (heap m).nb_segs ≡ u32 c.num_segments
  pub bytes_counted : (heap m).pkt_len ≡ u32 (c.segment_size * c.num_segments)

Taken-Distinct :
    (ms : List ℕ) (p p' : Mempool) → Taken ms p p' → Distinct (available p) → Distinct ms
Taken-Distinct ms p p' t d a =
    omega (arith, d a, ap (occurrences a) t.1, occurrences-append ms (available p') a)

answered :
    (c : Config) (w : World) (vs ms : List ℕ) (heap : ℕ → Mbuf) (p : Mempool) (r : Refcnts) (m : ℕ)
    → Distinct (available w.mbuf_mempool)
    → Built c w none vs (m ∷ ms) heap p r
    → Answers c w.refcnts.num_total_segments (finish_chain c heap m ms) m ms vs
answered c w vs ms heap p r m distinct b = record {
  linked_to_end =
      linked heap (finish_chain c heap m ms) m ms b.chain
        (Taken-Distinct (m ∷ ms) w.mbuf_mempool p b.taken distinct) (finished-next c heap m ms);
  segments_sent =
      map-view heap (finish_chain c heap m ms) (m ∷ ms) (finished-view c heap m ms) ∙ b.views;
  segments_counted = (finished-first c heap m ms).0;
  bytes_counted = (finished-first c heap m ms).1;
}

others_kept :
    (c : Config) (w : World) (vs ms : List ℕ) (heap : ℕ → Mbuf) (p : Mempool) (r : Refcnts)
    (m a : ℕ)
    → Built c w none vs (m ∷ ms) heap p r
    → occurrences a (m ∷ ms) ≡ 0
    → finish_chain c heap m ms a ≡ w.heap a
others_kept c w vs ms heap p r m a b h =
    finished-other c heap m ms a (absent a m (m ∷ ms) h (ground arith))
      (absent a (last m ms) (m ∷ ms) h (last_occurs m ms))
    ∙ b.others a h

-- The zero-copy branch of `process_server_requests`, with reference counting on, answers a request
-- with a chain of as many mbufs as it names segments, which `Answers` it; the mbufs are the next
-- of the pool, no other mbuf changes, the count of each virtual segment rises by the number of
-- mbufs that name it, and the request header gets the reply's. It takes a valid pool of distinct
-- mbufs, enough of them free, and counts with room for the references.
pub zero_copy_packet_lem :
    (c : Config) (s : State) (pkt_idx request v : ℕ) (vs : List ℕ) (h : RequestHeader)
    → get_elem? s.request_headers pkt_idx ≡ some h
    → s.world.using_ref_counting ≡ 1
    → 0 < s.world.refcnts.num_total_segments
    → IsValid s.world.mbuf_mempool
    → Distinct (available s.world.mbuf_mempool)
    → length (v ∷ vs) ≤ length (available s.world.mbuf_mempool)
    → Room s.world.refcnts (v ∷ vs)
    → (m : ℕ) × (ms : List ℕ) × (heap : ℕ → Mbuf) × (p : Mempool) × (r : Refcnts) × (sum : ℕ)
      × (zero_copy_packet c s pkt_idx request (v ∷ vs)
          ≡ ok (
            built m,
            record s {
              world = record (s.world) { heap = heap; mbuf_mempool = p; refcnts = r };
              request_headers =
                  set s.request_headers pkt_idx
                    (record (reply_header c s request h) { checksum = sum });
            },
          ))
      × Answers c s.world.refcnts.num_total_segments heap m ms (v ∷ vs)
      × Taken (m ∷ ms) s.world.mbuf_mempool p
      × Raised s.world.refcnts r (v ∷ vs)
      × ((a : ℕ) → occurrences a (m ∷ ms) ≡ 0 → heap a ≡ s.world.heap a)
zero_copy_packet_lem c s pkt_idx request v vs h e u t valid distinct enough room =
    let (ms, heap, p, r, sum, done, long, b) =
      zero_copy_loop_lem (v ∷ vs) c s.world (reply_header c s request h).checksum none u t valid
        distinct enough room in
    let (m, rest, shape) = first_of ms (omega (arith, long)) in
    let shaped = subst (λ l. Built c s.world none (v ∷ vs) l heap p r) shape b in
    (
      m,
      rest,
      finish_chain c heap m rest,
      p,
      r,
      sum,
      packet_step c s (record (s.world) { heap = heap; mbuf_mempool = p; refcnts = r }) pkt_idx
          request sum m (v ∷ vs) rest h e
          (done
            ∙ ap
                (λ l.
                  ok (some l, record (s.world) { heap = heap; mbuf_mempool = p; refcnts = r }, sum))
                shape),
      answered c s.world (v ∷ vs) rest heap p r m distinct shaped,
      shaped.taken,
      shaped.raised,
      λ a. others_kept c s.world (v ∷ vs) rest heap p r m a shaped,
    )
