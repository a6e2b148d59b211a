-- ===== src/Server/Packet/Release.antt =====
-- The reply that points into the working set is released.
use mlx5_netperf.Prelude.{
  ℕ, suc, ◌≤◌, ◌<◌, ◌≡◌, refl, sym, ap, ◌∙◌, some, List, [], ◌∷◌, ◌++◌, map, arith, length,
  get_elem?,
}
use mathlib.Core.Path.{subst}
use mlx5_netperf.Prelude.Outcome.{ok}
use mlx5_netperf.Mbuf.{Mbuf, Release, unset}
use mlx5_netperf.Mempool.{Mempool}
use mlx5_netperf.Mempool.Stack.{IsValid, available}
use mlx5_netperf.Refcnt.{Refcnts}
use mlx5_netperf.Refcnt.Counts.{count}
use mlx5_netperf.Completion.{World, mbuf_free}
use mlx5_netperf.Completion.Chain.{push_all}
use mlx5_netperf.Completion.Counted.{Covers, Dropped, mbuf_free_zero_copy}
use mlx5_netperf.Headers.{RequestHeader}
use mlx5_netperf.Server.{Config, State}
use mlx5_netperf.Server.Packet.{built, zero_copy_packet}
use mlx5_netperf.Server.Packet.Raised.{Room, Raised, Covers-Raised, Dropped-Raised}
use mlx5_netperf.Server.Packet.Chained.{View, view, segment_view, Distinct, Taken}
use mlx5_netperf.Server.Packet.Reply.{Answers, zero_copy_packet_lem}

abbrev first_release : List View → Release
first_release [] = unset
first_release (x ∷ xs) = x.release

released_data :
    (heap : ℕ → Mbuf) (ms : List ℕ)
    → map View.release_data (map (λ a. view (heap a)) ms) ≡ map (λ a. (heap a).release_data) ms
released_data heap [] = refl
released_data heap (m ∷ ms) = ap (λ l. (heap m).release_data ∷ l) (released_data heap ms)

named :
    (c : Config) (total : ℕ) (vs : List ℕ)
    → map View.release_data (map (segment_view c total) vs) ≡ vs
named c total [] = refl
named c total (v ∷ vs) = ap (λ l. v ∷ l) (named c total vs)

length_of :
    (heap : ℕ → Mbuf) (ms : List ℕ) → length (map (λ a. (heap a).release_data) ms) ≡ length ms
length_of heap [] = refl
length_of heap (m ∷ ms) = ap suc (length_of heap ms)

-- Freeing a chain that answers with `vs` undoes the counts and gives the mbufs back.
released :
    (c : Config) (w : World) (total rounds v m : ℕ) (vs ms : List ℕ) (heap : ℕ → Mbuf) (p : Mempool)
    (r : Refcnts)
    → w.using_ref_counting ≡ 1
    → 0 < w.refcnts.num_total_segments
    → Room w.refcnts (v ∷ vs)
    → suc (length vs) ≤ rounds
    → Answers c total heap m ms (v ∷ vs)
    → Taken (m ∷ ms) w.mbuf_mempool p
    → Raised w.refcnts r (v ∷ vs)
    → (counts : Refcnts) × (mbufs : Mempool) × (mbuf_free rounds
          (record w { heap = heap; mbuf_mempool = p; refcnts = r })
          m
        ≡ ok (record w { heap = heap; mbuf_mempool = mbufs; refcnts = counts }))
      × ((j : ℕ) → count counts j ≡ count w.refcnts j)
      × IsValid mbufs
      × (available mbufs ≡ push_all (m ∷ ms) (available p))
      × (mbufs.allocated ≡ w.mbuf_mempool.allocated)
released c w total rounds v m vs ms heap p r u t room enough a taken raised =
    let names =
      sym (released_data heap (m ∷ ms))
      ∙ ap (map View.release_data) a.segments_sent
      ∙ named c total (v ∷ vs) in
    let fits : length (m ∷ ms) ≤ rounds = omega (arith, ap length names, length_of heap ms) in
    let (counts, mbufs, done, dropped, returned) =
      mbuf_free_zero_copy (m ∷ ms) rounds (record w { heap = heap; mbuf_mempool = p; refcnts = r })
        m (ap first_release a.segments_sent) fits a.linked_to_end (taken.0, omega (arith, taken.2))
        u (omega (arith, raised.1))
        (subst (Covers r) (sym names) (Covers-Raised w.refcnts r (v ∷ vs) room raised)) in
    (
      counts,
      mbufs,
      done,
      Dropped-Raised w.refcnts r counts (v ∷ vs) raised (subst (Dropped r counts) names dropped),
      returned.0,
      returned.1,
      omega (arith, returned.2, taken.2),
    )

-- Building the zero-copy reply to a request and freeing its first mbuf, as the completion of the
-- send does, has no lasting effect: both return, the count of every virtual segment is what it was
-- before, and the pool's free mbufs are those of the reply, pushed on the ones that stayed free.
-- The conditions are those for building the reply, and as many rounds as the chain is long.
pub zero_copy_packet-mbuf_free :
    (c : Config) (s : State) (pkt_idx request v rounds : ℕ) (vs : List ℕ) (h : RequestHeader)
    → get_elem? s.request_headers pkt_idx ≡ some h
    → s.world.using_ref_counting ≡ 1
    → 0 < s.world.refcnts.num_total_segments
    → IsValid s.world.mbuf_mempool
    → Distinct (available s.world.mbuf_mempool)
    → length (v ∷ vs) ≤ length (available s.world.mbuf_mempool)
    → Room s.world.refcnts (v ∷ vs)
    → length (v ∷ vs) ≤ rounds
    → (m : ℕ) × (ms rest : List ℕ) × (s' : State) × (w : World) × (zero_copy_packet c s pkt_idx
          request
          (v ∷ vs)
        ≡ ok (built m, s'))
      × (mbuf_free rounds s'.world m ≡ ok w)
      × ((j : ℕ) → count w.refcnts j ≡ count s.world.refcnts j)
      × IsValid w.mbuf_mempool
      × (available s.world.mbuf_mempool ≡ (m ∷ ms) ++ rest)
      × (available w.mbuf_mempool ≡ push_all (m ∷ ms) rest)
      × (w.mbuf_mempool.allocated ≡ s.world.mbuf_mempool.allocated)
zero_copy_packet-mbuf_free c s pkt_idx request v rounds vs h e u t valid distinct enough room n =
    let (m, ms, heap, p, r, sum, done, answers, taken, raised, others) =
      zero_copy_packet_lem c s pkt_idx request v vs h e u t valid distinct enough room in
    let (counts, mbufs, freed, same, valid', back, count_back) =
      released c s.world s.world.refcnts.num_total_segments rounds v m vs ms heap p r u t room n
        answers taken raised in
    (m, ms, available p, _, _, done, freed, same, valid', taken.1, back, count_back)
