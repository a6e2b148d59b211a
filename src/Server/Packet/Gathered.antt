-- ===== src/Server/Packet/Gathered.antt =====
-- One round of the zero-copy loop: an mbuf of the pool that points at a segment.
use mlx5_netperf.Prelude.{
  ℕ, suc, ◌<◌, ◌≡◌, refl, sym, ap, ◌∙◌, Option, some, false, List, ◌∷◌, arith, ◌==◌, length, drop,
  drop-eq-cons, length-drop, get_elem?-of_lt,
}
use mlx5_netperf.Prelude.Word.{u32, add64}
use mlx5_netperf.Prelude.Outcome.{ok}
use mlx5_netperf.Mbuf.{Mbuf, init, zero_copy_tx_completion}
use mlx5_netperf.Mempool.{Mempool, alloc}
use mlx5_netperf.Mempool.Stack.{IsValid, available}
use mlx5_netperf.Refcnt.{Refcnts, server_change_refcnt}
use mlx5_netperf.Completion.{World}
use mlx5_netperf.Server.{Config}
use mlx5_netperf.Server.Packet.{update, region, link, take_reference, zero_copy_one}

-- The mbuf `b` as the round leaves it, for virtual segment `v`.
abbrev pub pointed : Config → ℕ → ℕ → Mbuf → Mbuf
pointed c total v b = record b {
  lkey = c.tx_lkey;
  release = zero_copy_tx_completion;
  release_data = v;
  head = region c total v;
  head_len = u32 c.segment_size;
  data_ptr = add64 (region c total v) 0;
  len = u32 c.segment_size;
}

pub alloc_step :
    (p : Mempool) (m : ℕ) (rest : List ℕ)
    → IsValid p
    → available p ≡ m ∷ rest
    → (p' : Mempool) × (alloc p ≡ ok (some m, p'))
      × IsValid p'
      × (available p' ≡ rest)
      × (p'.allocated ≡ suc p.allocated)
unfolding alloc
alloc_step p m rest v h =
    let within : p.allocated < length p.free_items =
      omega (arith, ap (λ (l : List ℕ). length l) h, length-drop p.allocated p.free_items) in
    let wrap : add64 p.allocated 1 ≡ suc p.allocated = ground arith in
    let (x, e) = get_elem?-of_lt p.free_items p.allocated within in
    let popped : x ∷ drop (suc p.allocated) p.free_items ≡ m ∷ rest =
      sym (drop-eq-cons p.allocated p.free_items e) ∙ h in
    (
      record p { allocated = add64 p.allocated 1 },
      ground (arith, e, popped),
      ground arith,
      rw wrap (ground (arith, popped)),
      wrap,
    )

counted :
    (w : World) (v k checksum : ℕ) (b : Mbuf) (r : Refcnts)
    → w.using_ref_counting ≡ 1
    → server_change_refcnt w.refcnts v 1 ≡ ok (k, r)
    → take_reference w v checksum b
      ≡ ok (record w { refcnts = r }, add64 checksum k, record b { release_data = v })
unfolding take_reference
counted w v k checksum b r u h = rw (u, h) refl

pub one_round :
    (c : Config) (w : World) (checksum v m k : ℕ) (prev : Option ℕ) (p : Mempool) (r : Refcnts)
    → w.using_ref_counting ≡ 1
    → 0 < w.refcnts.num_total_segments
    → alloc w.mbuf_mempool ≡ ok (some m, p)
    → server_change_refcnt w.refcnts v 1 ≡ ok (k, r)
    → zero_copy_one c w checksum prev v
      ≡ ok (
          some (
            m,
            record w {
              heap =
                  update
                    (link w.heap prev m)
                    m
                    (pointed c w.refcnts.num_total_segments v (link w.heap prev m m));
              mbuf_mempool = p;
              refcnts = r;
            },
            add64 checksum k,
          ))
unfolding zero_copy_one take_reference init
one_round c w checksum v m k prev p r u t a h =
    let some_segments : (w.refcnts.num_total_segments == 0) ≡ false = ground arith in
    rw (some_segments, a, u, h) refl
