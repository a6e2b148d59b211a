-- ===== src/Server/Burst/Batches.antt =====
-- How a burst is cut into batches.
use mlx5_netperf.Prelude.{
  ℕ, ◌+◌, ◌<◌, ◌≡◌, refl, sym, ap, ◌∙◌, true, false, List, [], ◌∷◌, ◌++◌, ◌||◌, arith, ◌==◌, length,
  length-append,
}
use mathlib.Core.List.{append_assoc, append-nil}
use mlx5_netperf.Prelude.Outcome.{Outcome, ok, err, fault, ◌>>=◌}
use mlx5_netperf.Completion.{mbuf_free}
use mlx5_netperf.Server.{Config, State}
use mlx5_netperf.Server.Process.{Env}
use mlx5_netperf.Server.Burst.{is_valid, serve_batch, serve_burst}

-- Every packet of the list passes the check.
unfoldable pub AllValid : Config → State → List ℕ → Type 0
AllValid c s [] = Unit
AllValid c s (m ∷ ms) = (is_valid c s m ≡ true) × AllValid c s ms

kept :
    (e : Env) (c : Config) (s : State) (batch : List ℕ) (pkt : ℕ) (pkts : List ℕ)
    → is_valid c s pkt ≡ true
    → ((length (batch ++ (pkt ∷ [])) == 32) || (length pkts == 0)) ≡ false
    → serve_burst e c s batch (pkt ∷ pkts) ≡ serve_burst e c s (batch ++ (pkt ∷ [])) pkts
unfolding serve_burst
kept e c s batch pkt pkts v t = rw (v, t) refl

full :
    (e : Env) (c : Config) (s : State) (batch : List ℕ) (pkt : ℕ) (pkts : List ℕ)
    → is_valid c s pkt ≡ true
    → ((length (batch ++ (pkt ∷ [])) == 32) || (length pkts == 0)) ≡ true
    → serve_burst e c s batch (pkt ∷ pkts)
      ≡ (serve_batch e c s (batch ++ (pkt ∷ [])) >>= λ s'. serve_burst e c s' [] pkts)
unfolding serve_burst
full e c s batch pkt pkts v t = rw (v, t) refl

invalid :
    (e : Env) (c : Config) (s : State) (batch : List ℕ) (pkt : ℕ) (pkts : List ℕ)
    → is_valid c s pkt ≡ false
    → serve_burst e c s batch (pkt ∷ pkts) ≡ (
        mbuf_free e.rounds s.world pkt >>= λ w. serve_burst e c (record s { world = w }) batch pkts)
unfolding serve_burst
invalid e c s batch pkt pkts v = rw v refl

not_full : (a b : ℕ) → a < 32 → 0 < b → ((a == 32) || (b == 0)) ≡ false
not_full a b h k = ground arith

-- Valid packets that do not fill a batch, with more packets behind them, are collected.
collect :
    (e : Env) (c : Config) (s : State) (batch ms : List ℕ) (x : ℕ) (rest : List ℕ)
    → length batch + length ms < 32
    → AllValid c s ms
    → serve_burst e c s batch (ms ++ (x ∷ rest)) ≡ serve_burst e c s (batch ++ ms) (x ∷ rest)
unfolding AllValid
collect e c s batch [] x rest h v =
    ap (λ (b : List ℕ). serve_burst e c s b (x ∷ rest)) (sym (append-nil batch))
collect e c s batch (m ∷ ms) x rest h (valid, v) =
    kept e c s batch m (ms ++ (x ∷ rest)) valid (
      not_full (length (batch ++ (m ∷ []))) (length (ms ++ (x ∷ rest)))
        (omega (arith, length-append batch (m ∷ []))) (omega (arith, length-append ms (x ∷ rest))))
    ∙ collect e c s (batch ++ (m ∷ [])) ms x rest (omega (arith, length-append batch (m ∷ []))) v
    ∙ ap (λ (b : List ℕ). serve_burst e c s b (x ∷ rest)) (append_assoc batch (m ∷ []) ms)

-- A burst of at most 32 packets that are all valid is processed as one batch, in the order in which
-- the packets came.
pub burst_of_valid :
    (e : Env) (c : Config) (s : State) (ms : List ℕ) (m : ℕ)
    → length ms < 32
    → AllValid c s ms
    → is_valid c s m ≡ true
    → serve_burst e c s [] (ms ++ (m ∷ [])) ≡ serve_batch e c s (ms ++ (m ∷ []))
unfolding serve_burst
burst_of_valid e c s ms m h v last_valid =
    collect e c s [] ms m [] (omega arith) v
    ∙ full e c s ms m [] last_valid (is_last (length (ms ++ (m ∷ []))))
    ∙ nothing_left (serve_batch e c s (ms ++ (m ∷ [])))
  where
    is_last : (a : ℕ) → ((a == 32) || (0 == 0)) ≡ true
    is_last a = ground arith

    nothing_left : (o : Outcome State) → (o >>= λ s'. serve_burst e c s' [] []) ≡ o
    nothing_left (ok s') = refl
    nothing_left (err n) = refl
    nothing_left fault = refl

-- Where the last packet of a burst is refused and the others are valid, all that happens is that
-- the last is freed: the others are neither processed nor freed.
pub last_invalid :
    (e : Env) (c : Config) (s : State) (ms : List ℕ) (m : ℕ)
    → length ms < 32
    → AllValid c s ms
    → is_valid c s m ≡ false
    → serve_burst e c s [] (ms ++ (m ∷ []))
      ≡ (mbuf_free e.rounds s.world m >>= λ w. ok (record s { world = w }))
unfolding serve_burst
last_invalid e c s ms m h v refused =
    collect e c s [] ms m [] (omega arith) v ∙ invalid e c s ms m [] refused
