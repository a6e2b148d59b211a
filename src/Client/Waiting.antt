-- ===== src/Client/Waiting.antt =====
-- The client's wait for the time of its next request.
use mlx5_netperf.Prelude.{
  ℕ, zero, suc, ◌+◌, ◌≤◌, ◌<◌, ◌≡◌, refl, ◌∙◌, true, false, some, arith, leb, ltb, get_elem?,
  Bool-cases, inl, inr,
}
use native.Mathlib.Decide.{dec_lt}
use mlx5_netperf.Prelude.Word.{add64, sub64}
use mlx5_netperf.Prelude.Outcome.{ok, ◌>>=◌}
use mlx5_netperf.Requests.{ClientRequest}
use mlx5_netperf.Client.{Env, Config, State, gather, receive_all, wait}

-- What receiving does in one round: it comes to a good state, in which the clock was not read less
-- often, and leaves the requests alone.
abbrev pub Receives : (State → Type 0) → Env → Config → ℕ → State → Type 0
Receives IsGood e c start s =
    (s' : State) × ((gather e s >>= λ burst. receive_all e c start burst.1 burst.0) ≡ ok s')
    × IsGood s'
    × (s.ticks ≤ s'.ticks)
    × (s'.requests ≡ s.requests)
    × (s'.current ≡ s.current)

bind_assoc :
    (e : Env) (c : Config) (start last rounds budget : ℕ) (s s' : State)
    → (gather e s >>= λ burst. receive_all e c start burst.1 burst.0) ≡ ok s'
    → (gather e s >>= λ burst.
        receive_all e c start burst.1 burst.0 >>= λ s₂. wait e c start last rounds s₂ budget)
      ≡ wait e c start last rounds s' budget
bind_assoc e c start last rounds budget s s' h = ground (arith, h)

module _ (e : Env) (c : Config) (start last : ℕ) (r : ClientRequest) (late : ℕ)
    (IsGood : State → Type 0) where
  abbrev pub Passes : Type 0
  Passes =
      (t : ℕ)
      → late ≤ t
      → leb (add64 (sub64 r.timestamp_offset 0) last) (sub64 (e.cycles t) start) ≡ true

  -- The client's wait for its next request returns, with nothing left of the budget, where the
  -- clock comes to the request's time and stays there from its read `late` on, and where receiving
  -- always goes from a good state on to a good one and leaves the requests alone. It takes as many
  -- rounds as there are reads up to `late`, and one more; the state that it ends in is good.
  pub wait_returns :
      (rounds : ℕ) (s : State)
      → Passes
      → ((s : State) → IsGood s → IsGood (record s { ticks = s.ticks + 1 }))
      → ((s : State) → IsGood s → Receives IsGood e c start s)
      → IsGood s
      → get_elem? s.requests s.current ≡ some r
      → late < s.ticks + rounds
      → 0 < rounds
      → (s' : State) × (wait e c start last rounds s 0 ≡ ok (s', 0)) × IsGood s'
  unfolding wait
  wait_returns zero s passes tick receives good found enough some_round = elim some_round [ ]
  wait_returns (suc rounds) s passes tick receives good found enough some_round =
      let no_budget : ltb r.timestamp_offset 0 ≡ false = ground arith in
      elim (Bool-cases
        (leb (add64 (sub64 r.timestamp_offset 0) last) (sub64 (e.cycles s.ticks) start))) [
          | inl now ↦
              (record s { ticks = s.ticks + 1 }, rw (wait, found, no_budget, now) refl, tick s good)
          | inr later ↦
              let early : s.ticks < late = elim (dec_lt s.ticks late) [
                | yes p ↦ p
                | no p ↦ absurd (cc (passes s.ticks (omega arith)))
              ] in
              let s₁ = record s { ticks = s.ticks + 1 } in
              let (s₂, received, good₂, count, same, place) = receives s₁ (tick s good) in
              let (s', done, good') =
                wait_returns rounds s₂ passes tick receives good₂ (rw (same, place) found)
                  (omega (arith, count)) (omega arith) in
              (
                s',
                rw (wait, found, no_budget, later)
                    (bind_assoc e c start last rounds 0 s₁ s₂ received ∙ done),
                good',
              )
        ]
