-- ===== src/Lrpc/Fifo.antt =====
-- The channel is a queue: what is received is what was sent, in order.
use mlx5_netperf.Prelude.{
  ℕ, zero, suc, ◌+◌, ◌%◌, ◌^◌, ◌≤◌, ◌<◌, ◌≡◌, refl, sym, ap, ap₂, ◌∙◌, Bool, true, false, Option,
  none, some, List, [], ◌∷◌, ◌++◌, arith, ◌==◌, length, length-append, get_elem?, replicate,
  length-replicate,
}
use native.Mathlib.Nat.{one-le-pow, mod-lt}
use mlx5_netperf.Prelude.Digits.{bit-add_pow, bit-of_lt, pow_lt}
use mathlib.Core.Path.{subst}
use mathlib.Core.List.{append_assoc}
use mlx5_netperf.Prelude.Word.{sub32}
use mlx5_netperf.Prelude.Outcome.{Outcome, ok}
use mlx5_netperf.Lrpc.{
  LrpcMsg, Channel, lrpc_send, lrpc_get_cached_length, lrpc_poll_send_tail, lrpc_recv, lrpc_empty,
}
use mlx5_netperf.Lrpc.Steps.{
  Inv, length-snoc, after_recv, send_Inv, send_lem, recv_none, recv_some, recv_Inv, poll_Inv,
}

-- A channel of `2^k` slots whose table is zero, as both ends start.
abbrev pub fresh : ℕ → Channel
fresh k = record {
  tbl = replicate (2 ^ k) (record { cmd = 0; payload = 0 });
  recv_head_wb = 0;
  egress = record { send_head = 0; send_tail = 0; size = 2 ^ k };
  ingress = record { recv_head = 0; size = 2 ^ k };
}

-- A channel with the messages that were sent and that were received, after the two ends have done
-- their steps in some order. A send is taken where the cached counts leave room.
pub data Run (k : ℕ) (send_slowly : Channel → ℕ → ℕ → Outcome (Bool × Channel))
    : Channel → List (ℕ × ℕ) → List (ℕ × ℕ) → Type 0 where
  start : Run k send_slowly (fresh k) [] []
  sent :
      {c c' : Channel} {s r : List (ℕ × ℕ)} (cmd payload : ℕ)
      → Run k send_slowly c s r
      → cmd < 2 ^ 63
      → lrpc_get_cached_length c.egress < 2 ^ k
      → lrpc_send send_slowly c cmd payload ≡ ok (true, c')
      → Run k send_slowly c' (s ++ ((cmd, payload) ∷ [])) r
  polled :
      {c : Channel} {s r : List (ℕ × ℕ)}
      → Run k send_slowly c s r
      → Run k send_slowly (lrpc_poll_send_tail c).1 s r
  received :
      {c c' : Channel} {s r : List (ℕ × ℕ)} {m : ℕ × ℕ}
      → Run k send_slowly c s r
      → lrpc_recv c ≡ ok (some m, c')
      → Run k send_slowly c' s (r ++ (m ∷ []))

get_elem?-replicate : (n i : ℕ) (m : LrpcMsg) → i < n → get_elem? (replicate n m) i ≡ some m
get_elem?-replicate zero i m h = elim h [ ]
get_elem?-replicate (suc n) zero m h = refl
get_elem?-replicate (suc n) (suc i) m h = get_elem?-replicate n i m (omega arith)

fresh-Inv : (k : ℕ) → k < 32 → Inv k (fresh k) [] 0 0
fresh-Inv k h = record {
  small = h;
  slots = length-replicate (2 ^ k) _;
  out_size = refl;
  in_size = refl;
  head = refl;
  tail = refl;
  recv = refl;
  wb = refl;
  known = omega arith;
  received = omega arith;
  within = omega arith;
  stored = λ n cmd payload late at. absurd (cc at);
  vacant = λ n late early. (
    record { cmd = 0; payload = 0 },
    get_elem?-replicate (2 ^ k) (n % 2 ^ k) _ (mod-lt n {m = 2 ^ k} (one-le-pow k 2 (omega arith))),
    ground (arith, bit-add_pow k n, bit-of_lt k n),
  );
}

-- The message that comes next, if there is one.
abbrev pub next : List (ℕ × ℕ) → Option (ℕ × ℕ)
next [] = none
next (m ∷ ms) = some m

get_elem?-behind :
    (r rest : List (ℕ × ℕ)) (m : ℕ × ℕ) → get_elem? (r ++ (m ∷ rest)) (length r) ≡ some m
get_elem?-behind [] rest m = refl
get_elem?-behind (x ∷ r) rest m = get_elem?-behind r rest m

-- What a receive gives on a channel whose pending messages are `rest`.
receives :
    (k u : ℕ) (c : Channel) (r rest : List (ℕ × ℕ))
    → Inv k c (r ++ rest) (length r) u
    → (c' : Channel) × (lrpc_recv c ≡ ok (next rest, c'))
      × (lrpc_empty c ≡ ok (length rest == 0))
      × ((m : ℕ × ℕ) → next rest ≡ some m → Inv k c' (r ++ rest) (suc (length r)) u)
receives k u c r [] inv =
    let e : length (r ++ []) ≡ length r = omega (arith, length-append {0} r []) in
    let (nothing, empty) = recv_none k c (r ++ []) (length r) u inv e in
    (c, nothing, empty, λ m h. absurd (cc h))
receives k u c r (m ∷ rest) inv =
    let at = get_elem?-behind r rest m in
    let (something, filled) = recv_some k c (r ++ (m ∷ rest)) (length r) u inv m.0 m.1 at in
    let some_left : (length (m ∷ rest) == 0) ≡ false = ground arith in
    (
      after_recv k c (r ++ (m ∷ rest)) (length r) u inv,
      something,
      filled ∙ ap ok (sym some_left),
      λ x h.
          recv_Inv k c (r ++ (m ∷ rest)) (length r) u inv
            (omega (arith, length-append {0} r (m ∷ rest))),
    )

same_pair : {x y : ℕ × ℕ} → some x ≡ some y → x ≡ y
same_pair h = cc

same_result {ℓ} : {A : Type ℓ} {x y : A} → ok x ≡ ok y → x ≡ y
same_result h = cc

-- A receive that succeeded took the next message, and leaves a channel that is as it should be.
received_one :
    (k u : ℕ) (c c' : Channel) (r rest : List (ℕ × ℕ)) (m : ℕ × ℕ)
    → Inv k c (r ++ rest) (length r) u
    → lrpc_recv c ≡ ok (some m, c')
    → (rest' : List (ℕ × ℕ)) × (rest ≡ m ∷ rest') × Inv k c' (r ++ rest) (suc (length r)) u
received_one k u c c' r [] m inv h =
    let (c'', found, empty, more) = receives k u c r [] inv in
    absurd (cc (ap (λ (x : Option (ℕ × ℕ) × Channel). x.0) (same_result (sym found ∙ h))))
received_one k u c c' r (x ∷ rest) m inv h =
    let (c'', found, empty, keeps) = receives k u c r (x ∷ rest) inv in
    let same : (some x, c'') ≡ (some m, c') = same_result (sym found ∙ h) in
    let first : some x ≡ some m = ap (λ (p : Option (ℕ × ℕ) × Channel). p.0) same in
    (
      rest,
      ap (λ y. y ∷ rest) (same_pair first),
      subst (λ c. Inv k c (r ++ (x ∷ rest)) (suc (length r)) u)
          (ap (λ (p : Option (ℕ × ℕ) × Channel). p.1) same) (keeps x refl),
    )

-- After any run the pending messages are the end of what was sent.
Run-Inv :
    (k : ℕ) (send_slowly : Channel → ℕ → ℕ → Outcome (Bool × Channel)) (c : Channel)
    (s r : List (ℕ × ℕ))
    → k < 32
    → Run k send_slowly c s r
    → (rest : List (ℕ × ℕ)) × (u : ℕ) × (s ≡ r ++ rest) × Inv k c s (length r) u
unfolding lrpc_get_cached_length
Run-Inv k send_slowly c s r h start = ([], 0, refl, fresh-Inv k h)
Run-Inv k send_slowly c s r h (sent {c = before} {s = s₀} cmd payload run fits window done) =
    let (rest, u, split, inv) = Run-Inv k send_slowly before s₀ r h run in
    let small : 2 ^ k < 2 ^ 32 = pow_lt k 32 h in
    let room : length s₀ < u + 2 ^ k =
      omega (arith, ap₂ sub32 inv.head inv.tail, inv.known, inv.received, inv.within) in
    let sent_one = send_lem k before s₀ (length r) u inv send_slowly cmd payload fits room in
    let same = ap (λ (p : Bool × Channel). p.1) (same_result (sym sent_one ∙ done)) in
    (
      rest ++ ((cmd, payload) ∷ []),
      u,
      ap (λ l. l ++ ((cmd, payload) ∷ [])) split ∙ append_assoc r rest ((cmd, payload) ∷ []),
      subst (λ c. Inv k c (s₀ ++ ((cmd, payload) ∷ [])) (length r) u) same
          (send_Inv k before s₀ (length r) u inv cmd payload fits room),
    )
Run-Inv k send_slowly c s r h (polled {c = before} run) =
    let (rest, u, split, inv) = Run-Inv k send_slowly before s r h run in
    (rest, length r, split, poll_Inv k before s (length r) u inv)
Run-Inv k send_slowly c s r h (received {c = before} {r = r₀} {m = m} run done) =
    let (rest, u, split, inv) = Run-Inv k send_slowly before s r₀ h run in
    let (rest', next_is, inv') =
      received_one k u before c r₀ rest m (subst (λ l. Inv k before l (length r₀) u) split inv)
        done in
    (
      rest',
      u,
      split ∙ ap (λ l. r₀ ++ l) next_is ∙ sym (append_assoc r₀ (m ∷ []) rest'),
      subst (λ l. Inv k c l (length (r₀ ++ (m ∷ []))) u) (sym split)
          (subst (λ n. Inv k c (r₀ ++ rest) n u) (sym (length-snoc r₀ m)) inv'),
    )

-- The channel is a bounded queue. After any sequence of sends with room, polls and receives, what
-- was received is a prefix of what was sent: nothing is lost, repeated or put out of order. At most
-- as many messages are pending as there are slots, a receive gives the next of them, or nothing
-- where none is pending, and `lrpc_empty` says which. The channel has 2^k slots, k at most 31, and
-- commands leave the parity bit free.
pub fifo :
    (k : ℕ) (send_slowly : Channel → ℕ → ℕ → Outcome (Bool × Channel)) (c : Channel)
    (s r : List (ℕ × ℕ))
    → k < 32
    → Run k send_slowly c s r
    → (rest : List (ℕ × ℕ)) × (c' : Channel) × (s ≡ r ++ rest)
      × (length rest ≤ 2 ^ k)
      × (lrpc_recv c ≡ ok (next rest, c'))
      × (lrpc_empty c ≡ ok (length rest == 0))
fifo k send_slowly c s r h run =
    let (rest, u, split, inv) = Run-Inv k send_slowly c s r h run in
    let (c', found, empty, keeps) =
      receives k u c r rest (subst (λ l. Inv k c l (length r) u) split inv) in
    (
      rest,
      c',
      split,
      omega (
        arith,
        inv.within,
        inv.known,
        length-append {0} r rest,
        ap (λ (l : List (ℕ × ℕ)). length l) split,
      ),
      found,
      empty,
    )
