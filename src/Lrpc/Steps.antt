-- ===== src/Lrpc/Steps.antt =====
-- What holds of a channel, and how each operation keeps it.
use mlx5_netperf.Prelude.{
  ℕ, zero, suc, ◌+◌, ◌-◌, ◌%◌, ◌^◌, ◌≤◌, ◌<◌, ◌≡◌, refl, sym, ap, ap₂, ◌∙◌, Bool, true, false, not,
  none, some, List, [], ◌∷◌, ◌++◌, arith, bit_and, leb, ◌==◌, if◌then◌else◌, length, length-append,
  length-set, get_elem?, set, get_elem?-of_lt, get_elem?-set_self,
}
use native.Mathlib.Decide.{dec_lt}
use native.Mathlib.Nat.{one-le-pow, mod-lt, add-mod_right}
use mlx5_netperf.Prelude.Digits.{pow_lt}
use mlx5_netperf.Prelude.Update.{get_elem?-set, lt_of_get_elem?}
use mlx5_netperf.Prelude.Word.{add32, sub32}
use mlx5_netperf.Prelude.Outcome.{Outcome, ok}
use mlx5_netperf.Lrpc.{
  LrpcMsg, Channel, parity, lrpc_send, lrpc_poll_send_tail, lrpc_recv, lrpc_empty,
}
use mlx5_netperf.Lrpc.Lap.{
  mark, head_index, head_parity, mark_next, mark_after_next, marked, mark_of, cmd_of, slots_apart,
}

-- `sent` is all that was sent, of which `t` messages have been received and `u` are known to be
-- received at the sending end.
pub record Inv (k : ℕ) (c : Channel) (sent : List (ℕ × ℕ)) (t u : ℕ) : Type 0 where
  pub small : k < 32
  pub slots : length c.tbl ≡ 2 ^ k
  pub out_size : c.egress.size ≡ 2 ^ k
  pub in_size : c.ingress.size ≡ 2 ^ k
  pub head : c.egress.send_head ≡ length sent % 2 ^ 32
  pub tail : c.egress.send_tail ≡ u % 2 ^ 32
  pub recv : c.ingress.recv_head ≡ t % 2 ^ 32
  pub wb : c.recv_head_wb ≡ t % 2 ^ 32
  pub known : u ≤ t
  pub received : t ≤ length sent
  pub within : length sent ≤ u + 2 ^ k
  pub stored :
      (n cmd payload : ℕ)
      → t ≤ n
      → get_elem? sent n ≡ some (cmd, payload)
      → (get_elem? c.tbl (n % 2 ^ k) ≡ some (record { cmd = mark k n + cmd; payload = payload }))
        × (cmd < 2 ^ 63)
  pub vacant :
      (n : ℕ)
      → length sent ≤ n
      → n < t + 2 ^ k
      → (m : LrpcMsg) × (get_elem? c.tbl (n % 2 ^ k) ≡ some m)
        × (bit_and m.cmd (2 ^ 63) ≡ mark k (n + 2 ^ k))

-- Reading a list with one more element.
get_elem?-snoc_old :
    (xs : List (ℕ × ℕ)) (n : ℕ) (x : ℕ × ℕ)
    → n < length xs
    → get_elem? (xs ++ (x ∷ [])) n ≡ get_elem? xs n
get_elem?-snoc_old [] n x h = elim h [ ]
get_elem?-snoc_old (y ∷ xs) zero x h = refl
get_elem?-snoc_old (y ∷ xs) (suc n) x h = get_elem?-snoc_old xs n x (omega arith)

get_elem?-snoc_new :
    (xs : List (ℕ × ℕ)) (x : ℕ × ℕ) → get_elem? (xs ++ (x ∷ [])) (length xs) ≡ some x
get_elem?-snoc_new [] x = refl
get_elem?-snoc_new (y ∷ xs) x = get_elem?-snoc_new xs x

pub length-snoc : (xs : List (ℕ × ℕ)) (x : ℕ × ℕ) → length (xs ++ (x ∷ [])) ≡ suc (length xs)
length-snoc xs x = omega (arith, length-append {0} xs (x ∷ []))

same_pair : {x y : ℕ × ℕ} → some x ≡ some y → x ≡ y
same_pair h = cc

differ : (a b b' : ℕ) → b' ≡ a → (b == b') ≡ false → (a == b) ≡ false
differ a b b' e h = ground arith

module _ (k : ℕ) (c : Channel) (sent : List (ℕ × ℕ)) (t u : ℕ) (inv : Inv k c sent t u) where
  -- The slot that the next message goes to.
  send_slot : (old : LrpcMsg) × (get_elem? c.tbl (length sent % 2 ^ k) ≡ some old)
  send_slot =
      get_elem?-of_lt c.tbl (length sent % 2 ^ k)
        (omega (arith, inv.slots, mod-lt (length sent) {m = 2 ^ k} (one-le-pow k 2 (omega arith))))

  -- The channel after a message.
  abbrev pub after_send : ℕ → ℕ → Channel
  after_send cmd payload = record c {
    tbl =
        set c.tbl (length sent % 2 ^ k)
          (record { cmd = mark k (length sent) + cmd; payload = payload });
    egress = record (c.egress) { send_head = add32 c.egress.send_head 1 };
  }

  -- Another slot within a lap keeps its message.
  other_slot :
      (n cmd payload : ℕ)
      → (length sent % 2 ^ k == n % 2 ^ k) ≡ false
      → get_elem? (after_send cmd payload).tbl (n % 2 ^ k) ≡ get_elem? c.tbl (n % 2 ^ k)
  other_slot n cmd payload apart =
      get_elem?-set c.tbl (length sent % 2 ^ k) (n % 2 ^ k) _ send_slot.1
      ∙ ap
          (λ b.
            if b
            then some (record { cmd = mark k (length sent) + cmd; payload = payload })
            else get_elem? c.tbl (n % 2 ^ k))
          apart

  stored_after :
      (cmd payload : ℕ)
      → cmd < 2 ^ 63
      → length sent < u + 2 ^ k
      → (n cmd' payload' : ℕ) → t ≤ n
      → get_elem? (sent ++ ((cmd, payload) ∷ [])) n ≡ some (cmd', payload')
      → (get_elem? (after_send cmd payload).tbl (n % 2 ^ k)
          ≡ some (record { cmd = mark k n + cmd'; payload = payload' }))
        × (cmd' < 2 ^ 63)
  stored_after cmd payload fits window n cmd' payload' late at = elim (dec_lt n (length sent)) [
    | yes old ↦
        let (there, small) =
          inv.stored n cmd' payload' late
            (sym (get_elem?-snoc_old sent n (cmd, payload) old) ∙ at) in
        let apart : (length sent % 2 ^ k == n % 2 ^ k) ≡ false =
          differ (length sent % 2 ^ k) (n % 2 ^ k) ((n + (length sent - n)) % 2 ^ k)
            (ap (λ m. m % 2 ^ k) {x = n + (length sent - n)} {y = length sent} (omega arith))
            (slots_apart (2 ^ k) n (length sent - n) (omega arith) (omega (arith, inv.known))) in
        (other_slot n cmd payload apart ∙ there, small)
    | no new ↦
        let here : n ≡ length sent = omega (
          arith,
          lt_of_get_elem? (sent ++ ((cmd, payload) ∷ [])) n at,
          length-snoc sent (cmd, payload),
        ) in
        let same : ◌≡◌ {A = ℕ × ℕ} (cmd, payload) (cmd', payload') = same_pair (
          sym (get_elem?-snoc_new sent (cmd, payload))
          ∙ ap (get_elem? (sent ++ ((cmd, payload) ∷ []))) (sym here)
          ∙ at) in
        (
          ap (λ m. get_elem? (after_send cmd payload).tbl (m % 2 ^ k)) here
              ∙ get_elem?-set_self c.tbl (length sent % 2 ^ k) _
                  (lt_of_get_elem? c.tbl (length sent % 2 ^ k) send_slot.1)
              ∙ ap
                  (λ (x : ℕ × ℕ). some (record { cmd = mark k (length sent) + x.0; payload = x.1 }))
                  same
              ∙ ap (λ m. some (record { cmd = mark k m + cmd'; payload = payload' })) (sym here),
          rw (← ap (λ (x : ℕ × ℕ). x.0) same) fits,
        )
  ]

  vacant_after :
      (cmd payload n : ℕ)
      → suc (length sent) ≤ n
      → n < t + 2 ^ k
      → (m : LrpcMsg) × (get_elem? (after_send cmd payload).tbl (n % 2 ^ k) ≡ some m)
        × (bit_and m.cmd (2 ^ 63) ≡ mark k (n + 2 ^ k))
  vacant_after cmd payload n late early =
      let (m, there, old) = inv.vacant n (omega arith) early in
      let apart : (length sent % 2 ^ k == n % 2 ^ k) ≡ false =
        ap (λ i. length sent % 2 ^ k == i % 2 ^ k) {x = n} {y = length sent + (n - length sent)}
          (omega arith)
        ∙ slots_apart (2 ^ k) (length sent) (n - length sent) (omega arith)
            (omega (arith, inv.received)) in
      (m, other_slot n cmd payload apart ∙ there, old)

  pub send_Inv :
      (cmd payload : ℕ)
      → cmd < 2 ^ 63
      → length sent < u + 2 ^ k
      → Inv k (after_send cmd payload) (sent ++ ((cmd, payload) ∷ [])) t u
  send_Inv cmd payload fits window =
      let longer = length-snoc sent (cmd, payload) in
      record {
        small = inv.small;
        slots = length-set c.tbl (length sent % 2 ^ k) _ ∙ inv.slots;
        out_size = inv.out_size;
        in_size = inv.in_size;
        head = omega (arith, inv.head, longer);
        tail = inv.tail;
        recv = inv.recv;
        wb = inv.wb;
        known = inv.known;
        received = omega (arith, inv.received, longer);
        within = omega (arith, longer);
        stored = stored_after cmd payload fits window;
        vacant = λ n late early. vacant_after cmd payload n (omega (arith, late, longer)) early;
      }

  -- A send whose cached counts leave room.
  pub send_lem :
      (send_slowly : Channel → ℕ → ℕ → Outcome (Bool × Channel)) (cmd payload : ℕ)
      → cmd < 2 ^ 63
      → length sent < u + 2 ^ k
      → lrpc_send send_slowly c cmd payload ≡ ok (true, after_send cmd payload)
  unfolding lrpc_send
  send_lem send_slowly cmd payload fits window =
      let small : 2 ^ k < 2 ^ 32 = pow_lt k 32 inv.small in
      let room : leb c.egress.size (sub32 c.egress.send_head c.egress.send_tail) ≡ false =
        ground (arith, inv.known, inv.received, inv.out_size, inv.head, inv.tail) in
      let index : bit_and c.egress.send_head (c.egress.size - 1) ≡ length sent % 2 ^ k =
        ap₂ (λ h n. bit_and h (n - 1)) inv.head inv.out_size
        ∙ head_index k (length sent) inv.small in
      let lap : parity c.egress.send_head c.egress.size ≡ mark k (length sent) =
        ap₂ parity inv.head inv.out_size ∙ head_parity k (length sent) inv.small in
      let (old, there) = send_slot in
      rw (room, index, there, lrpc_send, index, lap, marked k (length sent) cmd fits) refl

  -- What the receiver looks at.
  recv_index : bit_and c.ingress.recv_head (c.ingress.size - 1) ≡ t % 2 ^ k
  recv_index = ap₂ (λ h n. bit_and h (n - 1)) inv.recv inv.in_size ∙ head_index k t inv.small

  recv_lap : parity c.ingress.recv_head c.ingress.size ≡ mark k t
  recv_lap = ap₂ parity inv.recv inv.in_size ∙ head_parity k t inv.small

  -- Nothing to receive, and the next message.
  pub recv_none : length sent ≡ t → (lrpc_recv c ≡ ok (none, c)) × (lrpc_empty c ≡ ok true)
  unfolding lrpc_recv lrpc_empty
  recv_none e =
      let (m, there, old) =
        inv.vacant t (omega (arith, e)) (omega (arith, one-le-pow k 2 (omega arith))) in
      let other : not (mark k (t + 2 ^ k) == mark k t) ≡ true = ap not (mark_next k t) in
      (
        rw (recv_index, lrpc_recv, there, recv_lap, old, other) refl,
        rw (recv_index, lrpc_empty, there, recv_lap, old, other) refl,
      )

  abbrev pub after_recv : Channel
  after_recv = record c {
    ingress = record (c.ingress) { recv_head = add32 c.ingress.recv_head 1 };
    recv_head_wb = add32 c.ingress.recv_head 1;
  }

  pub recv_some :
      (cmd payload : ℕ)
      → get_elem? sent t ≡ some (cmd, payload)
      → (lrpc_recv c ≡ ok (some (cmd, payload), after_recv)) × (lrpc_empty c ≡ ok false)
  unfolding lrpc_recv lrpc_empty
  recv_some cmd payload at =
      let (there, fits) = inv.stored t cmd payload (omega arith) at in
      let same : not (mark k t == mark k t) ≡ false = ground arith in
      let its_mark = mark_of k t cmd fits in
      (
        rw (recv_index, lrpc_recv, there, recv_lap, its_mark, same, cmd_of k t cmd fits) refl,
        rw (recv_index, lrpc_empty, there, recv_lap, its_mark, same) refl,
      )

  pub recv_Inv : t < length sent → Inv k after_recv sent (suc t) u
  recv_Inv h =
      let (msg, at) = get_elem?-of_lt sent t h in
      let (there, fits) = inv.stored t msg.0 msg.1 (omega arith) at in
      record {
        small = inv.small;
        slots = inv.slots;
        out_size = inv.out_size;
        in_size = inv.in_size;
        head = inv.head;
        tail = inv.tail;
        recv = omega (arith, inv.recv);
        wb = omega (arith, inv.recv);
        known = omega (arith, inv.known);
        received = h;
        within = inv.within;
        stored = λ n cmd payload late found. inv.stored n cmd payload (omega arith) found;
        vacant = λ n late early. elim (dec_lt n (t + 2 ^ k)) [
          | yes before ↦ inv.vacant n late before
          | no after ↦
              let here : n ≡ t + 2 ^ k = omega arith in
              (
                record { cmd = mark k t + msg.0; payload = msg.1 },
                ap (λ i. get_elem? c.tbl (i % 2 ^ k)) here
                    ∙ ap (get_elem? c.tbl) (add-mod_right t (2 ^ k))
                    ∙ there,
                mark_of k t msg.0 fits
                    ∙ mark_after_next k t
                    ∙ ap (λ i. mark k (i + 2 ^ k)) (sym here),
              )
        ];
      }

  pub poll_Inv : Inv k (lrpc_poll_send_tail c).1 sent t t
  unfolding lrpc_poll_send_tail
  poll_Inv = record {
    small = inv.small;
    slots = inv.slots;
    out_size = inv.out_size;
    in_size = inv.in_size;
    head = inv.head;
    tail = inv.wb;
    recv = inv.recv;
    wb = inv.wb;
    known = omega arith;
    received = inv.received;
    within = omega (arith, inv.within, inv.known);
    stored = inv.stored;
    vacant = inv.vacant;
  }
