-- ===== src/Server/Memory.antt =====
-- What is read from the bytes of the buffers after a write.
use mlx5_netperf.Prelude.{
  ℕ, zero, suc, ◌+◌, ◌≤◌, ◌<◌, ◌≡◌, ◌⊎◌, inl, inr, refl, ap, ap₂, ◌∙◌, List, [], ◌∷◌, ◌++◌, arith,
  ◌==◌, if◌then◌else◌, length,
}
use mlx5_netperf.Server.{read, write}

-- A byte outside of what is written stays.
pub write_apart :
    (m : ℕ → ℕ) (a x : ℕ) (bs : List ℕ) → (x < a) ⊎ (a + length bs ≤ x) → write m a bs x ≡ m x
unfolding write
write_apart m a x [] h = refl
write_apart m a x (b ∷ bs) (inl h) =
    write_apart (λ y. if y == a then b else m y) (a + 1) x bs (inl (omega arith)) ∙ ground arith
write_apart m a x (b ∷ bs) (inr h) =
    write_apart (λ y. if y == a then b else m y) (a + 1) x bs (inr (omega arith)) ∙ ground arith

-- Reading depends on the bytes read.
read-ext :
    (m m' : ℕ → ℕ) (a n : ℕ) → ((x : ℕ) → a ≤ x → x < a + n → m x ≡ m' x) → read m a n ≡ read m' a n
unfolding read
read-ext m m' a zero h = refl
read-ext m m' a (suc n) h =
    ap₂ (λ b l. b ∷ l) (h a (omega arith) (omega arith))
      (read-ext m m' (a + 1) n (λ x p q. h x (omega arith) (omega arith)))

pub read-write_apart :
    (m : ℕ → ℕ) (a b n : ℕ) (bs : List ℕ)
    → (a + n ≤ b) ⊎ (b + length bs ≤ a)
    → read (write m b bs) a n ≡ read m a n
read-write_apart m a b n bs (inl h) =
    read-ext (write m b bs) m a n (λ x p q. write_apart m b x bs (inl (omega arith)))
read-write_apart m a b n bs (inr h) =
    read-ext (write m b bs) m a n (λ x p q. write_apart m b x bs (inr (omega arith)))

pub read-write_self : (m : ℕ → ℕ) (a : ℕ) (bs : List ℕ) → read (write m a bs) a (length bs) ≡ bs
unfolding read write
read-write_self m a [] = refl
read-write_self m a (b ∷ bs) =
    let m' : ℕ → ℕ = λ y. if y == a then b else m y in
    ap₂ (λ c l. c ∷ l) (write_apart m' (a + 1) a bs (inl (omega arith)) ∙ ground arith)
      (read-write_self m' (a + 1) bs)

pub read-add : (m : ℕ → ℕ) (a k n : ℕ) → read m a (k + n) ≡ read m a k ++ read m (a + k) n
unfolding read
read-add m a zero n =
    ap₂ (λ b l. read m b l) {x = a} {y = a + 0} {u = 0 + n} {v = n} (omega arith) (omega arith)
read-add m a (suc k) n =
    ap (λ l. read m a l) {x = suc k + n} {y = suc (k + n)} (omega arith)
    ∙ ap (λ l. m a ∷ l)
        (read-add m (a + 1) k n
          ∙ ap (λ b. read m (a + 1) k ++ read m b n) {x = a + 1 + k} {y = a + suc k} (omega arith))
