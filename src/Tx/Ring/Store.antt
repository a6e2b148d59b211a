-- ===== src/Tx/Ring/Store.antt =====
-- What is read after a store.
use mlx5_netperf.Prelude.Update.{get_elem?-set}
use mlx5_netperf.Prelude.{
  ℕ, suc, ◌+◌, ◌-◌, ◌≤◌, ◌<◌, ◌≡◌, refl, ◌∙◌, List, [], ◌∷◌, arith, ltb, leb, ◌&&◌, if◌then◌else◌,
  length, get_elem?, set, length-set, get_elem?-of_lt,
}
use mlx5_netperf.Prelude.Outcome.{ok, fault}
use mlx5_netperf.Tx.Ring.{overwrite, store}

length-overwrite :
    (buf : List ℕ) (at : ℕ) (bytes : List ℕ) → length (overwrite buf at bytes) ≡ length buf
unfolding overwrite
length-overwrite buf at [] = refl
length-overwrite buf at (b ∷ bytes) =
    length-overwrite (set buf at b) (suc at) bytes ∙ length-set buf at b

-- The bytes from `at` on are the new ones, as many as there are, and the others are as before.
get_elem?-overwrite :
    (bytes buf : List ℕ) (at j : ℕ)
    → at + length bytes ≤ length buf
    → get_elem? (overwrite buf at bytes) j ≡ (
        if leb at j && ltb j (at + length bytes) then get_elem? bytes (j - at) else get_elem? buf j)
unfolding overwrite
get_elem?-overwrite [] buf at j h = ground arith
get_elem?-overwrite (b ∷ bytes) buf at j h =
    let (old, there) = get_elem?-of_lt buf at (omega arith) in
    ground (
      arith,
      get_elem?-overwrite bytes (set buf at b) (suc at) j (omega (arith, length-set buf at b)),
      get_elem?-set buf at j b there,
    )

-- A store within the buffer.
pub store_lem :
    (bytes buf : List ℕ) (at : ℕ)
    → at + length bytes ≤ length buf
    → (buf' : List ℕ) × (store buf at bytes ≡ ok buf')
      × (length buf' ≡ length buf)
      × ((j : ℕ)
          → get_elem? buf' j ≡ (
              if leb at j && ltb j (at + length bytes)
              then get_elem? bytes (j - at)
              else get_elem? buf j))
unfolding store
store_lem bytes buf at h = (
  overwrite buf at bytes,
  ground arith,
  length-overwrite buf at bytes,
  λ j. get_elem?-overwrite bytes buf at j h,
)

pub store_out :
    (bytes buf : List ℕ) (at : ℕ) → length buf < at + length bytes → store buf at bytes ≡ fault
unfolding store
store_out bytes buf at h = ground arith
