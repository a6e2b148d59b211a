-- ===== src/Server/Burst/Errors.antt =====
-- What `do_server` does after an error.
use mlx5_netperf.Prelude.{ℕ, ◌≡◌, refl, true, List, ◌∷◌, some, map}
use mlx5_netperf.Prelude.Outcome.{ok, fault}
use mlx5_netperf.Completion.{World}
use mlx5_netperf.Server.{Config, State}
use mlx5_netperf.Server.Process.{Env, Status, process_server_requests}
use mlx5_netperf.Server.Burst.{free_entries, free_batch, serve_batch, failed}

-- Where a server that does not echo gets an error for a batch and frees its packets, it then frees
-- them a second time, through the null pointers that it has just stored: it ends in a fault.
pub freed_twice :
    (e : Env) (c : Config) (s s' : State) (status : Status) (w' : World) (m : ℕ) (ms : List ℕ)
    → c.echo_mode ≡ 0
    → process_server_requests e c s (m ∷ ms) ≡ ok (status, s')
    → failed status ≡ true
    → free_entries e.rounds s'.world (map some (m ∷ ms)) ≡ ok w'
    → serve_batch e c s (m ∷ ms) ≡ fault
unfolding serve_batch free_batch free_entries
freed_twice e c s s' status w' m ms h p f freed = rw (p, f, h, freed) refl
