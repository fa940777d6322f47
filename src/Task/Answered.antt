-- ===== src/Task/Answered.antt =====
-- Runs of one handler on a list of answers, with its branches as implications.
use sysadmin_mcp_assisstant.Prelude.{◌≡◌, refl, List, [], ◌∷◌, true, false}
use sysadmin_mcp_assisstant.Task.{
  fulfilled, rejected, Task, done, modify, get, branch, fetch, json, reads, drive,
}
use sysadmin_mcp_assisstant.Task.Pool.{Reply, response, payload, chunk, run}

module _ {S B : Type 0} (Q : S → Type 0) where
  -- `Q` holds of the state that the code `t` at `s` comes to with the answers `xs`.
  abbrev pub Answered : List (Reply B) → Task S B → S → Type 0
  Answered xs done s = Q s
  Answered xs (modify f t) s = Answered xs t (f s)
  Answered xs (get k) s = Answered xs (k s) s
  Answered xs (branch b t u) s = (b ≡ true → Answered xs t s) × (b ≡ false → Answered xs u s)
  Answered (response (fulfilled a) ∷ xs) (fetch r k e) s = Answered xs (k a) s
  Answered (response (rejected f) ∷ xs) (fetch r k e) s = Answered xs (e f) s
  Answered (payload (fulfilled b) ∷ xs) (json r k e) s = Answered xs (k b) s
  Answered (payload (rejected f) ∷ xs) (json r k e) s = Answered xs (e f) s
  Answered xs t s = Q (run t xs s)

  pub Answered-run : (xs : List (Reply B)) (t : Task S B) (s : S) → Answered xs t s → Q (run t xs s)
  unfolding run drive
  Answered-run [] done s h = h
  Answered-run (x ∷ xs) done s h = h
  Answered-run [] (modify f t) s h = Answered-run [] t (f s) h
  Answered-run (x ∷ xs) (modify f t) s h = Answered-run (x ∷ xs) t (f s) h
  Answered-run [] (get k) s h = Answered-run [] (k s) s h
  Answered-run (x ∷ xs) (get k) s h = Answered-run (x ∷ xs) (k s) s h
  Answered-run [] (branch true t u) s h = Answered-run [] t s (h.0 refl)
  Answered-run [] (branch false t u) s h = Answered-run [] u s (h.1 refl)
  Answered-run (x ∷ xs) (branch true t u) s h = Answered-run (x ∷ xs) t s (h.0 refl)
  Answered-run (x ∷ xs) (branch false t u) s h = Answered-run (x ∷ xs) u s (h.1 refl)
  Answered-run (response (fulfilled a) ∷ xs) (fetch r k e) s h = Answered-run xs (k a) s h
  Answered-run (response (rejected f) ∷ xs) (fetch r k e) s h = Answered-run xs (e f) s h
  Answered-run (payload (fulfilled b) ∷ xs) (json r k e) s h = Answered-run xs (k b) s h
  Answered-run (payload (rejected f) ∷ xs) (json r k e) s h = Answered-run xs (e f) s h
  Answered-run [] (fetch r k e) s h = h
  Answered-run (payload x ∷ xs) (fetch r k e) s h = h
  Answered-run (chunk x ∷ xs) (fetch r k e) s h = h
  Answered-run [] (json r k e) s h = h
  Answered-run (response x ∷ xs) (json r k e) s h = h
  Answered-run (chunk x ∷ xs) (json r k e) s h = h
  Answered-run xs (reads r l b t e) s h = h
