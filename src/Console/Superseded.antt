-- ===== src/Console/Superseded.antt =====
-- Loads of ui/app/page.tsx that a later selection has overtaken.
use sysadmin_mcp_assisstant.Prelude.{
  ℕ, suc, String, true, ◌≡◌, refl, ap, ◌<◌, Option, none, eqb, arith,
}
use sysadmin_mcp_assisstant.Task.{Failure, Task, start}
use sysadmin_mcp_assisstant.Task.Outcome.{Anything, Ensures, Ensures-expect}
use sysadmin_mcp_assisstant.Http.{Body}
use sysadmin_mcp_assisstant.Http.Ensured.{Ensures-api_fetch}
use sysadmin_mcp_assisstant.Console.{Console, Data, State}
use sysadmin_mcp_assisstant.Console.Load.{rows_of, saved_of, open_at, select_host}

-- Where the code resumed at `b` after its version was overtaken, the page is as it was there.
abbrev pub Idle : ℕ → State → State → Type 0
Idle version b s = version < b.page.selection → s.page ≡ b.page

abbrev Quiet : ℕ → State → Task State (Body Data) → State → Type 0
Quiet version = Ensures (Idle version) Anything (Idle version)

clash :
    (version : ℕ) (b s : State)
    → Idle version b s
    → eqb version s.page.selection ≡ true
    → {A : Type 0} → version < b.page.selection
    → A
clash version b s p e lt = absurd (ground (arith, e, ap (λ (c : Console). c.selection) (p lt)))

module _ (id target : String) (version : ℕ) (k : Unit {0} → Task State (Body Data))
    (e : Failure → Task State (Body Data)) (base s : State) where
  Quiet-open_at :
      (version < base.page.selection → ⊥)
      → ((b s' : State) → Idle version b s' → Quiet version b (k tt) s')
      → Quiet version base (open_at id target version k e) s
  unfolding open_at
  Quiet-open_at early h =
      Ensures-api_fetch (Idle version) Anything (Idle version) (λ _ _ _ p. p) (λ _ _. refl) _ none
        none _ _ base _ (λ lt. absurd (early lt))
        (λ r b s' _ _ p. (
          λ _. (
            p,
            λ x u _.
                Ensures-expect (Idle version) Anything (Idle version) (saved_of x.value) _ _ u u
                  (λ a _. (
                    λ x. (
                      λ _. h u _ (clash version u u (λ _. refl) x),
                      λ _. h u _ (clash version u u (λ _. refl) x),
                    ),
                    λ _. (λ x. h u _ (clash version u u (λ _. refl) x), λ _. h u u (λ _. refl)),
                  ))
                  (λ f. (
                    λ x. (
                      λ _. h u _ (clash version u u (λ _. refl) x),
                      λ _. h u _ (clash version u u (λ _. refl) x),
                    ),
                    λ _. (λ x. h u _ (clash version u u (λ _. refl) x), λ _. h u u (λ _. refl)),
                  )),
            λ f u _. (
              λ x. (
                λ _. h u _ (clash version u u (λ _. refl) x),
                λ _. h u _ (clash version u u (λ _. refl) x),
              ),
              λ _. (λ x. h u _ (clash version u u (λ _. refl) x), λ _. h u u (λ _. refl)),
            ),
          ),
          λ _. (
            λ x. (λ _. h b _ (clash version b s' p x), λ _. h b _ (clash version b s' p x)),
            λ _. (λ x. h b _ (clash version b s' p x), λ _. h b s' p),
          ),
        ))
        (λ f u _. (
          λ x. (
            λ _. h u _ (clash version u u (λ _. refl) x),
            λ _. h u _ (clash version u u (λ _. refl) x),
          ),
          λ _. (λ x. h u _ (clash version u u (λ _. refl) x), λ _. h u u (λ _. refl)),
        ))

module _ (next_host : String) (requested : Option String) (s : State) where
  abbrev version : ℕ
  version = suc s.page.selection

  -- Once a newer selection has overtaken the loading of a VM, what is still to come of it leaves
  -- the page alone, whatever the backend answers and whatever else has happened.
  pub select_host_superseded :
      Ensures
        (Idle (suc s.page.selection))
        Anything
        (Idle (suc s.page.selection))
        s
        (start (select_host next_host requested))
        s
  unfolding select_host
  select_host_superseded =
      Ensures-api_fetch (Idle version) Anything (Idle version) (λ _ _ _ p. p) (λ _ _. refl) _ none
        none _ _ s _ (λ lt. absurd (omega arith))
        (λ r b s' _ _ p. (
          λ _. (
            p,
            λ x u _.
                Ensures-expect (Idle version) Anything (Idle version) (rows_of x.value) _ _ u u
                  (λ found _. (
                    λ now. (
                      λ _.
                          Quiet-open_at _ next_host version _ _ u _
                            (λ lt. clash version u u (λ _. refl) now lt)
                            (λ c t q. (λ x. clash version c t q x, λ _. q)),
                      λ _. (
                        λ _. clash version u u (λ _. refl) now,
                        λ _. clash version u u (λ _. refl) now,
                      ),
                    ),
                    λ _. (λ x. clash version u u (λ _. refl) x, λ _ _. refl),
                  ))
                  (λ f. (
                    λ x. (
                      λ _. clash version u u (λ _. refl) x,
                      λ _. clash version u u (λ _. refl) x,
                    ),
                    λ _. (λ x. clash version u u (λ _. refl) x, λ _. (λ _. refl)),
                  )),
            λ f u _. (
              λ x. (λ _. clash version u u (λ _. refl) x, λ _. clash version u u (λ _. refl) x),
              λ _. (λ x. clash version u u (λ _. refl) x, λ _. (λ _. refl)),
            ),
          ),
          λ _. (
            λ x. (λ _. clash version b s' p x, λ _. clash version b s' p x),
            λ _. (λ x. clash version b s' p x, λ _. p),
          ),
        ))
        (λ f u _. (
          λ x. (λ _. clash version u u (λ _. refl) x, λ _. clash version u u (λ _. refl) x),
          λ _. (λ x. clash version u u (λ _. refl) x, λ _. (λ _. refl)),
        ))
