-- ===== src/Console/Hosts/Loads.antt =====
-- Loads in ui/app/page.tsx keep the conversations listed to those of the VM that is selected.
use sysadmin_mcp_assisstant.Prelude.{
  ℕ, suc, String, ◌≡◌, true, List, [], Option, none, some, All, arith, eqb,
}
use mathlib.Core.Path.{subst}
use sysadmin_mcp_assisstant.Task.{Failure, Response, Task}
use sysadmin_mcp_assisstant.Task.Keeps.{Keeps-expect}
use sysadmin_mcp_assisstant.Http.{Body, request_of, on_page}
use sysadmin_mcp_assisstant.Http.Sound.{Keeps-api_fetch}
use sysadmin_mcp_assisstant.Console.{
  Conversation, Data, identity, host_rows, provider_rows, saved, rows, State,
}
use sysadmin_mcp_assisstant.Console.Load.{
  rows_of, rows_path, identity_of, hosts_of, providers_of, saved_of, open_at, open_chat,
  select_host, mount,
}
use sysadmin_mcp_assisstant.Console.Hosts.{
  Listed, Later, ListsHost, Later-refl, Later-trans, after, KeepsListed,
}

module _ (id target : String) (version : ℕ) (k : Unit {0} → Task State (Body Data))
    (e : Failure → Task State (Body Data)) (base s : State) where
  Keeps-open_at :
      Listed s
      → Later base s
      → ((b s' : State) → Listed s' → Later b s' → Later s b → KeepsListed b (k tt) s')
      → KeepsListed base (open_at id target version k e) s
  unfolding open_at
  Keeps-open_at i q h =
      Keeps-api_fetch Listed Later ListsHost (λ _ w j. j) (λ _ w v j. j) Later-refl Later-trans _
        none none _ _ base _ i q
        (λ r b s' _ j p p'. (
          λ _. (
            (j, p),
            λ x u _ ju pu.
                Keeps-expect Listed Later ListsHost (saved_of x.value) _ _ u u
                  (λ a _. (
                    λ _. (
                      λ _. h u _ ju (Later-refl u) (after s b s' u p' p pu),
                      λ _. h u _ ju (Later-refl u) (after s b s' u p' p pu),
                    ),
                    λ _. (
                      λ _. h u _ ju (Later-refl u) (after s b s' u p' p pu),
                      λ _. h u u ju (Later-refl u) (after s b s' u p' p pu),
                    ),
                  ))
                  (λ f. (
                    λ _. (
                      λ _. h u _ ju (Later-refl u) (after s b s' u p' p pu),
                      λ _. h u _ ju (Later-refl u) (after s b s' u p' p pu),
                    ),
                    λ _. (
                      λ _. h u _ ju (Later-refl u) (after s b s' u p' p pu),
                      λ _. h u u ju (Later-refl u) (after s b s' u p' p pu),
                    ),
                  )),
            λ f u ju pu. (
              λ _. (
                λ _. h u _ ju (Later-refl u) (after s b s' u p' p pu),
                λ _. h u _ ju (Later-refl u) (after s b s' u p' p pu),
              ),
              λ _. (
                λ _. h u _ ju (Later-refl u) (after s b s' u p' p pu),
                λ _. h u u ju (Later-refl u) (after s b s' u p' p pu),
              ),
            ),
          ),
          λ _. (
            λ _. (λ _. h b _ j p p', λ _. h b _ j p p'),
            λ _. (λ _. h b _ j p p', λ _. h b s' j p p'),
          ),
        ))
        (λ f s' j p. (
          λ _. (λ _. h s' _ j (Later-refl s') p, λ _. h s' _ j (Later-refl s') p),
          λ _. (λ _. h s' _ j (Later-refl s') p, λ _. h s' s' j (Later-refl s') p),
        ))

rows_of_iff : (d : Data) (found : List Conversation) → rows_of d ≡ some found → d ≡ rows found
rows_of_iff (rows xs) found h = cc
rows_of_iff (identity t) found h = absurd (cc)
rows_of_iff (host_rows xs) found h = absurd (cc)
rows_of_iff (provider_rows xs) found h = absurd (cc)
rows_of_iff (saved xs) found h = absurd (cc)

module _ (next_host : String) (requested : Option String) (k : Unit {0} → Task State (Body Data))
    (e : Failure → Task State (Body Data)) (base s : State) where
  abbrev chosen : State
  chosen =
      on_page
        (λ c. record c {
          selection = suc c.selection;
          host = next_host;
          turns = [];
          conversations = [];
          message = "";
          session_id = "";
          chat_error = "";
          loading_chat = true;
        })
        s

  -- The rows that come back for the host that is still selected are rows of that host.
  rows_mine :
      (r : Response) (b s' u : State) (x : Body Data) (found : List Conversation)
      → r.request ≡ request_of (rows_path next_host) none none s.browser
      → ListsHost r.request x
      → rows_of x.value ≡ some found
      → eqb (suc s.page.selection) u.page.selection ≡ true
      → Later chosen b
      → Later b s'
      → Later s' u
      → All (λ (row : Conversation). row.host ≡ u.page.host) found
  rows_mine r b s' u x found same honest is_found now p p' q =
      subst (λ host. All (λ (row : Conversation). row.host ≡ host) found)
        ((after chosen b s' u p p' q).1 (ground (arith, now)))
        (honest next_host s.browser found same (rows_of_iff x.value found is_found))

  pub Keeps-select_host :
      Listed s
      → Later base s
      → ((b s' : State) → Listed s' → Later b s' → KeepsListed b (k tt) s')
      → KeepsListed base (select_host next_host requested k e) s
  unfolding select_host
  Keeps-select_host i q h =
      Keeps-api_fetch Listed Later ListsHost (λ _ w j. j) (λ _ w v j. j) Later-refl Later-trans _
        none none _ _ base _ tt (omega (arith, q), λ x. absurd (omega (arith, q)))
        (λ r b s' same j p p'. (
          λ _. (
            (j, p),
            λ x u honest ju pu.
                Keeps-expect Listed Later ListsHost (rows_of x.value) _ _ u u
                  (λ found is_found. (
                    λ now.
                        let mine = rows_mine r b s' u x found same honest is_found now p' p pu in
                        (
                          λ _.
                              Keeps-open_at _ next_host _ _ _ u _ mine (Later-refl u)
                                (λ c t jt pt _. (λ _. h c _ jt pt, λ _. h c t jt pt)),
                          λ _. (λ _. h u _ mine (Later-refl u), λ _. h u _ mine (Later-refl u)),
                        ),
                    λ _. (λ _. h u _ ju (Later-refl u), λ _. h u u ju (Later-refl u)),
                  ))
                  (λ f. (
                    λ _. (λ _. h u _ ju (Later-refl u), λ _. h u _ ju (Later-refl u)),
                    λ _. (λ _. h u _ ju (Later-refl u), λ _. h u u ju (Later-refl u)),
                  )),
            λ f u ju pu. (
              λ _. (λ _. h u _ ju (Later-refl u), λ _. h u _ ju (Later-refl u)),
              λ _. (λ _. h u _ ju (Later-refl u), λ _. h u u ju (Later-refl u)),
            ),
          ),
          λ _. (λ _. (λ _. h b _ j p, λ _. h b _ j p), λ _. (λ _. h b _ j p, λ _. h b s' j p)),
        ))
        (λ f s' j p. (
          λ _. (λ _. h s' _ j (Later-refl s'), λ _. h s' _ j (Later-refl s')),
          λ _. (λ _. h s' _ j (Later-refl s'), λ _. h s' s' j (Later-refl s')),
        ))

module _ (id host : String) (k : Unit {0} → Task State (Body Data))
    (e : Failure → Task State (Body Data)) (base s : State) where
  pub Keeps-open_chat :
      Listed s
      → Later base s
      → ((b s' : State) → Listed s' → Later b s' → KeepsListed b (k tt) s')
      → KeepsListed base (open_chat id host k e) s
  unfolding open_chat
  Keeps-open_chat i q h =
      Keeps-open_at id host _ k e base _ i (omega (arith, q), λ x. absurd (omega (arith, q)))
        (λ b s' j p _. h b s' j p)

module _ (k : Unit {0} → Task State (Body Data)) (e : Failure → Task State (Body Data))
    (base s : State) where
  pub Keeps-mount :
      Listed s
      → Later base s
      → ((b s' : State) → Listed s' → Later b s' → KeepsListed b (k tt) s')
      → KeepsListed base (mount k e) s
  unfolding mount
  Keeps-mount i q h =
      Keeps-api_fetch Listed Later ListsHost (λ _ w j. j) (λ _ w v j. j) Later-refl Later-trans _
        none none _ _ base s i q
        (λ r b s' _ j p p'. (
          λ _. (
            (j, p),
            λ x u _ ju pu.
                Keeps-expect Listed Later ListsHost (identity_of x.value) _ _ u u
                  (λ token _.
                    Keeps-api_fetch Listed Later ListsHost (λ _ w j. j) (λ _ w v j. j) Later-refl
                      Later-trans _ none none _ _ u _ ju (Later-refl u)
                      (λ r b s' _ j p p'. (
                        λ _. (
                          (j, p),
                          λ x u _ ju pu.
                              Keeps-expect Listed Later ListsHost (hosts_of x.value) _ _ u u
                                (λ hosts _.
                                  Keeps-api_fetch Listed Later ListsHost (λ _ w j. j) (λ _ w v j. j)
                                    Later-refl Later-trans _ none none _ _ u _ ju (Later-refl u)
                                    (λ r b s' _ j p p'. (
                                      λ _. (
                                        (j, p),
                                        λ x u _ ju pu.
                                            Keeps-expect Listed Later ListsHost
                                              (providers_of x.value) _ _ u u
                                              (λ ps _. (
                                                λ _. h u _ ju (Later-refl u),
                                                λ _.
                                                    Keeps-select_host _ _ _ _ u _ ju (Later-refl u)
                                                      h,
                                              ))
                                              (λ _. h u _ ju (Later-refl u)),
                                        λ _ u ju pu. h u _ ju (Later-refl u),
                                      ),
                                      λ _. h b _ j p,
                                    ))
                                    (λ f s' j p. h s' _ j (Later-refl s')))
                                (λ _. h u _ ju (Later-refl u)),
                          λ _ u ju pu. h u _ ju (Later-refl u),
                        ),
                        λ _. h b _ j p,
                      ))
                      (λ f s' j p. h s' _ j (Later-refl s')))
                  (λ _. h u _ ju (Later-refl u)),
            λ _ u ju pu. h u _ ju (Later-refl u),
          ),
          λ _. h b _ j p,
        ))
        (λ f s' j p. h s' _ j (Later-refl s'))
