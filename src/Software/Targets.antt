-- ===== src/Software/Targets.antt =====
-- The VM that ui/app/software/page.tsx plans for and prepares installations on, in whatever order
-- answers come.
use sysadmin_mcp_assisstant.Prelude.{
  All, Bool-cases, true, ◌≡◌, some, ℕ, String, List, [], ◌∷◌, Option, filter, first, opt_map,
  or_else, refl, inl, inr, eq_refl, arith,
}
use sysadmin_mcp_assisstant.Task.{Failure, Request, Response, Json, Task, done, start, message_of}
use sysadmin_mcp_assisstant.Task.Keeps.{Keeps, Keeps-expect}
use sysadmin_mcp_assisstant.Task.Outcome.{Anytime}
use sysadmin_mcp_assisstant.Http.{Body, api_fetch}
use sysadmin_mcp_assisstant.Http.Sound.{Keeps-api_fetch}
use sysadmin_mcp_assisstant.Page.{set_page}
use sysadmin_mcp_assisstant.View.{Offers}
use sysadmin_mcp_assisstant.View.Only.{Only-Offers}
use sysadmin_mcp_assisstant.Software.{
  Host, Software, Data, State, identity_of, catalog_of, fleet_of, plan_of, review_of, if_mounted,
  is_lab, show_choices, mount, preview, prepare_install,
}
use sysadmin_mcp_assisstant.Software.Screen.{
  Act, appear, leave, ask_preview, ask_install, pick_host, pick_product, pick_deployment,
  pick_operation, type_version, software_view, handle,
}
use sysadmin_mcp_assisstant.Software.Planning.{Chosen, OnLab, Picks, software_view-Picks}

Chosen-first :
    (hosts : List Host) → Chosen hosts (or_else (opt_map (λ (h : Host). h.name) (first hosts)) "")
Chosen-first [] = inl refl
Chosen-first (h ∷ hs) = inr (ground (arith, eq_refl h.name))

-- Where a VM is classified as one of these, it is listed.
labs :
    (Known : Host → Type 0) (rows : List Host)
    → All Known rows
    → All (λ (h : Host). (is_lab h ≡ true) × Known h) (filter is_lab rows)
labs Known [] a = tt
labs Known (h ∷ rows) a = elim (Bool-cases (is_lab h)) [
  | inl e ↦ rw e ((e, a.0), labs Known rows a.1)
  | inr e ↦ rw e (labs Known rows a.1)
]

-- What can happen: the effect and its cleanup at any time, and what the page offers.
abbrev pub Can : State → Act → Type 0
Can s appear = Unit
Can s leave = Unit
Can s e = Offers (software_view s.page) e

-- `Known h`: the backend's inventory has the VM `h`.
module _ (Known : Host → Type 0) where
  -- The VMs that an answer lists are those of the inventory.
  abbrev pub Lists : Request → Body Data → Type 0
  Lists q d = (rows : List Host) → fleet_of d.value ≡ some rows → All Known rows

  abbrev Held : State → Type 0
  Held = OnLab Known

  abbrev pub Safe : State → Task State (Body Data) → State → Type 0
  Safe = Keeps Held Anytime Lists

  module _ (before : State) where
    Keeps-fetch :
        (path : String) (verb : Option String) (body : Option Json)
        (k : Response → Task State (Body Data)) (e : Failure → Task State (Body Data)) (s : State)
        → Held s
        → ((r : Response) (b s' : State) → Held s' → Safe b (k r) s')
        → ((f : Failure) (s' : State) → Held s' → Safe s' (e f) s')
        → Safe before (api_fetch path verb body k e) s
    Keeps-fetch path verb body k e s i hk he =
        Keeps-api_fetch Held Anytime Lists (λ _ w j. j) (λ _ w v j. j) (λ _. tt) (λ _ _ _ _ _. tt)
          path verb body k e before s i tt (λ r b s' _ j _ _. hk r b s' j) (λ f s' j _. he f s' j)

  preview-Safe : (s : State) → Held s → Safe s (start (preview s.page)) s
  unfolding preview
  preview-Safe s i =
      Keeps-fetch s _ _ _ _ _ _ i
        (λ r b s' j. (
          (j, tt),
          λ x u _ ju _. (
            λ _.
                Keeps-expect Held Anytime Lists (plan_of x.value) _ _ u u (λ _ _. (ju, tt))
                  (λ _. (ju, tt)),
            λ _. (ju, tt),
          ),
          λ f u ju _. (ju, tt),
        ))
        (λ f s' j. (j, tt))

  prepare_install-Safe : (s : State) → Held s → Safe s (start (prepare_install s.page)) s
  unfolding prepare_install
  prepare_install-Safe s i =
      Keeps-fetch s _ _ _ _ _ _ i
        (λ r b s' j. (
          (j, tt),
          λ x u _ ju _. (
            λ _.
                Keeps-expect Held Anytime Lists (review_of x.value) _ _ u u (λ _ _. (ju, tt))
                  (λ _. (ju, tt)),
            λ _. (ju, tt),
          ),
          λ f u ju _. (ju, tt),
        ))
        (λ f s' j. (j, tt))

  -- What follows the failure of the effect's run `n`.
  abbrev failed : ℕ → Failure → Task State (Body Data)
  failed n f = start (
      if_mounted n (
        set_page (λ (p : Software). record p { error = message_of f "Could not load workflows." })))

  show_choices-Safe :
      (n : ℕ) (choices machines : Response) (b s : State)
      → Held s
      → Safe b (show_choices n choices machines (λ _. done) (failed n)) s
  unfolding show_choices
  show_choices-Safe n choices machines b s i = (
    λ _. (
      (i, tt),
      λ x u _ ju _.
          Keeps-expect Held Anytime Lists (catalog_of x.value) _ _ u u
            (λ profiles _. (
              (ju, tt),
              λ y v honest jv _.
                  Keeps-expect Held Anytime Lists (fleet_of y.value) _ _ v v
                    (λ rows e. (
                      λ _. (
                        (labs Known rows (honest rows e), Chosen-first (filter is_lab rows)),
                        tt,
                      ),
                      λ _. (jv, tt),
                    ))
                    (λ _. (λ _. (jv, tt), λ _. (jv, tt))),
              λ f v jv _. (λ _. (jv, tt), λ _. (jv, tt)),
            ))
            (λ _. (λ _. (ju, tt), λ _. (ju, tt))),
      λ f u ju _. (λ _. (ju, tt), λ _. (ju, tt)),
    ),
    λ _. (λ _. (i, tt), λ _. (i, tt)),
  )

  mount-Safe : (s : State) → Held s → Safe s (start mount) s
  unfolding mount
  mount-Safe s i =
      Keeps-fetch s _ _ _ _ _ _ i
        (λ r b s' j. (
          λ _. (
            (j, tt),
            λ x u _ ju _.
                Keeps-expect Held Anytime Lists (identity_of x.value) _ _ u u
                  (λ token _.
                    Keeps-fetch u _ _ _ _ _ _ ju
                      (λ choices b' s'' j'.
                        Keeps-fetch b' _ _ _ _ _ _ j'
                          (λ machines c t jt. show_choices-Safe _ choices machines c t jt)
                          (λ f t jt. (λ _. (jt, tt), λ _. (jt, tt))))
                      (λ f t jt. (λ _. (jt, tt), λ _. (jt, tt))))
                  (λ _. (λ _. (ju, tt), λ _. (ju, tt))),
            λ f u ju _. (λ _. (ju, tt), λ _. (ju, tt)),
          ),
          λ _. (λ _. (j, tt), λ _. (j, tt)),
        ))
        (λ f t jt. (λ _. (jt, tt), λ _. (jt, tt)))

  pub handle-Safe : (e : Act) (s : State) → Held s → Can s e → Safe s (handle e s.page) s
  unfolding handle
  handle-Safe appear s i c = mount-Safe s i
  handle-Safe leave s i c = (i, tt)
  handle-Safe ask_preview s i c = preview-Safe s i
  handle-Safe ask_install s i c = prepare_install-Safe s i
  handle-Safe (pick_host x) s i c =
      ((i.0, Only-Offers (Picks s.page.hosts) _ (pick_host x) (software_view-Picks s.page) c), tt)
  handle-Safe (pick_product x) s i c = (i, tt)
  handle-Safe (pick_deployment x) s i c = (i, tt)
  handle-Safe (pick_operation x) s i c = (i, tt)
  handle-Safe (type_version x) s i c = (i, tt)
