-- ===== src/History/Selection.antt =====
-- The conversation that ui/app/history/page.tsx shows, when loads and deletions overlap.
use sysadmin_mcp_assisstant.Prelude.{
  ℕ, suc, String, true, false, ◌≡◌, refl, ◌<◌, none, eqb, arith, ap, ◌⊎◌, inl, inr, [], is_empty,
}
use sysadmin_mcp_assisstant.Task.{start}
use sysadmin_mcp_assisstant.Task.Outcome.{Anything, Ensures, Ensures-expect}
use sysadmin_mcp_assisstant.Http.Ensured.{Ensures-api_fetch}
use sysadmin_mcp_assisstant.History.{History, State, messages_of, show, remove_all}

-- Where the code resumed at `b` after its run was overtaken, the page is as it was there.
abbrev pub Idle : ℕ → State → State → Type 0
Idle n b s = n < b.page.runs → s.page ≡ b.page

clash :
    (n : ℕ) (b s : State)
    → Idle n b s
    → eqb n s.page.runs ≡ true
    → {A : Type 0} → n < b.page.runs
    → A
clash n b s p e lt = absurd (ground (arith, e, ap (λ (h : History). h.runs) (p lt)))

-- Once the selection has changed again, what is still to come of the load of a conversation leaves
-- the page alone, whatever the backend answers and whatever else has happened.
pub show_superseded :
    (selected host : String) (s : State)
    → Ensures
        (Idle (suc s.page.runs))
        Anything
        (Idle (suc s.page.runs))
        s
        (start (show selected host))
        s
unfolding show
show_superseded selected host s =
    let n : ℕ = suc s.page.runs in
    (
      λ _. (λ lt. absurd (omega arith)),
      λ _.
          Ensures-api_fetch (Idle n) Anything (Idle n) (λ _ _ _ p. p) (λ _ _. refl) _ _ _ _ _ s _
            (λ lt. absurd (omega arith))
            (λ r b s' _ _ p. (
              λ _. (
                p,
                λ x u _.
                    Ensures-expect (Idle n) Anything (Idle n) (messages_of x.value) _ _ u u
                      (λ rows _. (λ e. clash n u u (λ _. refl) e, λ _ _. refl))
                      (λ f. (λ e. clash n u u (λ _. refl) e, λ _ _. refl)),
                λ f u _. (λ e. clash n u u (λ _. refl) e, λ _ _. refl),
              ),
              λ _. (λ e. clash n b s' p e, λ _. p),
            ))
            (λ f u _. (λ e. clash n u u (λ _. refl) e, λ _ _. refl)),
    )

-- The page keeps its conversations until an answer.
abbrev pub Listed : State → State → Type 0
Listed b s = s.page.sessions ≡ b.page.sessions

-- Where conversations are listed and the operator agrees to delete them all, then whatever the
-- backend answers, and whatever happens in between: at the end no deletion is running, and either
-- nothing is listed, selected, shown or remembered any more, or the list is as it was where the
-- handler last resumed.
pub remove_all_ends :
    (s : State)
    → is_empty s.page.sessions ≡ false
    → Ensures Listed Anything
        (λ b s'.
          (s'.page.deleting ≡ false)
          × (((s'.page.sessions ≡ [])
                × (s'.page.selected ≡ "")
                × (s'.page.messages ≡ [])
                × (s'.browser.session_id ≡ none))
              ⊎ Listed b s'))
        s
        (start (remove_all true s.page))
        s
unfolding remove_all
remove_all_ends s some_listed = (
  λ x. absurd (ground (arith, some_listed, x)),
  λ _.
      Ensures-api_fetch Listed Anything _ (λ _ _ _ h. h) (λ _. refl) _ _ _ _ _ s _ refl
        (λ r b s' _ _ h. (λ _. (refl, inl (refl, refl, refl, refl)), λ _. (refl, inr h)))
        (λ _ _ _. (refl, inr refl)),
)
