-- ===== src/Console/Form.antt =====
-- The form of ui/app/page.tsx: when its button is enabled, when `submit` sends, and how it ends.
use sysadmin_mcp_assisstant.Prelude.{
  String, true, false, not, ◌||◌, ◌≡◌, refl, ◌⊎◌, inl, inr, [], ◌∷◌, ◌++◌, some, arith, Bool-cases,
}
use sysadmin_mcp_assisstant.Prelude.Text.{is_blank, trim}
use sysadmin_mcp_assisstant.Task.{Settled, done, drive, start}
use sysadmin_mcp_assisstant.Task.{text, object, field, close}
use sysadmin_mcp_assisstant.Task.Sends.{SendsOnce}
use sysadmin_mcp_assisstant.Http.Sends.{SendsOnce-api_fetch}
use sysadmin_mcp_assisstant.Task.Outcome.{Anything, Anytime, Ensures}
use sysadmin_mcp_assisstant.Http.{api_fetch, request_of}
use sysadmin_mcp_assisstant.Http.Ensured.{Ensures-api_fetch}
use sysadmin_mcp_assisstant.Console.{Event, Console, State}
use sysadmin_mcp_assisstant.Console.Submit.{refuses, submit, list_chat, user_turn, agent_turn}
use sysadmin_mcp_assisstant.Console.Screen.{send_disabled}

-- The button is disabled exactly where the page is offline or `submit` would return early.
pub send_disabled-refuses : (c : Console) → send_disabled c ≡ not c.online || refuses c
unfolding send_disabled refuses
send_disabled-refuses c = ground arith

-- There is a prompt, a VM and a conversation, and nothing is running or loading.
abbrev pub Complete : Console → Type 0
Complete c =
    (is_blank (trim c.message) ≡ false)
    × (is_blank c.host ≡ false)
    × (is_blank c.session_id ≡ false)
    × (c.running ≡ false)
    × (c.loading_chat ≡ false)

pub refuses-Complete : (c : Console) → refuses c ≡ false → Complete c
unfolding refuses
refuses-Complete c h = (ground arith, ground arith, ground arith, ground arith, ground arith)

refuses-not_Complete : (c : Console) → refuses c ≡ true → ¬ Complete c
unfolding refuses
refuses-not_Complete c h (prompt, host, chat, idle, loaded) =
    ground (arith, h, prompt, host, chat, idle, loaded)

module _ (parse : String → Settled Event) where
  submit-SendsOnce :
      (s : State)
      → refuses s.page ≡ false
      → let c = s.page in
        SendsOnce (drive (start (submit parse c)) s).1 (
          request_of "/api/chat"
            (some "POST")
            (some (
              object (
                field "message" (text (trim c.message)) (
                  field "host" (text c.host) (
                    field "provider"
                      (text c.provider)
                      (field "session_id" (text c.session_id) close))))))
            s.browser)
  unfolding submit drive
  submit-SendsOnce s e = rw e (SendsOnce-api_fetch _ _ _ _ (λ r. ((tt, λ f. tt), tt)) (λ f. tt) _ _)

  -- Where there is a prompt, a VM and a conversation, and nothing is running or loading, `submit`
  -- sends one POST, whose body is the prompt, the VM, the provider and the conversation of the
  -- page, and nothing but GETs after it, whatever is answered; and it clears the field, shows the
  -- prompt and is running. Otherwise it changes nothing and ends.
  pub submit_gate :
      (s : State)
      → let c = s.page in
        let after = drive (start (submit parse c)) s in
        (¬ Complete c × (after ≡ (s, done)))
        ⊎ (Complete c
            × SendsOnce after.1 (
                request_of "/api/chat"
                  (some "POST")
                  (some (
                    object (
                      field "message" (text (trim c.message)) (
                        field "host" (text c.host) (
                          field "provider"
                            (text c.provider)
                            (field "session_id" (text c.session_id) close))))))
                  s.browser)
            × (after.0.page ≡ record c {
              conversations = list_chat c (trim c.message) c.conversations;
              message = "";
              running = true;
              turns = c.turns ++ user_turn (trim c.message) ∷ agent_turn ∷ [];
            }))
  unfolding submit drive api_fetch
  submit_gate s = elim (Bool-cases (refuses s.page)) [
    | inl e ↦ inl (refuses-not_Complete s.page e, rw e)
    | inr e ↦ inr (refuses-Complete s.page e, submit-SendsOnce s e, rw e)
  ]

  -- Whatever the backend answers, whatever the stream carries and wherever it breaks off, and
  -- whatever happens in between, a `submit` that sent leaves the form usable when it ends.
  pub submit_releases :
      (s : State)
      → refuses s.page ≡ false
      → Ensures Anytime Anything (λ _ s'. s'.page.running ≡ false) s (start (submit parse s.page)) s
  unfolding submit
  submit_releases s e = (
    λ x. absurd (cc),
    λ _.
        Ensures-api_fetch Anytime Anything _ (λ _ _ _ _. tt) (λ _. tt) _ _ _ _ _ s _ tt
          (λ r b s' _ _ _. (λ _. (tt, λ _ _ _ _. tt, λ _ _. refl, λ _ _ _ _ _. refl), λ _. refl))
          (λ _ _ _. refl),
  )
