-- ===== src/Examples/Installations.antt =====
-- The theorems on ui/app/software/page.tsx at a concrete page.
use sysadmin_mcp_assisstant.Prelude.{
  true, ◌≡◌, ◌⊎◌, All, ap, or_else, refl, inl, inr, List, [], ◌∷◌, none, some,
}
use mathlib.Core.Path.{subst}
use sysadmin_mcp_assisstant.Task.{text, object, field, close, Task, drive, expect, fulfilled}
use sysadmin_mcp_assisstant.Task.Sends.{SendsOnce}
use sysadmin_mcp_assisstant.Task.Pool.{
  Session, react, settled, here, next, response, payload, deliver, Reply,
}
use sysadmin_mcp_assisstant.Http.{Body, api_fetch, request_of}
use sysadmin_mcp_assisstant.Examples.{browser_at}
use sysadmin_mcp_assisstant.Software.{
  Host, Profile, Data, identity, catalog, fleet, State, initial, mount, show_choices,
}
use sysadmin_mcp_assisstant.Software.Screen.{
  appear, ask_install, type_version, choices_view, order_view, software_view, handle,
}
use sysadmin_mcp_assisstant.Software.Installs.{Runs, Native, opened, install_targets_lab}

abbrev lab : Host
lab = record { name = "web"; environment = "disposable_lab" }

-- The inventory has the one VM.
abbrev Known : Host → Type 0
Known h = h ≡ lab

-- The page opens, the backend lists the VM `web`, and the operator types a version.
abbrev fine : Reply (Body Data)
fine = response (fulfilled (record { status = 200; has_body = true }))

abbrev body : Data → Reply (Body Data)
body x = payload (fulfilled (record { detail = none; value = x }))

abbrev profiles : List Profile
profiles = record { id = "nginx"; label = "nginx"; upgrade_notes = ""; delivery = "native" } ∷ []

abbrev Moment : Type 0
Moment = State × Task State (Body Data)

abbrev start_page : State
unfolding initial
start_page = (opened (browser_at "/software")).now

abbrev alone : Moment → Session State (Body Data)
alone x = record { now = x.0; tasks = x.1 ∷ [] }

abbrev shown : Moment
unfolding drive handle mount api_fetch start_page
shown = drive (handle appear start_page.page) start_page

abbrev signed : Moment
unfolding drive shown
signed = deliver shown.1 fine shown.0

abbrev asked : Moment
unfolding drive signed expect
asked = deliver signed.1 (body (identity "t1")) signed.0

abbrev half : Moment
unfolding drive asked
half = deliver asked.1 fine asked.0

abbrev both : Moment
unfolding drive half show_choices
both = deliver half.1 fine half.0

abbrev choices : Moment
unfolding drive both expect
choices = deliver both.1 (body (catalog profiles)) both.0

abbrev ready : Moment
unfolding drive choices expect
ready = deliver choices.1 (body (fleet (lab ∷ []))) choices.0

abbrev typed : Moment
unfolding drive handle ready
typed = drive (handle (type_version "1.26.0") ready.0.page) ready.0

abbrev last_session : Session State (Body Data)
unfolding typed ready
last_session = record { now = typed.0; tasks = ready.1 ∷ typed.1 ∷ [] }

listed_Known : (rows : List Host) → some (lab ∷ []) ≡ some rows → All Known rows
listed_Known rows e = subst (All Known) (ap (λ o. or_else o []) e) (refl, tt)

starts : Runs Known (opened (browser_at "/software")) (alone both)
unfolding shown signed asked half both initial start_page
starts =
    next
      (next
        (next
          (next (next here (react start_page [] appear tt refl))
            (settled shown.0 [] [] shown.1 fine refl tt refl))
          (settled signed.0 [] [] signed.1 (body (identity "t1")) refl (λ rows e. absurd (cc))
            refl))
        (settled asked.0 [] [] asked.1 fine refl tt refl))
      (settled half.0 [] [] half.1 fine refl tt refl)

opens : Runs Known (opened (browser_at "/software")) last_session
unfolding both choices ready typed last_session software_view choices_view
opens =
    next
      (next
        (next starts
          (settled both.0 [] [] both.1 (body (catalog profiles)) refl (λ rows e. absurd (cc)) refl))
        (settled choices.0 [] [] choices.1 (body (fleet (lab ∷ []))) refl listed_Known refl))
      (react ready.0 (ready.1 ∷ []) (type_version "1.26.0")
        (inr (inr (inr (inr (inr (inr (inr (inr (inr (inl (refl, ("1.26.0", refl)))))))))))) refl)

install_targets_lab_example :
    Native last_session.now.page
    × ((h : Host) × Known h
        × ((h.environment ≡ "development") ⊎ (h.environment ≡ "disposable_lab"))
        × SendsOnce (drive (handle ask_install last_session.now.page) last_session.now).1 (
            request_of "/api/software/jobs"
              (some "POST")
              (some (
                object (
                  field "host" (text h.name) (
                    field "product"
                      (text last_session.now.page.product)
                      (field "target_version" (text last_session.now.page.version) close)))))
              last_session.now.browser))
unfolding software_view last_session choices_view order_view
install_targets_lab_example =
    install_targets_lab Known (browser_at "/software") last_session opens refl
