-- ===== src/Changes/Starts.antt =====
-- In which states ui/app/changes/page.tsx offers which step of a transaction, and how an approval
-- leads to the start.
use sysadmin_mcp_assisstant.Prelude.{
  ℕ, String, Bool, true, false, ◌&&◌, ◌||◌, not, some, length, eqb, leb, ltb, ◌==◌, ◌≡◌, refl, ◌∙◌,
  eq_refl, arith,
}
use mathlib.Core.Bool.{and_assoc}
use sysadmin_mcp_assisstant.Prelude.Text.{is_blank, includes}
use sysadmin_mcp_assisstant.Task.{expect, drive}
use sysadmin_mcp_assisstant.Task.Pool.{Awaits, replies, run}
use sysadmin_mcp_assisstant.Http.{Body, api_fetch, request_of}
use sysadmin_mcp_assisstant.Task.Answered.{Answered-run}
use sysadmin_mcp_assisstant.Http.Replied.{Answered-api_fetch}
use sysadmin_mcp_assisstant.View.{clickable, clicks}
use sysadmin_mcp_assisstant.Changes.{Change, Changes, Data, change, State, token_of, call}
use sysadmin_mcp_assisstant.Changes.Records.{token_of-remember}
use sysadmin_mcp_assisstant.Changes.Stages.{
  Act, ask_preview, approve, begin, advance, accept, roll_back, revise, cancel, type_password,
  type_activation, needs_confirmation, open_states, running_states, stage_view, one_field,
  step_path, handle,
}

abbrev code : Act → ℕ
code ask_preview = 0
code approve = 1
code begin = 2
code advance = 3
code accept = 4
code roll_back = 5
code revise = 6
code cancel = 7
code (type_password x) = 8
code (type_activation x) = 9

-- A click that asks for the same step.
abbrev pub asks : Act → Act → Bool
asks a e = eqb (code a) (code e)

-- The states of a transaction in which a step can be asked for.
abbrev pub in_state : Act → String → Bool
in_state ask_preview x = x == "planned"
in_state approve x = x == "previewed"
in_state begin x = x == "approved"
in_state advance x = includes running_states x
in_state accept x = x == "verifying"
in_state roll_back x = x == "verifying"
in_state revise x = includes open_states x
in_state cancel x = includes open_states x
in_state e x = false

-- What else has to be there: a password to approve, a token to start, a password to activate what
-- needs one, and a single action to edit.
abbrev pub supplied : Act → Changes → Change → Bool
supplied approve p c = not (is_blank p.password)
supplied begin p c = not (is_blank (token_of c.id p.tokens))
supplied advance p c =
    not (c.state == "validating" && needs_confirmation c && is_blank p.activation_password)
supplied revise p c = eqb (length c.actions) 1
supplied e p c = true

not_or : (a b : Bool) → not (a || b) ≡ not b && not a
not_or a b = ground arith

-- A step can be asked for exactly in its states, while the page is not busy, and with what it needs.
-- (Typing a password is no step.)
pub stage_view-in_state :
    (a : Act) (p : Changes) (c : Change)
    → clickable (asks a) (stage_view p c) ≡ in_state a c.state && (supplied a p c && not p.busy)
unfolding stage_view
stage_view-in_state ask_preview p c = simp clicks
stage_view-in_state approve p c = simp (clicks, not_or)
stage_view-in_state begin p c = simp (clicks, not_or)
stage_view-in_state advance p c = simp (clicks, not_or)
stage_view-in_state accept p c = simp clicks
stage_view-in_state roll_back p c = simp clicks
stage_view-in_state revise p c = simp (clicks, and_assoc)
stage_view-in_state cancel p c = simp clicks
stage_view-in_state (type_password x) p c = simp clicks
stage_view-in_state (type_activation x) p c = simp clicks

-- The transaction can be started, with this token.
abbrev pub CanStart : Change → String → State → Type 0
CanStart c t s =
    (clickable (asks begin) (stage_view s.page c) ≡ true)
    × Awaits (drive (handle begin c s.page) s).1 (
        request_of (step_path c "start") (some "POST") (some (one_field "approval_token" t))
          s.browser)

CanStart-token_of :
    (c : Change) (t : String) (s : State)
    → c.state ≡ "approved"
    → s.page.busy ≡ false
    → token_of c.id s.page.tokens ≡ t
    → is_blank t ≡ false
    → CanStart c t s
unfolding handle call api_fetch drive
CanStart-token_of c t s approved idle known filled =
    (stage_view-in_state begin s.page c ∙ rw (approved, idle, known, filled) refl, rw known refl)

-- With nothing in between, an approval that is answered with `ok`, and with the transaction in the
-- state `approved` and a token, lets the operator start the transaction, and the start sends that
-- token.
pub approve_then_start :
    (st : ℕ) (before c : Change) (t : String) (d : Body Data) (s : State)
    → leb 200 st && ltb st 300 ≡ true
    → d.value ≡ change c
    → c.state ≡ "approved"
    → c.approval_token ≡ some t
    → is_blank t ≡ false
    → CanStart c t (run (handle approve before s.page) (replies st d) s)
unfolding handle call expect
approve_then_start st before c t d s fine is_change approved has filled =
    Answered-run (CanStart c t) (replies st d) (handle approve before s.page) s (
      Answered-api_fetch _ st d (ground (arith, fine)) _ _ _ _ _ _ (
        λ _. rw is_change (
            CanStart-token_of c t _ approved refl
              (token_of-remember c.id c.approval_token s.page.tokens c.id
                ∙ rw (has, filled, eq_refl c.id) refl)
              filled),
        λ bad. absurd (cc),
      ))
