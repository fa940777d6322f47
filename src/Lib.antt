-- ===== src/Lib.antt =====
-- Evesdropctl's operator interface (ui/): a console in the browser from which an operator lets an
-- agent inspect and change virtual machines (VMs). The backend (src/sysadmin_mcp, Python) is on
-- the other side of HTTP requests and is not modelled: what it answers is what a theorem
-- quantifies over.
--
-- How the code is modelled
-- - Task: the event handlers of React components, as values: what runs up to an `await`, and what
--   follows each outcome of it. `drive` runs a handler to its next `await`; `Task.Pool` adds the
--   steps in which the user starts handlers and the environment settles what they wait for, in any
--   order, and `run`, one handler alone on a list of answers. `Task.Keeps`, `Task.Outcome` and
--   `Task.Answered` turn invariants, endings and runs into conditions on a handler's branches.
--   `Ensures Pause Rely Final base t s` says of the code `t` at `s`, resumed at `base`, that
--   `Pause` holds at each `await`, and `Final` at the end, between the state where the handler
--   last resumed and the one it has come to, whatever the states are in which it resumes;
--   `Task.Endings` has such a run, step by step. In `Task.Roles` the handlers of a page in flight
--   play roles: what a handler may do depends on its role, and what it relies on is left standing
--   by the roles beside it, so that a cast of handlers is kept by every step. `Page.Exclusive` has
--   the roles of pages where one handler at a time may send more than a GET. `Task.Sends` has what
--   a handler sends: `SendsOnce t q` says that it waits for the answer to `q` and, whatever it is
--   answered, sends nothing but GETs after it.
-- - A handler that reads the values of its render takes them as an argument. `confirm`, the
--   clipboard, `Number` of a text, `JSON.parse` of a line and `toLowerCase` are arguments. State
--   that one block of code sets several times, with nothing awaited in between, is set at once.
-- - A body that is read where the code takes it for a type that it has not is taken as a
--   rejection.
-- - View: what a page shows, as a list of widgets with the events that they cause.
--
-- Which file models what
-- - Prelude: Boolean tests, lists and texts. Page: `set…` of a state hook and `try … finally`.
-- - Http: ui/lib/api.ts (`apiFetch`), and the browser's part of the state.
-- - Console: ui/app/page.tsx. `Load` has the effect, `selectHost`, `openChat` and `newChat`,
--   `Submit` the prompt and the stream of events, `SessionId` the identifiers, `Screen` and
--   `Activity` the view, `Query` the parameters of the page's address; `Hosts`, `Superseded`,
--   `Chunks`, `Stream`, `Prompts`, `Form` and `Query.Addresses` have the proofs.
-- - Vms: ui/app/vms/page.tsx. Backups: ui/app/backups/page.tsx. History: ui/app/history/page.tsx.
--   `Answers` of Vms, History and Authority has what a whole handler sends and comes to.
-- - AuthGate: ui/components/auth-gate.tsx, which stands before every page; `Admission` has the
--   changes of the path, as runs of its effect, and their roles, with signing out beside them,
--   `Runs`, `Verdict`, `Settles`, `Always` and `Offered` the proofs. Authority:
--   ui/components/authority-control.tsx, which stands beside every page. Login:
--   ui/app/login/page.tsx; `Admitted` has it with the gate before the page that it goes to.
--   Password: ui/app/change-password/page.tsx. Execution:
--   ui/components/mcp-execution-connection.tsx. Navigation: ui/components/app-nav.tsx, which
--   stands on every page. Changes: ui/app/changes/page.tsx; `Workflow` has the steps of a
--   transaction, `Stages` its buttons, `Plans` the form of a plan, `Listing` the list and
--   `Details` what it prints; `Shapes` has the records, and `Records`, `Starts`, `Allowed` and
--   `Offered` the proofs. Scripts: `ScriptPage` of ui/app/dynamic/page.tsx, also shown by
--   ui/app/scripts/page.tsx; `Review`, `Reviewed`, `Polling` and `Single` have the proofs.
--   Software: ui/app/software/page.tsx; `Planning`, `Targets` and `Installs` have the proofs.
-- - Remediation: ui/app/remediation/page.tsx. Security: ui/app/security/page.tsx. Playbooks:
--   ui/app/playbooks/page.tsx. Account: ui/app/account/page.tsx. Fleet: ui/app/fleet/page.tsx, and
--   `Fleet.Details` ui/app/fleet/[host]/page.tsx.
-- - Examples: the theorems at concrete states.
-- The pages share the browser's storage and location (`Http.Browser`) and nothing else; each
-- page's handlers share the page's state (`Http.World`).
--
-- Bounds and fuel: only `decimal`, the digits of a number, runs on fuel, of one more than the
-- number, which has fewer digits than that. The loop over a stream is one step for each piece that
-- arrives, so a stream that never ends is a run that never ends. Counters and identifiers are
-- natural numbers; the only arithmetic on bytes is that of `create_session_id` and of UTF-8 in
-- addresses.
--
-- Not modelled: layout, styles and icons; React's scheduling of renders (a change of the path and
-- the effect that it runs are one step, with no render between them); the browser's validation of
-- form fields; the decoding of a stream's bytes into characters (a piece of a stream is a text);
-- ui/app/layout.tsx, the fonts and styles around the `AuthGate` of every page; ui/components/ui
-- and ui/hooks, which are copies of a component library (shadcn/ui): the pages use its buttons and
-- fields, which stand in `View` as widgets.
mod Prelude
pub mod Task
pub mod Http
pub mod View
pub mod Page
pub mod Console
pub mod Vms
pub mod Backups
pub mod AuthGate
pub mod Login
pub mod Password
pub mod Execution
pub mod History
pub mod Authority
pub mod Navigation
pub mod Changes
pub mod Scripts
pub mod Software
pub mod Remediation
pub mod Security
pub mod Account
pub mod Fleet
pub mod Playbooks
pub mod Examples
