-- ===== src/Http.antt =====
-- ui/lib/api.ts: requests to the backend. The browser's part of a page's state stands here too:
-- the location, the storage that the pages use, and the navigations that they asked for.
pub mod Sound
pub mod Ensured
pub mod Redirects
pub mod Replied
pub mod Roles
pub mod Sends
use Prim.Native.Char.{code}
use sysadmin_mcp_assisstant.Prelude.{
  ℕ, ◌-◌, String, Bool, true, false, ◌&&◌, ◌||◌, not, List, [], ◌∷◌, Option, none, some, map, leb,
  eqb, if◌then◌else◌, or_else, ◌==◌, ◌≡◌, refl,
}
use sysadmin_mcp_assisstant.Prelude.Text.{concat, includes}
use sysadmin_mcp_assisstant.Task.{
  Json, Request, Response, Code, pure, update, state, ◌>>=◌, ◌>>◌, await_fetch, await_json, attempt,
  ite,
}
use text.Mathlib.Text.{starts_with}

pub record Browser : Type 0 where
  -- `typeof window !== 'undefined'`
  pub has_window : Bool
  pub protocol : String
  pub hostname : String
  pub path : String
  -- `process.env.NEXT_PUBLIC_AGENT_API_URL`
  pub api_url : Option String
  -- `sentinel-csrf` of the session storage, `sentinel-session-id` of the local storage
  pub csrf : Option String
  pub session_id : Option String
  -- what `location.replace`, `location.assign` and `router.replace` were given, the latest first
  pub visited : List String

-- The state that the handlers of a page share.
pub record World (P : Type 0) : Type 0 where
  pub browser : Browser
  pub page : P

-- A parsed body: its `detail`, and the rest as the page's type of data.
pub record Body (D : Type 0) : Type 0 where
  pub detail : Option String
  pub value : D

abbrev pub visit : String → Browser → Browser
visit to b = record b { visited = to ∷ b.visited }

abbrev pub on_browser : {P : Type 0} → (Browser → Browser) → World P → World P
on_browser f w = record w { browser = f w.browser }

abbrev pub on_page : {P : Type 0} → (P → P) → World P → World P
on_page f w = record w { page = f w.page }

unfoldable pub inferred_api : Browser → String
unfolding concat
inferred_api b =
    if b.has_window
    then concat (b.protocol ∷ "//" ∷ b.hostname ∷ ":8765" ∷ [])
    else "http://localhost:8765"

unfoldable pub api : Browser → String
unfolding inferred_api
api b = or_else b.api_url (inferred_api b)

unfoldable pub csrf_token : Browser → String
csrf_token b = if b.has_window then or_else b.csrf "" else ""

-- `s.toUpperCase()`, as far as it can become one of the words that it is compared with.
upper : ℕ → ℕ
upper c = if leb b'a' c && leb c b'z' then c - 32 else c

codes : String → List ℕ
codes String.[] = []
codes (String.◌∷◌ c s) = code c ∷ codes s

same : List ℕ → List ℕ → Bool
same [] [] = true
same (x ∷ xs) (y ∷ ys) = eqb x y && same xs ys
same _ _ = false

unfoldable pub reads_only : String → Bool
unfolding upper codes same
reads_only verb =
    let word = map upper (codes verb) in same word (codes "GET") || same word (codes "HEAD")

-- The `x-csrf-token` header: set where a method is given that is not `GET` or `HEAD`.
unfoldable pub csrf_header : Option String → Browser → Option String
csrf_header none b = none
csrf_header (some verb) b = if reads_only verb then none else some (csrf_token b)

unfoldable pub denied_to : String → String → String → Browser → Bool
denied_to page wanted detail b = detail == wanted && b.has_window && not (starts_with b.path page)

-- What `fetch` is called with.
abbrev pub request_of : String → Option String → Option Json → Browser → Request
request_of path verb body b = record {
  path = concat (api b ∷ path ∷ []);
  verb = or_else verb "GET";
  csrf = csrf_header verb b;
  body = body;
}

module _ {P D : Type 0} where
  abbrev pub replace_if : Bool → String → Code (World P) (Body D) (Unit {0})
  replace_if test to = ite test (update (on_browser (visit to))) (pure tt)

  -- The `detail` of an answer that denies; a body that does not parse is passed over.
  abbrev pub denial : Response → Code (World P) (Body D) String
  denial response =
      ite (eqb response.status 401 || eqb response.status 403)
        (attempt (do body ← await_json response; pure (or_else body.detail "")) (λ _. pure ""))
        (pure "")

  unfoldable pub api_fetch : String → Option String → Option Json → Code (World P) (Body D) Response
  api_fetch path verb body = do
    w ← state
    response ← await_fetch (request_of path verb body w.browser)
    detail ← denial response
    w' ← state
    replace_if
        (eqb response.status 401 && denied_to "/login" "Authentication required" detail w'.browser)
        "/login"
    w'' ← state
    replace_if
        (eqb response.status 403
          && denied_to "/change-password" "Password change required" detail w''.browser)
        "/change-password"
    pure response
