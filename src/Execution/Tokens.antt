-- ===== src/Execution/Tokens.antt =====
-- The token that ui/components/mcp-execution-connection.tsx shows.
use sysadmin_mcp_assisstant.Prelude.{
  ℕ, String, Bool, true, false, ◌&&◌, ◌||◌, not, leb, ltb, eqb, or_else, if◌then◌else◌, ◌≡◌, refl,
  sym,
}
use sysadmin_mcp_assisstant.Prelude.Text.{is_blank}
use sysadmin_mcp_assisstant.Task.{start}
use sysadmin_mcp_assisstant.Task.Pool.{replies, run}
use sysadmin_mcp_assisstant.Task.Answered.{Answered-run}
use sysadmin_mcp_assisstant.Http.{Body}
use sysadmin_mcp_assisstant.Http.Replied.{Answered-api_fetch}
use sysadmin_mcp_assisstant.Execution.{Data, State, connect}

hidden : (o : Bool) (t : String) → not o || is_blank t ≡ true → (if o then t else "") ≡ ""
hidden true String.[] h = refl
hidden true (String.◌∷◌ c t) h = absurd (cc)
hidden false t h = refl

shown : (o : Bool) (t : String) → not o || is_blank t ≡ false → (if o then t else "") ≡ t
shown true t h = refl
shown false t h = absurd (cc)

-- With nothing in between, after an answer with another status than 401 and 403 the token shown is
-- that of the body where the answer is `ok`, and none otherwise, also where one was shown before;
-- and the page is not busy.
pub connect_shows :
    (st : ℕ) (d : Body Data) (s : State)
    → eqb st 401 || eqb st 403 ≡ false
    → let s' = run (start connect) (replies st d) s in
      (s'.page.token ≡ (if leb 200 st && ltb st 300 then or_else d.value.token "" else ""))
      × (s'.page.busy ≡ false)
unfolding connect
connect_shows st d s other =
    Answered-run
      (λ s'.
        (s'.page.token ≡ (if leb 200 st && ltb st 300 then or_else d.value.token "" else ""))
        × (s'.page.busy ≡ false))
      (replies st d) (start connect) s
      (Answered-api_fetch _ st d other _ _ _ _ _ _ (
        λ bad. (sym (hidden (leb 200 st && ltb st 300) (or_else d.value.token "") bad), refl),
        λ fine. (sym (shown (leb 200 st && ltb st 300) (or_else d.value.token "") fine), refl),
      ))
