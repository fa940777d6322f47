-- ===== src/Console/Stream.antt =====
-- What the events of a stream leave alone in the state of ui/app/page.tsx.
use sysadmin_mcp_assisstant.Prelude.{
  String, ◌≡◌, refl, ◌∙◌, List, [], ◌∷◌, ◌==◌, Bool-cases, inl, inr,
}
use sysadmin_mcp_assisstant.Prelude.Text.{is_blank, trim}
use sysadmin_mcp_assisstant.Task.{Settled, Settled-cases}
use sysadmin_mcp_assisstant.Console.{Event, Console}
use sysadmin_mcp_assisstant.Console.Submit.{receive, consume, read_chunk}

-- The VM, its conversations, the selection and the form stay as they are.
pub record Kept (c c' : Console) : Type 0 where
  pub host : c.host ≡ c'.host
  pub conversations : c.conversations ≡ c'.conversations
  pub selection : c.selection ≡ c'.selection
  pub running : c.running ≡ c'.running
  pub message : c.message ≡ c'.message

Kept-trans : {c d e : Console} → Kept c d → Kept d e → Kept c e
Kept-trans p q = record {
  host = p.host ∙ q.host;
  conversations = p.conversations ∙ q.conversations;
  selection = p.selection ∙ q.selection;
  running = p.running ∙ q.running;
  message = p.message ∙ q.message;
}

Kept-refl : (c : Console) → Kept c c
Kept-refl c = record {
  host = refl;
  conversations = refl;
  selection = refl;
  running = refl;
  message = refl;
}

receive-Kept : (item : Event) (c : Console) → Kept c (receive item c)
unfolding receive
receive-Kept item c = elim (Bool-cases (item.type == "session")) [
  | inl e ↦ rw e (record {
    host = refl;
    conversations = refl;
    selection = refl;
    running = refl;
    message = refl;
  })
  | inr e ↦ rw e (elim (Bool-cases (item.type == "llm_debug")) [
    | inl e' ↦ rw e' (Kept-refl c)
    | inr e' ↦ rw e' (record {
      host = refl;
      conversations = refl;
      selection = refl;
      running = refl;
      message = refl;
    })
  ])
]

module _ (parse : String → Settled Event) where
  pub consume-Kept : (lines : List String) (c : Console) → Kept c (consume parse lines c).1
  unfolding consume
  consume-Kept [] c = Kept-refl c
  consume-Kept (line ∷ lines) c = elim (Bool-cases (is_blank (trim line))) [
    | inl e ↦ rw e (consume-Kept lines c)
    | inr e ↦ rw e (elim (Settled-cases (parse line)) [
      | inl (item, p) ↦
          rw p (Kept-trans (receive-Kept item c) (consume-Kept lines (receive item c)))
      | inr (f, p) ↦ rw p (Kept-refl c)
    ])
  ]

  pub read_chunk-Kept : (chunk buf : String) (c : Console) → Kept c (read_chunk parse chunk buf c).1
  unfolding read_chunk
  read_chunk-Kept chunk buf c = consume-Kept _ c
