-- ===== src/Console/Chunks.antt =====
-- The stream of `submit` in ui/app/page.tsx: how the network cuts it into pieces does not matter.
use Prim.Native.String
use text.Mathlib.TextLemmas.{append_assoc as text_append_assoc, append-nil as text_append-nil}
use mathlib.Core.Path.{fun_ext}
use sysadmin_mcp_assisstant.Prelude.{
  String, ◌≡◌, refl, sym, ◌∙◌, ap, List, [], ◌∷◌, ◌++◌, Option, none, some, Bool-cases, inl, inr,
  init, last,
}
use sysadmin_mcp_assisstant.Prelude.Text.{is_blank, trim, concat, split}
use sysadmin_mcp_assisstant.Prelude.Split.{split-cons, split-append, rest_of}
use sysadmin_mcp_assisstant.Task.{Settled, Settled-cases, fulfilled, rejected, Failure}
use sysadmin_mcp_assisstant.Console.{Event, Console}
use sysadmin_mcp_assisstant.Console.Submit.{receive, consume, keep_rest, read_chunk}

init-append :
    (xs : List String) (y : String) (ys : List String) → init (xs ++ y ∷ ys) ≡ xs ++ init (y ∷ ys)
init-append [] y ys = refl
init-append (x ∷ []) y ys = refl
init-append (x ∷ x' ∷ xs) y ys = ap (λ l. x ∷ l) (init-append (x' ∷ xs) y ys)

last-append :
    (xs : List String) (y : String) (ys : List String) → last (xs ++ y ∷ ys) ≡ last (y ∷ ys)
last-append [] y ys = refl
last-append (x ∷ []) y ys = refl
last-append (x ∷ x' ∷ xs) y ys = last-append (x' ∷ xs) y ys

module _ (parse : String → Settled Event) where
  -- The loop's body over the pieces that arrive; a piece after a failure is not read.
  abbrev resume :
      (String → Console → Settled String × Console)
      → Settled String × Console
      → Settled String × Console
  resume go (fulfilled buf, c) = go buf c
  resume go (rejected f, c) = (rejected f, c)

  pub feed : List String → String → Console → Settled String × Console
  feed [] buf c = (fulfilled buf, c)
  feed (chunk ∷ chunks) buf c = resume (feed chunks) (read_chunk parse chunk buf c)

  abbrev both : List String → Option Failure × Console → Option Failure × Console
  both ys (none, c) = consume parse ys c
  both ys (some f, c) = (some f, c)

  consume-append :
      (xs ys : List String) (c : Console)
      → consume parse (xs ++ ys) c ≡ both ys (consume parse xs c)
  unfolding consume
  consume-append [] ys c = refl
  consume-append (x ∷ xs) ys c = elim (Bool-cases (is_blank (trim x))) [
    | inl e ↦ rw e (consume-append xs ys c)
    | inr e ↦ rw e (elim (Settled-cases (parse x)) [
      | inl (item, p) ↦ rw p (consume-append xs ys (receive item c))
      | inr (f, p) ↦ rw p
    ])
  ]

  -- What the loop's body does with the pieces of a text.
  abbrev parts : List String → Console → Settled String × Console
  parts ls c = let (o, c') = consume parse (init ls) c in (keep_rest o (rest_of ls), c')

  abbrev goes_on : List String → Option Failure × Console → Settled String × Console
  goes_on t x = let y = both (init t) x in (keep_rest y.0 (rest_of t), y.1)

  parts-append :
      (xs t : List String) (q : String) (qs : List String) (c : Console)
      → t ≡ q ∷ qs
      → parts (xs ++ t) c ≡ goes_on t (consume parse xs c)
  parts-append xs t q qs c h =
      rw (h, init-append xs q qs, last-append xs q qs, consume-append xs (init (q ∷ qs)) c)

  joined :
      (chunk rest : String) (x : Option Failure × Console)
      → resume (read_chunk parse chunk) (keep_rest x.0 rest, x.1)
        ≡ goes_on (split 10 (String.◌++◌ rest chunk)) x
  unfolding read_chunk
  joined chunk rest (none, c) = refl
  joined chunk rest (some f, c) = refl

  -- Two pieces of the stream do what their concatenation does.
  read_chunk-append :
      (chunk chunk' buf : String) (c : Console)
      → resume (read_chunk parse chunk') (read_chunk parse chunk buf c)
        ≡ read_chunk parse (String.◌++◌ chunk chunk') buf c
  unfolding read_chunk
  read_chunk-append chunk chunk' buf c =
      let ls = split 10 (String.◌++◌ buf chunk) in
      let t = split 10 (String.◌++◌ (rest_of ls) chunk') in
      let (q, qs, h) = split-cons 10 (String.◌++◌ (rest_of ls) chunk') in
      joined chunk' (rest_of ls) (consume parse (init ls) c)
      ∙ sym (parts-append (init ls) t q qs c h)
      ∙ ap (λ l. parts l c)
          (sym (split-append 10 (String.◌++◌ buf chunk) chunk')
            ∙ ap (split 10) (text_append_assoc buf chunk chunk'))

  resume-pure : (x : Settled String × Console) → resume (λ b c. (fulfilled b, c)) x ≡ x
  resume-pure (fulfilled b, c) = refl
  resume-pure (rejected f, c) = refl

  -- The pieces of a stream, at least one, do what the whole text does at once.
  pub feed-concat :
      (chunk : String) (chunks : List String) (buf : String) (c : Console)
      → feed (chunk ∷ chunks) buf c ≡ read_chunk parse (concat (chunk ∷ chunks)) buf c
  unfolding feed concat
  feed-concat chunk [] buf c =
      resume-pure (read_chunk parse chunk buf c)
      ∙ ap (λ t. read_chunk parse t buf c) (sym (text_append-nil chunk))
  feed-concat chunk (chunk' ∷ chunks) buf c =
      ap (λ go. resume go (read_chunk parse chunk buf c))
        (fun_ext λ b. fun_ext λ d. feed-concat chunk' chunks b d)
      ∙ read_chunk-append chunk (concat (chunk' ∷ chunks)) buf c

  -- Streams that carry the same text leave the same state, the same rest and the same failure,
  -- wherever the network cuts them, where each has a piece.
  pub feed_chunking :
      (x y : String) (xs ys : List String) (buf : String) (c : Console)
      → concat (x ∷ xs) ≡ concat (y ∷ ys)
      → feed (x ∷ xs) buf c ≡ feed (y ∷ ys) buf c
  feed_chunking x y xs ys buf c e =
      feed-concat x xs buf c ∙ ap (λ t. read_chunk parse t buf c) e ∙ sym (feed-concat y ys buf c)
