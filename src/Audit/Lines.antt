-- ===== src/Audit/Lines.antt =====
-- The lines of the audit file of internal/audit/logger.go.
use telegram_remote_terminal.Prelude.{
  ℕ, ◌≡◌, refl, ap, ◌∙◌, sym, inl, inr, false, List, [], ◌∷◌, ◌++◌, append_assoc, append-nil, Bytes,
  Option, none, some, if◌then◌else◌, if_false, ◌==◌, All, Option-cases,
}
use telegram_remote_terminal.Terminal.Manager.{Record}
use telegram_remote_terminal.Audit.{Logger, LogError, whole, append, log}

abbrev onto_first : ℕ → List Bytes → List Bytes
onto_first c [] = []
onto_first c (line ∷ lines) = (c ∷ line) ∷ lines

-- The lines of a text that ends each of them.
unfoldable pub lines_of : Bytes → List Bytes
lines_of [] = []
lines_of (c ∷ s) = let rest = lines_of s in if c == b'\n' then [] ∷ rest else onto_first c rest

abbrev pub IsInLine : ℕ → Type 0
IsInLine c = c == b'\n' ≡ false

lines_of-line :
    (line rest : Bytes)
    → All IsInLine line
    → lines_of (line ++ (b'\n' ∷ rest)) ≡ line ∷ lines_of rest
unfolding lines_of
lines_of-line [] rest h = refl
lines_of-line (c ∷ line) rest (h, hs) = rw (h, lines_of-line line rest hs) refl

module _ (marshal : Record → Option Bytes) where
  abbrev onto : Option Bytes → List Bytes → List Bytes
  onto none texts = texts
  onto (some text) texts = text ∷ texts

  -- The texts of the records that can be marshalled.
  unfoldable pub texts_of : List Record → List Bytes
  texts_of [] = []
  texts_of (r ∷ rs) = onto (marshal r) (texts_of rs)

  -- `Log` of one record after the other, where no write fails.
  unfoldable pub log_all : Logger → List Record → Logger
  unfolding log
  log_all l [] = l
  log_all l (r ∷ rs) = log_all (log marshal l whole r).0 rs

  unfoldable pub written : List Bytes → Bytes
  written [] = []
  written (text ∷ texts) = text ++ (b'\n' ∷ written texts)

  log_text :
      (l : Logger) (r : Record) (text : Bytes)
      → l.closed ≡ false
      → marshal r ≡ some text
      → (log marshal l whole r).0 ≡ record l { content = l.content ++ (text ++ (b'\n' ∷ [])) }
  unfolding log append
  log_text l r text on e =
      rw (e, log) (ap (λ (x : Logger × Option LogError). x.0) (if_false l.closed _ _ on))

  log_nothing : (l : Logger) (r : Record) → marshal r ≡ none → (log marshal l whole r).0 ≡ l
  unfolding log
  log_nothing l r e = rw (e, log) refl

  content-log_all :
      (l : Logger) (rs : List Record)
      → l.closed ≡ false
      → (log_all l rs).content ≡ l.content ++ written (texts_of rs)
  unfolding log_all texts_of written log
  content-log_all l [] on = sym (append-nil l.content)
  content-log_all l (r ∷ rs) on = elim (Option-cases (marshal r)) [
    | inl failed ↦
        ap (λ x. (log_all x rs).content) (log_nothing l r failed)
        ∙ (content-log_all l rs on ∙ rw (failed, texts_of) refl)
    | inr (text, e) ↦
        ap (λ x. (log_all x rs).content) (log_text l r text on e)
        ∙ (content-log_all (record l { content = l.content ++ (text ++ (b'\n' ∷ [])) }) rs on
            ∙ rw (e, texts_of, written) (simp append_assoc))
  ]

  lines_of-written :
      (rs : List Record)
      → ((r : Record) (text : Bytes) → marshal r ≡ some text → All IsInLine text)
      → lines_of (written (texts_of rs)) ≡ texts_of rs
  unfolding texts_of written lines_of
  lines_of-written [] h = refl
  lines_of-written (r ∷ rs) h = elim (Option-cases (marshal r)) [
    | inl failed ↦ rw (failed, texts_of) (lines_of-written rs h)
    | inr (text, e) ↦
        rw (e, texts_of, written)
          (lines_of-line text (written (texts_of rs)) (h r text e)
            ∙ ap (λ x. text ∷ x) (lines_of-written rs h))
  ]

  -- A new audit file has one line for each record that was logged, in their order, if no write to it
  -- fails: the JSON of the record, which has no newline in it. A record that cannot be marshalled
  -- leaves no trace.
  pub lines_of-log_all :
      (l : Logger) (rs : List Record)
      → l.closed ≡ false
      → l.content ≡ []
      → ((r : Record) (text : Bytes) → marshal r ≡ some text → All IsInLine text)
      → lines_of (log_all l rs).content ≡ texts_of rs
  lines_of-log_all l rs on new h =
      ap lines_of (content-log_all l rs on ∙ ap (λ x. x ++ written (texts_of rs)) new)
      ∙ lines_of-written rs h
