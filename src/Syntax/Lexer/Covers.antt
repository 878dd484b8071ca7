-- ===== src/Syntax/Lexer/Covers.antt =====
-- What `lex` makes of a whole source text.
use mathlib.Core.Path.{subst}
use robocpp.Base.{
  ℕ, suc, zero, ◌+◌, ◌<◌, ◌≡◌, refl, sym, ap, false, Option, none, some, List, [], ◌∷◌, ◌++◌, arith,
  ◌==◌, Bool-cases, inl, inr, length,
}
use robocpp.Base.Text.{Text, is_digit}
use robocpp.Base.Utf8.{len_utf8, byte_length}
use robocpp.Diagnostics.{Diagnostic, span}
use robocpp.Syntax.Cursor.{Cursor, cursor, is_ident_start, is_quote}
use robocpp.Syntax.Cursor.Moves.{
  Moves-refl, Moves-cons, Moves-IsPlace, IsPlace, advance-cons, length-Moves,
}
use robocpp.Syntax.Lexer.{
  symbol_table, find_symbol, lex_other, lex_token, lex_item, after_item, lex_round, lex_rounds,
  end_token, initial, lex,
}
use robocpp.Syntax.Lexer.Scanned.{
  Scanned, string-Scanned, direct-Scanned, symbol-Scanned, identifier-Scanned, number-Scanned,
}
use robocpp.Syntax.Lexer.Spelling.{Found, starts_token, symbol_table-Found, symbol_table-none}
use robocpp.Syntax.Skip.{skip_ws_comments_and_pragmas}
use robocpp.Syntax.Skip.Rounds.{SkipsAll, skip_ws_comments_and_pragmas-SkipsAll}
use robocpp.Syntax.Skip.Skips.{done}
use robocpp.Syntax.Source.{Source, Lexer}
use robocpp.Syntax.Token.{Symbol, eof, Token}

-- From a place on, the text is whitespace, comments, pragmas, tokens and characters that start no
-- token, in this order, to the end.
pub data Tokenizes : Cursor → List Token → Type 0 where
  last :
      {c d : Cursor} {t : Token}
      → SkipsAll c d
      → d.rest ≡ []
      → t.kind ≡ eof
      → t.lexeme ≡ []
      → t.span.start ≡ d.pos
      → t.span.stop ≡ d.pos
      → Tokenizes c (t ∷ [])
  next :
      {c d e : Cursor} {t : Token} {ts : List Token}
      → SkipsAll c d
      → Scanned d e t
      → Tokenizes e ts
      → Tokenizes c (t ∷ ts)
  stray :
      {c d : Cursor} {x : ℕ} {s : Text} {ts : List Token}
      → SkipsAll c d
      → d.rest ≡ x ∷ s
      → starts_token x ≡ false
      → Tokenizes (cursor (d.pos + len_utf8 x) s) ts
      → Tokenizes c ts

module _ (source : Source) where
  -- The item that starts with the character `x`, before `s`.
  abbrev Item : ℕ → Text → Cursor → Option Token × Lexer → Type 0
  Item x s c (some t, l) = Scanned c l.cursor t
  Item x s c (none, l) = (starts_token x ≡ false) × (l.cursor ≡ cursor (c.pos + len_utf8 x) s)

  abbrev lexer : ℕ → Text → List Diagnostic → Lexer
  lexer pos s diagnostics = record { cursor = cursor pos s; diagnostics = diagnostics }

  other-Item :
      (pos x : ℕ) (s : Text) (diagnostics : List Diagnostic)
      (o : Option (Symbol × List (ℕ × Symbol)))
      → IsPlace source.text (cursor pos (x ∷ s))
      → Found x o
      → (o ≡ none → starts_token x ≡ false)
      → Item x s (cursor pos (x ∷ s)) (lex_other source x (lexer pos (x ∷ s) diagnostics) o)
  unfolding lex_other
  other-Item pos x s diagnostics none here h k = (k refl, advance-cons pos x s)
  other-Item pos x s diagnostics (some (short, longer)) here h k =
      symbol-Scanned source pos x s here short longer h.0 h.1

  token-Item :
      (pos x : ℕ) (s : Text) (diagnostics : List Diagnostic)
      → IsPlace source.text (cursor pos (x ∷ s))
      → Item x s (cursor pos (x ∷ s)) (lex_token source x (lexer pos (x ∷ s) diagnostics))
  unfolding lex_token
  token-Item pos x s diagnostics here = elim (Bool-cases (is_ident_start x)) [
    | inl e ↦ rw e (identifier-Scanned source pos x s here e)
    | inr a ↦ elim (Bool-cases (is_digit x)) [
      | inl e ↦ rw (a, e) (number-Scanned source pos x s here e)
      | inr b ↦ elim (Bool-cases (is_quote x)) [
        | inl e ↦ rw (a, b, e) (string-Scanned source pos x s here diagnostics e)
        | inr c ↦ elim (Bool-cases (x == b'%')) [
          | inl e ↦ rw (a, b, c, e) (direct-Scanned source pos x s here e)
          | inr d ↦
              rw (a, b, c, d)
                (other-Item pos x s diagnostics (find_symbol x symbol_table) here
                  (symbol_table-Found x) (λ h. rw (a, b, c, d) (symbol_table-none x h)))
        ]
      ]
    ]
  ]

  abbrev Lexed : Cursor → List Token × Lexer → Type 0
  Lexed c r = Tokenizes c (r.0 ++ end_token source r.1.cursor ∷ [])

  end_token-last :
      {c : Cursor} (d : Cursor) → SkipsAll c d → d.rest ≡ [] → Tokenizes c (end_token source d ∷ [])
  unfolding span
  end_token-last d skip h = last skip h refl refl refl refl

  -- What lexes the rest of a shorter text.
  abbrev Lexes : ℕ → (Lexer → List Token × Lexer) → Type 0
  Lexes bound later =
      (m : Lexer)
      → IsPlace source.text m.cursor
      → length m.cursor.rest < bound
      → Lexed m.cursor (later m)

  after_item-Lexed :
      (later : Lexer → List Token × Lexer) (c : Cursor) (pos x : ℕ) (s : Text) (l : Lexer)
      (r : Option Token × Lexer)
      → IsPlace source.text (cursor pos (x ∷ s))
      → SkipsAll c (cursor pos (x ∷ s))
      → Lexes (suc (length s)) later
      → Item x s (cursor pos (x ∷ s)) r
      → Lexed c (after_item source later l (some r))
  after_item-Lexed later c pos x s l (some t, m) here skip ih i =
      next skip i
        (ih m (Moves-IsPlace here (record { part = t.lexeme; reads = i.reads })) i.shrinks)
  after_item-Lexed later c pos x s l (none, m) here skip ih i =
      let step = Moves-cons {pos = pos} x s (Moves-refl (cursor (pos + len_utf8 x) s)) in
      let ready =
        ih m (subst (IsPlace source.text) (sym i.1) (Moves-IsPlace here step))
          (subst (λ (z : Cursor). length z.rest < suc (length s)) (sym i.1) (omega arith)) in
      stray skip refl i.0 (
        subst (λ z. Tokenizes z ((later m).0 ++ end_token source (later m).1.cursor ∷ [])) i.1
          ready)

  item-Lexed :
      (later : Lexer → List Token × Lexer) (c : Cursor) (pos : ℕ) (t : Text)
      (diagnostics : List Diagnostic)
      → IsPlace source.text (cursor pos t)
      → SkipsAll c (cursor pos t)
      → Lexes (length t) later
      → Lexed c (
          after_item source later
            (lexer pos t diagnostics)
            (lex_item source t (lexer pos t diagnostics)))
  item-Lexed later c pos [] diagnostics here skip ih = end_token-last (cursor pos []) skip refl
  item-Lexed later c pos (x ∷ s) diagnostics here skip ih =
      after_item-Lexed later c pos x s (lexer pos (x ∷ s) diagnostics)
        (lex_token source x (lexer pos (x ∷ s) diagnostics)) here skip ih
        (token-Item pos x s diagnostics here)

  round-Lexed :
      (later : Lexer → List Token × Lexer) (t : Text) (l : Lexer)
      → l.cursor.rest ≡ t
      → IsPlace source.text l.cursor
      → Lexes (length t) later
      → Lexed l.cursor (lex_round source later t l)
  round-Lexed later [] l e here ih = end_token-last l.cursor nothing e
    where
      nothing : SkipsAll l.cursor l.cursor
      nothing = record { moves = Moves-refl l.cursor; skips = done; stops = rw e refl }
  round-Lexed later (x ∷ s) l e here ih =
      let skip = skip_ws_comments_and_pragmas-SkipsAll source l in
      let after = skip_ws_comments_and_pragmas source l in
      item-Lexed later l.cursor after.cursor.pos after.cursor.rest after.diagnostics
        (Moves-IsPlace here skip.moves) skip
        (λ m place shorter.
          ih m place (omega (arith, shorter, length-Moves skip.moves, ap length e)))

  lex_rounds-Lexed :
      (fuel : ℕ) (l : Lexer)
      → IsPlace source.text l.cursor
      → length l.cursor.rest < fuel
      → Lexed l.cursor (lex_rounds source fuel l)
  unfolding lex_rounds
  lex_rounds-Lexed zero l here h = elim h [ ]
  lex_rounds-Lexed (suc fuel) l here h =
      round-Lexed (lex_rounds source fuel) l.cursor.rest l refl here
        (λ m place shorter. lex_rounds-Lexed fuel m place (omega (arith, h, shorter)))

  -- `lex` reads the whole text of a source, and its tokens, with what lies between them, are the text:
  -- each token but the last takes at least one character, starts as a token of its kind starts, and has
  -- the text between the byte offsets of its span for its lexeme; between two tokens there is nothing
  -- but whitespace, comments, pragmas and characters that start no token; the last token is the end of
  -- the file, behind all of the text.
  pub lex-Tokenizes : Tokenizes (cursor 0 source.text) (lex source).0
  unfolding lex byte_length
  lex-Tokenizes =
      lex_rounds-Lexed (suc (length source.text)) (initial source)
        (record { before = []; whole = refl; offset = refl }) (omega arith)
