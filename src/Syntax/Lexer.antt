-- ===== src/Syntax/Lexer.antt =====
-- `Lexer::lex`, crates/iec_syntax/src/lexer.rs: one function per kind of token, and the loop over them.
pub mod Spelling
pub mod Scanned
pub mod Covers
use robocpp.Base.{
  ℕ, zero, suc, ◌+◌, Bool, true, false, not, ◌&&◌, ◌||◌, Option, none, some, List, [], ◌∷◌, ◌++◌,
  ◌==◌, if◌then◌else◌, map_option, length,
}
use robocpp.Base.Text.{Text, codes, is_digit, eqb, is_empty}
use robocpp.Diagnostics.{DiagnosticCode, span}
use robocpp.Ir.Names.{canonical_identifier}
use robocpp.Syntax.Cursor.{
  Cursor, cursor, starts_with, advance, at_char, advance_while, is_ident_start, is_ident_continue,
  is_number_char, digit_next, ends_item, is_quote, consume_hash_literal_tail,
  consume_typed_string_literal_tail,
}
use robocpp.Syntax.Skip.{skip_ws_comments_and_pragmas}
use robocpp.Syntax.Source.{Source, Lexer, move, report, text_from, token}
use robocpp.Syntax.Strings.{lex_string}
use robocpp.Syntax.Token.{
  Symbol, colon, semicolon, assign, comma, lparen, rparen, lbracket, rbracket, dot, range, plus,
  minus, star, slash, power, eq, ne, lt, le, gt, ge, amp, arrow, hash, TokenKind, ident, number,
  hash_literal, direct_variable, symbol, eof, Token,
}

abbrev next_is : (ℕ → Bool) → Text → Bool
next_is p [] = false
next_is p (c ∷ s) = p c

unfoldable pub hash_literal_allows_colon : Text → Bool
hash_literal_allows_colon prefix =
    eqb prefix (codes "TOD")
    || eqb prefix (codes "TIME_OF_DAY")
    || eqb prefix (codes "DT")
    || eqb prefix (codes "DATE_AND_TIME")

abbrev is_string_prefix : Text → Bool
is_string_prefix prefix = eqb prefix (codes "STRING") || eqb prefix (codes "WSTRING")

-- The tail of a literal behind `#`.
unfoldable pub literal_tail : Text → Cursor → Cursor
unfolding hash_literal_allows_colon
literal_tail prefix c =
    if is_string_prefix prefix && next_is is_quote c.rest
    then consume_typed_string_literal_tail c.pos c.rest
    else consume_hash_literal_tail (hash_literal_allows_colon prefix) c.pos c.rest

-- The characters that start a symbol: the symbol of the character alone, and the longer symbols by
-- the character that may follow, in the order in which they are tried.
unfoldable pub symbol_table : List (ℕ × Symbol × List (ℕ × Symbol))
symbol_table =
    (b':', colon, (b'=', assign) ∷ [])
    ∷ (b'=', eq, (b'>', arrow) ∷ [])
    ∷ (b';', semicolon, [])
    ∷ (b',', comma, [])
    ∷ (b'(', lparen, [])
    ∷ (b')', rparen, [])
    ∷ (b'[', lbracket, [])
    ∷ (b']', rbracket, [])
    ∷ (b'.', dot, (b'.', range) ∷ [])
    ∷ (b'+', plus, [])
    ∷ (b'-', minus, [])
    ∷ (b'*', star, (b'*', power) ∷ [])
    ∷ (b'/', slash, [])
    ∷ (b'<', lt, (b'=', le) ∷ (b'>', ne) ∷ [])
    ∷ (b'>', gt, (b'=', ge) ∷ [])
    ∷ (b'&', amp, [])
    ∷ (b'#', hash, [])
    ∷ []

unfoldable pub find_symbol :
    ℕ → List (ℕ × Symbol × List (ℕ × Symbol)) → Option (Symbol × List (ℕ × Symbol))
find_symbol c [] = none
find_symbol c ((d, short, longer) ∷ entries) =
    if c == d then some (short, longer) else find_symbol c entries

-- `match_char` on each of the characters in turn.
unfoldable pub match_symbol : Symbol → List (ℕ × Symbol) → Cursor → Symbol × Cursor
match_symbol short [] c = (short, c)
match_symbol short ((expected, s) ∷ longer) c =
    if at_char expected c.rest then (s, advance c) else match_symbol short longer c

-- The sign of an exponent.
abbrev sign : Cursor → Cursor
sign c = if at_char b'+' c.rest || at_char b'-' c.rest then advance c else c

abbrev digits_from : Cursor → Cursor
digits_from c = advance_while is_number_char c.pos c.rest

abbrev fraction : Cursor → Cursor
fraction c =
    if at_char b'.' c.rest && not (starts_with (codes "..") c.rest)
    then digits_from (advance c)
    else c

abbrev exponent : Cursor → Cursor
exponent c =
    if at_char b'e' c.rest || at_char b'E' c.rest then digits_from (sign (advance c)) else c

-- Not the end of a direct variable.
abbrev pub in_direct : ℕ → Bool
in_direct c = not (ends_item c)

module _ (source : Source) where
  unfoldable pub lex_identifier_or_hash_literal : ℕ → Cursor → Token × Cursor
  lex_identifier_or_hash_literal start c =
      let name_start = advance c in
      let name = advance_while is_ident_continue name_start.pos name_start.rest in
      let literal =
        literal_tail (canonical_identifier (text_from source start name)) (advance name) in
      if at_char b'#' name.rest
      then (token source start (hash_literal (text_from source start literal)) literal, literal)
      else (token source start (ident (text_from source start name)) name, name)

  unfoldable pub lex_number_or_hash_literal : ℕ → Cursor → Token × Cursor
  lex_number_or_hash_literal start c =
      let whole = digits_from (advance c) in
      let hash = advance whole in
      let literal = consume_hash_literal_tail false hash.pos hash.rest in
      let last = exponent (fraction whole) in
      if at_char b'#' whole.rest
      then (token source start (hash_literal (text_from source start literal)) literal, literal)
      else (token source start (number (text_from source start last)) last, last)

  unfoldable pub lex_direct_variable : ℕ → Cursor → Token × Cursor
  lex_direct_variable start c =
      let body = advance c in
      let last = advance_while in_direct body.pos body.rest in
      (token source start (direct_variable (text_from source start last)) last, last)

  unfoldable pub lex_symbol : ℕ → Symbol → List (ℕ × Symbol) → Cursor → Token × Cursor
  lex_symbol start short longer c =
      let (s, last) = match_symbol short longer (advance c) in
      (token source start (symbol s) last, last)

  abbrev unexpected_message : ℕ → Text
  unexpected_message c = codes "unexpected character '" ++ (c ∷ codes "'")

  -- A token that reports nothing.
  abbrev moved : Lexer → Token × Cursor → Option Token × Lexer
  moved l (t, c) = (some t, move l c)

  unfoldable pub lex_other : ℕ → Lexer → Option (Symbol × List (ℕ × Symbol)) → Option Token × Lexer
  lex_other c l (some (short, longer)) = moved l (lex_symbol l.cursor.pos short longer l.cursor)
  lex_other c l none =
      let next = advance l.cursor in
      (
        none,
        report source DiagnosticCode.lexical (unexpected_message c) l.cursor.pos next.pos
            (move l next),
      )

  -- The token that starts with the character `c`; `none` where it is unexpected.
  unfoldable pub lex_token : ℕ → Lexer → Option Token × Lexer
  lex_token c l =
      if is_ident_start c
      then moved l (lex_identifier_or_hash_literal l.cursor.pos l.cursor)
      else if is_digit c
      then moved l (lex_number_or_hash_literal l.cursor.pos l.cursor)
      else if is_quote c
      then (let (t, l') = lex_string source l.cursor.pos c l in (some t, l'))
      else if c == b'%'
      then moved l (lex_direct_variable l.cursor.pos l.cursor)
      else lex_other c l (find_symbol c symbol_table)

  abbrev add_token : Option Token → List Token → List Token
  add_token none ts = ts
  add_token (some t) ts = t ∷ ts

  -- One round behind whitespace, comments and pragmas: `none` at the end of the text.
  abbrev pub lex_item : Text → Lexer → Option (Option Token × Lexer)
  lex_item [] l = none
  lex_item (c ∷ s) l = some (lex_token c l)

  -- Behind a round, with what lexes the rest.
  abbrev pub after_item :
      (Lexer → List Token × Lexer) → Lexer → Option (Option Token × Lexer) → List Token × Lexer
  after_item later l none = ([], l)
  after_item later l (some (t, l')) = let (ts, last) = later l' in (add_token t ts, last)

  abbrev pub lex_round : (Lexer → List Token × Lexer) → Text → Lexer → List Token × Lexer
  lex_round later [] l = ([], l)
  lex_round later (c ∷ s) l =
      let next = skip_ws_comments_and_pragmas source l in
      after_item later next (lex_item next.cursor.rest next)

  unfoldable pub lex_rounds : ℕ → Lexer → List Token × Lexer
  lex_rounds zero l = ([], l)
  lex_rounds (suc fuel) l = lex_round (lex_rounds fuel) l.cursor.rest l

  abbrev pub initial : Lexer
  initial = record { cursor = cursor 0 source.text; diagnostics = [] }

  -- The token at the end has no text.
  abbrev pub end_token : Cursor → Token
  end_token c = record { kind = eof; lexeme = []; span = span source.name c.pos c.pos source.text }

  unfoldable pub lex : List Token × Lexer
  unfolding lex_rounds lex_token lex_identifier_or_hash_literal lex_number_or_hash_literal
      lex_direct_variable lex_other lex_symbol find_symbol symbol_table match_symbol literal_tail
  lex =
      let (ts, last) = lex_rounds (suc (length source.text)) initial in
      (ts ++ end_token last.cursor ∷ [], last)
