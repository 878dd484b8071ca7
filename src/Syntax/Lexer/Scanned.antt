-- ===== src/Syntax/Lexer/Scanned.antt =====
-- What each kind of token reads.
use mathlib.Core.Path.{subst}
use robocpp.Base.{
  ℕ, ◌+◌, ◌<◌, ◌≡◌, refl, sym, true, false, ◌&&◌, ◌||◌, not, List, [], ◌∷◌, ◌++◌, arith, ◌==◌,
  Bool-cases, inl, inr, length, ==_iff,
}
use robocpp.Base.Text.{Text, codes, is_digit}
use robocpp.Base.Utf8.{len_utf8, slice}
use robocpp.Diagnostics.{Diagnostic, span}
use robocpp.Ir.Names.{canonical_identifier}
use robocpp.Syntax.Cursor.{
  Cursor, cursor, starts_with, advance, at_char, advance_while, is_ident_start, is_ident_continue,
  is_number_char, is_quote, consume_hash_literal_tail,
}
use robocpp.Syntax.Cursor.Moves.{
  Reads, Reads-cons, Reads-append, Moves, Moves-refl, Moves-trans, Moves-if, Moves-advance,
  Moves-advance_while, advance-cons, advance_while-Passes, Moves-consume_hash_literal_tail,
  Moves-consume_typed_string_literal_tail, IsPlace, slice-Reads, length-Moves,
}
use robocpp.Syntax.Lexer.{
  literal_tail, is_string_prefix, next_is, hash_literal_allows_colon, sign, digits_from, fraction,
  exponent, in_direct, lex_identifier_or_hash_literal, lex_number_or_hash_literal,
  lex_direct_variable, lex_symbol, match_symbol,
}
use robocpp.Syntax.Lexer.Spelling.{
  Spells, all-any, contains-append, match_symbol-Matches, Longer, spelling,
}
use robocpp.Syntax.Source.{Source, Lexer, text_from, token}
use robocpp.Syntax.Strings.{string_kind, lex_string}
use robocpp.Syntax.Strings.Ends.{lex_string-Moves, lex_string-token}
use robocpp.Syntax.Token.{Symbol, TokenKind, hash_literal, Token}

-- The token `t` is the text from `c` to `d`, spelled as its kind asks.
pub record Scanned (c d : Cursor) (t : Token) : Type 0 where
  pub reads : Reads c d t.lexeme
  pub from : t.span.start ≡ c.pos
  pub to : t.span.stop ≡ d.pos
  pub spells : Spells t.kind t.lexeme
  pub shrinks : length d.rest < length c.rest

Moves-literal_tail : (prefix : Text) (c : Cursor) → Moves c (literal_tail prefix c)
unfolding literal_tail
Moves-literal_tail prefix c =
    Moves-if (is_string_prefix prefix && next_is is_quote c.rest)
      (Moves-consume_typed_string_literal_tail c.pos c.rest)
      (Moves-consume_hash_literal_tail (hash_literal_allows_colon prefix) c.pos c.rest)

Moves-digits_from : (c : Cursor) → Moves c (digits_from c)
Moves-digits_from c = Moves-advance_while is_number_char c.pos c.rest

Moves-sign : (c : Cursor) → Moves c (sign c)
Moves-sign c =
    Moves-if (at_char b'+' c.rest || at_char b'-' c.rest) (Moves-advance c) (Moves-refl c)

Moves-fraction : (c : Cursor) → Moves c (fraction c)
Moves-fraction c =
    Moves-if (at_char b'.' c.rest && not (starts_with (codes "..") c.rest))
      (Moves-trans (Moves-advance c) (Moves-digits_from (advance c))) (Moves-refl c)

Moves-exponent : (c : Cursor) → Moves c (exponent c)
Moves-exponent c =
    Moves-if (at_char b'e' c.rest || at_char b'E' c.rest)
      (Moves-trans (Moves-advance c)
        (Moves-trans (Moves-sign (advance c)) (Moves-digits_from (sign (advance c)))))
      (Moves-refl c)

-- Over a `#` and what follows it.
hash_at :
    (pos : ℕ) (s : Text) (d : Cursor)
    → at_char b'#' s ≡ true
    → Moves (advance (cursor pos s)) d
    → (part : Text) × Reads (cursor pos s) d (b'#' ∷ part)
hash_at pos [] d h m = let wrong : false ≡ true = h in cc
hash_at pos (c ∷ s) d h m =
    let r = rw (advance-cons pos c s) at m in
    let e : c ≡ b'#' = (==_iff c b'#').0 h in
    (
      r.part,
      subst (λ z. Reads (cursor pos (c ∷ s)) d (z ∷ r.part)) e (Reads-cons c s r.part r.reads),
    )

module _ (source : Source) where
  -- A token made from the text between two places, when the text there is known.
  token-Scanned :
      (c d : Cursor) (part : Text) (kind : TokenKind)
      → IsPlace source.text c
      → Reads c d part
      → length d.rest < length c.rest
      → Spells kind part
      → Scanned c d (token source c.pos kind d)
  unfolding token span
  token-Scanned c d part kind p r shorter spells =
      let e : slice c.pos d.pos source.text ≡ part = slice-Reads part p r in
      record { reads = rw e r; from = refl; to = refl; spells = rw e spells; shrinks = shorter }

  module _ (pos x : ℕ) (s : Text) (here : IsPlace source.text (cursor pos (x ∷ s))) where
    abbrev start : Cursor
    start = cursor pos (x ∷ s)

    abbrev behind : Cursor
    behind = cursor (pos + len_utf8 x) s

    -- From a first character that is known.
    started :
        (d : Cursor) (kind : TokenKind) (m : Moves behind d)
        → Spells kind (x ∷ m.part)
        → Scanned start d (token source pos kind d)
    started d kind m spells =
        token-Scanned start d (x ∷ m.part) kind here (Reads-cons x s m.part m.reads)
          (omega (arith, length-Moves m)) spells

    text_at : (d : Cursor) (m : Moves behind d) → text_from source pos d ≡ x ∷ m.part
    text_at d m = slice-Reads (x ∷ m.part) here (Reads-cons x s m.part m.reads)

    quote-Spells : (value part : Text) → is_quote x ≡ true → Spells (string_kind x value) (x ∷ part)
    quote-Spells value part h = elim (Bool-cases (x == b'"')) [
      | inl e ↦ rw e (rw e (all-any part))
      | inr e ↦ rw e (ground (arith, all-any part))
    ]

    pub string-Scanned :
        (diagnostics : List Diagnostic)
        → is_quote x ≡ true
        → let r = lex_string source pos x (record { cursor = start; diagnostics = diagnostics }) in
          Scanned start r.1.cursor r.0
    string-Scanned diagnostics h =
        let l : Lexer = record { cursor = start; diagnostics = diagnostics } in
        let m = rw (advance-cons pos x s) at (lex_string-Moves source pos x l) in
        let (value, e) = lex_string-token source pos x l in
        rw e (
          started (lex_string source pos x l).1.cursor (string_kind x value) m
            (quote-Spells value m.part h))

    pub direct-Scanned :
        (x == b'%') ≡ true → let r = lex_direct_variable source pos start in Scanned start r.1 r.0
    unfolding lex_direct_variable
    direct-Scanned h =
        let p = advance_while-Passes in_direct (pos + len_utf8 x) s in
        let m : Moves behind (advance_while in_direct (pos + len_utf8 x) s) = record {
          part = p.part;
          reads = p.reads;
        } in
        rw (advance-cons pos x s) (started _ _ m (text_at _ m, rw h p.every))

    pub symbol-Scanned :
        (short : Symbol) (longer : List (ℕ × Symbol))
        → spelling short ≡ x ∷ []
        → Longer x longer
        → let r = lex_symbol source pos short longer start in Scanned start r.1 r.0
    unfolding lex_symbol
    symbol-Scanned short longer h k =
        let found = match_symbol-Matches x short longer (pos + len_utf8 x) s h k in
        let m : Moves behind (match_symbol short longer behind).1 = record {
          part = found.part;
          reads = found.reads;
        } in
        rw (advance-cons pos x s) (started _ _ m (sym found.spelled))

    -- A literal with `#`, behind a first part.
    hash_spells :
        (middle d : Cursor)
        → Moves behind middle
        → at_char b'#' middle.rest ≡ true
        → Moves (advance middle) d
        → Scanned start d (token source pos (hash_literal (text_from source pos d)) d)
    hash_spells middle d m h n =
        let (tail, r) = hash_at middle.pos middle.rest d h n in
        let whole : Moves behind d = record {
          part = m.part ++ b'#' ∷ tail;
          reads = Reads-append m.part (b'#' ∷ tail) m.reads r;
        } in
        started d _ whole (text_at d whole, contains-append b'#' (x ∷ m.part) tail)

    pub identifier-Scanned :
        is_ident_start x ≡ true
        → let r = lex_identifier_or_hash_literal source pos start in Scanned start r.1 r.0
    unfolding lex_identifier_or_hash_literal
    identifier-Scanned h =
        let name = advance_while is_ident_continue (pos + len_utf8 x) s in
        let p = advance_while-Passes is_ident_continue (pos + len_utf8 x) s in
        let m : Moves behind name = record { part = p.part; reads = p.reads } in
        let literal =
          literal_tail (canonical_identifier (text_from source pos name)) (advance name) in
        rw (advance-cons pos x s) (elim (Bool-cases (at_char b'#' name.rest)) [
          | inl e ↦ rw e (hash_spells name literal m e (Moves-literal_tail _ (advance name)))
          | inr e ↦ rw e (started name _ m (text_at name m, rw h p.every))
        ])

    pub number-Scanned :
        is_digit x ≡ true
        → let r = lex_number_or_hash_literal source pos start in Scanned start r.1 r.0
    unfolding lex_number_or_hash_literal
    number-Scanned h =
        let whole = digits_from behind in
        let m = Moves-digits_from behind in
        let after = advance whole in
        let literal = consume_hash_literal_tail false after.pos after.rest in
        let last = exponent (fraction whole) in
        let n =
          Moves-trans m (Moves-trans (Moves-fraction whole) (Moves-exponent (fraction whole))) in
        rw (advance-cons pos x s) (elim (Bool-cases (at_char b'#' whole.rest)) [
          | inl e ↦ rw e (
              hash_spells whole literal m e
                (Moves-consume_hash_literal_tail false after.pos after.rest))
          | inr e ↦ rw e (started last _ n (text_at last n, rw h (all-any n.part)))
        ])
