-- ===== src/Syntax/Lexer/Spelling.antt =====
-- How the tokens of each kind are spelled.
use robocpp.Base.{
  ℕ, ◌≡◌, refl, sym, ap, ◌∙◌, Bool, true, false, ◌&&◌, ◌||◌, Option, none, some, List, [], ◌∷◌,
  ◌++◌, arith, ◌==◌, Bool-cases, inl, inr, ==_iff,
}
use robocpp.Base.Text.{Text, codes, is_digit}
use robocpp.Syntax.Cursor.{Cursor, cursor, is_ident_start, is_ident_continue, is_quote}
use robocpp.Syntax.Cursor.Moves.{Reads, Reads-nil, Reads-cons, advance-cons, all}
use robocpp.Syntax.Lexer.{symbol_table, find_symbol, match_symbol, in_direct}
use robocpp.Syntax.Token.{
  Symbol, colon, semicolon, assign, comma, lparen, rparen, lbracket, rbracket, dot, range, plus,
  minus, star, slash, power, eq, ne, lt, le, gt, ge, amp, arrow, hash, TokenKind, ident, number,
  string_literal, wstring_literal, hash_literal, direct_variable, symbol, eof,
}

unfoldable pub spelling : Symbol → Text
spelling colon = codes ":"
spelling semicolon = codes ";"
spelling assign = codes ":="
spelling comma = codes ","
spelling lparen = codes "("
spelling rparen = codes ")"
spelling lbracket = codes "["
spelling rbracket = codes "]"
spelling dot = codes "."
spelling range = codes ".."
spelling plus = codes "+"
spelling minus = codes "-"
spelling star = codes "*"
spelling slash = codes "/"
spelling power = codes "**"
spelling eq = codes "="
spelling ne = codes "<>"
spelling lt = codes "<"
spelling le = codes "<="
spelling gt = codes ">"
spelling ge = codes ">="
spelling amp = codes "&"
spelling arrow = codes "=>"
spelling hash = codes "#"

abbrev pub begins : (ℕ → Bool) → (ℕ → Bool) → Text → Bool
begins p q [] = false
begins p q (c ∷ s) = p c && all q s

abbrev pub contains : ℕ → Text → Bool
contains c [] = false
contains c (d ∷ s) = c == d || contains c s

-- The text that a token of this kind stands for.
abbrev pub Spells : TokenKind → Text → Type 0
Spells (ident t) s = (t ≡ s) × (begins is_ident_start is_ident_continue s ≡ true)
Spells (number t) s = (t ≡ s) × (begins is_digit (λ _. true) s ≡ true)
Spells (string_literal v) s = begins (λ c. c == b'\'') (λ _. true) s ≡ true
Spells (wstring_literal v) s = begins (λ c. c == b'"') (λ _. true) s ≡ true
Spells (hash_literal t) s = (t ≡ s) × (contains b'#' s ≡ true)
Spells (direct_variable t) s = (t ≡ s) × (begins (λ c. c == b'%') in_direct s ≡ true)
Spells (symbol x) s = s ≡ spelling x
Spells eof s = s ≡ []

-- A character that a token may start with.
abbrev pub starts_token : ℕ → Bool
starts_token c =
    is_ident_start c
    || is_digit c
    || is_quote c
    || c == b'%'
    || contains c (codes ":=;,()[].+-*/<>&#")

pub all-any : (s : Text) → all (λ _. true) s ≡ true
all-any [] = refl
all-any (c ∷ s) = all-any s

pub contains-append : (c : ℕ) (s t : Text) → contains c (s ++ c ∷ t) ≡ true
contains-append c [] t = ground arith
contains-append c (d ∷ s) t = ground (arith, contains-append c s t)

abbrev pub Longer : ℕ → List (ℕ × Symbol) → Type 0
Longer c [] = Unit
Longer c ((d, s) ∷ more) = (spelling s ≡ c ∷ d ∷ []) × Longer c more

abbrev Entries : List (ℕ × Symbol × List (ℕ × Symbol)) → Type 0
Entries [] = Unit
Entries ((c, short, longer) ∷ more) = (spelling short ≡ c ∷ []) × Longer c longer × Entries more

symbol_table-Entries : Entries symbol_table
unfolding symbol_table spelling
symbol_table-Entries = (
  refl,
  (refl, tt),
  (
    refl,
    (refl, tt),
    (
      refl,
      tt,
      (
        refl,
        tt,
        (
          refl,
          tt,
          (
            refl,
            tt,
            (
              refl,
              tt,
              (
                refl,
                tt,
                (
                  refl,
                  (refl, tt),
                  (
                    refl,
                    tt,
                    (
                      refl,
                      tt,
                      (
                        refl,
                        (refl, tt),
                        (
                          refl,
                          tt,
                          (
                            refl,
                            (refl, (refl, tt)),
                            (refl, (refl, tt), (refl, tt, (refl, tt, tt))),
                          ),
                        ),
                      ),
                    ),
                  ),
                ),
              ),
            ),
          ),
        ),
      ),
    ),
  ),
)

abbrev pub Found : ℕ → Option (Symbol × List (ℕ × Symbol)) → Type 0
Found c none = Unit
Found c (some (short, longer)) = (spelling short ≡ c ∷ []) × Longer c longer

find_symbol-Found :
    (c : ℕ) (entries : List (ℕ × Symbol × List (ℕ × Symbol)))
    → Entries entries
    → Found c (find_symbol c entries)
unfolding find_symbol
find_symbol-Found c [] h = tt
find_symbol-Found c ((d, short, longer) ∷ more) h = elim (Bool-cases (c == d)) [
  | inl e ↦ rw e (rw ((==_iff c d).0 e) (h.0, h.1))
  | inr e ↦ rw e (find_symbol-Found c more h.2)
]

pub symbol_table-Found : (c : ℕ) → Found c (find_symbol c symbol_table)
symbol_table-Found c = find_symbol-Found c symbol_table symbol_table-Entries

-- A character of no symbol is not in the table.
abbrev heads : List (ℕ × Symbol × List (ℕ × Symbol)) → Text
heads [] = []
heads ((c, short, longer) ∷ more) = c ∷ heads more

find_symbol-none :
    (c : ℕ) (entries : List (ℕ × Symbol × List (ℕ × Symbol)))
    → find_symbol c entries ≡ none
    → contains c (heads entries) ≡ false
unfolding find_symbol
find_symbol-none c [] h = refl
find_symbol-none c ((d, short, longer) ∷ more) h = ground (arith, find_symbol-none c more)

pub symbol_table-none :
    (c : ℕ) → find_symbol c symbol_table ≡ none → contains c (codes ":=;,()[].+-*/<>&#") ≡ false
unfolding symbol_table
symbol_table-none c h = find_symbol-none c symbol_table h

-- The longest symbol of the entry that the text goes on with.
pub record Matches (first : ℕ) (c : Cursor) (r : Symbol × Cursor) : Type 0 where
  pub part : Text
  pub reads : Reads c r.1 part
  pub spelled : spelling r.0 ≡ first ∷ part

pub match_symbol-Matches :
    (first : ℕ) (short : Symbol) (longer : List (ℕ × Symbol)) (pos : ℕ) (s : Text)
    → spelling short ≡ first ∷ []
    → Longer first longer
    → Matches first (cursor pos s) (match_symbol short longer (cursor pos s))
unfolding match_symbol
match_symbol-Matches first short [] pos s h k = record {
  part = [];
  reads = Reads-nil _;
  spelled = h;
}
match_symbol-Matches first short ((d, x) ∷ more) pos [] h k =
    match_symbol-Matches first short more pos [] h k.1
match_symbol-Matches first short ((d, x) ∷ more) pos (c ∷ s) h k = elim (Bool-cases (c == d)) [
  | inl e ↦ rw e (
      rw (advance-cons pos c s) record {
        part = c ∷ [];
        reads = Reads-cons c s [] (Reads-nil _);
        spelled = k.0 ∙ ap (λ z. first ∷ z ∷ []) (sym ((==_iff c d).0 e));
      })
  | inr e ↦ rw e (match_symbol-Matches first short more pos (c ∷ s) h k.1)
]
