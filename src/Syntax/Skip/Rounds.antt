-- ===== src/Syntax/Skip/Rounds.antt =====
-- What `skip_ws_comments_and_pragmas` skips, crates/iec_syntax/src/lexer.rs.
use robocpp.Base.{
  ℕ, zero, suc, ◌+◌, ◌<◌, ◌≡◌, refl, Option, Option-cases, Bool, true, false, none, some, [], ◌∷◌,
  arith, if◌then◌else◌, Bool-cases, inl, inr, length,
}
use robocpp.Base.Text.{Text, codes, is_whitespace}
use robocpp.Base.Utf8.{len_utf8}
use robocpp.Diagnostics.{DiagnosticCode}
use robocpp.Syntax.Cursor.{Cursor, cursor, starts_with, advance, advance_while, comment_rounds}
use robocpp.Syntax.Cursor.Moves.{
  Moves, Moves-refl, Moves-trans, Moves-cons, Moves-if, Moves-advance, Moves-advance_while,
  Moves-comment_rounds, fails_next, advance_while-Passes, length-Moves,
}
use robocpp.Syntax.Skip.{
  in_pragma, report_if, end_comment, skip_comment, skip_pragma, skip_whitespace, skip_item,
  skip_rounds, skip_ws_comments_and_pragmas,
}
use robocpp.Syntax.Source.{Source, Lexer, move}
use robocpp.Syntax.Skip.Skips.{
  Skips, Skips-trans, starts_skip, Skips-passed, starts_with-two, starts_with-one, comment_end,
  pragma_end, rest-comment_end, rest-pragma_end, done, comment, pragma,
}

-- What one comment or pragma does.
record Skipped (c d : Cursor) : Type 0 where
  moves : Moves c d
  skips : Skips c.rest d.rest
  shrinks : length d.rest < length c.rest

-- From `c` to `d` lies what may be skipped, and nothing more of it starts at `d`.
pub record SkipsAll (c d : Cursor) : Type 0 where
  pub moves : Moves c d
  pub skips : Skips c.rest d.rest
  pub stops : starts_skip d.rest ≡ false

module _ (source : Source) where
  report_if-cursor :
      (b : Bool) (code : DiagnosticCode) (message : Text) (start stop : ℕ) (l : Lexer)
      → (report_if source b code message start stop l).cursor ≡ l.cursor
  unfolding report_if
  report_if-cursor true code message start stop l = refl
  report_if-cursor false code message start stop l = refl

  end_comment-cursor : (l : Lexer) → (end_comment source l).0.cursor ≡ comment_end l.cursor
  unfolding end_comment
  end_comment-cursor l = elim (Bool-cases (starts_with (codes "*)") l.cursor.rest)) [
    | inl e ↦ rw e refl
    | inr e ↦ rw e refl
  ]

  abbrev inside : Cursor → Bool × Cursor
  inside c = comment_rounds false c.pos c.rest

  skip_comment-cursor :
      (l : Lexer)
      → (skip_comment source l).cursor ≡ comment_end (inside (advance (advance l.cursor))).1
  unfolding skip_comment
  skip_comment-cursor l = simp (report_if-cursor, end_comment-cursor)

  abbrev pragma_body : Cursor → Cursor
  pragma_body c = advance_while in_pragma c.pos c.rest

  move-if :
      (b : Bool) (l : Lexer) (c d : Cursor)
      → (if b then move l c else move l d).cursor ≡ (if b then c else d)
  move-if true l c d = refl
  move-if false l c d = refl

  skip_pragma-cursor :
      (l : Lexer) → (skip_pragma source l).cursor ≡ pragma_end (pragma_body (advance l.cursor))
  unfolding skip_pragma
  skip_pragma-cursor l = simp (report_if-cursor, move-if)

  comment-Skipped :
      (pos : ℕ) (s : Text)
      → Skipped
          (cursor pos (b'(' ∷ b'*' ∷ s))
          (comment_end (inside (advance (advance (cursor pos (b'(' ∷ b'*' ∷ s))))).1)
  unfolding advance
  comment-Skipped pos s =
      let start = cursor (pos + len_utf8 b'(' + len_utf8 b'*') s in
      let body = Moves-comment_rounds false start.pos s in
      let rest = Moves-trans body (
        Moves-if (starts_with (codes "*)") (inside start).1.rest)
          (Moves-trans (Moves-advance _) (Moves-advance _)) (Moves-refl _)) in
      record {
        moves = Moves-cons b'(' _ (Moves-cons b'*' s rest);
        skips = comment (rw (rest-comment_end false start.pos s) done);
        shrinks = omega (arith, length-Moves rest);
      }

  pragma-Skipped :
      (pos : ℕ) (s : Text)
      → Skipped (cursor pos (b'{' ∷ s)) (pragma_end (pragma_body (advance (cursor pos (b'{' ∷ s)))))
  unfolding advance
  pragma-Skipped pos s =
      let start = cursor (pos + len_utf8 b'{') s in
      let body = Moves-advance_while in_pragma start.pos s in
      let rest = Moves-trans body (
        Moves-if (starts_with (codes "}") (pragma_body start).rest) (Moves-advance _)
          (Moves-refl _)) in
      record {
        moves = Moves-cons b'{' s rest;
        skips = pragma (rw (rest-pragma_end start.pos s) done);
        shrinks = omega (arith, length-Moves rest);
      }

  comment_at-Skipped :
      (pos : ℕ) (s t : Text)
      → t ≡ b'(' ∷ b'*' ∷ s
      → Skipped (cursor pos t) (comment_end (inside (advance (advance (cursor pos t)))).1)
  comment_at-Skipped pos s t h = rw h (comment-Skipped pos s)

  pragma_at-Skipped :
      (pos : ℕ) (s t : Text)
      → t ≡ b'{' ∷ s
      → Skipped (cursor pos t) (pragma_end (pragma_body (advance (cursor pos t))))
  pragma_at-Skipped pos s t h = rw h (pragma-Skipped pos s)

  -- A round of the loop skips one comment or pragma, or none starts here.
  abbrev Does : Cursor → Option Lexer → Type 0
  Does c none = (starts_with (codes "(*") c.rest ≡ false) × (starts_with (codes "{") c.rest ≡ false)
  Does c (some l) = Skipped c l.cursor

  skip_item-Does : (l : Lexer) → Does l.cursor (skip_item source l)
  unfolding skip_item
  skip_item-Does l = elim (Bool-cases (starts_with (codes "(*") l.cursor.rest)) [
    | inl e ↦
        let (s, r) = starts_with-two b'(' b'*' l.cursor.rest e in
        rw e (rw (skip_comment-cursor l) (comment_at-Skipped l.cursor.pos s l.cursor.rest r))
    | inr e ↦ elim (Bool-cases (starts_with (codes "{") l.cursor.rest)) [
      | inl o ↦
          let (s, r) = starts_with-one b'{' l.cursor.rest o in
          rw (e, o) (rw (skip_pragma-cursor l) (pragma_at-Skipped l.cursor.pos s l.cursor.rest r))
      | inr o ↦ rw (e, o) (e, o)
    ]
  ]

  whitespace-Skipped :
      (pos : ℕ) (s : Text)
      → let d = advance_while is_whitespace pos s in
        Moves (cursor pos s) d × Skips s d.rest × (fails_next is_whitespace d.rest ≡ true)
  whitespace-Skipped pos s =
      let p = advance_while-Passes is_whitespace pos s in
      (
        record { part = p.part; reads = p.reads },
        Skips-passed p.part _ s p.reads.splits p.every,
        p.stops,
      )

  no_skip :
      (s : Text)
      → fails_next is_whitespace s ≡ true
      → starts_with (codes "(*") s ≡ false
      → starts_with (codes "{") s ≡ false
      → starts_skip s ≡ false
  no_skip [] h k o = refl
  no_skip (c ∷ s) h k o = elim (Bool-cases (is_whitespace c)) [
    | inl e ↦ let wrong : false ≡ true = rw e at h in cc
    | inr e ↦ rw (e, k, o)
  ]

  skip_rounds-SkipsAll :
      (fuel : ℕ) (l : Lexer)
      → length l.cursor.rest < fuel
      → SkipsAll l.cursor (skip_rounds source fuel l).cursor
  unfolding skip_rounds
  skip_rounds-SkipsAll zero l h = elim h [ ]
  skip_rounds-SkipsAll (suc fuel) l h =
      let w = whitespace-Skipped l.cursor.pos l.cursor.rest in
      elim (Option-cases (skip_item source (skip_whitespace source l))) [
        | inl e ↦
            let d = rw e at (skip_item-Does (skip_whitespace source l)) in
            rw (e, skip_rounds)
              record {
                moves = w.0;
                skips = w.1;
                stops = no_skip (skip_whitespace source l).cursor.rest w.2 d.0 d.1;
              }
        | inr (next, e) ↦
            let d : Skipped (skip_whitespace source l).cursor next.cursor =
              rw e at (skip_item-Does (skip_whitespace source l)) in
            let later =
              skip_rounds-SkipsAll fuel next (omega (arith, h, d.shrinks, length-Moves w.0)) in
            rw (e, skip_rounds)
              record {
                moves = Moves-trans w.0 (Moves-trans d.moves later.moves);
                skips = Skips-trans w.1 (Skips-trans d.skips later.skips);
                stops = later.stops;
              }
      ]

  pub skip_ws_comments_and_pragmas-SkipsAll :
      (l : Lexer) → SkipsAll l.cursor (skip_ws_comments_and_pragmas source l).cursor
  unfolding skip_ws_comments_and_pragmas
  skip_ws_comments_and_pragmas-SkipsAll l =
      skip_rounds-SkipsAll (suc (length l.cursor.rest)) l (omega arith)
