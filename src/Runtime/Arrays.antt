-- ===== src/Runtime/Arrays.antt =====
-- The place of an element of an array, `array_offset` of crates/iec_runtime/src/runtime.rs. The
-- difference of an index and its lower bound and the products are exact here.
use native.Mathlib.Nat
use robocpp.Base.{
  ℕ, ◌+◌, ◌*◌, ◌≡◌, true, ◌&&◌, Option, none, some, List, [], ◌∷◌, ◌++◌, length, if◌then◌else◌,
  ◌==◌,
}
use robocpp.Base.Int.{ℤ, pos, pos_part, ◌+ℤ◌, ◌-ℤ◌, leb_ℤ}
use robocpp.Base.Text.{Text, codes}
use robocpp.Base.Decimal.{print_ℕ, print_ℤ}
use robocpp.Ir.Value.{Floats}
use robocpp.Ir.Syntax.{Expr, Subrange}
use robocpp.Runtime.State.{Runtime}
use robocpp.Runtime.Eval.{push_error}
use robocpp.Runtime.Eval.Expr.{Operations}
use robocpp.Runtime.Statement.Execute.{eval_i64}

-- `(range.high - range.low + 1).max(0)`
unfoldable pub size : Subrange → ℕ
size range = pos_part (range.high -ℤ range.low +ℤ pos 1)

abbrev pub outside_message : ℤ → Subrange → Text
outside_message index range =
    codes "array index "
    ++ (print_ℤ index
        ++ (codes " is outside subrange "
            ++ (print_ℤ range.low ++ (codes ".." ++ print_ℤ range.high))))

abbrev pub count_message : ℕ → ℕ → Text
count_message expected got =
    codes "array access expects "
    ++ (print_ℕ expected ++ (codes " index value(s), got " ++ print_ℕ got))

-- `ranges.iter().rev().zip(indices.iter().rev())`, for lists of the same length.
unfoldable pub pairs_reversed :
    {E : Type 0} → List Subrange → List E → List (Subrange × E) → List (Subrange × E)
pairs_reversed (range ∷ ranges) (e ∷ es) done = pairs_reversed ranges es ((range, e) ∷ done)
pairs_reversed ranges es done = done

module _ {F : Floats} (ops : Operations F) where
  abbrev pub at_index :
      Subrange
      → Option ℤ × Runtime F
      → (ℤ → Runtime F → Option ℕ × Runtime F)
      → Option ℕ × Runtime F
  at_index range (none, r) next = (none, r)
  at_index range (some index, r) next =
      if leb_ℤ range.low index && leb_ℤ index range.high
      then next index r
      else (none, push_error (outside_message index range) r)

  unfoldable pub offset_rounds : List (Subrange × Expr F) → ℕ → ℕ → Runtime F → Option ℕ × Runtime F
  unfolding size
  offset_rounds [] offset stride r = (some offset, r)
  offset_rounds ((range, e) ∷ rest) offset stride r = at_index range (eval_i64 ops e r) (λ index.
      offset_rounds rest (offset + pos_part (index -ℤ range.low) * stride) (stride * size range))

  unfoldable pub array_offset : List Subrange → List (Expr F) → Runtime F → Option ℕ × Runtime F
  unfolding offset_rounds pairs_reversed
  array_offset ranges indices r =
      if length ranges == length indices
      then offset_rounds (pairs_reversed ranges indices []) 0 1 r
      else (none, push_error (count_message (length ranges) (length indices)) r)

-- The number of elements of an array
unfoldable pub volume : List Subrange → ℕ
volume [] = 1
volume (range ∷ ranges) = size range * volume ranges

-- The place of an element in the order of the rows, of ranges and indices that go together.
unfoldable pub row_major : List Subrange → List ℤ → ℕ
unfolding volume
row_major (range ∷ ranges) (index ∷ indices) =
    pos_part (index -ℤ range.low) * volume ranges + row_major ranges indices
row_major ranges indices = 0

module _ {F : Floats} (ops : Operations F) where
  -- Each expression gives the index beside it, in every state and without an effect, and the index
  -- is in the range.
  abbrev pub AllWithin : List Subrange → List (Expr F) → List ℤ → Type 0
  AllWithin [] [] [] = Unit
  AllWithin (range ∷ ranges) (e ∷ es) (index ∷ indices) =
      ((s : Runtime F) → eval_i64 ops e s ≡ (some index, s))
      × ((leb_ℤ range.low index && leb_ℤ index range.high) ≡ true)
      × AllWithin ranges es indices
  AllWithin _ _ _ = ⊥
