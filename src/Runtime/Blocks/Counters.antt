-- ===== src/Runtime/Blocks/Counters.antt =====
-- The counters CTU, CTD and CTUD of crates/iec_runtime/src/runtime.rs.
use Prim.Native.String.{String}
use robocpp.Base.{
  ℕ, ◌+◌, ◌<◌, ◌≤◌, ◌≡◌, refl, Bool, true, false, not, ◌&&◌, List, [], ◌∷◌, arith, ◌∙◌,
  if◌then◌else◌, length, Bool-cases, inl, inr,
}
use robocpp.Base.Int.{
  ℤ, pos, pos_part, neg_part, ◌+ℤ◌, ◌-ℤ◌, leb_ℤ, wrap_i64, wrap_i64_id, int_laws,
}
use robocpp.Base.Text.{Text, codes, eqb}
use robocpp.Ir.Names.{canonical_identifier}
use robocpp.Ir.Value.{Floats}
use robocpp.Runtime.State.{
  Runtime, get_field_bool, get_field_i64, input_bool, input_i64, field_laws,
}
use robocpp.Runtime.Blocks.{execute_ctu, execute_ctud}
use robocpp.Runtime.Blocks.Scans.{Inputs, scans, Each}

abbrev bit : Bool → ℕ
bit true = 1
bit false = 0

-- The count of CTUD after a call that sees the edges `up` and `down`.
abbrev counted : Bool → Bool → ℤ → ℤ
counted up down z =
    if up && not down
    then wrap_i64 (z +ℤ pos 1)
    else if down && not up
    then wrap_i64 (z -ℤ pos 1)
    else z

-- z + d = w + u, in parts.
abbrev Balanced : ℤ → ℕ → ℤ → ℕ → Type 0
Balanced z d w u = pos_part z + d + neg_part w ≡ pos_part w + u + neg_part z

-- While the count stays in range, it moves by the difference of the edges.
counted_lem :
    (up down : Bool) (z : ℤ)
    → pos_part z + 1 < 0x8000_0000_0000_0000
    → neg_part z + 1 ≤ 0x8000_0000_0000_0000
    → Balanced (counted up down z) (bit down) z (bit up)
      × (pos_part (counted up down z) ≤ pos_part z + 1)
      × (neg_part (counted up down z) ≤ neg_part z + 1)
unfolding ◌+ℤ◌ ◌-ℤ◌
counted_lem true true z hp hn = ground arith
counted_lem false false z hp hn = ground arith
counted_lem true false z hp hn = ground (arith, wrap_i64_id (z +ℤ pos 1))
counted_lem false true z hp hn = ground (arith, wrap_i64_id (z -ℤ pos 1))

module _ {F : Floats} (i : Text) where
  abbrev pub cv : Runtime F → ℤ
  cv r = get_field_i64 r i (codes "CV")

  abbrev on : String → Inputs F → Bool
  on name x = input_bool x (codes name)

  -- One call of CTUD with neither reset nor load.
  ctud_step :
      (x : Inputs F) (r : Runtime F)
      → on "R" x ≡ false
      → on "LD" x ≡ false
      → let up = on "CU" x && not (get_field_bool r i (codes "_CU")) in
        let down = on "CD" x && not (get_field_bool r i (codes "_CD")) in
        let new = counted up down (cv r) in
        (cv (execute_ctud i x r) ≡ new)
        × (get_field_bool (execute_ctud i x r) i (codes "_CU") ≡ on "CU" x)
        × (get_field_bool (execute_ctud i x r) i (codes "_CD") ≡ on "CD" x)
        × (get_field_bool (execute_ctud i x r) i (codes "QU")
            ≡ leb_ℤ (input_i64 x (codes "PV")) new)
        × (get_field_bool (execute_ctud i x r) i (codes "QD") ≡ leb_ℤ new (pos 0))
  unfolding execute_ctud canonical_identifier eqb
  ctud_step x r no_reset no_load =
      simp (field_laws, no_reset, no_load) (refl, refl, refl, refl, refl)

  ctu_step :
      (x : Inputs F) (r : Runtime F)
      → on "R" x ≡ false
      → let up = on "CU" x && not (get_field_bool r i (codes "_CU")) in
        (cv (execute_ctu i x r) ≡ (if up then wrap_i64 (cv r +ℤ pos 1) else cv r))
        × (get_field_bool (execute_ctu i x r) i (codes "_CU") ≡ on "CU" x)
        × (get_field_bool (execute_ctu i x r) i (codes "Q")
            ≡ leb_ℤ (input_i64 x (codes "PV")) (cv (execute_ctu i x r)))
  unfolding execute_ctu canonical_identifier eqb
  ctu_step x r no_reset = elim (Bool-cases (on "CU" x && not (get_field_bool r i (codes "_CU")))) [
    | inl up ↦ simp (field_laws, no_reset, up) (refl, refl, refl)
    | inr up ↦ simp (field_laws, no_reset, up) (refl, refl, refl)
  ]

  -- Whether an input was on in the newest call of a history; `first` is what was remembered before.
  abbrev pub remembered : String → Bool → List (Inputs F) → Bool
  remembered name first [] = first
  remembered name first (x ∷ older) = on name x

  -- How many calls of a history found an input on that was off before.
  abbrev pub rises : String → Bool → List (Inputs F) → ℕ
  rises name first [] = 0
  rises name first (x ∷ older) =
      bit (on name x && not (remembered name first older)) + rises name first older

  abbrev pub Counts : Inputs F → Type 0
  Counts x = (on "R" x ≡ false) × (on "LD" x ≡ false)

  module _ (r : Runtime F) where
    abbrev up_before : Bool
    up_before = get_field_bool r i (codes "_CU")

    abbrev down_before : Bool
    down_before = get_field_bool r i (codes "_CD")

    record CtudAfter (h : List (Inputs F)) (s : Runtime F) : Type 0 where
      up_memory : get_field_bool s i (codes "_CU") ≡ remembered "CU" up_before h
      down_memory : get_field_bool s i (codes "_CD") ≡ remembered "CD" down_before h
      balance : Balanced (cv s) (rises "CD" down_before h) (cv r) (rises "CU" up_before h)
      above : pos_part (cv s) ≤ pos_part (cv r) + length h
      below : neg_part (cv s) ≤ neg_part (cv r) + length h

    ctud_lem :
        (h : List (Inputs F))
        → Each Counts h
        → pos_part (cv r) + length h < 0x8000_0000_0000_0000
        → neg_part (cv r) + length h ≤ 0x8000_0000_0000_0000
        → CtudAfter h (scans execute_ctud i h r)
    unfolding scans
    ctud_lem [] e hp hn = record {
      up_memory = refl;
      down_memory = refl;
      balance = omega arith;
      above = omega arith;
      below = omega arith;
    }
    ctud_lem (x ∷ h) (ex, eh) hp hn =
        let s = scans execute_ctud i h r in
        let ih = ctud_lem h eh (omega arith) (omega arith) in
        let now = ctud_step x s ex.0 ex.1 in
        let up = on "CU" x && not (remembered "CU" up_before h) in
        let down = on "CD" x && not (remembered "CD" down_before h) in
        let z : cv (execute_ctud i x s) ≡ counted up down (cv s) =
          now.0 ∙ rw (ih.up_memory, ih.down_memory) refl in
        let moved =
          counted_lem up down (cv s) (omega (arith, ih.above)) (omega (arith, ih.below)) in
        record {
          up_memory = now.1;
          down_memory = now.2;
          balance = rw z (omega (arith, moved.0, ih.balance));
          above = rw z (omega (arith, moved.1, ih.above));
          below = rw z (omega (arith, moved.2, ih.below));
        }

    -- CTUD: over calls with neither reset nor load, and as long as `i64` holds the count, it is the
    -- count at the start, plus the rising edges of `CU`, less those of `CD`; opposite edges in one
    -- call cancel. The outputs compare the new count with the preset and with 0.
    pub ctud_balance :
        (x : Inputs F) (h : List (Inputs F))
        → Each Counts (x ∷ h)
        → pos_part (cv r) + length (x ∷ h) < 0x8000_0000_0000_0000
        → neg_part (cv r) + length (x ∷ h) ≤ 0x8000_0000_0000_0000
        → let s = scans execute_ctud i (x ∷ h) r in
          (cv s +ℤ pos (rises "CD" down_before (x ∷ h))
            ≡ cv r +ℤ pos (rises "CU" up_before (x ∷ h)))
          × (get_field_bool s i (codes "QU") ≡ leb_ℤ (input_i64 x (codes "PV")) (cv s))
          × (get_field_bool s i (codes "QD") ≡ leb_ℤ (cv s) (pos 0))
    unfolding scans
    ctud_balance x h e hp hn =
        let now = ctud_step x (scans execute_ctud i h r) e.0.0 e.0.1 in
        (omega (int_laws, (ctud_lem (x ∷ h) e hp hn).balance), rw now.0 now.3, rw now.0 now.4)
