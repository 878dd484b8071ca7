-- ===== src/Runtime/Sfc/Keys.antt =====
-- The three entries that the interpreter keeps in its environment for each SFC action,
-- crates/iec_runtime/src/support.rs and runtime.rs.
use robocpp.Base.{
  ℕ, ◌+◌, Bool, false, ◌≡◌, refl, [], ◌∷◌, ◌++◌, arith, length, unwrap_or, and_then, Bool-cases,
  inl, inr, ap,
}
use robocpp.Base.Int.{ℤ, pos, ◌+ℤ◌, max_ℤ, wrap_i64}
use robocpp.Base.Text.{Text, codes, eqb, eqb→eq, eqb_refl}
use robocpp.Base.Map.{lookup, insert, lookup-insert}
use robocpp.Ir.Value.{Floats, bool, int, as_bool, as_i64}
use robocpp.Runtime.State.{Runtime}

-- `sfc_action_control_key_stored`, `_previous` and `_elapsed`
abbrev pub stored_key : Text → Text
stored_key key = codes "$SFC_ACTION_" ++ key

abbrev pub previous_key : Text → Text
previous_key key = codes "$SFC_ACTION_PREVIOUS_" ++ key

abbrev pub elapsed_key : Text → Text
elapsed_key key = codes "$SFC_ACTION_ELAPSED_" ++ key

module _ {F : Floats} where
  -- `sfc_action_stored`
  unfoldable pub stored : Text → Runtime F → Bool
  stored key r = unwrap_or false (and_then (lookup (stored_key key) r.env) as_bool)

  -- `set_sfc_action_stored`
  unfoldable pub set_stored_flag : Text → Bool → Runtime F → Runtime F
  set_stored_flag key b r = record r { env = insert (stored_key key) (bool b) r.env }

  unfoldable pub previous : Text → Runtime F → Bool
  previous key r = unwrap_or false (and_then (lookup (previous_key key) r.env) as_bool)

  unfoldable pub set_previous : Text → Bool → Runtime F → Runtime F
  set_previous key b r = record r { env = insert (previous_key key) (bool b) r.env }

  -- `sfc_action_elapsed`
  unfoldable pub elapsed : Text → Runtime F → ℤ
  elapsed key r = unwrap_or (pos 0) (and_then (lookup (elapsed_key key) r.env) as_i64)

  -- `set_sfc_action_elapsed`, with the cast `elapsed as i64`
  unfoldable pub set_elapsed : Text → ℤ → Runtime F → Runtime F
  set_elapsed key t r = record r { env = insert (elapsed_key key) (int (wrap_i64 t)) r.env }

  -- `advance_sfc_action_elapsed`
  unfoldable pub advance_elapsed : Text → Runtime F → ℤ × Runtime F
  advance_elapsed key r =
      let t = elapsed key r +ℤ max_ℤ r.options.cycle_time_ms (pos 1) in (t, set_elapsed key t r)

  -- `initialize_sfc_action_control`
  unfoldable pub initialize_action : Text → Runtime F → Runtime F
  initialize_action key r =
      set_elapsed key (pos 0) (set_previous key false (set_stored_flag key false r))

length-append' : (s t : Text) → length (s ++ t) ≡ length s + length t
length-append' [] t = omega arith
length-append' (x ∷ s) t = omega (arith, length-append' s t)

-- A text differs from itself behind a letter or more.
eqb_longer : (c : ℕ) (p s : Text) → eqb s (c ∷ p ++ s) ≡ false
eqb_longer c p s = elim (Bool-cases (eqb s (c ∷ p ++ s))) [
  | inl e ↦ absurd (omega (arith, ap length (eqb→eq s (c ∷ p ++ s) e), length-append' p s))
  | inr e ↦ e
]

eqb_shorter : (c : ℕ) (p s : Text) → eqb (c ∷ p ++ s) s ≡ false
eqb_shorter c p s = elim (Bool-cases (eqb (c ∷ p ++ s) s)) [
  | inl e ↦ absurd (omega (arith, ap length (eqb→eq (c ∷ p ++ s) s e), length-append' p s))
  | inr e ↦ e
]

eqb-stored-previous : (k : Text) → eqb (stored_key k) (previous_key k) ≡ false
unfolding eqb
eqb-stored-previous k = eqb_longer b'P' (codes "REVIOUS_") k

eqb-stored-elapsed : (k : Text) → eqb (stored_key k) (elapsed_key k) ≡ false
unfolding eqb
eqb-stored-elapsed k = eqb_longer b'E' (codes "LAPSED_") k

eqb-previous-stored : (k : Text) → eqb (previous_key k) (stored_key k) ≡ false
unfolding eqb
eqb-previous-stored k = eqb_shorter b'P' (codes "REVIOUS_") k

eqb-elapsed-stored : (k : Text) → eqb (elapsed_key k) (stored_key k) ≡ false
unfolding eqb
eqb-elapsed-stored k = eqb_shorter b'E' (codes "LAPSED_") k

ruleset key_laws = (
  lookup-insert, eqb-stored-previous, eqb-stored-elapsed, eqb-previous-stored, eqb-elapsed-stored,
  eqb_refl,
)

module _ {F : Floats} (key : Text) (r : Runtime F) where
  pub stored-set_stored_flag : (b : Bool) → stored key (set_stored_flag key b r) ≡ b
  unfolding stored set_stored_flag
  stored-set_stored_flag b = simp key_laws

  pub stored-set_previous : (b : Bool) → stored key (set_previous key b r) ≡ stored key r
  unfolding stored set_previous
  stored-set_previous b = simp key_laws

  pub stored-set_elapsed : (t : ℤ) → stored key (set_elapsed key t r) ≡ stored key r
  unfolding stored set_elapsed
  stored-set_elapsed t = simp key_laws

  pub previous-set_stored_flag :
      (b : Bool) → previous key (set_stored_flag key b r) ≡ previous key r
  unfolding previous set_stored_flag
  previous-set_stored_flag b = simp key_laws

  pub previous-set_previous : (b : Bool) → previous key (set_previous key b r) ≡ b
  unfolding previous set_previous
  previous-set_previous b = simp key_laws

  pub previous-set_elapsed : (t : ℤ) → previous key (set_elapsed key t r) ≡ previous key r
  unfolding previous set_elapsed eqb
  previous-set_elapsed t = simp key_laws

  pub elapsed-set_stored_flag : (b : Bool) → elapsed key (set_stored_flag key b r) ≡ elapsed key r
  unfolding elapsed set_stored_flag
  elapsed-set_stored_flag b = simp key_laws

  pub elapsed-set_previous : (b : Bool) → elapsed key (set_previous key b r) ≡ elapsed key r
  unfolding elapsed set_previous eqb
  elapsed-set_previous b = simp key_laws

  pub elapsed-set_elapsed : (t : ℤ) → elapsed key (set_elapsed key t r) ≡ wrap_i64 t
  unfolding elapsed set_elapsed
  elapsed-set_elapsed t = simp key_laws

  -- The stored flag of the action `PREVIOUS_A` is the pulse memory of the action `A`.
  pub stored-set_previous_clash :
      (b : Bool) → stored (codes "PREVIOUS_" ++ key) (set_previous key b r) ≡ b
  unfolding stored set_previous
  stored-set_previous_clash b = simp key_laws

  pub stored-set_elapsed_clash :
      (t : ℤ)
      → stored (codes "PREVIOUS_" ++ key) (set_elapsed key t r)
        ≡ stored (codes "PREVIOUS_" ++ key) r
  unfolding stored set_elapsed eqb
  stored-set_elapsed_clash t = simp key_laws

  pub diagnostics-set_stored_flag :
      (b : Bool) → (set_stored_flag key b r).diagnostics ≡ r.diagnostics
  unfolding set_stored_flag
  diagnostics-set_stored_flag b = refl

  pub options-set_stored_flag : (b : Bool) → (set_stored_flag key b r).options ≡ r.options
  unfolding set_stored_flag
  options-set_stored_flag b = refl

  pub diagnostics-set_previous : (b : Bool) → (set_previous key b r).diagnostics ≡ r.diagnostics
  unfolding set_previous
  diagnostics-set_previous b = refl

  pub options-set_previous : (b : Bool) → (set_previous key b r).options ≡ r.options
  unfolding set_previous
  options-set_previous b = refl

  pub diagnostics-set_elapsed : (t : ℤ) → (set_elapsed key t r).diagnostics ≡ r.diagnostics
  unfolding set_elapsed
  diagnostics-set_elapsed t = refl

  pub options-set_elapsed : (t : ℤ) → (set_elapsed key t r).options ≡ r.options
  unfolding set_elapsed
  options-set_elapsed t = refl

pub ruleset action_laws = (
  stored-set_stored_flag, stored-set_previous, stored-set_elapsed, previous-set_stored_flag,
  previous-set_previous, previous-set_elapsed, elapsed-set_stored_flag, elapsed-set_previous,
  elapsed-set_elapsed, diagnostics-set_stored_flag, options-set_stored_flag,
  diagnostics-set_previous, options-set_previous, diagnostics-set_elapsed, options-set_elapsed,
)
