-- ===== src/Runtime/Blocks/Timers.antt =====
-- One scan of the timers TON, TOF and TP of crates/iec_runtime/src/runtime.rs, field by field.
use robocpp.Base.{
  true, ◌≡◌, refl, Bool, false, not, ◌&&◌, ◌||◌, if◌then◌else◌, Bool-cases, inl, inr,
}
use robocpp.Base.Int.{ℤ, pos, leb_ℤ, max_ℤ, min_ℤ, ◌+ℤ◌, wrap_i128}
use robocpp.Base.Text.{Text, codes, eqb}
use robocpp.Base.Map.{Map}
use robocpp.Ir.Names.{canonical_identifier}
use robocpp.Ir.Value.{Floats, Value}
use robocpp.Runtime.State.{
  Runtime, get_field_bool, get_field_time_ms, input_bool, input_time_ms, field_laws,
}
use robocpp.Runtime.Blocks.{advance_et, execute_ton, execute_tof, execute_tp}

module _ {F : Floats} where
  abbrev pub preset_of : Map (Value F) → ℤ
  preset_of inputs = max_ℤ (input_time_ms inputs (codes "PT")) (pos 0)

  abbrev pub is_on : Map (Value F) → Bool
  is_on inputs = input_bool inputs (codes "IN")

  abbrev pub et : Runtime F → Text → ℤ
  et r i = get_field_time_ms r i (codes "ET")

  abbrev pub q : Runtime F → Text → Bool
  q r i = get_field_bool r i (codes "Q")

  module _ (i : Text) (inputs : Map (Value F)) (r : Runtime F) where
    abbrev elapsed : ℤ
    elapsed = advance_et r i (preset_of inputs)

    pub et-execute_ton : et (execute_ton i inputs r) i ≡ (if is_on inputs then elapsed else pos 0)
    unfolding execute_ton canonical_identifier eqb
    et-execute_ton = elim (Bool-cases (is_on inputs)) [
      | inl e ↦ rw e (simp field_laws)
      | inr e ↦ rw e (simp field_laws)
    ]

    pub q-execute_ton :
        q (execute_ton i inputs r) i
        ≡ (if is_on inputs then leb_ℤ (preset_of inputs) elapsed else false)
    unfolding execute_ton canonical_identifier eqb
    q-execute_ton = elim (Bool-cases (is_on inputs)) [
      | inl e ↦ rw e (simp field_laws)
      | inr e ↦ rw e (simp field_laws)
    ]

    pub options-execute_ton : (execute_ton i inputs r).options ≡ r.options
    unfolding execute_ton
    options-execute_ton = elim (Bool-cases (is_on inputs)) [
      | inl e ↦ rw e (simp field_laws)
      | inr e ↦ rw e (simp field_laws)
    ]

    pub execute_tof_fields :
        (et (execute_tof i inputs r) i
          ≡ (if is_on inputs then pos 0 else if q r i then elapsed else et r i))
        × (q (execute_tof i inputs r) i
            ≡ (is_on inputs || (q r i && not (leb_ℤ (preset_of inputs) elapsed))))
        × ((execute_tof i inputs r).options ≡ r.options)
    unfolding execute_tof canonical_identifier eqb
    execute_tof_fields = elim (Bool-cases (is_on inputs)) [
      | inl e ↦ rw e (simp field_laws (refl, refl, refl))
      | inr e ↦ rw e (elim (Bool-cases (q r i)) [
        | inl qe ↦ rw qe (elim (Bool-cases (leb_ℤ (preset_of inputs) elapsed)) [
          | inl le ↦ rw le (simp field_laws (refl, refl, refl))
          | inr le ↦ rw le (simp (field_laws, qe) (refl, refl, refl))
        ])
        | inr qe ↦ rw qe (simp (field_laws, qe) (refl, refl, refl))
      ])
    ]

    abbrev pub input_before : Bool
    input_before = get_field_bool r i (codes "_IN")

    abbrev pub is_running : Bool
    is_running = get_field_bool r i (codes "_RUN")

    -- The time of a pulse that starts in this scan.
    abbrev pub first_elapsed : ℤ
    first_elapsed = min_ℤ (wrap_i128 (pos 0 +ℤ r.options.cycle_time_ms)) (preset_of inputs)

    -- What `execute_tp` leaves when the pulse that is timed to `e` goes on or ends.
    abbrev pub Pulses : ℤ → Type 0
    Pulses e =
        (et (execute_tp i inputs r) i ≡ e)
        × (q (execute_tp i inputs r) i ≡ not (leb_ℤ (preset_of inputs) e))
        × (get_field_bool (execute_tp i inputs r) i (codes "_RUN")
            ≡ not (leb_ℤ (preset_of inputs) e))
        × ((execute_tp i inputs r).options ≡ r.options)

    pub execute_tp_starts :
        is_on inputs ≡ true → input_before ≡ false → is_running ≡ false → Pulses first_elapsed
    unfolding execute_tp advance_et canonical_identifier eqb
    execute_tp_starts on off idle =
        rw (on, off, idle)
          (elim (Bool-cases (leb_ℤ (preset_of inputs) first_elapsed)) [
            | inl le ↦ simp (field_laws, le) (refl, refl, refl, refl)
            | inr le ↦ simp (field_laws, le) (refl, refl, refl, refl)
          ])

    pub execute_tp_continues : is_running ≡ true → Pulses elapsed
    unfolding execute_tp canonical_identifier eqb
    execute_tp_continues running = elim (Bool-cases (is_on inputs)) [
      | inl on ↦ elim (Bool-cases input_before) [
        | inl b ↦ elim (Bool-cases (leb_ℤ (preset_of inputs) elapsed)) [
          | inl le ↦ simp (field_laws, running, on, b, le) (refl, refl, refl, refl)
          | inr le ↦ simp (field_laws, running, on, b, le) (refl, refl, refl, refl)
        ]
        | inr b ↦ elim (Bool-cases (leb_ℤ (preset_of inputs) elapsed)) [
          | inl le ↦ simp (field_laws, running, on, b, le) (refl, refl, refl, refl)
          | inr le ↦ simp (field_laws, running, on, b, le) (refl, refl, refl, refl)
        ]
      ]
      | inr on ↦ elim (Bool-cases (leb_ℤ (preset_of inputs) elapsed)) [
        | inl le ↦ simp (field_laws, running, on, le) (refl, refl, refl, refl)
        | inr le ↦ simp (field_laws, running, on, le) (refl, refl, refl, refl)
      ]
    ]
