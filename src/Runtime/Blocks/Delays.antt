-- ===== src/Runtime/Blocks/Delays.antt =====
-- The timers of crates/iec_runtime/src/runtime.rs over a history of scans with a fixed preset of
-- `p` ms and a cycle of `k` ms.
use robocpp.Base.{
  ℕ, suc, ◌+◌, ◌*◌, ◌^◌, ◌<◌, ◌≤◌, min, ◌≡◌, refl, Bool, false, ◌&&◌, ◌||◌, Option, none, some,
  List, if◌then◌else◌, [], ◌∷◌, arith, Bool-cases, inl, inr, ltb, leb, ◌==◌, ◌∙◌, ap, map_option,
  Option-cases,
}
use robocpp.Base.Int.{ℤ, pos, leb_ℤ, ◌+ℤ◌, wrap_i128, wrap_i128_id}
use robocpp.Base.Text.{Text}
use robocpp.Ir.Value.{Floats}
use robocpp.Runtime.State.{Runtime, RuntimeOptions}
use robocpp.Runtime.Blocks.{advance_et, execute_ton, execute_tof}
use robocpp.Runtime.Blocks.Timers.{
  preset_of, is_on, et, q, et-execute_ton, q-execute_ton, options-execute_ton, execute_tof_fields,
}
use robocpp.Runtime.Blocks.Scans.{Inputs, scans, Each}

module _ {F : Floats} where
  -- How many of the newest calls had the input on, without a gap.
  abbrev pub held : List (Inputs F) → ℕ
  held [] = 0
  held (x ∷ older) = if is_on x then suc (held older) else 0

  -- How many calls ago the input was last on.
  abbrev pub since_on : List (Inputs F) → Option ℕ
  since_on [] = none
  since_on (x ∷ older) = if is_on x then some 0 else map_option suc (since_on older)

pos_sum : (e k : ℕ) → pos e +ℤ pos k ≡ pos (e + k)
unfolding ◌+ℤ◌
pos_sum e k = ground arith

pub wrap_sum : (e k p : ℕ) → p + k < 2 ^ 127 → e ≤ p → wrap_i128 (pos e +ℤ pos k) ≡ pos (e + k)
wrap_sum e k p room le = rw pos_sum (wrap_i128_id (pos (e + k)) (omega arith))

abbrev pub cycle_of : RuntimeOptions → ℤ
cycle_of o = o.cycle_time_ms

module _ {F : Floats} (i : Text) (k p : ℕ) (r : Runtime F) where
  abbrev pub HasPreset : Inputs F → Type 0
  HasPreset x = preset_of x ≡ pos p

  -- The elapsed time of a call does not wrap, and stops at the preset.
  pub advance_et_lem :
      (x : Inputs F) (e : ℕ) (s : Runtime F)
      → p + k < 2 ^ 127
      → s.options.cycle_time_ms ≡ pos k
      → preset_of x ≡ pos p
      → et s i ≡ pos e
      → e ≤ p
      → advance_et s i (preset_of x) ≡ pos (min (e + k) p)
  unfolding advance_et
  advance_et_lem x e s room c h t le = rw (h, t, c, wrap_sum e k p room le) (ground arith)

  -- Rounding to the preset at every call is rounding once.
  pub min_step : (n : ℕ) → min (min (n * k) p + k) p ≡ min (suc n * k) p
  min_step n = ground arith

  leb-min : (n : ℕ) → leb_ℤ (pos p) (pos (min n p)) ≡ leb p n
  leb-min n = ground arith

  module _ (room : p + k < 2 ^ 127) (cycle : r.options.cycle_time_ms ≡ pos k)
      (reset : et r i ≡ pos 0) (off : q r i ≡ false) where
    -- The elapsed time after one more call.
    next_et :
        (x : Inputs F) (n : ℕ) (s : Runtime F)
        → s.options.cycle_time_ms ≡ pos k
        → HasPreset x
        → et s i ≡ pos (min (n * k) p)
        → advance_et s i (preset_of x) ≡ pos (min (suc n * k) p)
    next_et x n s c hx t =
        advance_et_lem x (min (n * k) p) s room c hx t (omega arith) ∙ ap pos (min_step n)

    ton_lem :
        (h : List (Inputs F))
        → Each HasPreset h
        → let s = scans execute_ton i h r in
          (s.options.cycle_time_ms ≡ pos k)
          × (et s i ≡ pos (min (held h * k) p))
          × (q s i ≡ (ltb 0 (held h) && leb p (held h * k)))
    unfolding scans
    ton_lem [] e = (cycle, rw reset (ground arith), rw off (ground arith))
    ton_lem (x ∷ h) e =
        let s = scans execute_ton i h r in
        let ih = ton_lem h e.1 in
        let t = next_et x (held h) s ih.0 e.0 ih.1 in
        (
          ap cycle_of (options-execute_ton i x s) ∙ ih.0,
          et-execute_ton i x s
              ∙ elim (Bool-cases (is_on x)) [ inl on ↦ rw on t | inr out ↦ rw out (ground arith) ],
          q-execute_ton i x s ∙ elim (Bool-cases (is_on x)) [
            | inl on ↦ rw (on, t, e.0, leb-min) (ground arith)
            | inr out ↦ rw out (ground arith)
          ],
        )

    -- TON, from an instance that is off with no time elapsed, over calls with the preset `p` in
    -- cycles of `k` ms whose sum an `i128` holds: after any calls, the elapsed time is that of the
    -- newest calls with the input on, up to the preset, and the output is on exactly if these have
    -- lasted for the preset.
    pub ton_on_delay :
        (h : List (Inputs F))
        → Each HasPreset h
        → (et (scans execute_ton i h r) i ≡ pos (min (held h * k) p))
          × (q (scans execute_ton i h r) i ≡ (ltb 0 (held h) && leb p (held h * k)))
    ton_on_delay h e = ((ton_lem h e).1, (ton_lem h e).2)

    -- What an off-delay shows `n` calls after its input was last on.
    abbrev pub off_et : Option ℕ → ℕ
    off_et none = 0
    off_et (some n) = min (n * k) p

    abbrev pub off_q : Option ℕ → Bool
    off_q none = false
    off_q (some n) = n == 0 || ltb (n * k) p

    tof_lem :
        (h : List (Inputs F))
        → Each HasPreset h
        → let s = scans execute_tof i h r in
          (s.options.cycle_time_ms ≡ pos k)
          × (et s i ≡ pos (off_et (since_on h)))
          × (q s i ≡ off_q (since_on h))
    unfolding scans
    tof_lem [] e = (cycle, reset, off)
    tof_lem (x ∷ h) e =
        let s = scans execute_tof i h r in
        let ih = tof_lem h e.1 in
        let (t, o, c) = execute_tof_fields i x s in
        elim (Bool-cases (is_on x)) [
          | inl on ↦ (ap cycle_of c ∙ ih.0, rw (t, on) (ground arith), rw (o, on) refl)
          | inr out ↦ elim (Option-cases (since_on h)) [
            | inl never ↦ (
              ap cycle_of c ∙ ih.0,
              rw (t, out, ih.2, ih.1, never) refl,
              rw (o, out, ih.2, never) refl,
            )
            | inr (n, ago) ↦
                let before = ih.1 ∙ ap (λ (m : Option ℕ). pos (off_et m)) ago in
                let after = next_et x n s ih.0 e.0 before in
                (
                  ap cycle_of c ∙ ih.0,
                  rw (t, out, ih.2, ago, after, before) (ground arith),
                  rw (o, out, ih.2, ago, after, e.0) (ground arith),
                )
          ]
        ]

    -- TOF, from an instance that is off with no time elapsed, over calls with the preset `p` in
    -- cycles of `k` ms whose sum an `i128` holds: after any calls, the output is on exactly if the
    -- input is on, or was on `n` calls ago with `n` cycles shorter than the preset; the elapsed time
    -- is that of these calls, up to the preset.
    pub tof_off_delay :
        (h : List (Inputs F))
        → Each HasPreset h
        → (et (scans execute_tof i h r) i ≡ pos (off_et (since_on h)))
          × (q (scans execute_tof i h r) i ≡ off_q (since_on h))
    tof_off_delay h e = ((tof_lem h e).1, (tof_lem h e).2)
