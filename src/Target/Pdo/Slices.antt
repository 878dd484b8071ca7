-- ===== src/Target/Pdo/Slices.antt =====
-- Slices of bytes, `bytes[offset..offset + len]` and `copy_from_slice` in crates/rbcpp_target/src/lib.rs.
use robocpp.Base.{
  ℕ, zero, suc, ◌+◌, ◌*◌, ◌%◌, ◌/◌, ◌<◌, ◌≤◌, ◌≡◌, refl, sym, ap, ◌∙◌, List, [], ◌∷◌, arith, length,
  take, drop, get_or, set, length-set,
}
use robocpp.Target.Pdo.Bytes.{of_le_bytes, put_le_bytes}

unfoldable pub slice : ℕ → ℕ → List ℕ → List ℕ
slice offset len bytes = take len (drop offset bytes)

-- The bytes from `offset` on become those of the first list.
unfoldable pub splice : ℕ → List ℕ → List ℕ → List ℕ
splice zero [] xs = xs
splice zero (y ∷ ys) [] = []
splice zero (y ∷ ys) (x ∷ xs) = y ∷ splice zero ys xs
splice (suc n) ys [] = []
splice (suc n) ys (x ∷ xs) = x ∷ splice n ys xs

get_or-take : (n i : ℕ) (xs : List ℕ) → i < n → get_or (take n xs) i 0 ≡ get_or xs i 0
get_or-take zero i xs h = elim h [ ]
get_or-take (suc n) i [] h = refl
get_or-take (suc n) zero (x ∷ xs) h = refl
get_or-take (suc n) (suc i) (x ∷ xs) h = get_or-take n i xs (omega arith)

suc_left : (a b : ℕ) → suc a + b ≡ suc (a + b)
suc_left a b = omega arith

get_or-drop : (o i : ℕ) (xs : List ℕ) → get_or (drop o xs) i 0 ≡ get_or xs (o + i) 0
get_or-drop zero i xs = ap (λ k. get_or xs k 0) (omega arith)
get_or-drop (suc o) i [] = refl
get_or-drop (suc o) i (x ∷ xs) =
    get_or-drop o i xs ∙ sym (ap (λ k. get_or (x ∷ xs) k 0) (suc_left o i))

pub get_or-slice :
    (o n i : ℕ) (xs : List ℕ) → i < n → get_or (slice o n xs) i 0 ≡ get_or xs (o + i) 0
unfolding slice
get_or-slice o n i xs h = get_or-take n i (drop o xs) h ∙ get_or-drop o i xs

length-take : (n : ℕ) (xs : List ℕ) → n ≤ length xs → length (take n xs) ≡ n
length-take zero xs h = refl
length-take (suc n) [] h = elim h [ ]
length-take (suc n) (x ∷ xs) h = ap suc (length-take n xs (omega arith))

length-drop : (o n : ℕ) (xs : List ℕ) → o + n ≤ length xs → n ≤ length (drop o xs)
length-drop zero n xs h = omega arith
length-drop (suc o) n [] h = omega arith
length-drop (suc o) n (x ∷ xs) h = length-drop o n xs (omega arith)

pub length-slice : (o n : ℕ) (xs : List ℕ) → o + n ≤ length xs → length (slice o n xs) ≡ n
unfolding slice
length-slice o n xs h = length-take n (drop o xs) (length-drop o n xs h)

pub of_le_bytes-slice :
    (len o n i : ℕ) (xs : List ℕ)
    → i + len ≤ n
    → of_le_bytes len i (slice o n xs) ≡ of_le_bytes len (o + i) xs
unfolding of_le_bytes
of_le_bytes-slice zero o n i xs h = refl
of_le_bytes-slice (suc len) o n i xs h =
    ap (λ b. b + 256 * of_le_bytes len (suc i) (slice o n xs)) (get_or-slice o n i xs (omega arith))
    ∙ ap (λ k. get_or xs (o + i) 0 + 256 * k)
        (of_le_bytes-slice len o n (suc i) xs (omega arith)
          ∙ ap (λ k. of_le_bytes len k xs) (omega arith))

pub splice-slice : (o n : ℕ) (xs : List ℕ) → splice o (slice o n xs) xs ≡ xs
unfolding splice slice
splice-slice zero zero xs = refl
splice-slice zero (suc n) [] = refl
splice-slice zero (suc n) (x ∷ xs) = ap (λ t. x ∷ t) (splice-slice zero n xs)
splice-slice (suc o) n [] = refl
splice-slice (suc o) n (x ∷ xs) = ap (λ t. x ∷ t) (splice-slice o n xs)

splice-set_zero :
    (i v : ℕ) (ys xs : List ℕ)
    → i < length ys
    → length ys ≤ length xs
    → splice 0 (set ys i v) xs ≡ set (splice 0 ys xs) i v
unfolding splice
splice-set_zero i v [] xs h k = elim h [ ]
splice-set_zero i v (y ∷ ys) [] h k = elim k [ ]
splice-set_zero zero v (y ∷ ys) (x ∷ xs) h k = refl
splice-set_zero (suc i) v (y ∷ ys) (x ∷ xs) h k =
    ap (λ t. y ∷ t) (splice-set_zero i v ys xs (omega arith) (omega arith))

pub splice-set :
    (o i v : ℕ) (ys xs : List ℕ)
    → i < length ys
    → o + length ys ≤ length xs
    → splice o (set ys i v) xs ≡ set (splice o ys xs) (o + i) v
unfolding splice
splice-set zero i v ys xs h k =
    splice-set_zero i v ys xs h (omega arith) ∙ ap (λ j. set (splice 0 ys xs) j v) (omega arith)
splice-set (suc o) i v ys [] h k = absurd (omega arith)
splice-set (suc o) i v ys (x ∷ xs) h k =
    ap (λ t. x ∷ t) (splice-set o i v ys xs h (omega arith))
    ∙ ap (λ j. set (x ∷ splice o ys xs) j v) (sym (suc_left o i))

pub splice-put_le_bytes :
    (len o i m : ℕ) (ys xs : List ℕ)
    → i + len ≤ length ys
    → o + length ys ≤ length xs
    → splice o (put_le_bytes len i m ys) xs ≡ put_le_bytes len (o + i) m (splice o ys xs)
unfolding put_le_bytes
splice-put_le_bytes zero o i m ys xs h k = refl
splice-put_le_bytes (suc len) o i m ys xs h k =
    splice-put_le_bytes len o (suc i) (m / 256) (set ys i (m % 256)) xs
      (omega (arith, length-set ys i (m % 256))) (omega (arith, length-set ys i (m % 256)))
    ∙ ap (put_le_bytes len (o + suc i) (m / 256)) (splice-set o i (m % 256) ys xs (omega arith) k)
    ∙ ap (λ j. put_le_bytes len j (m / 256) (set (splice o ys xs) (o + i) (m % 256))) (omega arith)
