-- ===== src/Base/Dispatch.antt =====
-- Dispatch on a key, as a `switch` over a list of cases and as a table filled by designated
-- initializers.
use Prim.Native.Nat.{ℕ}
use mathlib.Core.Path.{◌≡◌, refl}
use mathlib.Core.Bool.{Bool, true, false, ◌||◌, ◌&&◌, not}
use mathlib.Core.Option.{Option, none, some}
use mathlib.Core.List.{List, [], ◌∷◌}
use native.Mathlib.Omega.{arith}
use emu_core_bench.Base.Tests.{◌==◌, if◌then◌else◌, eq_of_==}

module _ {ℓ} {A : Type ℓ} (key : A → ℕ) where
  -- `switch (k) { case key(x): … default: … }`; `none` is the default.
  abbrev pub find_case : List A → ℕ → Option A
  find_case [] k = none
  find_case (x ∷ xs) k = if k == key x then some x else find_case xs k

  -- `{ [0 ... N] = default, [key(x)] = x, … }`: a later initializer overrides an earlier one.
  abbrev pub table : List A → (ℕ → Option A) → ℕ → Option A
  table [] t = t
  table (x ∷ xs) t = table xs (λ k. if k == key x then some x else t k)

  abbrev pub has_key : List A → ℕ → Bool
  has_key [] k = false
  has_key (x ∷ xs) k = k == key x || has_key xs k

  abbrev pub distinct_keys : List A → Bool
  distinct_keys [] = true
  distinct_keys (x ∷ xs) = not (has_key xs (key x)) && distinct_keys xs

  table-no_key :
      (xs : List A) (t : ℕ → Option A) (k : ℕ) → has_key xs k ≡ false → table xs t k ≡ t k
  table-no_key [] t k h = refl
  table-no_key (x ∷ xs) t k h =
      ground (arith, table-no_key xs (λ j. if j == key x then some x else t j) k)

  -- The table holds at each key what the `switch` selects, if no key occurs twice.
  pub table-find_case :
      (xs : List A) (t : ℕ → Option A) (k : ℕ)
      → distinct_keys xs ≡ true
      → t k ≡ none
      → table xs t k ≡ find_case xs k
  table-find_case [] t k d h = h
  table-find_case (x ∷ xs) t k d h = ground (
    arith,
    table-no_key xs (λ j. if j == key x then some x else t j) k,
    table-find_case xs (λ j. if j == key x then some x else t j) k,
    eq_of_== k (key x),
  )

  -- The case selected has the key that was looked up.
  pub key-find_case : (xs : List A) (k : ℕ) (x : A) → find_case xs k ≡ some x → k ≡ key x
  key-find_case [] k x h = cc
  key-find_case (y ∷ xs) k x h = ground (arith, key-find_case xs k x, eq_of_== k (key y))
