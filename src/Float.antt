-- ===== src/Float.antt =====
-- `float` and `double`, which have no counterpart here: one type with the operations that the
-- program calls, left open. The C++ widening from `float` to `double` is exact and is not shown.
use final_project_nimbusvaul.Base.{ℕ, ◌≡◌, Bool, Option, some, Bytes}
use final_project_nimbusvaul.Text.Decimal.{IsText}

pub record Floats (F : Type 0) : Type 0 where
  -- `decimal n k` is the literal n / 10^k; `of_nat` is `static_cast<double>` of a `uint64_t`.
  pub decimal : ℕ → ℕ → F
  pub of_nat : ℕ → F
  pub add : F → F → F
  pub sub : F → F → F
  pub mul : F → F → F
  pub div : F → F → F
  -- `std::exp(-x)`.
  pub exp_neg : F → F
  pub lt : F → F → Bool
  pub le : F → F → Bool
  pub to_string : F → Bytes
  -- `std::stof`; `none` stands for its exceptions.
  pub stof : Bytes → Option F

-- `std::to_string` prints a float with six decimals, so that reading it back may round it.
pub record FloatText {F : Type 0} (f : Floats F) : Type 0 where
  pub rounded : F → F
  pub stof-to_string : (x : F) → f.stof (f.to_string x) ≡ some (rounded x)
  pub to_string-IsText : (x : F) → IsText (f.to_string x)
