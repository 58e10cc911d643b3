-- ===== src/Prelude/Float.antt =====
-- What the program does with a `float64`, as a parameter: the sources only call its arithmetic.
-- `F` stands for the values that are numbers; NaN and the infinities are left out.
use Prim.Native.Nat.{ℕ, suc, ◌*◌, ◌/◌, ◌^◌, ◌<◌}
use Prim.Native.String.{String}
use mathlib.Core.Path.{◌≡◌}
use mathlib.Core.Bool.{Bool, true, false}
use native.Mathlib.Omega.{arith}
use budget_governor.Prelude.Tests.{ltb}
use budget_governor.Prelude.Int.{ℤ, pos, negsuc, ◌≤ℤ◌, ◌+ℤ◌, ◌-ℤ◌, sub_ℕ, ltb_ℤ, int_laws}

pub record Float (F : Type 0) : Type 0 where
  -- float64(n), also the number that a text of an integer denotes
  pub of_int : ℤ → F
  -- a decimal literal with three places, in thousandths
  pub milli : ℕ → F
  pub add : F → F → F
  pub sub : F → F → F
  pub mul : F → F → F
  pub div : F → F → F
  pub lt : F → F → Bool
  -- int64(x), toward zero; Redis makes an integer of a number by the same cast
  pub trunc : F → ℤ
  -- fmt.Sscanf(s, "%f", …), zero where nothing can be read
  pub scan : String → F

module _ {F : Type 0} ⦃d : Float F⦄ where
  abbrev pub nought : F
  nought = d.of_int (pos 0)

  infix 4 ◌≼◌
  abbrev pub ◌≼◌ : F → F → Type 0
  x ≼ y = d.lt y x ≡ false

-- Facts of float64 arithmetic away from NaN and overflow: rounding is monotone and keeps signs.
-- None says that the arithmetic is exact.
pub record IsOrdered (F : Type 0) ⦃d : Float F⦄ : Type 0 where
  pub lt_irrefl : (x : F) → d.lt x x ≡ false
  pub lt_asym : (x y : F) → d.lt x y ≡ true → d.lt y x ≡ false
  pub le_trans : (x y z : F) → x ≼ y → y ≼ z → x ≼ z
  pub sub_nonneg : (x y : F) → y ≼ x → nought ≼ d.sub x y
  pub sub-le : (x y : F) → nought ≼ y → d.sub x y ≼ x
  pub le-add : (x y : F) → nought ≼ y → x ≼ d.add x y
  pub mul_nonneg : (x y : F) → nought ≼ x → nought ≼ y → nought ≼ d.mul x y
  pub div_nonneg : (x y : F) → nought ≼ x → nought ≼ y → nought ≼ d.div x y
  pub of_int_sign : (z : ℤ) → d.lt (d.of_int z) nought ≡ ltb_ℤ z (pos 0)
  pub of_int_mono : (y z : ℤ) → y ≤ℤ z → d.of_int y ≼ d.of_int z
  pub milli_nonneg : (a : ℕ) → nought ≼ d.milli a
  -- fifteen digits tell two decimals apart
  pub lt-milli : (a b : ℕ) → a < 10 ^ 12 → b < 10 ^ 12 → d.lt (d.milli a) (d.milli b) ≡ ltb a b
  -- away from overflow of the cast
  pub trunc-le : (x : F) → nought ≼ x → x ≼ d.of_int (pos (2 ^ 62)) → d.of_int (d.trunc x) ≼ x
  pub trunc_nonneg : (x : F) → nought ≼ x → x ≼ d.of_int (pos (2 ^ 62)) → pos 0 ≤ℤ d.trunc x

-- The laws can be met by an arithmetic that runs: fixed point, in units of 10⁻⁹.
abbrev unit : ℕ
unit = 10 ^ 9

abbrev neg : ℕ → ℤ
neg n = sub_ℕ 0 n

abbrev pub fixed_of_int : ℤ → ℤ
fixed_of_int (pos n) = pos (n * unit)
fixed_of_int (negsuc n) = neg (suc n * unit)

abbrev pub fixed_mul : ℤ → ℤ → ℤ
fixed_mul (pos a) (pos b) = pos (a * b / unit)
fixed_mul (pos a) (negsuc b) = neg (a * suc b / unit)
fixed_mul (negsuc a) (pos b) = neg (suc a * b / unit)
fixed_mul (negsuc a) (negsuc b) = pos (suc a * suc b / unit)

abbrev pub fixed_div : ℤ → ℤ → ℤ
fixed_div (pos a) (pos b) = pos (a * unit / b)
fixed_div (pos a) (negsuc b) = neg (a * unit / suc b)
fixed_div (negsuc a) (pos b) = neg (suc a * unit / b)
fixed_div (negsuc a) (negsuc b) = pos (suc a * unit / suc b)

abbrev pub fixed_trunc : ℤ → ℤ
fixed_trunc (pos n) = pos (n / unit)
fixed_trunc (negsuc n) = neg (suc n / unit)

instance abbrev pub fixed : Float ℤ
fixed = record {
  of_int = fixed_of_int;
  milli = λ n. pos (n * 10 ^ 6);
  add = ◌+ℤ◌;
  sub = ◌-ℤ◌;
  mul = fixed_mul;
  div = fixed_div;
  lt = ltb_ℤ;
  trunc = fixed_trunc;
  scan = λ _. pos 0;
}

mul_nonneg :
    (x y : ℤ)
    → ltb_ℤ x (pos 0) ≡ false
    → ltb_ℤ y (pos 0) ≡ false
    → ltb_ℤ (fixed_mul x y) (pos 0) ≡ false
mul_nonneg (pos a) (pos b) h k = ground arith
mul_nonneg (pos a) (negsuc b) h k = ground arith
mul_nonneg (negsuc a) y h k = ground arith

div_nonneg :
    (x y : ℤ)
    → ltb_ℤ x (pos 0) ≡ false
    → ltb_ℤ y (pos 0) ≡ false
    → ltb_ℤ (fixed_div x y) (pos 0) ≡ false
div_nonneg (pos a) (pos b) h k = ground arith
div_nonneg (pos a) (negsuc b) h k = ground arith
div_nonneg (negsuc a) y h k = ground arith

of_int_sign : (z : ℤ) → ltb_ℤ (fixed_of_int z) (fixed_of_int (pos 0)) ≡ ltb_ℤ z (pos 0)
of_int_sign (pos n) = ground arith
of_int_sign (negsuc n) = ground arith

of_int_mono : (y z : ℤ) → y ≤ℤ z → ltb_ℤ (fixed_of_int z) (fixed_of_int y) ≡ false
of_int_mono (pos a) (pos b) h = ground arith
of_int_mono (pos a) (negsuc b) h = ground arith
of_int_mono (negsuc a) (pos b) h = ground arith
of_int_mono (negsuc a) (negsuc b) h = ground arith

trunc-le : (x : ℤ) → ltb_ℤ x (pos 0) ≡ false → ltb_ℤ x (fixed_of_int (fixed_trunc x)) ≡ false
trunc-le (pos n) h = ground arith
trunc-le (negsuc n) h = ground arith

trunc_nonneg : (x : ℤ) → ltb_ℤ x (pos 0) ≡ false → pos 0 ≤ℤ fixed_trunc x
trunc_nonneg (pos n) h = ground arith
trunc_nonneg (negsuc n) h = ground arith

sub_nonneg : (x y : ℤ) → ltb_ℤ x y ≡ false → ltb_ℤ (x -ℤ y) (pos 0) ≡ false
sub_nonneg x y h = grind int_laws

sub-le : (x y : ℤ) → ltb_ℤ y (pos 0) ≡ false → ltb_ℤ x (x -ℤ y) ≡ false
sub-le x y h = grind int_laws

le-add : (x y : ℤ) → ltb_ℤ y (pos 0) ≡ false → ltb_ℤ (x +ℤ y) x ≡ false
le-add x y h = grind int_laws

pub fixed-IsOrdered : IsOrdered ℤ
fixed-IsOrdered = record {
  lt_irrefl = λ x. ground arith;
  lt_asym = λ x y h. ground arith;
  le_trans = λ x y z h k. ground arith;
  sub_nonneg = sub_nonneg;
  sub-le = sub-le;
  le-add = le-add;
  mul_nonneg = mul_nonneg;
  div_nonneg = div_nonneg;
  of_int_sign = of_int_sign;
  of_int_mono = of_int_mono;
  milli_nonneg = λ a. ground arith;
  lt-milli = λ a b h k. ground arith;
  trunc-le = λ x h _. trunc-le x h;
  trunc_nonneg = λ x h _. trunc_nonneg x h;
}
