-- ===== src/Prelude/Text.antt =====
-- Equality tests, by instances. Go compares strings by their bytes, as the native comparison does.
use Prim.Native.Nat.{ℕ, compare, Ordering}
use Prim.Native.String.{String, ◌++◌ as append}
use Prim.Native.String
use mathlib.Core.List.{List, [], ◌∷◌}
use mathlib.Core.Path.{◌≡◌, refl}
use mathlib.Core.Logic.{◌↔◌}
use mathlib.Core.Bool.{Bool, true, false, not, false≢true}
use native.Mathlib.Omega.{arith}
use text.Mathlib.Text.{◌==◌ as text_eq, is_lt}
pub use text.Mathlib.TextEquality.{eq_iff}

pub record Equatable {ℓ} (A : Type ℓ) : Type ℓ where
  pub equal : A → A → Bool
  pub equal_iff : (x y : A) → (equal x y ≡ true) ↔ (x ≡ y)

infix 50 ◌==◌ ◌!=◌
abbrev pub ◌==◌ {ℓ} : {A : Type ℓ} ⦃instance_of : Equatable A⦄ → A → A → Bool
◌==◌ ⦃instance_of⦄ = instance_of.equal

abbrev pub ◌!=◌ {ℓ} : {A : Type ℓ} ⦃instance_of : Equatable A⦄ → A → A → Bool
a != b = not (a == b)

abbrev nat_beq : ℕ → ℕ → Bool
nat_beq a b = elim (compare a b) [ Ordering.eq ↦ true | _ ↦ false ]

abbrev bool_beq : Bool → Bool → Bool
bool_beq true b = b
bool_beq false b = not b

pub nat_beq_iff : (a b : ℕ) → (nat_beq a b ≡ true) ↔ (a ≡ b)
nat_beq_iff a b = ground arith

pub bool_beq_iff : (a b : Bool) → (bool_beq a b ≡ true) ↔ (a ≡ b)
bool_beq_iff a b = ground arith

instance abbrev pub nat_eq : Equatable ℕ
nat_eq = record { equal = nat_beq; equal_iff = nat_beq_iff }

instance abbrev pub string_eq : Equatable String
string_eq = record { equal = text_eq; equal_iff = eq_iff }

instance abbrev pub bool_eq : Equatable Bool
bool_eq = record { equal = bool_beq; equal_iff = bool_beq_iff }

eq_dec {ℓ} : (b : Bool) (P : Type ℓ) → (b ≡ true) ↔ P → Dec P
eq_dec true P h = yes (h.0 refl)
eq_dec false P h = no (λ p. false≢true (h.1 p))

unfoldable pub string_discrete : Discrete String
unfolding eq_dec
string_discrete s t = eq_dec (s == t) (s ≡ t) (eq_iff s t)

-- s < t
abbrev pub lt_text : String → String → Bool
lt_text s t = is_lt (String.compare s t)

-- strings.Join
abbrev pub strings_join : String → List String → String
strings_join sep [] = ""
strings_join sep (s ∷ []) = s
strings_join sep (s ∷ t ∷ ss) = append s (append sep (strings_join sep (t ∷ ss)))
