-- ===== src/Decimal/Defs.antt =====
-- The operations on decimals, and their documented arithmetic.
use terracost.Prelude.{ℕ, ◌≡◌, ◌≢◌, ◌↔◌, Bool, true}

pub record Decimal (D : Type 0) : Type 0 where
  -- `decimal.Decimal{}`
  pub blank : D
  -- Go's `==` on the structs
  pub same : D → D → Bool
  pub is_zero : D → Bool
  pub add : D → D → D
  pub mul : D → D → D
  -- `DivRound`: the quotient, rounded to so many decimal places
  pub div_round : D → D → ℕ → D
  -- `NewFromInt`, at the numbers that the program writes
  pub of_int : ℕ → D

-- The numbers that decimals stand for: a commutative semiring.
pub record Numbers (Q : Type 0) : Type 0 where
  pub nought : Q
  pub plus : Q → Q → Q
  pub times : Q → Q → Q
  pub plus_comm : (a b : Q) → plus a b ≡ plus b a
  pub plus_assoc : (a b c : Q) → plus (plus a b) c ≡ plus a (plus b c)
  pub nought-plus : (a : Q) → plus nought a ≡ a
  pub times_comm : (a b : Q) → times a b ≡ times b a
  pub times_assoc : (a b c : Q) → times (times a b) c ≡ times a (times b c)
  pub nought-times : (a : Q) → times nought a ≡ nought
  pub times-plus : (a b c : Q) → times a (plus b c) ≡ plus (times a b) (times a c)

-- What the operations do to the numbers. `Fits p q` says that `q` has at most `p` decimal places.
pub record IsExact (D Q : Type 0) ⦃d : Decimal D⦄ ⦃n : Numbers Q⦄ : Type 1 where
  pub num : D → Q
  pub Fits : ℕ → Q → Type 0
  pub same_iff : (a b : D) → (d.same a b ≡ true) ↔ (a ≡ b)
  pub is_zero_iff : (a : D) → (d.is_zero a ≡ true) ↔ (num a ≡ n.nought)
  pub num-blank : num d.blank ≡ n.nought
  pub num-add : (a b : D) → num (d.add a b) ≡ n.plus (num a) (num b)
  pub num-mul : (a b : D) → num (d.mul a b) ≡ n.times (num a) (num b)
  pub of_int_ne_zero : (k : ℕ) → k ≢ 0 → num (d.of_int k) ≢ n.nought
  -- rounding loses nothing where the quotient has few enough places
  pub div_round_exact :
      (a b : D) (q : Q) (places : ℕ)
      → num b ≢ n.nought
      → num a ≡ n.times q (num b)
      → Fits places q
      → num (d.div_round a b places) ≡ q
