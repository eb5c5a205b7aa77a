-- ===== src/Prelude/Pairs.antt =====
-- C arrays of two elements, one for each button or ring. Indices past 1 are never used: the
-- callers test them first, as the source does.
use Prim.Native.Nat.{ℕ, zero, suc}

pub record Two {ℓ} (A : Type ℓ) : Type ℓ where
  pub first : A
  pub second : A

module _ {ℓ} {A : Type ℓ} where
  abbrev pub entry : Two A → ℕ → A
  entry t zero = t.first
  entry t (suc i) = t.second

  abbrev pub update : Two A → ℕ → A → Two A
  update t zero v = record t { first = v }
  update t (suc i) v = record t { second = v }

  abbrev pub both : A → Two A
  both v = record { first = v; second = v }
