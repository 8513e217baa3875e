-- ===== src/Prelude/Sort.antt =====
-- Sorting by a numeric key, for Go's `sort.Ints` and `sort.Slice`.
use Prim.Native.Nat.{ℕ, ◌≤◌}
use mathlib.Core.List.{List, [], ◌∷◌, Perm}
use mathlib.Core.List.Perm
use mathlib.Core.Logic.{inl, inr}
use native.Mathlib.Omega.{arith}
use open_ai_mc_be_server.Prelude.Tests.{leb, if◌then◌else◌, Bool-cases}

module _ {ℓ} {A : Type ℓ} where
  pub insert_by : (A → ℕ) → A → List A → List A
  insert_by key a [] = a ∷ []
  insert_by key a (b ∷ bs) = if leb (key a) (key b) then a ∷ b ∷ bs else b ∷ insert_by key a bs

  unfoldable pub sort_by : (A → ℕ) → List A → List A
  unfolding insert_by
  sort_by key [] = []
  sort_by key (a ∷ xs) = insert_by key a (sort_by key xs)

  -- The keys rise along the list, from `m` on.
  abbrev pub Rising : (A → ℕ) → ℕ → List A → Type 0
  Rising key m [] = Unit {0}
  Rising key m (a ∷ xs) = (m ≤ key a) × Rising key (key a) xs

  insert_by-Rising :
      (key : A → ℕ) (m : ℕ) (a : A) (bs : List A)
      → m ≤ key a
      → Rising key m bs
      → Rising key m (insert_by key a bs)
  unfolding insert_by
  insert_by-Rising key m a [] h r = ground arith
  insert_by-Rising key m a (b ∷ bs) h r = ground (arith, insert_by-Rising key (key b) a bs)

  pub sort_by-Rising : (key : A → ℕ) (xs : List A) → Rising key 0 (sort_by key xs)
  unfolding sort_by
  sort_by-Rising key [] = tt
  sort_by-Rising key (a ∷ xs) =
      insert_by-Rising key 0 a (sort_by key xs) (omega arith) (sort_by-Rising key xs)

  insert_by-perm : (key : A → ℕ) (a : A) (bs : List A) → Perm (insert_by key a bs) (a ∷ bs)
  unfolding insert_by
  insert_by-perm key a [] = Perm.refl (a ∷ [])
  insert_by-perm key a (b ∷ bs) = elim (Bool-cases (leb (key a) (key b))) [
    | inl h ↦ rw h (Perm.refl (a ∷ b ∷ bs))
    | inr h ↦ rw h (Perm.trans (Perm.cons b (insert_by-perm key a bs)) (Perm.swap a b bs))
  ]

  pub sort_by-perm : (key : A → ℕ) (xs : List A) → Perm (sort_by key xs) xs
  unfolding sort_by
  sort_by-perm key [] = Perm.refl []
  sort_by-perm key (a ∷ xs) =
      Perm.trans (insert_by-perm key a (sort_by key xs)) (Perm.cons a (sort_by-perm key xs))
