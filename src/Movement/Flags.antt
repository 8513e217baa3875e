-- ===== src/Movement/Flags.antt =====
-- The flags of an entity are bits of two words: setting one leaves the others (internal/server/mcpe_player_sync.go).
use open_ai_mc_be_server.Prelude.{
  ==_iff, ℕ, zero, suc, ◌/◌, ◌%◌, ◌^◌, ◌<◌, ◌≤◌, ◌≡◌, ◌≢◌, refl, sym, ap, ◌∙◌, Bool, true, false,
  not, ◌==◌, if◌then◌else◌, Bool-cases, inl, inr, arith,
}
use open_ai_mc_be_server.Prelude.Dict.{lookup, insert, lookup-insert}
use native.Mathlib.Nat.{pow-suc, pow-succ', div-div-eq-div-mul}
use open_ai_mc_be_server.Movement.Metadata.{
  same_bool, Metadata, Keys, bit, set_bit, clear_bit, flag_next, key_of, index_of, word, int64,
  set_generic_metadata_flag,
}

half_pow : (c i : ℕ) → c / 2 ^ suc i ≡ c / 2 / 2 ^ i
half_pow c i = ap (λ (t : ℕ). c / t) (pow-succ' 2 i) ∙ sym (div-div-eq-div-mul c 2 (2 ^ i))

bit-suc : (c i : ℕ) → bit c (suc i) ≡ bit (c / 2) i
bit-suc c i = ap (λ (t : ℕ). t % 2 == 1) (half_pow c i)

bit-zero : (c : ℕ) → bit c 0 ≡ (c % 2 == 1)
bit-zero c = ap (λ (t : ℕ). t % 2 == 1) (omega arith)

bit-le : (c i : ℕ) → bit c i ≡ true → 2 ^ i ≤ c
bit-le c zero h = ground (arith, bit-zero c)
bit-le c (suc i) h =
    let below = bit-le (c / 2) i (sym (bit-suc c i) ∙ h) in omega (arith, pow-suc 2 i, below)

set_bit-suc :
    (c i : ℕ) → (set_bit c (suc i) / 2 ≡ set_bit (c / 2) i) × (set_bit c (suc i) % 2 ≡ c % 2)
set_bit-suc c i = elim (Bool-cases (bit (c / 2) i)) [
  | inl h ↦ rw (bit-suc c i, h) (refl, refl)
  | inr h ↦ rw (bit-suc c i, h) (omega (arith, pow-suc 2 i), omega (arith, pow-suc 2 i))
]

clear_bit-suc :
    (c i : ℕ) → (clear_bit c (suc i) / 2 ≡ clear_bit (c / 2) i) × (clear_bit c (suc i) % 2 ≡ c % 2)
clear_bit-suc c i = elim (Bool-cases (bit (c / 2) i)) [
  | inl h ↦
      rw (bit-suc c i, h)
        (
          omega (arith, pow-suc 2 i, bit-le (c / 2) i h),
          omega (arith, pow-suc 2 i, bit-le (c / 2) i h),
        )
  | inr h ↦ rw (bit-suc c i, h) (refl, refl)
]

bit-set_bit : (c i j : ℕ) → bit (set_bit c i) j ≡ (if i == j then true else bit c j)
bit-set_bit c zero zero = ground (arith, bit-zero c, bit-zero (set_bit c 0))
bit-set_bit c zero (suc j) =
    bit-suc (set_bit c 0) j
    ∙ ap (λ (t : ℕ). bit t j) (ground (arith, bit-zero c))
    ∙ sym (bit-suc c j)
    ∙ ground arith
bit-set_bit c (suc i) zero =
    bit-zero (set_bit c (suc i))
    ∙ ap (λ (t : ℕ). t == 1) (set_bit-suc c i).1
    ∙ sym (bit-zero c)
    ∙ ground arith
bit-set_bit c (suc i) (suc j) =
    bit-suc (set_bit c (suc i)) j
    ∙ ap (λ (t : ℕ). bit t j) (set_bit-suc c i).0
    ∙ bit-set_bit (c / 2) i j
    ∙ rw (bit-suc c j) (ground arith)

bit-clear_bit : (c i j : ℕ) → bit (clear_bit c i) j ≡ (if i == j then false else bit c j)
bit-clear_bit c zero zero = ground (arith, bit-zero c, bit-zero (clear_bit c 0))
bit-clear_bit c zero (suc j) =
    bit-suc (clear_bit c 0) j
    ∙ ap (λ (t : ℕ). bit t j) (ground (arith, bit-zero c))
    ∙ sym (bit-suc c j)
    ∙ ground arith
bit-clear_bit c (suc i) zero =
    bit-zero (clear_bit c (suc i))
    ∙ ap (λ (t : ℕ). t == 1) (clear_bit-suc c i).1
    ∙ sym (bit-zero c)
    ∙ ground arith
bit-clear_bit c (suc i) (suc j) =
    bit-suc (clear_bit c (suc i)) j
    ∙ ap (λ (t : ℕ). bit t j) (clear_bit-suc c i).0
    ∙ bit-clear_bit (c / 2) i j
    ∙ rw (bit-suc c j) (ground arith)

bit-flag_next :
    (c i : ℕ) (v : Bool) (j : ℕ) → bit (flag_next c i v) j ≡ (if i == j then v else bit c j)
bit-flag_next c i true j = bit-set_bit c i j
bit-flag_next c i false j = bit-clear_bit c i j

two_pow_pos : (i : ℕ) → 0 < 2 ^ i
two_pow_pos zero = omega arith
two_pow_pos (suc i) = omega (arith, pow-suc 2 i, two_pow_pos i)

-- The word changes exactly when the bit does.
flag_next-same : (c i : ℕ) (v : Bool) → (flag_next c i v == c) ≡ same_bool (bit c i) v
flag_next-same c i true = elim (Bool-cases (bit c i)) [
  | inl h ↦ rw h (ground arith)
  | inr h ↦ rw h (ground (arith, two_pow_pos i))
]
flag_next-same c i false = elim (Bool-cases (bit c i)) [
  | inl h ↦ rw h (ground (arith, two_pow_pos i, bit-le c i h))
  | inr h ↦ rw h (ground arith)
]

same_place :
    (keys : Keys) (f g : ℕ)
    → f < 128
    → g < 128
    → keys.flags ≢ keys.flags_two
    → key_of keys f ≡ key_of keys g
    → (index_of f == index_of g) ≡ (f == g)
same_place keys f g p q apart e = ground arith

other_place : (keys : Keys) (f g : ℕ) → key_of keys f ≢ key_of keys g → (f == g) ≡ false
other_place keys f g ne = ground arith

same_bool-eq : (a b : Bool) → same_bool a b ≡ true → a ≡ b
same_bool-eq true b h = sym h
same_bool-eq false true h = cc
same_bool-eq false false h = refl

module _ {F : Type 0} (keys : Keys) where
  abbrev pub has_flag : Metadata F → ℕ → Bool
  has_flag m flag = bit (word (lookup (key_of keys flag) m)) (index_of flag)

  written :
      (m : Metadata F) (k j n : ℕ)
      → word (lookup j (insert k (int64 n) m)) ≡ (if k == j then n else word (lookup j m))
  written m k j n = rw (lookup-insert k j (int64 n) m) (ground arith)

  unfoldable pub flagged : Metadata F → ℕ → Bool → Metadata F
  flagged m f v =
      insert (key_of keys f) (int64 (flag_next (word (lookup (key_of keys f) m)) (index_of f) v)) m

  has_flag-flagged :
      (m : Metadata F) (f : ℕ) (v : Bool) (g : ℕ)
      → f < 128
      → g < 128
      → keys.flags ≢ keys.flags_two
      → has_flag (flagged m f v) g ≡ (if f == g then v else has_flag m g)
  unfolding flagged
  has_flag-flagged m f v g p q apart =
      let c = word (lookup (key_of keys f) m) in
      let n = flag_next c (index_of f) v in
      ap (λ (t : ℕ). bit t (index_of g)) (written m (key_of keys f) (key_of keys g) n)
      ∙ elim (Bool-cases (key_of keys f == key_of keys g)) [
        | inl h ↦
            let e = (==_iff (key_of keys f) (key_of keys g)).0 h in
            rw (h, ← same_place keys f g p q apart e)
              (bit-flag_next c (index_of f) v (index_of g)
                ∙ ap
                    (λ (k : ℕ).
                      if index_of f == index_of g then v else bit (word (lookup k m)) (index_of g))
                    e)
        | inr h ↦ rw (h, other_place keys f g (λ e. ground (arith, h))) refl
      ]

  agrees :
      (m : Metadata F) (f : ℕ) (v : Bool) (g : ℕ)
      → same_bool (has_flag m f) v ≡ true
      → has_flag m g ≡ (if f == g then v else has_flag m g)
  agrees m f v g h = elim (Bool-cases (f == g)) [
    | inl e ↦
        rw e
          (ap (λ (k : ℕ). has_flag m k) (sym ((==_iff f g).0 e)) ∙ same_bool-eq (has_flag m f) v h)
    | inr e ↦ rw e refl
  ]

  set-flagged :
      (m : Metadata F) (f : ℕ) (v : Bool)
      → set_generic_metadata_flag keys m f v
        ≡ (if same_bool (has_flag m f) v then (m, false) else (flagged m f v, true))
  unfolding set_generic_metadata_flag flagged
  set-flagged m f v =
      ap (λ (b : Bool). if b then (m, false) else (flagged m f v, true))
        (flag_next-same (word (lookup (key_of keys f) m)) (index_of f) v)

  -- With two different keys for the words of flags, setting one of the 128 flags gives it that
  -- value and leaves the others. It reports a change exactly if the flag had the other value;
  -- if not, the metadata is as it was. What stands under any other key is kept.
  pub set_generic_metadata_flag_lem :
      (m : Metadata F) (f : ℕ) (v : Bool)
      → f < 128
      → keys.flags ≢ keys.flags_two
      → ((g : ℕ)
          → g < 128
          → has_flag (set_generic_metadata_flag keys m f v).0 g
            ≡ (if f == g then v else has_flag m g))
        × ((set_generic_metadata_flag keys m f v).1 ≡ not (same_bool (has_flag m f) v))
        × ((set_generic_metadata_flag keys m f v).1 ≡ false
            → (set_generic_metadata_flag keys m f v).0 ≡ m)
        × ((k : ℕ)
            → k ≢ keys.flags
            → k ≢ keys.flags_two
            → lookup k (set_generic_metadata_flag keys m f v).0 ≡ lookup k m)
  unfolding flagged
  set_generic_metadata_flag_lem m f v p apart = elim (Bool-cases (same_bool (has_flag m f) v)) [
    | inl h ↦ rw (set-flagged m f v, h) (λ g q. agrees m f v g h, refl, λ e. refl, λ k _ _. refl)
    | inr h ↦
        rw (set-flagged m f v, h)
          (
            λ g q. has_flag-flagged m f v g p q apart,
            refl,
            λ e. cc,
            λ k a b. lookup-insert (key_of keys f) k _ m ∙ ground arith,
          )
  ]
