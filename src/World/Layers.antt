-- ===== src/World/Layers.antt =====
-- A generated chunk holds its layers in every column, from the base up, and one biome (internal/world/flat.go).
use mathlib.Core.List.{append_assoc, append-nil}
use open_ai_mc_be_server.Prelude.{
  length-append, subst, ℕ, zero, suc, ◌+◌, ◌<◌, ◌≡◌, refl, sym, ap, ◌∙◌, Bool, true, false, ◌&&◌,
  ◌||◌, List, [], ◌∷◌, ◌++◌, some, ltb, ◌==◌, if◌then◌else◌, length, get_or, Bool-cases, inl, inr,
  arith,
}
use open_ai_mc_be_server.Prelude.Int.{
  int_laws, ℤ, pos, pos_part, ◌+ℤ◌, ◌-ℤ◌, ◌≤ℤ◌, ltb_ℤ, eqb_ℤ, wrap16, IsInt16, wrap16_of_range,
}
use open_ai_mc_be_server.World.Dimension.{Dimension, min_y_of, max_y_of}
use open_ai_mc_be_server.World.Chunk.{
  delete_runtime_id, Chunk, set_runtime_id, store_runtime_id, runtime_id,
}
use open_ai_mc_be_server.World.Index.{IsChunk, InChunk, InChunk-in_range}
use open_ai_mc_be_server.World.Blocks.{
  same_block, runtime_id-store_runtime_id, store_runtime_id-IsChunk,
}
use open_ai_mc_be_server.World.Flat.{fill_column, fill_row, fill_rows, up_to}

-- The id at a height, of layers that begin at a base.
abbrev pub layer_at : ℤ → List ℕ → ℕ → ℤ → ℕ
layer_at base ids air y = if ltb_ℤ y base then air else get_or ids (pos_part (y -ℤ base)) air

get_or-snoc :
    (ids : List ℕ) (id d i : ℕ)
    → get_or (ids ++ id ∷ []) i d ≡ (if i == length ids then id else get_or ids i d)
get_or-snoc [] id d zero = refl
get_or-snoc [] id d (suc i) = ground arith
get_or-snoc (x ∷ ids) id d zero = ground arith
get_or-snoc (x ∷ ids) id d (suc i) = ground (arith, get_or-snoc ids id d i)

difference_eq :
    (base y : ℤ) (n : ℕ)
    → ltb_ℤ y base ≡ false
    → (pos_part (y -ℤ base) == n) ≡ eqb_ℤ (base +ℤ pos n) y
unfolding ◌-ℤ◌ ◌+ℤ◌
difference_eq base y n h = ground arith

below_eq : (base y : ℤ) (n : ℕ) → ltb_ℤ y base ≡ true → eqb_ℤ (base +ℤ pos n) y ≡ false
unfolding ◌+ℤ◌
below_eq base y n h = ground arith

layer_at-snoc :
    (base : ℤ) (ids : List ℕ) (id air : ℕ) (y : ℤ)
    → layer_at base (ids ++ id ∷ []) air y
      ≡ (if eqb_ℤ (base +ℤ pos (length ids)) y then id else layer_at base ids air y)
layer_at-snoc base ids id air y = elim (Bool-cases (ltb_ℤ y base)) [
  | inl h ↦ rw (h, below_eq base y (length ids) h) refl
  | inr h ↦
      rw (h, get_or-snoc ids id air (pos_part (y -ℤ base)), difference_eq base y (length ids) h)
        refl
]

-- The columns before (x, z), in the order of the generator.
abbrev pub before : ℕ → ℕ → ℕ → ℕ → Bool
before x z x' z' = ltb z' 16 && (ltb x' x || (x' == x && ltb z' z))

fill_column-cons :
    (c c' : Chunk) (x z : ℕ) (base : ℤ) (n id : ℕ) (ids : List ℕ)
    → set_runtime_id c x (wrap16 (base +ℤ pos n)) z 0 id ≡ some c'
    → fill_column c x z base n (id ∷ ids) ≡ fill_column c' x z base (suc n) ids
unfolding fill_column
fill_column-cons c c' x z base n id ids e = rw (e, fill_column) refl

module _ (stops : ℕ → ℕ → Bool) (base : ℤ) (ids : List ℕ) where
  fill_row-cons :
      (c c' : Chunk) (x z : ℕ) (zs : List ℕ)
      → stops x z ≡ false
      → fill_column c x z base 0 ids ≡ some c'
      → fill_row stops base ids c x (z ∷ zs) ≡ fill_row stops base ids c' x zs
  unfolding fill_row
  fill_row-cons c c' x z zs h e = rw (h, fill_row) (rw (e, fill_row) refl)

  fill_rows-cons :
      (c c' : Chunk) (x : ℕ) (xs zs : List ℕ)
      → fill_row stops base ids c x zs ≡ some c'
      → fill_rows stops base ids c (x ∷ xs) zs ≡ fill_rows stops base ids c' xs zs
  unfolding fill_rows
  fill_rows-cons c c' x xs zs e = rw (e, fill_rows) refl

module _ (base : ℤ) (ids : List ℕ) (air biome : ℕ) (d : Dimension) where
  -- What is read while the column (x, z) has its first layers.
  abbrev pub reading : ℕ → ℕ → List ℕ → ℕ → ℤ → ℕ → ℕ → ℕ
  reading x z first x' y' z' l' =
      if x == x' && z == z' && l' == 0
      then layer_at base first air y'
      else if before x z x' z' && l' == 0
      then layer_at base ids air y'
      else air

  pub record IsFilled (x z : ℕ) (first : List ℕ) (c : Chunk) : Type 0 where
    pub chunk : IsChunk c
    pub in_dimension : c.dimension ≡ d
    pub has_air : c.air_runtime_id ≡ air
    pub plain : c.biome_overrides ≡ []
    pub one_biome : c.default_biome_id ≡ biome
    pub reads :
        (x' : ℕ) (y' : ℤ) (z' l' : ℕ) → runtime_id c x' y' z' l' ≡ reading x z first x' y' z' l'

  store-kept :
      (c : Chunk) (x : ℕ) (y : ℤ) (z l id : ℕ)
      → ((store_runtime_id c x y z l id).dimension ≡ c.dimension)
        × ((store_runtime_id c x y z l id).air_runtime_id ≡ c.air_runtime_id)
        × ((store_runtime_id c x y z l id).biome_overrides ≡ c.biome_overrides)
        × ((store_runtime_id c x y z l id).default_biome_id ≡ c.default_biome_id)
  unfolding store_runtime_id delete_runtime_id
  store-kept c x y z l id = ground arith

  reading-snoc :
      (x z id : ℕ) (first : List ℕ) (x' : ℕ) (y' : ℤ) (z' l' : ℕ)
      → (if same_block x (base +ℤ pos (length first)) z 0 x' y' z' l'
          then id
          else reading x z first x' y' z' l')
        ≡ reading x z (first ++ id ∷ []) x' y' z' l'
  reading-snoc x z id first x' y' z' l' = ground (arith, layer_at-snoc base first id air y')

  -- A full column is one before the next.
  next_column : (c : Chunk) (x z : ℕ) → z < 16 → IsFilled x z ids c → IsFilled x (z + 1) [] c
  next_column c x z q f = record {
    chunk = f.chunk;
    in_dimension = f.in_dimension;
    has_air = f.has_air;
    plain = f.plain;
    one_biome = f.one_biome;
    reads = λ x' y' z' l'. f.reads x' y' z' l' ∙ ground arith;
  }

  next_row : (c : Chunk) (x z : ℕ) → z ≡ 16 → IsFilled x z [] c → IsFilled (x + 1) 0 [] c
  next_row c x z q f = record {
    chunk = f.chunk;
    in_dimension = f.in_dimension;
    has_air = f.has_air;
    plain = f.plain;
    one_biome = f.one_biome;
    reads = λ x' y' z' l'. f.reads x' y' z' l' ∙ ground arith;
  }

  store-IsFilled :
      (x z id : ℕ) (first : List ℕ) (c : Chunk)
      → IsFilled x z first c
      → InChunk c x (base +ℤ pos (length first)) z
      → IsFilled x z (first ++ id ∷ []) (store_runtime_id c x (base +ℤ pos (length first)) z 0 id)
  store-IsFilled x z id first c f h =
      let y = base +ℤ pos (length first) in
      let (e1, e2, e3, e4) = store-kept c x y z 0 id in
      record {
        chunk = store_runtime_id-IsChunk c x y z 0 id f.chunk;
        in_dimension = e1 ∙ f.in_dimension;
        has_air = e2 ∙ f.has_air;
        plain = e3 ∙ f.plain;
        one_biome = e4 ∙ f.one_biome;
        reads = λ x' y' z' l'.
            runtime_id-store_runtime_id c x y z 0 id x' y' z' l' f.chunk h
            ∙ ap (λ t. if same_block x y z 0 x' y' z' l' then id else t) (f.reads x' y' z' l')
            ∙ reading-snoc x z id first x' y' z' l';
      }

module _ (base : ℤ) (ids : List ℕ) (air biome : ℕ) (d : Dimension)
    (from_bottom : min_y_of d ≤ℤ base) (to_top : base +ℤ pos (length ids) ≤ℤ max_y_of d +ℤ pos 1)
    (bottom_int16 : IsInt16 (min_y_of d)) (top_int16 : IsInt16 (max_y_of d)) where
  height-InChunk :
      (c : Chunk) (x z n : ℕ)
      → c.dimension ≡ d
      → x < 16
      → z < 16
      → n < length ids
      → InChunk c x (base +ℤ pos n) z
  height-InChunk c x z n e p q h = record {
    column_x = p;
    column_z = q;
    above = rw e (omega (int_laws, from_bottom));
    below = rw e (omega (int_laws, to_top));
  }

  height-wrap16 : (n : ℕ) → n < length ids → wrap16 (base +ℤ pos n) ≡ base +ℤ pos n
  height-wrap16 n h =
      wrap16_of_range (base +ℤ pos n)
        (omega (int_laws, from_bottom, bottom_int16), omega (int_laws, to_top, top_int16))

  set-eq :
      (c : Chunk) (x z n id : ℕ)
      → c.dimension ≡ d
      → x < 16
      → z < 16
      → n < length ids
      → set_runtime_id c x (wrap16 (base +ℤ pos n)) z 0 id
        ≡ some (store_runtime_id c x (base +ℤ pos n) z 0 id)
  unfolding set_runtime_id
  set-eq c x z n id e p q h =
      rw (height-wrap16 n h)
        (rw (InChunk-in_range c x (base +ℤ pos n) z (height-InChunk c x z n e p q h)) refl)

  -- The rest of a column is filled with no error.
  fill_column-IsFilled :
      (rest first : List ℕ) (c : Chunk) (x z : ℕ)
      → x < 16
      → z < 16
      → first ++ rest ≡ ids
      → IsFilled base ids air biome d x z first c
      → (c' : Chunk) × (fill_column c x z base (length first) rest ≡ some c')
        × IsFilled base ids air biome d x z ids c'
  unfolding fill_column
  fill_column-IsFilled [] first c x z p q e f =
      (c, refl, subst (λ t. IsFilled base ids air biome d x z t c) (sym (append-nil first) ∙ e) f)
  fill_column-IsFilled (id ∷ rest) first c x z p q e f =
      let n = length first in
      let h : n < length ids = rw (← e) (omega (arith, length-append first (id ∷ rest))) in
      let (c', done, f') =
        fill_column-IsFilled rest (first ++ id ∷ []) (store_runtime_id c x (base +ℤ pos n) z 0 id) x
          z p q (append_assoc first (id ∷ []) rest ∙ e)
          (store-IsFilled base ids air biome d x z id first c f
            (height-InChunk c x z n f.in_dimension p q h)) in
      let next : suc n ≡ length (first ++ id ∷ []) = omega (arith, length-append first (id ∷ [])) in
      (
        c',
        fill_column-cons c _ x z base n id rest (set-eq c x z n id f.in_dimension p q h)
            ∙ ap
                (λ (m : ℕ).
                  fill_column (store_runtime_id c x (base +ℤ pos n) z 0 id) x z base m rest)
                next
            ∙ done,
        f',
      )

  module _ (stops : ℕ → ℕ → Bool) (never : (x z : ℕ) → stops x z ≡ false) where
    fill_row-IsFilled :
        (k : ℕ) (c : Chunk) (x z : ℕ)
        → x < 16
        → z + k ≡ 16
        → IsFilled base ids air biome d x z [] c
        → (c' : Chunk) × (fill_row stops base ids c x (up_to k z) ≡ some c')
          × IsFilled base ids air biome d (x + 1) 0 [] c'
    unfolding fill_row
    fill_row-IsFilled zero c x z p e f =
        (c, refl, next_row base ids air biome d c x z (omega arith) f)
    fill_row-IsFilled (suc k) c x z p e f =
        let (c1, done, f1) = fill_column-IsFilled ids [] c x z p (omega arith) refl f in
        let (c', rest, f') =
          fill_row-IsFilled k c1 x (z + 1) p (omega arith)
            (next_column base ids air biome d c1 x z (omega arith) f1) in
        (c', fill_row-cons stops base ids c c1 x z _ (never x z) done ∙ rest, f')

    pub fill_rows-IsFilled :
        (k : ℕ) (c : Chunk) (x : ℕ)
        → x + k ≡ 16
        → IsFilled base ids air biome d x 0 [] c
        → (c' : Chunk) × (fill_rows stops base ids c (up_to k x) (up_to 16 0) ≡ some c')
          × IsFilled base ids air biome d 16 0 [] c'
    unfolding fill_rows
    fill_rows-IsFilled zero c x e f = let full : x ≡ 16 = omega arith in (c, refl, rw (← full) f)
    fill_rows-IsFilled (suc k) c x e f =
        let (c1, done, f1) = fill_row-IsFilled 16 c x 0 (omega arith) refl f in
        let (c', rest, f') = fill_rows-IsFilled k c1 (x + 1) (omega arith) f1 in
        (c', fill_rows-cons stops base ids c c1 x _ _ done ∙ rest, f')
