-- ===== src/World/Blocks.antt =====
-- A chunk is a map from positions and layers to runtime ids: what is set is read back, and nothing
-- else changes.
use open_ai_mc_be_server.Prelude.{
  ==_iff, ◌↔◌, ap, ◌∙◌, sym, true≢false, Bool, ℕ, zero, suc, ◌<◌, ◌≡◌, refl, arith, true, ◌&&◌,
  ◌==◌, if◌then◌else◌, length, get_or, set, length-set, Bool-cases, inl, inr, none, some, List, [],
  ◌∷◌,
}
use open_ai_mc_be_server.Prelude.Int.{ℤ, pos_part, eqb_ℤ, eqb_ℤ_iff}
use open_ai_mc_be_server.Prelude.Dict.{Dict, lookup, lookup-insert, lookup-erase, insert, erase}
use open_ai_mc_be_server.World.Chunk.{
  store_runtime_id, SubChunk, Chunk, empty_sub, block_offset, sub_index, out_of_range, blocks_of,
  no_blocks, sub_at, put_sub, delete_from, delete_runtime_id, insert_into, set_runtime_id, read_sub,
  runtime_id,
}
use open_ai_mc_be_server.World.Index.{
  IsChunk, InChunk, in_range-InChunk, InChunk-in_range, sub_index_in_range, key-injective,
}

no_blocks-lookup : (m : Dict ℕ) (k : ℕ) → no_blocks m ≡ true → lookup k m ≡ none
unfolding lookup
no_blocks-lookup [] k h = refl
no_blocks-lookup (b ∷ m) k h = cc

read-insert_into :
    (sub : SubChunk) (l o id air l' o' : ℕ)
    → read_sub (insert_into sub l o id) l' o' air
      ≡ (if l == l' && o == o' then id else read_sub sub l' o' air)
unfolding read_sub insert_into
read-insert_into sub l o id air l' o' = ground (
  arith,
  lookup-insert l l' (insert o id (blocks_of sub l)) sub.layers,
  lookup-insert o o' id (blocks_of sub l),
)

read-delete_from :
    (sub : SubChunk) (l o air l' o' : ℕ)
    → read_sub (delete_from sub l o) l' o' air
      ≡ (if l == l' && o == o' then air else read_sub sub l' o' air)
unfolding read_sub delete_from
read-delete_from sub l o air l' o' = ground (
  arith,
  lookup-insert l l' (erase o (blocks_of sub l)) sub.layers,
  lookup-erase l l' sub.layers,
  lookup-erase o o' (blocks_of sub l),
  no_blocks-lookup (blocks_of sub l) o',
  no_blocks-lookup (erase o (blocks_of sub l)) o',
)

get_or-set :
    {A : Type 0} (xs : List A) (i j : ℕ) (v d : A)
    → i < length xs
    → get_or (set xs i v) j d ≡ (if i == j then v else get_or xs j d)
get_or-set [] i j v d h = elim h [ ]
get_or-set (x ∷ xs) zero zero v d h = refl
get_or-set (x ∷ xs) zero (suc j) v d h = ground arith
get_or-set (x ∷ xs) (suc i) zero v d h = ground arith
get_or-set (x ∷ xs) (suc i) (suc j) v d h = ground (arith, get_or-set xs i j v d (omega arith))

-- The block of a position and a layer.
abbrev pub same_block : ℕ → ℤ → ℕ → ℕ → ℕ → ℤ → ℕ → ℕ → Bool
same_block x y z l x' y' z' l' = x == x' && eqb_ℤ y y' && z == z' && l == l'

pub same_block_lem :
    (x : ℕ) (y : ℤ) (z l x' : ℕ) (y' : ℤ) (z' l' : ℕ)
    → same_block x y z l x' y' z' l' ≡ true
    → (x ≡ x') × (y ≡ y') × (z ≡ z') × (l ≡ l')
same_block_lem x y z l x' y' z' l' h = ground (arith, eqb_ℤ_iff y y')

pub same_block_conv :
    (x : ℕ) (y : ℤ) (z l x' : ℕ) (y' : ℤ) (z' l' : ℕ)
    → x ≡ x'
    → y ≡ y'
    → z ≡ z'
    → same_block x y z l x' y' z' l' ≡ (l == l')
same_block_conv x y z l x' y' z' l' a b c = ground (arith, eqb_ℤ_iff y y')

-- The cases of a read: another sub chunk, another offset, another layer, or the block itself.
read_cases :
    (old_i old_j new_j sub : SubChunk) (i j o o' l l' id air : ℕ) (same : Bool)
    → new_j ≡ (if i == j then sub else old_j)
    → (i ≡ j → old_i ≡ old_j)
    → read_sub sub l' o' air ≡ (if l == l' && o == o' then id else read_sub old_i l' o' air)
    → (i ≡ j → o ≡ o' → same ≡ (l == l'))
    → (same ≡ true → (i ≡ j) × (o ≡ o') × (l ≡ l'))
    → read_sub new_j l' o' air ≡ (if same then id else read_sub old_j l' o' air)
read_cases old_i old_j new_j sub i j o o' l l' id air same e c r k m = ground arith

-- Reading after one sub chunk was replaced.
read-put_sub :
    (c : Chunk) (x : ℕ) (y : ℤ) (z l id : ℕ) (sub : SubChunk) (x' : ℕ) (y' : ℤ) (z' l' : ℕ)
    → IsChunk c
    → InChunk c x y z
    → ((o' : ℕ)
        → read_sub sub l' o' c.air_runtime_id ≡ (
            if l == l' && block_offset x y z == o'
            then id
            else read_sub (sub_at c (sub_index c y)) l' o' c.air_runtime_id))
    → runtime_id (put_sub c (sub_index c y) sub) x' y' z' l'
      ≡ (if same_block x y z l x' y' z' l' then id else runtime_id c x' y' z' l')
unfolding runtime_id out_of_range sub_index
read-put_sub c x y z l id sub x' y' z' l' v h r =
    let i = pos_part (sub_index c y) in
    let j = pos_part (sub_index c y') in
    let old = get_or-set c.sub_chunks i j sub empty_sub (sub_index_in_range c x y z v h).1 in
    elim (Bool-cases (out_of_range c x' y' z')) [
      | inl e ↦ elim (Bool-cases (same_block x y z l x' y' z' l')) [
        | inl s ↦
            let (p, q, t, _) = same_block_lem x y z l x' y' z' l' s in
            absurd (true≢false (sym e ∙ rw (← p, ← q, ← t) (InChunk-in_range c x y z h)))
        | inr s ↦ rw (e, s) refl
      ]
      | inr e ↦
          let p = in_range-InChunk c x' y' z' e in
          rw e (
            read_cases (get_or c.sub_chunks i empty_sub) (get_or c.sub_chunks j empty_sub)
              (get_or (set c.sub_chunks i sub) j empty_sub) sub i j (block_offset x y z)
              (block_offset x' y' z') l l' id c.air_runtime_id (same_block x y z l x' y' z' l') old
              (λ t. ap (λ (n : ℕ). get_or c.sub_chunks n empty_sub) t) (r (block_offset x' y' z'))
              (λ t o.
                let (a, b, d) = key-injective c x x' y y' z z' v h p t o in
                same_block_conv x y z l x' y' z' l' a b d)
              (λ s.
                let (a, b, d, k) = same_block_lem x y z l x' y' z' l' s in
                (ap (λ (t : ℤ). pos_part (sub_index c t)) b, rw (a, b, d), k)))
    ]

put_sub-IsChunk : (c : Chunk) (i : ℤ) (sub : SubChunk) → IsChunk c → IsChunk (put_sub c i sub)
put_sub-IsChunk c i sub v = record {
  counted = length-set c.sub_chunks (pos_part i) sub ∙ v.counted;
}

pub store_runtime_id-IsChunk :
    (c : Chunk) (x : ℕ) (y : ℤ) (z l id : ℕ) → IsChunk c → IsChunk (store_runtime_id c x y z l id)
unfolding store_runtime_id delete_runtime_id
store_runtime_id-IsChunk c x y z l id v = elim (Bool-cases (id == c.air_runtime_id)) [
  | inl e ↦ rw e (put_sub-IsChunk c (sub_index c y) _ v)
  | inr e ↦ rw e (put_sub-IsChunk c (sub_index c y) _ v)
]

pub runtime_id-store_runtime_id :
    (c : Chunk) (x : ℕ) (y : ℤ) (z l id x' : ℕ) (y' : ℤ) (z' l' : ℕ)
    → IsChunk c
    → InChunk c x y z
    → runtime_id (store_runtime_id c x y z l id) x' y' z' l'
      ≡ (if same_block x y z l x' y' z' l' then id else runtime_id c x' y' z' l')
unfolding store_runtime_id delete_runtime_id
runtime_id-store_runtime_id c x y z l id x' y' z' l' v h =
    let old = sub_at c (sub_index c y) in
    let o = block_offset x y z in
    elim (Bool-cases (id == c.air_runtime_id)) [
      | inl e ↦ rw e (
          read-put_sub c x y z l id (delete_from old l o) x' y' z' l' v h (λ o'.
            rw ((==_iff id c.air_runtime_id).0 e)
              (read-delete_from old l o c.air_runtime_id l' o')))
      | inr e ↦ rw e (
          read-put_sub c x y z l id (insert_into old l o id) x' y' z' l' v h
            (λ o'. read-insert_into old l o id c.air_runtime_id l' o'))
    ]

-- In a chunk that has the sub chunks of its dimension, a block that is set with no error, to air
-- or to anything else, reads back as it was set, every other position and layer reads as before,
-- and the chunk still has the sub chunks of its dimension.
pub runtime_id-set_runtime_id :
    (c : Chunk) (x : ℕ) (y : ℤ) (z l id : ℕ) {c' : Chunk}
    → IsChunk c
    → set_runtime_id c x y z l id ≡ some c'
    → IsChunk c'
      × ((x' : ℕ) (y' : ℤ) (z' l' : ℕ)
          → runtime_id c' x' y' z' l'
            ≡ (if same_block x y z l x' y' z' l' then id else runtime_id c x' y' z' l'))
unfolding set_runtime_id
runtime_id-set_runtime_id c x y z l id {c'} v e = elim (Bool-cases (out_of_range c x y z)) [
  | inl o ↦ cc
  | inr o ↦
      let same : store_runtime_id c x y z l id ≡ c' = ground arith in
      rw (← same) (
        store_runtime_id-IsChunk c x y z l id v,
        λ x' y' z' l'.
            runtime_id-store_runtime_id c x y z l id x' y' z' l' v (in_range-InChunk c x y z o),
      )
]

-- `SetRuntimeID` gives no error exactly for the positions of the chunk: x and z below 16, and
-- the height in the range of the dimension.
pub set_runtime_id-accepts :
    (c : Chunk) (x : ℕ) (y : ℤ) (z l id : ℕ)
    → ((c' : Chunk) × (set_runtime_id c x y z l id ≡ some c')) ↔ InChunk c x y z
unfolding set_runtime_id
set_runtime_id-accepts c x y z l id = (
  λ (c', e). elim (Bool-cases (out_of_range c x y z)) [
    | inl o ↦ absurd (ground arith)
    | inr o ↦ in_range-InChunk c x y z o
  ],
  λ h. (store_runtime_id c x y z l id, rw (InChunk-in_range c x y z h)),
)
