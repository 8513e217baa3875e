-- ===== src/Publisher/Positions.antt =====
-- The order in which chunks are sent (internal/server/chunk_publisher.go, `chunkPositions`).
use open_ai_mc_be_server.Prelude.{
  ap, sym, ◌∙◌, true≢false, inr, inl, ltb, true, Bool-cases, leb, arith, ◌∷◌, ◌==◌, [], map, ◌&&◌,
  ◌++◌, List, Bool, if◌then◌else◌, ℕ, zero, suc, ◌+◌, ◌*◌, ◌≡◌, refl, false, ==_iff, ◌≤◌, ◌<◌,
  Option, some, none,
}
use Prim.Native.Nat.{max}
use native.Mathlib.Nat.{suc-mul, mul-le-mul}
use open_ai_mc_be_server.Prelude.Int.{
  emod, eqb_ℤ_iff, +ℤ_parts, ltb_ℤ, leb_ℤ, ℤ, pos, pos_part, neg_part, sub_ℕ, ◌+ℤ◌, eqb_ℤ, wrap32,
}
use open_ai_mc_be_server.World.Chunk.{ChunkPos}

-- From the centre.
pub record Offset : Type 0 where
  pub x : ℤ
  pub z : ℤ

unfoldable pub abs : ℤ → ℕ
abs z = pos_part z + neg_part z

unfoldable pub distance_of : Offset → ℕ
distance_of o = max (abs o.x) (abs o.z)

-- `n` numbers from `low` on.
abbrev pub range : ℤ → ℕ → List ℤ
range low zero = []
range low (suc n) = low ∷ range (low +ℤ pos 1) n

-- The loop over z.
unfoldable pub row : ℕ → ℤ → List ℤ → List Offset
row distance x [] = []
row distance x (z ∷ zs) =
    let rest = row distance x zs in
    let o : Offset = record { x = x; z = z } in if distance_of o == distance then o ∷ rest else rest

-- The loop over x.
unfoldable pub rows : ℕ → List ℤ → List ℤ → List Offset
rows distance zs [] = []
rows distance zs (x ∷ xs) = row distance x zs ++ rows distance zs xs

abbrev pub side_of : ℕ → List ℤ
side_of distance = range (sub_ℕ 0 distance) (distance + distance + 1)

unfoldable pub ring : ℕ → List Offset
ring distance = rows distance (side_of distance) (side_of distance)

-- The loop over the distances, `n` of them from `distance` on.
unfoldable pub rings : ℕ → ℕ → List Offset
rings distance zero = []
rings distance (suc n) = ring distance ++ rings (suc distance) n

-- The capacity that the list is made with: an int32, so it wraps around.
unfoldable pub capacity : ℕ → ℤ
capacity radius = wrap32 (pos ((radius * 2 + 1) * (radius * 2 + 1)))

-- `none` is the panic of `make` for a negative capacity.
unfoldable pub chunk_offsets : ℕ → Option (List Offset)
chunk_offsets radius = if ltb_ℤ (capacity radius) (pos 0) then none else some (rings 0 (radius + 1))

abbrev pub position_at : ChunkPos → Offset → ChunkPos
position_at center o = record { x = wrap32 (center.x +ℤ o.x); z = wrap32 (center.z +ℤ o.z) }

unfoldable pub chunk_positions : ChunkPos → ℕ → Option (List ChunkPos)
chunk_positions center radius = elim (chunk_offsets radius) [
  | none ↦ none
  | some offsets ↦ some (map (position_at center) offsets)
]

-- How often a number, and an offset, stand in a list.
abbrev pub count_ℤ : ℤ → List ℤ → ℕ
count_ℤ a [] = 0
count_ℤ a (b ∷ bs) = if eqb_ℤ a b then suc (count_ℤ a bs) else count_ℤ a bs

abbrev pub same_offset : Offset → Offset → Bool
same_offset o p = eqb_ℤ o.x p.x && eqb_ℤ o.z p.z

abbrev pub occurrences : Offset → List Offset → ℕ
occurrences o [] = 0
occurrences o (p ∷ ps) = if same_offset o p then suc (occurrences o ps) else occurrences o ps

occurrences-append :
    (o : Offset) (ps qs : List Offset)
    → occurrences o (ps ++ qs) ≡ occurrences o ps + occurrences o qs
occurrences-append o [] qs = omega arith
occurrences-append o (p ∷ ps) qs = let rest = occurrences-append o ps qs in ground arith

count_ℤ-range :
    (a low : ℤ) (n : ℕ)
    → count_ℤ a (range low n) ≡ (if leb_ℤ low a && ltb_ℤ a (low +ℤ pos n) then 1 else 0)
count_ℤ-range a low zero = let h = +ℤ_parts low (pos 0) in ground (arith, h)
count_ℤ-range a low (suc n) =
    let rest = count_ℤ-range a (low +ℤ pos 1) n in
    let one = +ℤ_parts low (pos 1) in
    let end = +ℤ_parts low (pos (suc n)) in
    let end' = +ℤ_parts (low +ℤ pos 1) (pos n) in ground (arith, rest, one, end, end')

same_distance :
    (o : Offset) (x z : ℤ)
    → eqb_ℤ o.x x ≡ true
    → eqb_ℤ o.z z ≡ true
    → distance_of (record { x = x; z = z }) ≡ distance_of o
same_distance o x z e f = rw ((eqb_ℤ_iff o.x x).0 e, (eqb_ℤ_iff o.z z).0 f) refl

occurrences-if :
    (o p : Offset) (b : Bool) (ps : List Offset)
    → occurrences o (if b then p ∷ ps else ps)
      ≡ (if b && same_offset o p then suc (occurrences o ps) else occurrences o ps)
occurrences-if o p true ps = refl
occurrences-if o p false ps = refl

-- One pass of the loop: `there` is the test of the offset, `here` that of the one that is counted.
pass :
    (here there ex ez : Bool) (n r : ℕ)
    → (ex ≡ true → ez ≡ true → there ≡ here)
    → r ≡ (if here && ex then n else 0)
    → (if there && (ex && ez) then suc r else r)
      ≡ (if here && ex then (if ez then suc n else n) else 0)
pass true true true ez n r h e = ground (arith, e)
pass true false true true n r h e = absurd (true≢false (sym (h refl refl)))
pass true false true false n r h e = e
pass false true true true n r h e = absurd (true≢false (h refl refl))
pass false true true false n r h e = e
pass false false ex ez n r h e = e
pass true there false ez n r h e = ground (arith, e)
pass false true false ez n r h e = e

occurrences-row :
    (o : Offset) (distance : ℕ) (x : ℤ) (zs : List ℤ)
    → occurrences o (row distance x zs)
      ≡ (if distance_of o == distance && eqb_ℤ o.x x then count_ℤ o.z zs else 0)
unfolding row
occurrences-row o distance x [] = ground arith
occurrences-row o distance x (z ∷ zs) =
    let p : Offset = record { x = x; z = z } in
    occurrences-if o p (distance_of p == distance) (row distance x zs)
    ∙ pass (distance_of o == distance) (distance_of p == distance) (eqb_ℤ o.x x) (eqb_ℤ o.z z)
        (count_ℤ o.z zs) (occurrences o (row distance x zs))
        (λ e f. ap (λ (d : ℕ). d == distance) (same_distance o x z e f))
        (occurrences-row o distance x zs)

occurrences-rows :
    (o : Offset) (distance : ℕ) (zs xs : List ℤ)
    → occurrences o (rows distance zs xs)
      ≡ (if distance_of o == distance then count_ℤ o.x xs * count_ℤ o.z zs else 0)
unfolding rows
occurrences-rows o distance zs [] = ground arith
occurrences-rows o distance zs (x ∷ xs) =
    let rest = occurrences-rows o distance zs xs in
    let first = occurrences-row o distance x zs in
    let both = occurrences-append o (row distance x zs) (rows distance zs xs) in
    let split = suc-mul (count_ℤ o.x xs) (count_ℤ o.z zs) in
    ground (arith, rest, first, both, split)

in_side : (a : ℤ) (distance : ℕ) → abs a ≤ distance → count_ℤ a (side_of distance) ≡ 1
unfolding abs
in_side a distance le =
    let counted = count_ℤ-range a (sub_ℕ 0 distance) (distance + distance + 1) in
    let end = +ℤ_parts (sub_ℕ 0 distance) (pos (distance + distance + 1)) in
    ground (arith, counted, end, le)

occurrences-ring :
    (o : Offset) (distance : ℕ)
    → occurrences o (ring distance) ≡ (if distance_of o == distance then 1 else 0)
unfolding ring distance_of
occurrences-ring o distance =
    let all = occurrences-rows o distance (side_of distance) (side_of distance) in
    elim (Bool-cases (distance_of o == distance)) [
      | inl here ↦
          let at : distance_of o ≡ distance = (==_iff (distance_of o) distance).0 here in
          let x : abs o.x ≤ distance = omega (arith, at) in
          let z : abs o.z ≤ distance = omega (arith, at) in
          rw (all, here, in_side o.x distance x, in_side o.z distance z) refl
      | inr away ↦ rw (all, away) refl
    ]

occurrences-rings :
    (o : Offset) (distance n : ℕ)
    → occurrences o (rings distance n)
      ≡ (if leb distance (distance_of o) && ltb (distance_of o) (distance + n) then 1 else 0)
unfolding rings
occurrences-rings o distance zero = ground arith
occurrences-rings o distance (suc n) =
    let first = occurrences-ring o distance in
    let rest = occurrences-rings o (suc distance) n in
    let both = occurrences-append o (ring distance) (rings (suc distance) n) in
    ground (arith, first, rest, both)

small_capacity : (radius : ℕ) → radius < 23170 → ltb_ℤ (capacity radius) (pos 0) ≡ false
unfolding capacity wrap32 emod
small_capacity radius small =
    let side : radius * 2 + 1 ≤ 46339 = omega (arith, small) in
    let square = mul-le-mul side side in ground (arith, square)

-- For a radius below 23170, making the list of chunks around the centre does not panic, and the
-- list names each offset within the radius, on both axes, exactly once, and no other offset.
pub occurrences-chunk_offsets :
    (o : Offset) (radius : ℕ)
    → radius < 23170
    → (offsets : List Offset) × (chunk_offsets radius ≡ some offsets)
      × (occurrences o offsets ≡ (if leb (distance_of o) radius then 1 else 0))
unfolding chunk_offsets
occurrences-chunk_offsets o radius small =
    let all = occurrences-rings o 0 (radius + 1) in
    (rings 0 (radius + 1), rw (small_capacity radius small) refl, ground (arith, all))
