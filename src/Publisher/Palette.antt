-- ===== src/Publisher/Palette.antt =====
-- The palette of a paletted storage (internal/server/chunk_publisher.go, `paletteIndices` and
-- `paletteBits`).
use open_ai_mc_be_server.Prelude.{
  leb→le, ℕ, zero, suc, ◌+◌, ◌%◌, ◌^◌, ◌<◌, ◌≤◌, ◌≡◌, List, [], ◌∷◌, ◌++◌, map, Option, none, some,
  refl, sym, ◌∙◌, arith, inl, inr, Bool-cases, Option-cases, ◌==◌, ==_iff, leb, if◌then◌else◌,
  length, length-append, get_elem?,
}
use mathlib.Core.List.{map-append, append-nil, append_assoc}
use open_ai_mc_be_server.Prelude.Dict.{Dict, lookup, insert, lookup-insert}

-- The index of a value, if it is new; indices are uint16.
abbrev pub new_index : List ℕ → ℕ
new_index palette = length palette % 65536

-- The variables of the loop: the palette, the indices written so far, and the map.
pub record Indexed : Type 0 where
  pub palette : List ℕ
  pub indices : List ℕ
  pub seen : Dict ℕ

abbrev pub nothing_indexed : Indexed
nothing_indexed = record { palette = []; indices = []; seen = [] }

-- The body for a value that the map has, or has not.
abbrev pub index_found : Option ℕ → ℕ → Indexed → Indexed
index_found (some i) v st = record st { indices = st.indices ++ i ∷ [] }
index_found none v st =
    let i = new_index st.palette in
    record {
      palette = st.palette ++ v ∷ [];
      indices = st.indices ++ i ∷ [];
      seen = insert v i st.seen;
    }

unfoldable pub index_values : List ℕ → Indexed → Indexed
index_values [] st = st
index_values (v ∷ values) st = index_values values (index_found (lookup v st.seen) v st)

unfoldable pub palette_indices : List ℕ → List ℕ × List ℕ
palette_indices values = let st = index_values values nothing_indexed in (st.palette, st.indices)

-- The first of the widths that leaves an index for every value.
abbrev pub first_width : List ℕ → ℕ → ℕ
first_width [] count = 16
first_width (bits ∷ widths) count = if leb count (2 ^ bits) then bits else first_width widths count

abbrev pub widths : List ℕ
widths = 0 ∷ 1 ∷ 2 ∷ 3 ∷ 4 ∷ 5 ∷ 6 ∷ 8 ∷ 16 ∷ []

unfoldable pub palette_bits : ℕ → ℕ
palette_bits count = first_width widths count

-- What the client reads back: the entry that each index names.
abbrev pub decode : List ℕ → List ℕ → List (Option ℕ)
decode palette indices = map (get_elem? palette) indices

get_elem?-append :
    (xs ys : List ℕ) (i v : ℕ) → get_elem? xs i ≡ some v → get_elem? (xs ++ ys) i ≡ some v
get_elem?-append [] ys i v e = cc
get_elem?-append (x ∷ xs) ys zero v e = e
get_elem?-append (x ∷ xs) ys (suc i) v e = get_elem?-append xs ys i v e

get_elem?-last : (xs : List ℕ) (v : ℕ) → get_elem? (xs ++ v ∷ []) (length xs) ≡ some v
get_elem?-last [] v = refl
get_elem?-last (x ∷ xs) v = get_elem?-last xs v

-- The state after the values `past` were indexed.
record Indexes (past : List ℕ) (st : Indexed) : Type 0 where
  past_decodes : decode st.palette st.indices ≡ map some past
  seen_sound : (v i : ℕ) → lookup v st.seen ≡ some i → get_elem? st.palette i ≡ some v
  short : length st.palette ≤ length past

decode-append :
    (xs ys : List ℕ) (indices past : List ℕ)
    → decode xs indices ≡ map some past
    → decode (xs ++ ys) indices ≡ map some past
decode-append xs ys [] [] e = refl
decode-append xs ys [] (v ∷ past) e = cc
decode-append xs ys (i ∷ indices) [] e = cc
decode-append xs ys (i ∷ indices) (v ∷ past) e =
    let head : get_elem? xs i ≡ some v = cc in
    let rest : decode xs indices ≡ map some past = cc in
    rw (get_elem?-append xs ys i v head, decode-append xs ys indices past rest) refl

decode-snoc :
    (xs indices past : List ℕ) (i v : ℕ)
    → decode xs indices ≡ map some past
    → get_elem? xs i ≡ some v
    → decode xs (indices ++ i ∷ []) ≡ map some (past ++ v ∷ [])
decode-snoc xs indices past i v e f =
    rw (map-append (get_elem? xs) indices (i ∷ []), map-append some past (v ∷ []), e, f) refl

known-Indexes :
    (past : List ℕ) (st : Indexed) (v i : ℕ)
    → Indexes past st
    → lookup v st.seen ≡ some i
    → Indexes (past ++ v ∷ []) (index_found (some i) v st)
known-Indexes past st v i h e = record {
  past_decodes = decode-snoc st.palette st.indices past i v h.past_decodes (h.seen_sound v i e);
  seen_sound = h.seen_sound;
  short = rw (length-append past (v ∷ [])) (omega (arith, h.short));
}

new-Indexes :
    (past : List ℕ) (st : Indexed) (v : ℕ)
    → Indexes past st
    → length past < 65536
    → Indexes (past ++ v ∷ []) (index_found none v st)
new-Indexes past st v h small =
    let fits : new_index st.palette ≡ length st.palette = omega (arith, h.short) in
    let last : get_elem? (st.palette ++ v ∷ []) (new_index st.palette) ≡ some v =
      rw fits (get_elem?-last st.palette v) in
    record {
      past_decodes =
          decode-snoc (st.palette ++ v ∷ []) st.indices past (new_index st.palette) v
            (decode-append st.palette (v ∷ []) st.indices past h.past_decodes) last;
      seen_sound = λ w i e. elim (Bool-cases (v == w)) [
        | inl same ↦
            let named : lookup w (insert v (new_index st.palette) st.seen)
                ≡ some (new_index st.palette) =
              lookup-insert v w (new_index st.palette) st.seen ∙ rw same in
            let index : new_index st.palette ≡ i = cc in rw (← index, ← (==_iff v w).0 same) last
        | inr diff ↦ get_elem?-append st.palette (v ∷ []) i w (
            h.seen_sound w i (sym (lookup-insert v w (new_index st.palette) st.seen ∙ rw diff) ∙ e))
      ];
      short =
          rw (length-append past (v ∷ []), length-append st.palette (v ∷ []))
            (omega (arith, h.short));
    }

index-Indexes :
    (values past : List ℕ) (st : Indexed)
    → Indexes past st
    → length past + length values ≤ 65536
    → Indexes (past ++ values) (index_values values st)
unfolding index_values
index-Indexes [] past st h small = rw (append-nil past) h
index-Indexes (v ∷ values) past st h small =
    let next = index_found (lookup v st.seen) v st in
    let step : Indexes (past ++ v ∷ []) next = elim (Option-cases (lookup v st.seen)) [
      | inl e ↦ rw e (new-Indexes past st v h (omega arith))
      | inr (i, e) ↦ rw e (known-Indexes past st v i h e)
    ] in
    rw (← append_assoc past (v ∷ []) values) (
      index-Indexes values (past ++ v ∷ []) next step
        (rw (length-append past (v ∷ [])) (omega (arith, small))))

all-Indexes :
    (values : List ℕ) → length values ≤ 65536 → Indexes values (index_values values nothing_indexed)
unfolding lookup
all-Indexes values small =
    index-Indexes values [] nothing_indexed
      (record { past_decodes = refl; seen_sound = λ v i e. cc; short = omega arith })
      (omega (arith, small))

-- For at most 65536 values, the entries of the palette that the indices of `paletteIndices` name
-- are the values, in order.
pub palette_indices-decode :
    (values : List ℕ)
    → length values ≤ 65536
    → let (palette, indices) = palette_indices values in decode palette indices ≡ map some values
unfolding palette_indices
palette_indices-decode values small = (all-Indexes values small).past_decodes

first_width-fits : (ws : List ℕ) (count : ℕ) → count ≤ 65536 → count ≤ 2 ^ first_width ws count
first_width-fits [] count small = small
first_width-fits (bits ∷ ws) count small = elim (Bool-cases (leb count (2 ^ bits))) [
  | inl e ↦ rw e (leb→le count (2 ^ bits) e)
  | inr e ↦ rw e (first_width-fits ws count small)
]

get_elem?-bound : (xs : List ℕ) (i v : ℕ) → get_elem? xs i ≡ some v → i < length xs
get_elem?-bound [] i v e = cc
get_elem?-bound (x ∷ xs) zero v e = omega arith
get_elem?-bound (x ∷ xs) (suc i) v e = omega (arith, get_elem?-bound xs i v e)

decode-bound :
    (xs indices past : List ℕ) (k i : ℕ)
    → decode xs indices ≡ map some past
    → get_elem? indices k ≡ some i
    → i < length xs
decode-bound xs [] past k i e f = cc
decode-bound xs (j ∷ indices) [] k i e f = cc
decode-bound xs (j ∷ indices) (v ∷ past) zero i e f =
    let head : get_elem? xs i ≡ some v = cc in get_elem?-bound xs i v head
decode-bound xs (j ∷ indices) (v ∷ past) (suc k) i e f =
    let rest : decode xs indices ≡ map some past = cc in decode-bound xs indices past k i rest f

-- For at most 65536 values, each index that `paletteIndices` returns is below 2 to the width
-- that `paletteBits` chooses for the palette, so the mask of `writePackedIndices` drops no bit
-- of it.
pub palette_indices-palette_bits :
    (values : List ℕ) (k i : ℕ)
    → length values ≤ 65536
    → get_elem? (palette_indices values).1 k ≡ some i
    → i < 2 ^ palette_bits (length (palette_indices values).0)
unfolding palette_indices palette_bits
palette_indices-palette_bits values k i small e =
    let done = all-Indexes values small in
    let count = length (index_values values nothing_indexed).palette in
    omega (
      arith,
      decode-bound _ _ values k i done.past_decodes e,
      first_width-fits widths count (omega (arith, done.short, small)),
    )
