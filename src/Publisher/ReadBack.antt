-- ===== src/Publisher/ReadBack.antt =====
-- A client's reading of a storage, through its words and its palette
-- (internal/server/chunk_publisher.go, `encodePalettedStorage`).
use open_ai_mc_be_server.Prelude.{
  length-replicate, get_or-replicate, replicate, get_or, length, get_elem?, zero, suc, refl, ◌≡◌, ℕ,
  ◌+◌, ◌*◌, ◌/◌, ◌-◌, ◌^◌, ◌≤◌, ◌<◌, List, [], ◌∷◌, some, arith, map,
}
use native.Mathlib.Nat.{div-add-mod', mod-lt, le-div_iff_mul-le}
use open_ai_mc_be_server.Publisher.Palette.{
  palette_indices, palette_bits, decode, palette_indices-decode, palette_indices-palette_bits,
}
use open_ai_mc_be_server.Publisher.Packing.{per_word, packed_words, read_index}
use open_ai_mc_be_server.Publisher.Unpacking.{Packed, AllBelow, loop_reads, power-pos}

enough_words : (n per : ℕ) → 0 < per → n ≤ (n + per - 1) / per * per
enough_words n per pos = omega (arith, div-add-mod' (n + per - 1) per, mod-lt (n + per - 1) pos)

per_word-pos : (bits : ℕ) → 0 < bits → bits ≤ 32 → 0 < per_word bits
per_word-pos bits pos fits =
    let one : 1 ≤ 32 / bits =
      (le-div_iff_mul-le {k = bits} {x = 1} {y = 32} pos).1 (omega (arith, fits)) in
    omega (arith, one)

below_all :
    (bits : ℕ) (indices : List ℕ) (pos : 0 < bits) (fits : bits ≤ 32)
    → ((k i : ℕ) → get_elem? indices k ≡ some i → i < 2 ^ bits)
    → AllBelow bits pos fits indices
below_all bits [] pos fits h = tt
below_all bits (i ∷ indices) pos fits h =
    (h 0 i refl, below_all bits indices pos fits (λ k. h (suc k)))

pub read_index-packed_words :
    (bits : ℕ) (indices : List ℕ) (j : ℕ)
    → 0 < bits
    → bits ≤ 32
    → ((k i : ℕ) → get_elem? indices k ≡ some i → i < 2 ^ bits)
    → j < length indices
    → read_index bits (packed_words bits indices) j ≡ get_or indices j 0
unfolding packed_words
read_index-packed_words bits indices j pos fits below lt =
    let per = per_word bits in
    let count = (length indices + per - 1) / per in
    let ready = per_word-pos bits pos fits in
    let empty : Packed bits pos fits [] 0 0 (replicate count 0) = record {
      counted = omega arith;
      reads = λ k l. absurd (omega (arith, l));
      low = rw (get_or-replicate {A = ℕ} count 0 0) (power-pos (0 * bits));
      free = λ v l. get_or-replicate {A = ℕ} count v 0;
    } in
    let room : 0 + length indices ≤ length (replicate count 0) * per =
      rw (length-replicate {A = ℕ} count 0)
        (omega (arith, enough_words (length indices) per ready)) in
    loop_reads bits pos fits indices [] 0 0 (replicate count 0) empty ready
      (below_all bits indices pos fits below) room j lt

decode-get :
    (palette indices values : List ℕ) (j : ℕ)
    → decode palette indices ≡ map some values
    → j < length values
    → (j < length indices) × (get_elem? palette (get_or indices j 0) ≡ get_elem? values j)
decode-get palette indices [] j e lt = absurd (omega (arith, lt))
decode-get palette [] (v ∷ values) j e lt = cc
decode-get palette (i ∷ indices) (v ∷ values) zero e lt =
    let head : get_elem? palette i ≡ some v = cc in (omega arith, head)
decode-get palette (i ∷ indices) (v ∷ values) (suc j) e lt =
    let rest : decode palette indices ≡ map some values = cc in
    let (within, found) = decode-get palette indices values j rest (omega (arith, lt)) in
    (omega (arith, within), found)

palette_bits-le : (count : ℕ) → palette_bits count ≤ 32
unfolding palette_bits
palette_bits-le count = ground arith

-- For at most 65536 values of two kinds at least, a client that reads index number j out of the
-- packed words and looks it up in the palette gets value number j.
pub storage-values :
    (values : List ℕ) (j : ℕ)
    → length values ≤ 65536
    → 0 < palette_bits (length (palette_indices values).0)
    → j < length values
    → let (palette, indices) = palette_indices values in
      let bits = palette_bits (length palette) in
      get_elem? palette (read_index bits (packed_words bits indices) j) ≡ get_elem? values j
storage-values values j small many lt =
    let (palette, indices) = palette_indices values in
    let bits = palette_bits (length palette) in
    let (within, found) =
      decode-get palette indices values j (palette_indices-decode values small) lt in
    let read =
      read_index-packed_words bits indices j many (palette_bits-le (length palette))
        (λ k i e. palette_indices-palette_bits values k i small e) within in
    rw read found
