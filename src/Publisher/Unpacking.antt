-- ===== src/Publisher/Unpacking.antt =====
-- A client's reading of packed indices (internal/server/chunk_publisher.go,
-- `writePackedIndices`).
use mathlib.Core.List.{append_assoc, append-nil}
use open_ai_mc_be_server.Prelude.{
  ltb→lt, ltb, length-set, ap, get_or-append, get_or-append_last, inr, sym, true≢false, ==_iff,
  false, inl, ◌∙◌, get_or-set_ne, length-append, Bool-cases, get_or-set_self, ◌==◌, set, get_or,
  length, arith, suc, refl, ◌≡◌, ◌≢◌, ℕ, ◌+◌, ◌*◌, ◌/◌, ◌%◌, ◌^◌, ◌≤◌, ◌<◌, List, [], ◌∷◌, ◌++◌,
  ◌-◌,
}
use Prim.Native.Nat.{bit_or}
use native.Mathlib.Nat.{
  add-mul, pow-le-pow_right, lt_of_mul-lt-mul_right, pow-le-pow_right, mul-add-div_right,
  div-eq_of_lt, mod-eq_of_lt, add-mul-mod_self_right, mul_comm, suc-mul, mul-le-mul_right,
  div-mul-le_self, div-add-mod', mul_assoc, one-le-pow,
}
use open_ai_mc_be_server.Prelude.Bits.{bit_or-shifted, field_here, field_below, two_pow-add}
use open_ai_mc_be_server.Publisher.Packing.{per_word, placed, pack_from, read_index}

==_ne : (a b : ℕ) → (a == b) ≡ false → a ≢ b
==_ne a b e f = absurd (true≢false (sym ((==_iff a b).1 f) ∙ e))

pub power-pos : (n : ℕ) → 0 < 2 ^ n
power-pos n = let one = one-le-pow n 2 (omega arith) in omega (arith, one)

-- The word and the slot of an index.
module _ (per w t : ℕ) (lt : t < per) where
  div_at : (w * per + t) / per ≡ w
  div_at =
      let e = mul-add-div_right {m = per} (omega (arith, lt)) w t in
      let f = div-eq_of_lt lt in omega (arith, e, f)

  mod_at : (w * per + t) % per ≡ t
  mod_at =
      let swap : w * per + t ≡ t + w * per = omega arith in
      rw (swap, add-mul-mod_self_right t w per) (mod-eq_of_lt lt)

-- A slot of a word that is free so far.
module _ (bits t index old : ℕ) (inside : t * bits + bits ≤ 32) (small : index < 2 ^ bits)
    (low : old < 2 ^ (t * bits)) where
  full : old + index * 2 ^ (t * bits) < 2 ^ (t * bits + bits)
  full =
      let e = two_pow-add (t * bits) bits in
      let swap = mul_comm (2 ^ (t * bits)) (2 ^ bits) in
      let most =
        mul-le-mul_right {m = suc index} {n = 2 ^ bits} (2 ^ (t * bits)) (omega (arith, small)) in
      let step = suc-mul index (2 ^ (t * bits)) in omega (arith, low, e, swap, most, step)

  placed_lem : bit_or old (placed bits t index) ≡ old + index * 2 ^ (t * bits)
  placed_lem =
      let masked : index % 2 ^ bits ≡ index = mod-eq_of_lt small in
      let room : 2 ^ (t * bits + bits) ≤ 2 ^ 32 = pow-le-pow_right (omega arith) inside in
      let whole : index * 2 ^ (t * bits) < 2 ^ 32 = omega (arith, full, room) in
      rw (masked, mod-eq_of_lt whole) (bit_or-shifted (t * bits) old index low)

  -- An earlier slot of the word stays.
  kept :
      (s : ℕ)
      → s < t
      → (old + index * 2 ^ (t * bits)) / 2 ^ (s * bits) % 2 ^ bits ≡ old / 2 ^ (s * bits) % 2 ^ bits
  kept s lt =
      let e = t - s - 1 in
      let split : t ≡ s + suc e = omega (arith, lt) in
      let parts : t * bits ≡ e * bits + bits + s * bits =
        ap (λ (n : ℕ). n * bits) split ∙ omega (arith, add-mul s (suc e) bits, suc-mul e bits) in
      let shape : index * 2 ^ (t * bits) ≡ index * 2 ^ (e * bits) * 2 ^ bits * 2 ^ (s * bits) =
        rw (parts, two_pow-add (e * bits + bits) (s * bits), two_pow-add (e * bits) bits)
          (sym (mul_assoc index (2 ^ (e * bits) * 2 ^ bits) (2 ^ (s * bits)))
            ∙ ap (λ (n : ℕ). n * 2 ^ (s * bits))
                (sym (mul_assoc index (2 ^ (e * bits)) (2 ^ bits)))) in
      rw shape (
        field_below (2 ^ (s * bits)) (2 ^ bits) (power-pos (s * bits)) (power-pos bits) old
          (index * 2 ^ (e * bits)))

module _ (bits : ℕ) (pos : 0 < bits) (fits : bits ≤ 32) where
  -- The next index is for slot `t` of word `w`.
  pub record Packed (past : List ℕ) (w t : ℕ) (words : List ℕ) : Type 0 where
    pub counted : length past ≡ w * per_word bits + t
    pub reads : (j : ℕ) → j < length past → read_index bits words j ≡ get_or past j 0
    pub low : get_or words w 0 < 2 ^ (t * bits)
    pub free : (v : ℕ) → w < v → get_or words v 0 ≡ 0

  -- The words after one more index, in its slot.
  module _ (past : List ℕ) (w t index : ℕ) (words : List ℕ) (here : t < per_word bits)
      (small : index < 2 ^ bits) (there : w < length words) (inv : Packed past w t words) where
    abbrev stored : List ℕ
    stored = set words w (bit_or (get_or words w 0) (placed bits t index))

    inside : t * bits + bits ≤ 32
    inside =
        let most = mul-le-mul_right {m = suc t} {n = per_word bits} bits (omega (arith, here)) in
        omega (arith, most, suc-mul t bits, div-mul-le_self 32 bits)

    word_now : get_or stored w 0 ≡ get_or words w 0 + index * 2 ^ (t * bits)
    word_now =
        get_or-set_self words w _ 0 there
        ∙ placed_lem bits t index (get_or words w 0) inside small inv.low

    others : (v : ℕ) → w ≢ v → get_or stored v 0 ≡ get_or words v 0
    others v ne = get_or-set_ne words w v _ 0 ne

    reads_here : read_index bits stored (w * per_word bits + t) ≡ index
    unfolding read_index
    reads_here =
        rw (div_at (per_word bits) w t here, mod_at (per_word bits) w t here, word_now)
          (field_here (2 ^ (t * bits)) (2 ^ bits) (power-pos (t * bits)) (power-pos bits)
            (get_or words w 0) index inv.low small)

    reads_past :
        (j : ℕ) → j < w * per_word bits + t → read_index bits stored j ≡ read_index bits words j
    unfolding read_index
    reads_past j lt = elim (Bool-cases (w == j / per_word bits)) [
      | inl same ↦
          let word : j / per_word bits ≡ w = sym ((==_iff w (j / per_word bits)).0 same) in
          let whole : w * per_word bits + j % per_word bits ≡ j =
            rw word at (div-add-mod' j (per_word bits)) in
          rw (word, word_now)
            (kept bits t index (get_or words w 0) inside small inv.low (j % per_word bits)
              (omega (arith, whole, lt)))
      | inr apart ↦ rw (others (j / per_word bits) (==_ne w (j / per_word bits) apart)) refl
    ]

    reads_all :
        (j : ℕ)
        → j < length (past ++ index ∷ [])
        → read_index bits stored j ≡ get_or (past ++ index ∷ []) j 0
    reads_all j lt = elim (Bool-cases (j == length past)) [
      | inl last ↦
          let at : j ≡ length past = (==_iff j (length past)).0 last in
          rw (at, get_or-append_last past index 0, inv.counted) reads_here
      | inr before ↦
          let earlier : j < length past =
            omega (arith, lt, length-append past (index ∷ []), ==_ne j (length past) before) in
          reads_past j (omega (arith, earlier, inv.counted))
          ∙ inv.reads j earlier
          ∙ sym (get_or-append past (index ∷ []) j 0 earlier)
    ]

    next_slot : suc t < per_word bits → Packed (past ++ index ∷ []) w (suc t) stored
    next_slot more = record {
      counted = omega (arith, length-append past (index ∷ []), inv.counted);
      reads = reads_all;
      low =
          rw (word_now, suc-mul t bits) (full bits t index (get_or words w 0) inside small inv.low);
      free = λ v lt. others v (λ e. absurd (omega (arith, e, lt))) ∙ inv.free v lt;
    }

    next_word : suc t ≡ per_word bits → Packed (past ++ index ∷ []) (suc w) 0 stored
    next_word end = record {
      counted =
          omega
            (arith, length-append past (index ∷ []), inv.counted, end, suc-mul w (per_word bits));
      reads = reads_all;
      low =
          rw (others (suc w) (λ e. absurd (omega (arith, e))) ∙ inv.free (suc w) (omega arith))
            (power-pos (0 * bits));
      free = λ v lt. others v (λ e. absurd (omega (arith, e, lt))) ∙ inv.free v (omega (arith, lt));
    }

  -- What the loop needs of the indices that are left.
  abbrev pub AllBelow : List ℕ → Type 0
  AllBelow [] = Unit {0}
  AllBelow (index ∷ indices) = (index < 2 ^ bits) × AllBelow indices

  pub loop_reads :
      (indices past : List ℕ) (w t : ℕ) (words : List ℕ)
      → Packed past w t words
      → t < per_word bits
      → AllBelow indices
      → length past + length indices ≤ length words * per_word bits
      → (j : ℕ) → j < length (past ++ indices)
      → read_index bits (pack_from bits (length past) indices words) j
        ≡ get_or (past ++ indices) j 0
  unfolding pack_from
  loop_reads [] past w t words inv here below room j lt =
      rw (append-nil past) (inv.reads j (omega (arith, lt, length-append past [])))
  loop_reads (index ∷ indices) past w t words inv here below room j lt =
      let place : length past ≡ w * per_word bits + t = inv.counted in
      let there : w < length words =
        lt_of_mul-lt-mul_right (per_word bits) (omega (arith, place, room)) in
      let one_more = length-append past (index ∷ []) in
      let counted : length (past ++ index ∷ []) ≡ suc (length past) = omega (arith, one_more) in
      let new_words = stored past w t index words here below.0 there inv in
      let room' : length (past ++ index ∷ []) + length indices ≤ length new_words * per_word bits =
        rw (length-set words w (bit_or (get_or words w 0) (placed bits t index)))
          (omega (arith, counted, room)) in
      let joined = append_assoc past (index ∷ []) indices in
      let at : (past ++ index ∷ []) ++ indices ≡ past ++ index ∷ indices = joined in
      let lt' : j < length ((past ++ index ∷ []) ++ indices) = rw at lt in
      let finish : read_index bits (pack_from bits (length (past ++ index ∷ [])) indices new_words)
            j
          ≡ get_or ((past ++ index ∷ []) ++ indices) j 0 =
        elim (Bool-cases (ltb (suc t) (per_word bits))) [
          | inl more ↦
              loop_reads indices (past ++ index ∷ []) w (suc t) new_words
                (next_slot past w t index words here below.0 there inv
                  (ltb→lt (suc t) (per_word bits) more))
                (ltb→lt (suc t) (per_word bits) more) below.1 room' j lt'
          | inr full_word ↦
              let end : suc t ≡ per_word bits = ground (arith, full_word, here) in
              loop_reads indices (past ++ index ∷ []) (suc w) 0 new_words
                (next_word past w t index words here below.0 there inv end) (omega (arith, end))
                below.1 room' j lt'
        ] in
      rw
        (
          place,
          div_at (per_word bits) w t here,
          mod_at (per_word bits) w t here,
          ← place,
          ← counted,
          ← at,
        )
        finish
