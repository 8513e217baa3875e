-- ===== src/ResourcePack/Chunks.antt =====
-- The chunks of a pack and how many of them its data info announces
-- (internal/resourcepack/resourcepack.go, `DataInfo` and `Chunk`).
use open_ai_mc_be_server.Prelude.{
  zero, suc, refl, take_all, length-drop, if◌then◌else◌, leb, ltb, ◌%◌, ◌==◌, take-append-drop,
  drop-add, ◌++◌, true, false, some, ◌/◌, drop, ◌≤◌, length, ◌-◌, arith, ◌*◌, ◌+◌, ◌<◌, take, suc,
  List, ℕ, ◌≡◌,
}
use native.Mathlib.Nat.{zero-mul, div-add-mod', mod-lt, suc-mul, zero-mul}
use open_ai_mc_be_server.ResourcePack.Pack.{Pack, chunk, size_or_default}

-- What comes after a chunk, if it is not the last one, and that one.
pub take-drop :
    {A : Type 0} (xs : List A) (offset k : ℕ)
    → take (offset + k - offset) (drop offset xs) ++ drop (offset + k) xs ≡ drop offset xs
take-drop xs offset k =
    let room : offset + k - offset ≡ k = omega arith in
    rw (room, drop-add offset k xs) (take-append-drop k (drop offset xs))

pub size_or_default-pos : (k : ℕ) → 0 < k → size_or_default k ≡ k
size_or_default-pos k pos = ground (arith, pos)

-- The announced number of chunks of a pack with data: the last of them starts within the data and
-- reaches its end.
pub record Counts (k size count : ℕ) : Type 0 where
  pub before : ℕ
  pub counted : count ≡ suc before
  pub starts : before * k < size
  pub reaches : size ≤ before * k + k

module _ (k : ℕ) (pos : 0 < k) where
  pub rounded_up : (size : ℕ) → 0 < size → Counts k size ((size + k - 1) / k)
  rounded_up size some_data =
      let n = (size + k - 1) / k in
      let whole : n * k + (size + k - 1) % k ≡ size + k - 1 = div-add-mod' (size + k - 1) k in
      let rest = mod-lt (size + k - 1) pos in counts n whole rest
    where
      counts : (n : ℕ) {r : ℕ} → n * k + r ≡ size + k - 1 → r < k → Counts k size n
      counts zero e lt = absurd (omega (arith, e, lt, pos, some_data, zero-mul k))
      counts (suc m) e lt = record {
        before = m;
        counted = refl;
        starts = omega (arith, e, lt, pos, some_data, suc-mul m k);
        reaches = omega (arith, e, lt, pos, some_data, suc-mul m k);
      }

  -- A chunk that is not the last one.
  pub chunk-inner :
      (index : ℕ) (pack : Pack)
      → index * k + k < length pack.content
      → chunk k index pack
        ≡ some (
          record {
            uuid = pack.uuid;
            chunk_index = index;
            data_offset = index * k;
            payload = take (index * k + k - index * k) (drop (index * k) pack.content);
          },
          false,
        )
  unfolding chunk
  chunk-inner index pack lt =
      let off = index * k in
      let size = length pack.content in
      let given : (k == 0) ≡ false = ground (arith, pos) in
      let inside : ltb size off ≡ false = ground (arith, lt) in
      let uncut : ltb size (off + k) ≡ false = ground (arith, lt) in
      let more : leb size (off + k) ≡ false = ground (arith, lt) in
      rw (given, inside, uncut, more) refl

  pub chunk-last :
      (index : ℕ) (pack : Pack)
      → index * k ≤ length pack.content
      → length pack.content ≤ index * k + k
      → chunk k index pack
        ≡ some (
          record {
            uuid = pack.uuid;
            chunk_index = index;
            data_offset = index * k;
            payload = drop (index * k) pack.content;
          },
          true,
        )
  unfolding chunk
  chunk-last index pack starts reaches =
      let off = index * k in
      let xs = pack.content in
      let size = length xs in
      let given : (k == 0) ≡ false = ground (arith, pos) in
      let inside : ltb size off ≡ false = ground (arith, starts) in
      let end : (if ltb size (off + k) then size else off + k) ≡ size = ground (arith, reaches) in
      let done : leb size size ≡ true = ground arith in
      let room : length (drop off xs) ≤ size - off = omega (arith, length-drop off xs) in
      rw (given, inside, end, done, take_all (size - off) (drop off xs) room) refl
