-- ===== src/Publisher/Layers.antt =====
-- The loop of `encodeSubChunk` over the layers (internal/server/chunk_publisher.go).
use open_ai_mc_be_server.Network.Codec.{Bytes}
use open_ai_mc_be_server.Prelude.{
  ◌%◌, true, false, ltb, arith, none, some, ◌≤◌, ◌≡◌, ◌++◌, [], ◌+◌, ◌<◌, ℕ, zero, suc, refl,
}
use open_ai_mc_be_server.Publisher.Storage.{layers_from}

-- The storages of the layers from `layer` on, `n` of them.
abbrev pub storages : (ℕ → Bytes) → ℕ → ℕ → Bytes
storages storage layer zero = []
storages storage layer (suc n) = storage layer ++ storages storage (suc layer) n

-- For up to 255 layers, the loop over the layers of a sub chunk ends, with one storage for each
-- layer in order, in one round more than it has layers.
pub layers_from-ends :
    (storage : ℕ → Bytes) (layer n fuel : ℕ)
    → layer + n ≤ 255
    → n < fuel
    → layers_from storage fuel layer (layer + n) ≡ some (storages storage layer n)
unfolding layers_from
layers_from-ends storage layer n zero fits enough = absurd (omega (arith, enough))
layers_from-ends storage layer zero (suc fuel) fits enough =
    let done : ltb layer (layer + 0) ≡ false = ground arith in rw done refl
layers_from-ends storage layer (suc n) (suc fuel) fits enough =
    let more : ltb layer (layer + suc n) ≡ true = ground arith in
    let next : (layer + 1) % 256 ≡ suc layer = omega (arith, fits) in
    let total : layer + suc n ≡ suc layer + n = omega arith in
    let rest =
      layers_from-ends storage (suc layer) n fuel (omega (arith, fits)) (omega (arith, enough)) in
    rw (more, next, total, rest) refl

-- For 256 layers, the loop over the layers of a sub chunk does not end from any layer below 256,
-- with however many rounds: its uint8 variable wraps around.
pub layers_from-256 :
    (storage : ℕ → Bytes) (fuel layer : ℕ) → layer < 256 → layers_from storage fuel layer 256 ≡ none
unfolding layers_from
layers_from-256 storage zero layer lt = refl
layers_from-256 storage (suc fuel) layer lt =
    let more : ltb layer 256 ≡ true = ground (arith, lt) in
    rw (more, layers_from-256 storage fuel ((layer + 1) % 256) (omega arith)) refl
