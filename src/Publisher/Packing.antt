-- ===== src/Publisher/Packing.antt =====
-- The indices of a storage in 32-bit words (internal/server/chunk_publisher.go,
-- `writePackedIndices`), and how a client reads them.
use open_ai_mc_be_server.Network.Codec.{Bytes}
use open_ai_mc_be_server.Prelude.{
  set, [], length, ◌++◌, ◌∷◌, replicate, get_or, List, ℕ, suc, ◌+◌, ◌*◌, ◌-◌, ◌/◌, ◌%◌, ◌^◌,
}
use Prim.Native.Nat.{bit_or}

abbrev pub per_word : ℕ → ℕ
per_word bits = 32 / bits

-- `(uint32(index) & mask) << bitOffset`; the mask keeps the low `bits` bits.
abbrev pub placed : ℕ → ℕ → ℕ → ℕ
placed bits slot index = (index % 2 ^ bits * 2 ^ (slot * bits)) % 2 ^ 32

-- The loop over the indices, the next of which is number `i`.
unfoldable pub pack_from : ℕ → ℕ → List ℕ → List ℕ → List ℕ
pack_from bits i [] words = words
pack_from bits i (index ∷ indices) words =
    let w = i / per_word bits in
    let slot = i % per_word bits in
    pack_from bits (suc i) indices
      (set words w (bit_or (get_or words w 0) (placed bits slot index)))

unfoldable pub packed_words : ℕ → List ℕ → List ℕ
packed_words bits indices =
    let words = replicate ((length indices + per_word bits - 1) / per_word bits) 0 in
    pack_from bits 0 indices words

-- Little endian.
abbrev pub word_bytes : ℕ → Bytes
word_bytes word =
    word % 256 ∷ (word / 256) % 256 ∷ (word / 65536) % 256 ∷ (word / 16777216) % 256 ∷ []

abbrev pub words_bytes : List ℕ → Bytes
words_bytes [] = []
words_bytes (word ∷ words) = word_bytes word ++ words_bytes words

unfoldable pub write_packed_indices : ℕ → List ℕ → Bytes
write_packed_indices bits indices = words_bytes (packed_words bits indices)

-- A client's reading: index `i` out of the words.
unfoldable pub read_index : ℕ → List ℕ → ℕ → ℕ
read_index bits words i =
    get_or words (i / per_word bits) 0 / 2 ^ (i % per_word bits * bits) % 2 ^ bits
