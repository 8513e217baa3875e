-- ===== src/Network/Stream.antt =====
-- The packets of a body, and its encryption, at the two ends of a connection (internal/network/mcpe/codec.go).
use open_ai_mc_be_server.Prelude.{
  ◌≢◌, length-drop, ◌⊎◌, ℕ, zero, suc, ◌+◌, ◌-◌, ◌%◌, ◌<◌, ◌≤◌, ◌≡◌, refl, sym, ap, ◌∙◌, true,
  false, List, [], ◌∷◌, ◌++◌, Option, none, some, arith, inl, inr, ltb, ==_iff, Bool-cases, length,
  take, drop, length-append, length-take, take-append, drop-append,
}
use open_ai_mc_be_server.Network.Codec.{
  malformed, out_of_rounds, Packets, packets_read, little_endian, prepend, Bytes, Compression,
  Library, CryptState, checksum, encrypt, decrypt, bytes_equal, verify, encode_body, read_packets,
  next_payload, advance, count_packet,
}

-- What the libraries document: a varuint32 reads back, counter mode is its own inverse and keeps the
-- length, a SHA-256 hash has 32 bytes, and `NopCompression` copies.
pub record Laws (lib : Library) : Type 0 where
  pub read_written :
      (n : ℕ) (rest : Bytes)
      → n < 4294967296
      → lib.read_varuint32 (lib.write_varuint32 n ++ rest) ≡ some (n, rest)
  pub read_empty : lib.read_varuint32 [] ≡ none
  pub xor_twice :
      (key : Bytes) (used : ℕ) (body : Bytes)
      → lib.xor_key_stream key used (lib.xor_key_stream key used body) ≡ body
  pub xor_length :
      (key : Bytes) (used : ℕ) (body : Bytes)
      → length (lib.xor_key_stream key used body) ≡ length body
  pub hash_length : (body : Bytes) → length (lib.sha256 body) ≡ 32
  pub nop_id : lib.nop_compression.encode_compression % 256 ≡ 255
  pub nop_copies : (body : Bytes) → lib.nop_compression.compress body ≡ some body

-- What an algorithm documents: it is found by its id, which is a byte and not that of no
-- compression, and it restores what it compressed, up to the limit.
pub record Restores (lib : Library) (c : Compression) : Type 0 where
  pub small_id : c.encode_compression < 255
  pub found : lib.compression_by_id c.encode_compression ≡ some c
  pub restores :
      (body z : Bytes) (limit : ℕ)
      → c.compress body ≡ some z
      → length body ≤ limit
      → c.decompress z limit ≡ some body

abbrev pub AllShort : List Bytes → Type 0
AllShort [] = Unit {0}
AllShort (p ∷ packets) = (length p < 4294967296) × AllShort packets

abbrev pub Trusted : Library → Option Compression → Type 0
Trusted lib none = Unit {0}
Trusted lib (some c) = Restores lib c

bytes_equal_self : (lib : Library) (xs : Bytes) → bytes_equal lib xs xs ≡ true
bytes_equal_self lib [] = refl
bytes_equal_self lib (x ∷ xs) = rw ((==_iff x x).1 refl, bytes_equal_self lib xs) refl

empty_or_not : (xs : Bytes) → (xs ≡ []) ⊎ (0 < length xs)
empty_or_not [] = inl refl
empty_or_not (x ∷ xs) = inr (omega arith)

module _ (lib : Library) (laws : Laws lib) where
  write-pos : (n : ℕ) → n < 4294967296 → 0 < length (lib.write_varuint32 n)
  write-pos n small = elim (empty_or_not (lib.write_varuint32 n)) [
    | inl e ↦
        let read : lib.read_varuint32 [] ≡ some (n, []) =
          ap (λ w. lib.read_varuint32 (w ++ [])) (sym e) ∙ laws.read_written n [] small in
        let empty : lib.read_varuint32 [] ≡ none = laws.read_empty in cc
    | inr h ↦ h
  ]

  read_packets-step :
      (fuel : ℕ) (body : Bytes)
      → 0 < length body
      → read_packets lib (suc fuel) body
        ≡ next_payload lib (read_packets lib fuel) (lib.read_varuint32 body)
  unfolding read_packets
  read_packets-step fuel [] h = elim h [ ]
  read_packets-step fuel (b ∷ bs) h = refl

  read_packets-nil : (fuel : ℕ) → read_packets lib fuel [] ≡ packets_read []
  unfolding read_packets
  read_packets-nil zero = refl
  read_packets-nil (suc fuel) = refl

  -- A written packet is longer than its payload.
  written-length :
      (p others : Bytes)
      → length p < 4294967296
      → length p + length others
        < length (lib.write_varuint32 (length p % 4294967296) ++ (p ++ others))
  written-length p others small = omega (
    arith,
    write-pos (length p % 4294967296) (omega arith),
    length-append (lib.write_varuint32 (length p % 4294967296)) (p ++ others),
    length-append p others,
  )

  next_payload-append :
      (fuel : ℕ) (p others : Bytes)
      → next_payload lib (read_packets lib fuel) (some (length p, p ++ others))
        ≡ prepend lib p (read_packets lib fuel others)
  next_payload-append fuel p others =
      let fits : ltb (length (p ++ others)) (length p) ≡ false =
        rw (length-append p others) (ground arith) in
      rw (fits, take-append p others, drop-append p others) refl

  pub read_packets-encode_body :
      (packets : List Bytes) (fuel : ℕ)
      → AllShort packets
      → length (encode_body lib packets) ≤ fuel
      → read_packets lib fuel (encode_body lib packets) ≡ packets_read packets
  unfolding encode_body
  read_packets-encode_body [] fuel s enough = read_packets-nil fuel
  read_packets-encode_body (p ∷ packets) zero s enough =
      absurd (omega (arith, written-length p (encode_body lib packets) s.0))
  read_packets-encode_body (p ∷ packets) (suc fuel) s enough =
      let others = encode_body lib packets in
      let n = length p in
      let small : n % 4294967296 ≡ n = omega (arith, s.0) in
      let more = written-length p others s.0 in
      let read : lib.read_varuint32 (encode_body lib (p ∷ packets)) ≡ some (n, p ++ others) =
        rw small (laws.read_written n (p ++ others) s.0) in
      read_packets-step fuel _ (omega (arith, more))
      ∙ ap (next_payload lib (read_packets lib fuel)) read
      ∙ next_payload-append fuel p others
      ∙ ap (prepend lib p)
          (read_packets-encode_body packets fuel s.1 (omega (arith, more, length-append p others)))

  checksum-length : (state : CryptState) (body : Bytes) → length (checksum lib state body) ≡ 8
  unfolding checksum
  checksum-length state body = omega (
    arith,
    length-take 8 (lib.sha256 (little_endian 8 state.counter ++ (body ++ state.key))),
    laws.hash_length (little_endian 8 state.counter ++ (body ++ state.key)),
  )

  verify-append :
      (state : CryptState) (body : Bytes)
      → verify lib state (body ++ checksum lib state body) ≡ (some body, count_packet lib state)
  unfolding verify
  verify-append state body =
      let sum = checksum lib state body in
      let size : length (body ++ sum) ≡ length body + 8 =
        length-append body sum ∙ ap (λ k. length body + k) (checksum-length state body) in
      let end : length (body ++ sum) - 8 ≡ length body = omega (arith, size) in
      let long : ltb (length (body ++ sum)) 8 ≡ false = ground (arith, size) in
      rw (long, end, take-append body sum, drop-append body sum, bytes_equal_self lib sum) refl

  -- The incoming stream that follows the outgoing one.
  pub verify-decrypt :
      (state : CryptState) (body : Bytes)
      → let (sealed, next) = encrypt lib state body in
        let (plain, state') = decrypt lib state sealed in
        verify lib state' plain ≡ (some body, next)
  unfolding encrypt decrypt checksum
  verify-decrypt state body =
      let sum = checksum lib state body in
      let whole = body ++ sum in
      rw (laws.xor_twice state.key state.used whole, laws.xor_length state.key state.used whole)
        (verify-append (advance lib (length whole) state) body)

-- A varuint32 takes a byte at least.
pub record Shortens (lib : Library) : Type 0 where
  pub shorter :
      (body : Bytes) (n : ℕ) (rest : Bytes)
      → lib.read_varuint32 body ≡ some (n, rest)
      → length rest < length body

module _ (lib : Library) (short : Shortens lib) where
  prepend-ends :
      (payload : Bytes) (others : Packets)
      → others ≢ out_of_rounds
      → prepend lib payload others ≢ out_of_rounds
  prepend-ends payload out_of_rounds ends = λ e. ends refl
  prepend-ends payload malformed ends = λ e. cc
  prepend-ends payload (packets_read packets) ends = λ e. cc

  next_payload-fuel :
      (f g : ℕ) (body : Bytes) (o : Option (ℕ × Bytes))
      → lib.read_varuint32 body ≡ o
      → ((rest : Bytes)
          → length rest < length body
          → (read_packets lib f rest ≢ out_of_rounds)
            × (read_packets lib f rest ≡ read_packets lib g rest))
      → (next_payload lib (read_packets lib f) o ≢ out_of_rounds)
        × (next_payload lib (read_packets lib f) o ≡ next_payload lib (read_packets lib g) o)
  next_payload-fuel f g body none e ih = (λ h. cc, refl)
  next_payload-fuel f g body (some (n, rest)) e ih = elim (Bool-cases (ltb (length rest) n)) [
    | inl h ↦ rw h (λ h. cc, refl)
    | inr h ↦
        let less = short.shorter body n rest e in
        let (ends, same) = ih (drop n rest) (omega (arith, length-drop n rest, less)) in
        rw h (
          prepend-ends (take n rest) (read_packets lib f (drop n rest)) ends,
          ap (prepend lib (take n rest)) same,
        )
  ]

  -- If reading a varuint32 takes a byte at least, the loop of `DecodeBatch` over the packets
  -- of a body ends: from as many rounds as the body has bytes on, it does not run out of
  -- rounds, but ends in packets or in an error, and more rounds give the same.
  pub read_packets_fuel :
      (rounds more : ℕ) (body : Bytes)
      → length body ≤ rounds
      → length body ≤ more
      → (read_packets lib rounds body ≢ out_of_rounds)
        × (read_packets lib rounds body ≡ read_packets lib more body)
  unfolding read_packets
  read_packets_fuel zero zero [] h k = (λ e. cc, refl)
  read_packets_fuel zero (suc more) [] h k = (λ e. cc, refl)
  read_packets_fuel (suc rounds) zero [] h k = (λ e. cc, refl)
  read_packets_fuel (suc rounds) (suc more) [] h k = (λ e. cc, refl)
  read_packets_fuel zero more (b ∷ bs) h k = absurd (omega arith)
  read_packets_fuel (suc rounds) zero (b ∷ bs) h k = absurd (omega arith)
  read_packets_fuel (suc rounds) (suc more) (b ∷ bs) h k =
      next_payload-fuel rounds more (b ∷ bs) (lib.read_varuint32 (b ∷ bs)) refl
        (λ rest less. read_packets_fuel rounds more rest (omega (arith, h)) (omega (arith, k)))
