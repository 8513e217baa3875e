-- ===== src/Network/RoundTrip.antt =====
-- Batches between the two ends of a connection
-- (internal/network/mcpe/codec.go).
use open_ai_mc_be_server.Prelude.{
  ℕ, ◌%◌, ◌≤◌, ◌≡◌, refl, sym, ap, ◌∙◌, false, List, ◌∷◌, Option, none, some, arith, inl, inr, ltb,
  ◌==◌, ==_iff, Bool-cases, Option-cases, length,
}
use open_ai_mc_be_server.Network.Codec.{
  Bytes, Compression, Library, CryptState, BatchEncryption, Codec, encrypt, encode_body,
  compress_body, decompress_body, encode_batch, decode_batch, seal, seal_if, unseal, opened, tag,
}
use open_ai_mc_be_server.Network.Stream.{
  Laws, Restores, Trusted, AllShort, read_packets-encode_body, verify-decrypt,
}

abbrev pub outgoing_of : Option BatchEncryption → Option CryptState
outgoing_of none = none
outgoing_of (some enc) = some enc.outgoing

abbrev pub incoming_of : Option BatchEncryption → Option CryptState
incoming_of none = none
incoming_of (some enc) = some enc.incoming

-- Both codecs have the same compression, the receiver accepts batches of up to `limit` bytes, and its
-- incoming stream is where the sender's outgoing one is.
pub record IsPaired (compression : Option Compression) (limit : ℕ) (sender receiver : Codec)
    : Type 0 where
  pub sends : sender.compression ≡ compression
  pub receives : receiver.compression ≡ compression
  pub accepts : receiver.max_decompressed_len ≡ limit
  pub same_stream : incoming_of receiver.encryption ≡ outgoing_of sender.encryption

-- A batch within the limits.
pub record Fits (lib : Library) (limit : ℕ) (packets : List Bytes) : Type 0 where
  pub short : AllShort packets
  pub within : length (encode_body lib packets) ≤ limit
  pub few : length packets ≤ 812

module _ (lib : Library) (laws : Laws lib) where
  -- What `compress_body` made goes through `decompress_body`, for the compression that it chose.
  expand-found :
      (c : Compression) (body z : Bytes) (limit : ℕ)
      → Restores lib c
      → c.compress body ≡ some z
      → length body ≤ limit
      → decompress_body lib (some c) (c.encode_compression % 256 ∷ z) limit ≡ some body
  unfolding decompress_body
  expand-found c body z limit r e le =
      let small : c.encode_compression % 256 ≡ c.encode_compression = omega (arith, r.small_id) in
      let tagged : (c.encode_compression == 255) ≡ false = ground (arith, r.small_id) in
      rw (small, tagged, r.found, (==_iff c.encode_compression c.encode_compression).1 refl)
        (r.restores body z limit e le)

  plain-found :
      (c : Compression) (body : Bytes) (limit : ℕ)
      → decompress_body lib (some c) (lib.nop_compression.encode_compression % 256 ∷ body) limit
        ≡ some body
  unfolding decompress_body
  plain-found c body limit = rw laws.nop_id refl

  tag-some :
      (c : Compression) (o : Option Bytes) (z : Bytes)
      → tag lib c o ≡ some z
      → (y : Bytes) × (o ≡ some y) × (z ≡ c.encode_compression % 256 ∷ y)
  tag-some c none z e = cc
  tag-some c (some y) z e = (y, refl, cc)

  none-compress :
      (body z : Bytes) (limit : ℕ)
      → some body ≡ some z
      → decompress_body lib none z limit ≡ some body
  unfolding decompress_body
  none-compress body z limit e = sym e

  decompress-compress :
      (compression : Option Compression) (threshold limit : ℕ) (body z : Bytes)
      → Trusted lib compression
      → compress_body lib compression threshold body ≡ some z
      → length body ≤ limit
      → decompress_body lib compression z limit ≡ some body
  unfolding compress_body
  decompress-compress none threshold limit body z t e le = none-compress body z limit e
  decompress-compress (some c) threshold limit body z t e le =
      elim (Bool-cases (ltb (length body) threshold)) [
        | inl small ↦
            let (y, copied, tagged) = tag-some lib.nop_compression _ z (rw small at e) in
            let same : some body ≡ some y = sym (laws.nop_copies body) ∙ copied in
            let copy : body ≡ y = cc in rw (tagged, ← copy) (plain-found c body limit)
        | inr large ↦
            let (y, made, tagged) = tag-some c _ z (rw large at e) in
            rw tagged (expand-found c body y limit t made le)
      ]

  -- What is sent after the header.
  abbrev sealed : Option BatchEncryption → Bytes → Bytes
  sealed none body = body
  sealed (some enc) body = (encrypt lib enc.outgoing body).0

  seal-batch :
      (oe : Option BatchEncryption) (body : Bytes) (c : Codec)
      → (seal lib oe body c).0 ≡ 254 ∷ sealed oe body
  seal-batch none body c = refl
  seal-batch (some enc) body c = refl

  unseal-sealed :
      (compression : Option Compression) (limit : ℕ) (oe od : Option BatchEncryption) (body : Bytes)
      (sender receiver : Codec)
      → sender.encryption ≡ oe
      → receiver.encryption ≡ od
      → IsPaired compression limit sender receiver
      → let (plain, receiver') = unseal lib od (sealed oe body) receiver in
        (plain ≡ some body) × IsPaired compression limit (seal lib oe body sender).1 receiver'
  unseal-sealed compression limit none none body sender receiver e f paired = (refl, paired)
  unseal-sealed compression limit none (some enc') body sender receiver e f paired =
      let no : incoming_of (some enc') ≡ outgoing_of none =
        ap incoming_of (sym f) ∙ paired.same_stream ∙ ap outgoing_of e in
      cc
  unseal-sealed compression limit (some enc) none body sender receiver e f paired =
      let no : incoming_of none ≡ outgoing_of (some enc) =
        ap incoming_of (sym f) ∙ paired.same_stream ∙ ap outgoing_of e in
      cc
  unseal-sealed compression limit (some enc) (some enc') body sender receiver e f paired =
      let same : incoming_of (some enc') ≡ outgoing_of (some enc) =
        ap incoming_of (sym f) ∙ paired.same_stream ∙ ap outgoing_of e in
      let step : enc'.incoming ≡ enc.outgoing = cc in
      let checked = verify-decrypt lib laws enc.outgoing body in
      rw (step, checked)
        (
          refl,
          record {
            sends = paired.sends;
            receives = paired.receives;
            accepts = paired.accepts;
            same_stream = refl;
          },
        )

  decode-seal :
      (compression : Option Compression) (limit : ℕ) (sender receiver : Codec) (body : Bytes)
      → IsPaired compression limit sender receiver
      → let (batch, sender') = seal lib sender.encryption body sender in
        let (packets, receiver') = decode_batch lib batch receiver in
        (packets ≡ opened lib (some body) receiver) × IsPaired compression limit sender' receiver'
  unfolding decode_batch
  decode-seal compression limit sender receiver body paired =
      let u =
        unseal-sealed compression limit sender.encryption receiver.encryption body sender receiver
          refl refl paired in
      rw (seal-batch sender.encryption body sender)
        (ap (λ plain. opened lib plain receiver) u.0, u.1)

  opened-body :
      (compression : Option Compression) (limit : ℕ) (sender receiver : Codec)
      (packets : List Bytes) (z : Bytes)
      → Trusted lib compression
      → IsPaired compression limit sender receiver
      → Fits lib limit packets
      → compress_body lib sender.compression sender.compression_threshold (encode_body lib packets)
        ≡ some z
      → opened lib (some z) receiver ≡ some packets
  opened-body compression limit sender receiver packets z t paired fits e =
      let body = encode_body lib packets in
      let plain : decompress_body lib receiver.compression z receiver.max_decompressed_len
          ≡ some body =
        rw (paired.receives, paired.accepts)
          (decompress-compress compression sender.compression_threshold limit body z t
            (rw paired.sends at e) fits.within) in
      let read = read_packets-encode_body lib laws packets (length body) fits.short (omega arith) in
      let few : ltb 812 (length packets) ≡ false = ground (arith, fits.few) in
      rw (plain, read, few) refl

  some-injective : (a b : Bytes) → some a ≡ some b → a ≡ b
  some-injective a b e = cc

  no-batch :
      {P : Type 0} (c c' : Codec) (batch : Bytes) → (seal_if lib none c) ≡ (some batch, c') → P
  no-batch c c' batch e = cc

  -- Under the documented laws of the libraries, a batch within the limits that `EncodeBatch`
  -- makes without an error is decoded by a paired codec to the same packets, and the two
  -- codecs, with their counters and cipher streams, stay paired.
  pub decode_batch-encode_batch :
      (compression : Option Compression) (limit : ℕ) (sender receiver : Codec)
      (packets : List Bytes) {batch : Bytes} {sender' : Codec}
      → Trusted lib compression
      → IsPaired compression limit sender receiver
      → Fits lib limit packets
      → encode_batch lib packets sender ≡ (some batch, sender')
      → let (result, receiver') = decode_batch lib batch receiver in
        (result ≡ some packets) × IsPaired compression limit sender' receiver'
  unfolding encode_batch
  decode_batch-encode_batch compression limit sender receiver packets {batch = batch}
        {sender' = sender'} t paired fits e =
      let body = encode_body lib packets in
      elim (Option-cases (compress_body lib sender.compression sender.compression_threshold body)) [
        | inl none_made ↦ no-batch sender sender' batch (rw none_made at e)
        | inr (z, made) ↦
            let sent = decode-seal compression limit sender receiver z paired in
            let same : (
              some (seal lib sender.encryption z sender).0,
              (seal lib sender.encryption z sender).1,
            )
                ≡ (some batch, sender') =
              rw made at e in
            let wire : (seal lib sender.encryption z sender).0 ≡ batch =
              some-injective _ _ (ap (λ r. r.0) same) in
            let next : (seal lib sender.encryption z sender).1 ≡ sender' = ap (λ r. r.1) same in
            rw (← wire, ← next)
              (
                sent.0 ∙ opened-body compression limit sender receiver packets z t paired fits made,
                sent.1,
              )
      ]
