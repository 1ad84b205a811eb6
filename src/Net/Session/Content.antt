-- ===== src/Net/Session/Content.antt =====
-- What a file that was fetched holds.
use ripsync.Prelude.{
  ℕ, ◌<◌, ◌≡◌, ap, arith, Bool, true, false, Option, none, some, List, length, ok, Bool-cases,
  Option-cases, inl, inr,
}
use ripsync.Prelude.Words.{u32_mod}
use ripsync.Prelude.Int.{ℤ}
use ripsync.Errors.{Outcome}
use ripsync.Disk.{Disk}
use ripsync.Delta.{encode, block_choice, block_size_for}
use ripsync.Delta.RoundTrip.{NoCollision}
use ripsync.Delta.Codec.{apply-encode}
use ripsync.Net.Proto.{NetOptions, NetEntry, Data, Msg}
use ripsync.Net.Sender.{Codecs, Source, answer, whole_data}
use ripsync.Net.Receiver.{request_for, bytes_in, unpack, or_empty, applied, whole_bytes}

block_size_for-lt-u32_mod : (sqrt_round : ℕ → ℕ) (n : ℕ) → block_size_for sqrt_round n < u32_mod
unfolding block_size_for
block_size_for-lt-u32_mod sqrt_round n = omega arith

-- zstd decodes what it encoded.
abbrev pub Packs : Codecs → Type 0
Packs c =
    (level : ℤ) (bytes packed : List ℕ)
    → c.zstd_encode level bytes ≡ some packed
    → c.zstd_decode packed ≡ some bytes

-- The delta codec's conditions on the old file and the new one.
abbrev pub Fine : Codecs → List ℕ → List ℕ → Type 0
Fine c old bytes =
    (length old < u32_mod)
    × NoCollision c.blake3_hash (block_choice c.blake3_hash c.sqrt_round (length old) none) old
        bytes

module _ {S : Type 0} (disk : Disk S) (c : Codecs) (options : NetOptions) (source : Source)
    (packs : Packs c) where
  whole_read :
      (bytes : List ℕ) → whole_bytes c (Msg.data_of (whole_data c options bytes)) ≡ ok (some bytes)
  unfolding whole_data unpack
  whole_read bytes = elim (Bool-cases options.compress) [
    | inr f ↦ rw f
    | inl t ↦ elim (Option-cases (c.zstd_encode options.compress_level bytes)) [
      | inl n ↦ rw (t, n)
      | inr (packed, z) ↦ rw (t, z) (ap ok (packs options.compress_level bytes packed z))
    ]
  ]

  -- A file of the source that can be read is taken by the receiver byte for byte, whole or as a
  -- delta against any old file, where zstd decodes what it encoded, the old file is shorter than
  -- 2 ^ 32 bytes and the strong hash does not confuse a window of the file with a block of the old
  -- one.
  pub bytes_in-answer :
      (e : NetEntry) (use_delta : Bool) (old : Option (List ℕ)) (bytes : List ℕ)
      → source.read e.rel ≡ some bytes
      → Fine c (or_empty old) bytes
      → (reply : Data) × (answer c options source (request_for disk c options e use_delta old)
          ≡ some reply)
        × (bytes_in disk c options use_delta old (Msg.data_of reply) ≡ ok (some bytes))
  unfolding answer request_for bytes_in encode
  bytes_in-answer e false old bytes r fine = (whole_data c options bytes, rw (r), whole_read bytes)
  bytes_in-answer e true old bytes r fine =
      let (d, encoded, restored) =
        apply-encode c.blake3_hash c.sqrt_round (or_empty old) bytes none fine.0
          (block_size_for-lt-u32_mod c.sqrt_round (length (or_empty old))) fine.1 in
      (Data.delta d, rw (r) (rw (encoded)), ap (λ (b : Outcome (List ℕ)). ok (applied b)) restored)
