-- ===== src/Delta/Tests.antt =====
-- Runs of the delta's theorems, with a digest that is the bytes themselves.
use ripsync.Prelude.{
  ℕ, ◌≡◌, ◌∙◌, sym, refl, ◌≤◌, arith, List, [], ◌∷◌, some, none, length, slice, ok, ◌*◌, drop,
  length-take, take_of_le, list_eq,
}
use ripsync.Checksum.{strong_len, strong_hash, new, value}
use ripsync.Delta.{
  Delta, Signature, BlockSig, encode, apply, literal_bytes, encode_with_signature, encode_fuel,
  find, find_in, lookup_from, push_entry, get_weak,
}
use ripsync.Delta.Blocks.{block_at}
use ripsync.Delta.RoundTrip.{NoCollision}
use ripsync.Delta.Codec.{apply-encode}
use ripsync.Delta.Identity.{literal_bytes-encode_self}
use ripsync.Delta.Termination.{encode_with_signature_total, encode_fuel_endless}

abbrev bytes : List ℕ → List ℕ
bytes xs = xs

abbrev root : ℕ → ℕ
root n = 2

abbrev old : List ℕ
old = 1 ∷ 2 ∷ 3 ∷ 4 ∷ 5 ∷ []

abbrev new_bytes : List ℕ
new_bytes = 3 ∷ 4 ∷ 9 ∷ 1 ∷ 2 ∷ 5 ∷ []

distinct : NoCollision bytes 2 old new_bytes
unfolding strong_hash
distinct i from to h h' len same =
    let short : length (block_at 2 old i) ≤ 2 = omega (arith, length-take 2 (drop (i * 2) old)) in
    sym (take_of_le strong_len (slice from to new_bytes) (omega arith))
    ∙ same
    ∙ take_of_le strong_len (block_at 2 old i) (omega arith)

apply-encode_example :
    (d : Delta) × (encode bytes root old new_bytes (some 2) ≡ some d) × (apply old d ≡ ok new_bytes)
apply-encode_example =
    apply-encode bytes root old new_bytes (some 2) (omega arith) (omega arith) distinct

literal_bytes-encode_self_example :
    (d : Delta) × (encode bytes root old old (some 2) ≡ some d) × (literal_bytes d ≡ 0)
literal_bytes-encode_self_example =
    literal_bytes-encode_self bytes root old (some 2) (omega arith) (omega arith)

abbrev nothing : BlockSig
nothing = record { weak = 0; strong = []; len = 0 }

abbrev one_block : BlockSig
one_block = record { weak = value (new (3 ∷ 4 ∷ [])); strong = 3 ∷ 4 ∷ []; len = 2 }

abbrev remote : Signature
remote = record { block_size = 2; blocks = nothing ∷ one_block ∷ [] }

encode_with_signature_total_example :
    (d : Delta) × (encode_with_signature bytes remote new_bytes ≡ some d)
    × (d.block_size ≡ remote.block_size)
encode_with_signature_total_example =
    encode_with_signature_total bytes remote new_bytes (omega arith)

found : find bytes (nothing ∷ one_block ∷ []) (value (new (3 ∷ 4 ∷ []))) (3 ∷ 4 ∷ []) ≡ some 1
unfolding find find_in lookup_from push_entry get_weak strong_hash new value list_eq
found = refl

empty_window : value (new []) ≡ 0
unfolding new value
empty_window = refl

no_bytes : [] ≡ strong_hash bytes []
unfolding strong_hash
no_bytes = refl

encode_fuel_endless_example :
    encode_fuel bytes 1_000 (record { block_size = 0; blocks = nothing ∷ [] }) new_bytes ≡ none
encode_fuel_endless_example =
    encode_fuel_endless bytes (nothing ∷ []) new_bytes 0 (omega arith) refl
      (sym empty_window, no_bytes, refl) 1_000
