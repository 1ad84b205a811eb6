-- ===== src/Index/Journal/Records.antt =====
-- index.rs: one record of the journal, whole or cut short.
use ripsync.Prelude.{
  ℕ, ◌+◌, ◌-◌, ◌<◌, ◌≡◌, refl, ap, sym, ◌∙◌, arith, true, false, none, some, List, ◌++◌, length,
  take, drop, leb, list_eq, list_eq_self, length-append, length-take, le→leb, take-append_all,
  drop-append_all, take_past,
}
use mathlib.Core.List.{append_assoc}
use native.Mathlib.Decide.{dec_lt}
use ripsync.Prelude.Words.{u32_mod}
use ripsync.Index.{Change}
use ripsync.Index.Journal.{
  Format, to_le_bytes, from_le_bytes, read_exact, read_payload, read_checked, read_record,
  record_of,
}

-- A digest has 32 bytes.
pub record IsLawful (f : Format) : Type 0 where
  pub length-blake3_hash : (bytes : List ℕ) → length (f.blake3_hash bytes) ≡ 32

-- A change whose payload fits the length field, and which `bincode` reads back.
abbrev pub Fits : Format → Change → Type 0
Fits f change =
    (length (f.serialize change) < u32_mod) × (f.deserialize (f.serialize change) ≡ some change)

-- A change that `bincode` writes.
abbrev pub Writes : Format → Change → Type 0
Writes f change = f.can_serialize change ≡ true

from_le_bytes-to_le_bytes : (n : ℕ) → n < u32_mod → from_le_bytes (to_le_bytes n) ≡ n
unfolding from_le_bytes to_le_bytes
from_le_bytes-to_le_bytes n h = omega arith

length-to_le_bytes : (n : ℕ) → length (to_le_bytes n) ≡ 4
unfolding to_le_bytes
length-to_le_bytes n = refl

pub read_exact-append :
    (n : ℕ) (xs ys : List ℕ) → length xs ≡ n → read_exact n (xs ++ ys) ≡ some (xs, ys)
unfolding read_exact
read_exact-append n xs ys e =
    let room : leb n (length (xs ++ ys)) ≡ true = le→leb _ _ (omega (arith, length-append xs ys)) in
    rw room (λ i. some (cut i, rest i))
  where
    cut : take n (xs ++ ys) ≡ xs
    cut = ap (λ k. take k (xs ++ ys)) (sym e) ∙ take-append_all xs ys

    rest : drop n (xs ++ ys) ≡ ys
    rest = ap (λ k. drop k (xs ++ ys)) (sym e) ∙ drop-append_all xs ys

pub read_exact_short : (n : ℕ) (bytes : List ℕ) → length bytes < n → read_exact n bytes ≡ none
unfolding read_exact
read_exact_short n bytes h = let short : leb n (length bytes) ≡ false = ground arith in rw short

-- One round on a file that begins with a length, in the three stages.
module _ (f : Format) where
  pub read_record_short : (bytes : List ℕ) → length bytes < 4 → read_record f bytes ≡ none
  unfolding read_record
  read_record_short bytes h = rw (read_exact_short 4 bytes h, read_record)

  read_record-read_checked :
      (n : ℕ) (rest : List ℕ)
      → n < u32_mod
      → read_record f (to_le_bytes n ++ rest) ≡ read_checked f n rest
  unfolding read_record
  read_record-read_checked n rest h =
      rw (read_exact-append 4 (to_le_bytes n) rest (length-to_le_bytes n), read_record)
        (ap (λ k. read_checked f k rest) (from_le_bytes-to_le_bytes n h))

  read_checked_short : (n : ℕ) (bytes : List ℕ) → length bytes < 32 → read_checked f n bytes ≡ none
  unfolding read_checked
  read_checked_short n bytes h = rw (read_exact_short 32 bytes h, read_checked)

  read_checked-read_payload :
      (n : ℕ) (digest rest : List ℕ)
      → length digest ≡ 32
      → read_checked f n (digest ++ rest) ≡ read_payload f n digest rest
  unfolding read_checked
  read_checked-read_payload n digest rest h = rw (read_exact-append 32 digest rest h, read_checked)

  read_payload_short :
      (n : ℕ) (digest bytes : List ℕ) → length bytes < n → read_payload f n digest bytes ≡ none
  unfolding read_payload
  read_payload_short n digest bytes h = rw (read_exact_short n bytes h, read_payload)

  read_payload_wrong :
      (n : ℕ) (digest payload rest : List ℕ)
      → length payload ≡ n
      → list_eq (f.blake3_hash payload) digest ≡ false
      → read_payload f n digest (payload ++ rest) ≡ none
  unfolding read_payload
  read_payload_wrong n digest payload rest h wrong =
      rw (read_exact-append n payload rest h, read_payload) (rw wrong)

  module _ (lawful : IsLawful f) where
    read_payload-serialize :
        (change : Change) (rest : List ℕ)
        → Fits f change
        → read_payload f
            (length (f.serialize change))
            (f.blake3_hash (f.serialize change))
            (f.serialize change ++ rest)
          ≡ some (change, rest)
    unfolding read_payload
    read_payload-serialize change rest fits =
        rw
          (
            read_exact-append (length (f.serialize change)) (f.serialize change) rest refl,
            read_payload,
          )
          (rw (list_eq_self (f.blake3_hash (f.serialize change)), fits.1))

    -- A whole record is read back, and the bytes behind it are left.
    pub read_record-record_of :
        (change : Change) (rest : List ℕ)
        → Fits f change
        → read_record f (record_of f change ++ rest) ≡ some (change, rest)
    read_record-record_of change rest fits =
        let bytes = f.serialize change in
        ap (read_record f) (simp append_assoc)
        ∙ read_record-read_checked (length bytes) (f.blake3_hash bytes ++ (bytes ++ rest)) fits.0
        ∙ read_checked-read_payload (length bytes) (f.blake3_hash bytes) (bytes ++ rest)
            (lawful.length-blake3_hash bytes)
        ∙ read_payload-serialize change rest fits

    -- The header of a record with some other bytes where its payload should stand.
    abbrev pub header : Change → List ℕ → List ℕ
    header change bytes =
        to_le_bytes (length (f.serialize change)) ++ (f.blake3_hash (f.serialize change) ++ bytes)

    read_record-header :
        (change : Change) (bytes : List ℕ)
        → Fits f change
        → read_record f (header change bytes)
          ≡ read_payload f (length (f.serialize change)) (f.blake3_hash (f.serialize change)) bytes
    read_record-header change bytes fits =
        let payload = f.serialize change in
        read_record-read_checked (length payload) (f.blake3_hash payload ++ bytes) fits.0
        ∙ read_checked-read_payload (length payload) (f.blake3_hash payload) bytes
            (lawful.length-blake3_hash payload)

    -- A record that a crash cut short, wherever, is not read.
    pub read_record_torn :
        (change : Change) (k : ℕ)
        → Fits f change
        → k < length (record_of f change)
        → read_record f (take k (record_of f change)) ≡ none
    read_record_torn change k fits h = elim (dec_lt k 4) [
      | yes early ↦
          read_record_short (take k (record_of f change))
            (omega (arith, length-take k (record_of f change)))
      | no later ↦
          ap (read_record f) (
            take_past k 4 len_bytes (digest ++ payload) (length-to_le_bytes (length payload))
              (omega arith))
          ∙ (elim (dec_lt (k - 4) 32) [
            | yes early ↦
                read_record-read_checked (length payload) (take (k - 4) (digest ++ payload)) fits.0
                ∙ read_checked_short (length payload) (take (k - 4) (digest ++ payload))
                    (omega (arith, length-take (k - 4) (digest ++ payload)))
            | no later' ↦
                ap (λ b. read_record f (len_bytes ++ b))
                  (take_past (k - 4) 32 digest payload (lawful.length-blake3_hash payload)
                    (omega arith))
                ∙ read_record-header change (take (k - 4 - 32) payload) fits
                ∙ read_payload_short (length payload) digest (take (k - 4 - 32) payload) (
                    omega (
                      arith,
                      length-take (k - 4 - 32) payload,
                      whole,
                      length-append digest payload,
                      lawful.length-blake3_hash payload,
                      length-to_le_bytes (length payload),
                    ))
          ])
    ]
      where
        payload : List ℕ
        payload = f.serialize change

        digest : List ℕ
        digest = f.blake3_hash payload

        len_bytes : List ℕ
        len_bytes = to_le_bytes (length payload)

        whole : length (record_of f change) ≡ length len_bytes + length (digest ++ payload)
        whole = length-append len_bytes (digest ++ payload)

    -- A payload that is cut short and filled up by the bytes behind it is not read, unless its
    -- digest is that of the whole payload.
    pub read_record_filled :
        (change : Change) (front back rest : List ℕ)
        → Fits f change
        → length (front ++ back) ≡ length (f.serialize change)
        → list_eq (f.blake3_hash (front ++ back)) (f.blake3_hash (f.serialize change)) ≡ false
        → read_record f (header change ((front ++ back) ++ rest)) ≡ none
    read_record_filled change front back rest fits len wrong =
        read_record-header change ((front ++ back) ++ rest) fits
        ∙ read_payload_wrong (length (f.serialize change)) (f.blake3_hash (f.serialize change))
            (front ++ back) rest len wrong
