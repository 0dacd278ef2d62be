-- ===== src/Protocol/Frames.antt =====
-- Length-prefixed frames (src/protocol.rs, encode_with_length) and their reading (src/scheduler.rs,
-- try_collect_result_for_reporter; src/zygote.rs, the command loop). bincode is a parameter.
use tach_core.Base.{
  ℕ, zero, suc, ◌%◌, ◌^◌, ◌<◌, ◌≡◌, refl, Option, none, some, List, [], ◌∷◌, ◌++◌, length, All,
  append_assoc, arith,
}
use tach_core.Protocol.Bytes.{
  to_le_bytes, from_le_bytes, read_exact, from_le_bytes-to_le_bytes, length-to_le_bytes,
  read_exact-append,
}

-- The frame of a serialized value: its length `as u32`, little-endian, and then its bytes.
unfoldable pub frame : List ℕ → List ℕ
frame payload = to_le_bytes (length payload % 2 ^ 32) ++ payload

module _ {T : Type 0} (serialize : T → Option (List ℕ)) where
  unfoldable pub encode_with_length : T → Option (List ℕ)
  encode_with_length value = elim (serialize value) [
    | none ↦ none
    | some payload ↦ some (frame payload)
  ]

-- Read a length and then as many bytes.
unfoldable pub read_frame : List ℕ → Option (List ℕ × List ℕ)
read_frame s = elim (read_exact 4 s) [
  | none ↦ none
  | some (len_buf, rest) ↦ read_exact (from_le_bytes len_buf) rest
]

-- The frame is read and its bytes deserialized.
module _ {T : Type 0} (deserialize : List ℕ → Option T) where
  unfoldable pub receive : List ℕ → Option (T × List ℕ)
  receive s = elim (read_frame s) [
    | none ↦ none
    | some (payload, rest) ↦ elim (deserialize payload) [ none ↦ none | some v ↦ some (v, rest) ]
  ]

  -- The reads of a loop, one for each value; a failed one ends it.
  unfoldable pub receive_all : ℕ → List ℕ → Option (List T × List ℕ)
  receive_all zero s = some ([], s)
  receive_all (suc n) s = elim (receive s) [
    | none ↦ none
    | some (v, rest) ↦ elim (receive_all n rest) [
      | none ↦ none
      | some (vs, end) ↦ some (v ∷ vs, end)
    ]
  ]

pub read_frame-frame :
    (payload rest : List ℕ)
    → length payload < 2 ^ 32
    → read_frame (frame payload ++ rest) ≡ some (payload, rest)
unfolding read_frame frame
read_frame-frame payload rest h =
    let n = length payload % 2 ^ 32 in
    ground (
      arith,
      append_assoc (to_le_bytes n) payload rest,
      read_exact-append 4 (to_le_bytes n) (payload ++ rest) (length-to_le_bytes n),
      from_le_bytes-to_le_bytes n (omega arith),
      read_exact-append n payload rest (omega arith),
    )

-- The two sides of the connection: what is written for a list of values, one after the other.
module _ {T : Type 0} (serialize : T → Option (List ℕ)) where
  unfoldable pub encode_all : List T → Option (List ℕ)
  encode_all [] = some []
  encode_all (v ∷ vs) = elim (encode_with_length serialize v) [
    | none ↦ none
    | some w ↦ elim (encode_all vs) [ none ↦ none | some ws ↦ some (w ++ ws) ]
  ]

module _ {T : Type 0} (serialize : T → Option (List ℕ)) (deserialize : List ℕ → Option T)
    (decodes : (v : T) (payload : List ℕ)
      → serialize v ≡ some payload
      → deserialize payload ≡ some v) where
  -- What serializes to less than 4 GiB.
  abbrev pub Fits : T → Type 0
  Fits v = (payload : List ℕ) × (serialize v ≡ some payload) × (length payload < 2 ^ 32)

  receive-encode :
      (v : T) (w rest : List ℕ)
      → Fits v
      → encode_with_length serialize v ≡ some w
      → receive deserialize (w ++ rest) ≡ some (v, rest)
  unfolding encode_with_length receive
  receive-encode v w rest (payload, e, fits) h =
      ground (arith, e, h, read_frame-frame payload rest fits, decodes v payload e)

  encode_Fits : (v : T) → Fits v → (w : List ℕ) × (encode_with_length serialize v ≡ some w)
  unfolding encode_with_length
  encode_Fits v (payload, e, fits) = (frame payload, ground arith)

  receive_all-encode :
      (vs : List T)
      → All Fits vs
      → (w : List ℕ) × (encode_all serialize vs ≡ some w)
        × ((rest : List ℕ) → receive_all deserialize (length vs) (w ++ rest) ≡ some (vs, rest))
  unfolding encode_all receive_all
  receive_all-encode [] fits = ([], refl, λ rest. refl)
  receive_all-encode (v ∷ vs) fits =
      let (w, e) = encode_Fits v fits.0 in
      let (ws, es, r) = receive_all-encode vs fits.1 in
      (
        w ++ ws,
        ground (arith, e, es),
        λ rest.
            ground
              (arith, append_assoc w ws rest, receive-encode v w (ws ++ rest) fits.0 e, r rest),
      )

-- Values that each serialize to less than 4 GiB, framed one after the other, are all framed, and
-- reading as many frames gives exactly these values, in order, and what follows them, if
-- deserializing what was serialized gives the value back.
pub receive_all-encode_all :
    {T : Type 0} (serialize : T → Option (List ℕ)) (deserialize : List ℕ → Option T)
    → ((v : T) (payload : List ℕ) → serialize v ≡ some payload → deserialize payload ≡ some v)
    → (vs : List T)
    → All (λ v. (payload : List ℕ) × (serialize v ≡ some payload) × (length payload < 2 ^ 32)) vs
    → (w : List ℕ) × (encode_all serialize vs ≡ some w)
      × ((rest : List ℕ) → receive_all deserialize (length vs) (w ++ rest) ≡ some (vs, rest))
receive_all-encode_all serialize deserialize decodes vs fits =
    receive_all-encode serialize deserialize decodes vs fits
