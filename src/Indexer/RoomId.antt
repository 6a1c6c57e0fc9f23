-- ===== src/Indexer/RoomId.antt =====
-- `decodeRoomId` (services/live-room/src/indexer/indexer.mjs): the text that a room id on the chain
-- stands for. A `bytes32` is the list of its bytes.
use tradermarket.Base.{
  ℕ, zero, suc, ◌≡◌, ◌↔◌, refl, sym, ap, ◌∙◌, Bool, true, false, Option, none, some, List, [], ◌∷◌,
  ◌++◌, arith, if◌then◌else◌, length, length-append, length-replicate, replicate, exists, is_nil,
  ◌&&◌, not, ◌==◌, leb,
}

-- `bytes.subarray(0, end)` and `bytes.subarray(end)`, at the first zero
unfoldable pub body_of : List ℕ → List ℕ
body_of [] = []
body_of (b ∷ bytes) = let rest = body_of bytes in if b == 0 then [] else b ∷ rest

unfoldable pub padding_of : List ℕ → List ℕ
padding_of [] = []
padding_of (b ∷ bytes) = let rest = padding_of bytes in if b == 0 then b ∷ bytes else rest

-- `/^[\x20-\x7e]+$/`
abbrev pub is_printable : List ℕ → Bool
is_printable [] = true
is_printable (b ∷ bytes) = let rest = is_printable bytes in (leb 32 b && leb b 126) && rest

abbrev pub is_padding : List ℕ → Bool
is_padding bytes = not (exists (λ (b : ℕ). not (b == 0)) bytes)

-- The text, or `none` where the value itself is returned
unfoldable pub decode_room_id : List ℕ → Option (List ℕ)
decode_room_id bytes =
    if is_nil (body_of bytes)
    then none
    else if not (is_padding (padding_of bytes))
    then none
    else if is_printable (body_of bytes)
    then some (body_of bytes)
    else none

body_of-padding_of : (bytes : List ℕ) → body_of bytes ++ padding_of bytes ≡ bytes
unfolding body_of padding_of
body_of-padding_of [] = refl
body_of-padding_of (b ∷ bytes) = ground (arith, body_of-padding_of bytes)

padding-replicate : (bytes : List ℕ) → is_padding bytes ≡ true → bytes ≡ replicate (length bytes) 0
padding-replicate [] h = refl
padding-replicate (b ∷ bytes) h = ground (arith, padding-replicate bytes)

body_of-padded :
    (text : List ℕ) (n : ℕ) → is_printable text ≡ true → body_of (text ++ replicate n 0) ≡ text
unfolding body_of
body_of-padded [] zero h = refl
body_of-padded [] (suc n) h = refl
body_of-padded (b ∷ text) n h = ground (arith, body_of-padded text n)

is_padding-replicate : (n : ℕ) → is_padding (replicate n 0) ≡ true
is_padding-replicate zero = refl
is_padding-replicate (suc n) = is_padding-replicate n

padding_of-padded :
    (text : List ℕ) (n : ℕ)
    → is_printable text ≡ true
    → padding_of (text ++ replicate n 0) ≡ replicate n 0
unfolding padding_of
padding_of-padded [] zero h = refl
padding_of-padded [] (suc n) h = refl
padding_of-padded (b ∷ text) n h = ground (arith, padding_of-padded text n)

-- A printable text that is not empty, filled up with zeros, is read back.
pub decode_room_id-padded :
    (text : List ℕ) (n : ℕ)
    → is_printable text ≡ true
    → is_nil text ≡ false
    → decode_room_id (text ++ replicate n 0) ≡ some text
unfolding decode_room_id
decode_room_id-padded text n printable full =
    rw (body_of-padded text n printable, padding_of-padded text n printable)
      (ground (arith, is_padding-replicate n))

-- What is read as a text is the text, filled up with zeros.
decode_room_id-some :
    (bytes text : List ℕ)
    → decode_room_id bytes ≡ some text
    → (n : ℕ) × (bytes ≡ text ++ replicate n 0)
unfolding decode_room_id
decode_room_id-some bytes text h = (
  length (padding_of bytes),
  ground (arith, body_of-padding_of bytes, padding-replicate (padding_of bytes)),
)

decode_room_id-printable :
    (bytes text : List ℕ)
    → decode_room_id bytes ≡ some text
    → (is_printable text ≡ true) × (is_nil text ≡ false)
unfolding decode_room_id
decode_room_id-printable bytes text h = ground arith

padded_alike :
    (text : List ℕ) (m n : ℕ)
    → length (text ++ replicate m 0) ≡ length (text ++ replicate n 0)
    → m ≡ n
padded_alike text m n h = omega (
  arith,
  h,
  length-append text (replicate m 0),
  length-append text (replicate n 0),
  length-replicate {A = ℕ} m 0,
  length-replicate {A = ℕ} n 0,
)

-- A value is read as a text exactly when it is that text filled up with zeros and the text is
-- printable and not empty.
pub decode_room_id_iff :
    (bytes text : List ℕ)
    → (decode_room_id bytes ≡ some text) ↔ (
        (n : ℕ) × (bytes ≡ text ++ replicate n 0)
        × (is_printable text ≡ true)
        × (is_nil text ≡ false))
decode_room_id_iff bytes text = (
  λ h.
      let (n, e) = decode_room_id-some bytes text h in
      let (printable, full) = decode_room_id-printable bytes text h in (n, e, printable, full),
  λ p. rw p.1 (decode_room_id-padded text p.0 p.2 p.3),
)

-- Two values of one length that are read as one text are one value.
decode_room_id_injective :
    (bytes others text : List ℕ)
    → length bytes ≡ length others
    → decode_room_id bytes ≡ some text
    → decode_room_id others ≡ some text
    → bytes ≡ others
decode_room_id_injective bytes others text same one other =
    let (m, e) = decode_room_id-some bytes text one in
    let (n, f) = decode_room_id-some others text other in
    e
    ∙ ap (λ k. text ++ replicate k 0)
        (padded_alike text m n (ap length (sym e) ∙ same ∙ ap length f))
    ∙ sym f
