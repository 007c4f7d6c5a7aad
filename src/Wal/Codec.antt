-- ===== src/Wal/Codec.antt =====
-- The entry codec of wal.rs, `[version u8][len u32 BE][json]`, over serde_json's `to_vec` and
-- `from_slice`.
use exocortex.Common.{
  ℕ, ◌%◌, ◌^◌, ◌<◌, ◌≡◌, String, [], ◌∷◌, ◌++◌, Result, ok, err, ◌>>=◌, if◌then◌else◌, ◌==◌, length,
  Bytes, AreBytes, be_bytes, from_be, map_err, arith, from_be-be_bytes,
}
use exocortex.Wal.Entry.{WalEntry, WalError, corrupt}

pub record Json : Type 0 where
  pub to_vec : WalEntry → Result String Bytes
  pub from_slice : Bytes → Result String WalEntry

abbrev pub wal_codec_version : ℕ
wal_codec_version = 1

-- The length is cast to u32.
unfoldable pub frame : Bytes → Bytes
unfolding be_bytes
frame json = wal_codec_version ∷ (be_bytes 4 (length json % 2 ^ 32) ++ json)

unfoldable pub unframe_body : Bytes → Result String Bytes
unfolding from_be
unframe_body (a ∷ b ∷ c ∷ d ∷ json) =
    if length json == from_be (a ∷ b ∷ c ∷ d ∷ []) then ok json else err "wal entry length mismatch"
unframe_body _ = err "short wal entry"

unfoldable pub unframe : Bytes → Result String Bytes
unfolding unframe_body
unframe [] = err "unknown wal codec version"
unframe (v ∷ rest) =
    if v == wal_codec_version then unframe_body rest else err "unknown wal codec version"

module _ (json : Json) where
  unfoldable pub encode_entry : WalEntry → Result String Bytes
  unfolding frame
  encode_entry e = do text ← json.to_vec e; ok (frame text)

  unfoldable pub decode_entry : Bytes → Result String WalEntry
  unfolding unframe
  decode_entry bytes = do text ← unframe bytes; json.from_slice text

  unfoldable pub decode_at : ℕ → Bytes → Result WalError WalEntry
  decode_at local_lsn raw = map_err (corrupt local_lsn) (decode_entry raw)

unframe-frame : (json : Bytes) → length json < 2 ^ 32 → unframe (frame json) ≡ ok json
unfolding unframe frame
unframe-frame json h = ground (arith, from_be-be_bytes 4 (length json))

be_bytes-from_be :
    (a b c d : ℕ)
    → AreBytes (a ∷ b ∷ c ∷ d ∷ [])
    → be_bytes 4 (from_be (a ∷ b ∷ c ∷ d ∷ []) % 2 ^ 32) ≡ a ∷ b ∷ c ∷ d ∷ []
unfolding be_bytes from_be
be_bytes-from_be a b c d h = ground arith

-- A record whose JSON text is shorter than 2 ^ 32 bytes, and that serde_json reads back, is decoded
-- from its encoding.
pub decode_entry-encode_entry :
    (json : Json) (e : WalEntry) (text bytes : Bytes)
    → json.to_vec e ≡ ok text
    → json.from_slice text ≡ ok e
    → length text < 2 ^ 32
    → encode_entry json e ≡ ok bytes
    → decode_entry json bytes ≡ ok e
unfolding encode_entry decode_entry
decode_entry-encode_entry json e text bytes wrote reads short h =
    ground (arith, unframe-frame text short)

-- A byte string is accepted as a frame of some text only if it is exactly the frame of that text:
-- the version, the text's length and the text, with nothing missing and nothing left over.
pub unframe-exact :
    (bytes text : Bytes) → AreBytes bytes → unframe bytes ≡ ok text → bytes ≡ frame text
unfolding unframe frame
unframe-exact [] text h e = absurd (ground arith)
unframe-exact (v ∷ []) text h e = absurd (ground arith)
unframe-exact (v ∷ a ∷ []) text h e = absurd (ground arith)
unframe-exact (v ∷ a ∷ b ∷ []) text h e = absurd (ground arith)
unframe-exact (v ∷ a ∷ b ∷ c ∷ []) text h e = absurd (ground arith)
unframe-exact (v ∷ a ∷ b ∷ c ∷ d ∷ json) text h e =
    ground (arith, be_bytes-from_be a b c d (h.1.0, (h.1.1.0, (h.1.1.1.0, (h.1.1.1.1.0, tt)))))
