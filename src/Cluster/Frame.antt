-- ===== src/Cluster/Frame.antt =====
-- cluster/proto.go: WriteFrame and ReadFrame. The stream is the list of bytes still to be read; a
-- write that fails is not modelled.
use dnsplane.Base.{
  ℕ, ◌+◌, ◌*◌, ◌/◌, ◌%◌, ◌<◌, ◌≡◌, [], ◌∷◌, ◌++◌, Option, none, some, arith, ltb, length, take,
  drop, if◌then◌else◌,
}
use dnsplane.Base.Int.{pos}
use dnsplane.Safecast.{int_to_uint32_clamp}
use dnsplane.Text.{Text}
use dnsplane.Cluster.{max_frame_bytes}

-- binary.BigEndian.PutUint32
unfoldable pub put_uint32 : ℕ → Text
put_uint32 n = n / 16777216 % 256 ∷ n / 65536 % 256 ∷ n / 256 % 256 ∷ n % 256 ∷ []

-- Nothing where the payload is too long.
unfoldable pub write_frame : Text → Option Text
write_frame payload =
    if ltb max_frame_bytes (length payload)
    then none
    else some (put_uint32 (int_to_uint32_clamp (pos (length payload))) ++ payload)

pub data ReadResult : Type 0 where
  unexpected_eof : ReadResult
  too_long : ℕ → ReadResult
  frame : Text → Text → ReadResult

-- io.ReadFull of `n` bytes
unfoldable pub read_body : ℕ → Text → ReadResult
read_body n s = if ltb (length s) n then unexpected_eof else frame (take n s) (drop n s)

unfoldable pub read_frame : Text → ReadResult
read_frame (a ∷ b ∷ c ∷ d ∷ s) =
    let n = a * 16777216 + b * 65536 + c * 256 + d in
    if ltb max_frame_bytes n then too_long n else read_body n s
read_frame _ = unexpected_eof

uint32_lem :
    (n : ℕ)
    → n < 4294967296
    → n / 16777216 % 256 * 16777216 + n / 65536 % 256 * 65536 + n / 256 % 256 * 256 + n % 256 ≡ n
uint32_lem n h = omega arith

read_body-append :
    (payload rest : Text) → read_body (length payload) (payload ++ rest) ≡ frame payload rest
unfolding read_body
read_body-append [] rest = ground arith
read_body-append (c ∷ s) rest = ground (arith, read_body-append s rest)

-- What WriteFrame writes for a payload that it does not refuse, ReadFrame reads back as that
-- payload, and leaves the bytes that follow unread.
pub read_frame-write_frame :
    (payload rest frame_bytes : Text)
    → write_frame payload ≡ some frame_bytes
    → read_frame (frame_bytes ++ rest) ≡ frame payload rest
unfolding read_frame write_frame put_uint32 int_to_uint32_clamp
read_frame-write_frame payload rest frame_bytes h =
    ground (arith, uint32_lem (length payload), read_body-append payload rest)
