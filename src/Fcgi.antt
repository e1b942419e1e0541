-- ===== src/Fcgi.antt =====
-- lib/fcgi_utils.c: the records of FastCGI. A stream is the bytes that were put on it; `FCGX_PutStr`,
-- `OS_Write` and `OS_Read` are parameters, which return what they put, wrote or read. Lengths and the
-- request's id are numbers below 2^31, so that shifts are divisions, and `| 0x80` on a byte below 0x80
-- adds to it. What `-v` prints is left out.
pub mod Pairs
pub mod Records
mod Tests
use monitoringplug.Base.{
  ℕ, ◌+◌, ◌*◌, ◌/◌, ◌%◌, ◌^◌, Option, none, some, List, [], ◌∷◌, ◌++◌, Bytes, codes, length, ltb,
  ◌==◌, if◌then◌else◌,
}
use monitoringplug.Output.{Plugin, critical, unknown}
use monitoringplug.Getopt.{Outcome, completed, left, ◌>>=◌}

-- the length of a key or of a value: one byte, or four with the highest bit set
unfoldable pub encode_length : ℕ → Bytes
encode_length n =
    if ltb n 128
    then n ∷ []
    else (n / 2 ^ 24 + 128) ∷ n / 2 ^ 16 % 256 ∷ n / 2 ^ 8 % 256 ∷ n % 256 ∷ []

-- What `mp_fcgi_read` returns: the type, the length, and the content with its padding, which is not set
-- where the length is 0.
pub record Message : Type 0 where
  pub type : ℕ
  pub content_length : ℕ
  pub content : Option Bytes

-- `FCGI_Header`
unfoldable pub header_of : ℕ → ℕ → ℕ → Bytes
header_of request_id type content_length =
    1
    ∷ type % 256
    ∷ request_id / 2 ^ 8 % 256
    ∷ request_id % 256
    ∷ content_length / 2 ^ 8 % 256
    ∷ content_length % 256
    ∷ 0
    ∷ 0
    ∷ []

module _ (p : Plugin) where
  module _ (put_str : Bytes → Bytes → ℕ × Bytes) where
    -- one `FCGX_PutStr` with its test
    unfoldable pub put : Bytes → Bytes → Outcome Bytes
    unfolding critical
    put text stream =
        let (ret, after) = put_str text stream in
        if ret == length text
        then completed after
        else left (critical (codes "FCGX_PutStr failed.") p)

    unfoldable pub fcgi_putkv : Bytes → Bytes → Bytes → Outcome Bytes
    unfolding encode_length put
    fcgi_putkv key value stream = do
      headed ← put (encode_length (length key) ++ encode_length (length value)) stream
      keyed ← put key headed
      put value keyed

  module _ (os_write : Bytes → Bytes → ℕ × Bytes) where
    unfoldable pub write : Bytes → Bytes → Bytes → Outcome Bytes
    unfolding unknown
    write what text stream =
        let (count, after) = os_write text stream in
        if count == length text
        then completed after
        else left (unknown (codes "libfcgi OS_Write failed writing " ++ (what ++ codes ".")) p)

    -- the number returned, and the stream
    unfoldable pub fcgi_write : ℕ → ℕ → Bytes → Bytes → Outcome (ℕ × Bytes)
    unfolding header_of write
    fcgi_write request_id type content stream = do
      headed ← write (codes "header") (header_of request_id type (length content)) stream
      written ← write (codes "content") content headed
      completed (8 + length content, written)

  -- `count != n` for a read of n bytes
  abbrev pub all_read : ℕ → Bytes → Option Bytes → Outcome Bytes
  all_read n what none =
      left (critical (codes "mp_fcgi_read failed reading fcgi " ++ (what ++ codes ".")) p)
  all_read n what (some text) =
      if length text == n
      then completed text
      else left (critical (codes "mp_fcgi_read failed reading fcgi " ++ (what ++ codes ".")) p)

  module _ (os_read : ℕ → Bytes → Option Bytes × Bytes) where
    -- behind the header
    unfoldable pub read_content : ℕ → ℕ → ℕ → Bytes → Outcome (Message × Bytes)
    unfolding critical
    read_content type content_length padding stream =
        if content_length == 0
        then completed (record { type = type; content_length = 0; content = none }, stream)
        else (let (text, rest) = os_read (content_length + padding) stream in
            all_read (content_length + padding) (codes "content") text >>= (λ content. completed (
              record { type = type; content_length = content_length; content = some content },
              rest,
            )))

    -- the fields of the header
    unfoldable pub read_header : Bytes → Bytes → Outcome (Message × Bytes)
    unfolding read_content
    read_header (version ∷ type ∷ id1 ∷ id0 ∷ length1 ∷ length0 ∷ padding ∷ reserved ∷ []) stream =
        read_content type (length1 * 2 ^ 8 + length0) padding stream
    read_header header stream = left (critical (codes "mp_fcgi_read failed reading fcgi header.") p)

    -- `sizeof(header)` is the size of a pointer, 8 bytes
    unfoldable pub fcgi_read : Bytes → Outcome (Message × Bytes)
    unfolding read_header
    fcgi_read stream =
        let (text, rest) = os_read 8 stream in
        all_read 8 (codes "header") text >>= (λ header. read_header header rest)
