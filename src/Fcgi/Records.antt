-- ===== src/Fcgi/Records.antt =====
-- Records of FastCGI, written and read back.
use monitoringplug.Base.{
  ℕ, ◌+◌, ◌%◌, ◌^◌, ◌<◌, true, false, Option, none, some, [], ◌∷◌, ◌++◌, append_assoc, ◌≡◌, refl,
  ap, ◌∙◌, arith, Bytes, codes, length, ◌==◌, ==_self,
}
use monitoringplug.Output.{Plugin}
use monitoringplug.Getopt.{completed, ◌>>=◌}
use monitoringplug.Fcgi.{
  header_of, write, fcgi_write, all_read, read_content, read_header, fcgi_read,
}

module _ (p : Plugin) (os_write : Bytes → Bytes → ℕ × Bytes)
    (os_read : ℕ → Bytes → Option Bytes × Bytes) where
  -- The system writes all, and reads as many bytes as asked for if they are there.
  abbrev pub WritesAll : Type 0
  WritesAll = (text stream : Bytes) → os_write text stream ≡ (length text, stream ++ text)

  abbrev pub ReadsAll : Type 0
  ReadsAll = (text rest : Bytes) → os_read (length text) (text ++ rest) ≡ (some text, rest)

  write-all :
      (what text stream : Bytes)
      → WritesAll
      → write p os_write what text stream ≡ completed (stream ++ text)
  unfolding write
  write-all what text stream h = rw (h text stream, ==_self (length text)) refl

  fcgi_write-all :
      (request_id type : ℕ) (content stream : Bytes)
      → WritesAll
      → fcgi_write p os_write request_id type content stream
        ≡ completed
            (8 + length content, stream ++ (header_of request_id type (length content) ++ content))
  unfolding fcgi_write
  fcgi_write-all request_id type content stream h =
      let header = header_of request_id type (length content) in
      ap
        (λ o. o >>= (λ s.
          write p os_write (codes "content") content s
          >>= (λ t. completed (8 + length content, t))))
        (write-all (codes "header") header stream h)
      ∙ ap (λ o. o >>= (λ s. completed (8 + length content, s)))
          (write-all (codes "content") content (stream ++ header) h)
      ∙ ap (λ s. completed (8 + length content, s)) (append_assoc stream header content)

  -- the content as `mp_fcgi_read` returns it
  abbrev pub content_of : Bytes → Option Bytes
  content_of [] = none
  content_of (c ∷ content) = some (c ∷ content)

  read_content-all :
      (type : ℕ) (content rest : Bytes)
      → ReadsAll
      → read_content p os_read type (length content) 0 (content ++ rest)
        ≡ completed (
          record { type = type; content_length = length content; content = content_of content },
          rest,
        )
  unfolding read_content
  read_content-all type [] rest h = refl
  read_content-all type (c ∷ content) rest h =
      let n : ℕ = length (c ∷ content) in
      let some_bytes : (n == 0) ≡ false = ground arith in
      let whole : (n == n + 0) ≡ true = ground arith in
      let read : os_read (n + 0) ((c ∷ content) ++ rest) ≡ (some (c ∷ content), rest) =
        ap (λ m. os_read m ((c ∷ content) ++ rest)) {y = n} (omega arith) ∙ h (c ∷ content) rest in
      rw (read_content, some_bytes, read, whole) refl

  fcgi_read-header :
      (request_id type : ℕ) (content rest : Bytes)
      → ReadsAll
      → length content < 2 ^ 16
      → fcgi_read p os_read (header_of request_id type (length content) ++ (content ++ rest))
        ≡ read_content p os_read (type % 256) (length content) 0 (content ++ rest)
  unfolding fcgi_read read_header header_of
  fcgi_read-header request_id type content rest h small =
      ap
        (λ (q : Option Bytes × Bytes).
          all_read p 8 (codes "header") q.0 >>= (λ header. read_header p os_read header q.1))
        (h (header_of request_id type (length content)) (content ++ rest))
      ∙ ap (λ n. read_content p os_read (type % 256) n 0 (content ++ rest)) {y = length content}
          (omega arith)

  -- Where the system writes and reads all, a record with up to 65535 bytes of content that `mp_fcgi_write`
  -- wrote at the end of a stream is read by `mp_fcgi_read` from there: the low byte of the type, the
  -- length, the content, and then what stands behind it.
  pub fcgi_read-fcgi_write :
      (request_id type : ℕ) (content stream rest : Bytes)
      → WritesAll
      → ReadsAll
      → length content < 2 ^ 16
      → (written : Bytes) × (fcgi_write p os_write request_id type content stream
          ≡ completed (8 + length content, stream ++ written))
        × (fcgi_read p os_read (written ++ rest)
            ≡ completed (
              record {
                type = type % 256;
                content_length = length content;
                content = content_of content;
              },
              rest,
            ))
  fcgi_read-fcgi_write request_id type content stream rest w r small = (
    header_of request_id type (length content) ++ content,
    fcgi_write-all request_id type content stream w,
    ap (fcgi_read p os_read)
          (append_assoc (header_of request_id type (length content)) content rest)
        ∙ fcgi_read-header request_id type content rest r small
        ∙ read_content-all (type % 256) content rest r,
  )
