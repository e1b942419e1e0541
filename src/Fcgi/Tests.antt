-- ===== src/Fcgi/Tests.antt =====
-- A pair and a record, and the theorems at an input.
use monitoringplug.Base.{
  ℕ, some, [], ◌++◌, Option, ◌≡◌, refl, arith, Bytes, codes, length, take, drop, take-append,
  drop-append,
}
use monitoringplug.Output.{initial}
use monitoringplug.Getopt.{completed}
use monitoringplug.Fcgi.{fcgi_putkv, fcgi_write, fcgi_read}
use monitoringplug.Fcgi.Pairs.{decode_pair, fcgi_putkv-decode_pair}
use monitoringplug.Fcgi.Records.{fcgi_read-fcgi_write}

abbrev put_all : Bytes → Bytes → ℕ × Bytes
put_all text stream = (length text, stream ++ text)

abbrev read_all : ℕ → Bytes → Option Bytes × Bytes
read_all n stream = (some (take n stream), drop n stream)

reads : (text rest : Bytes) → read_all (length text) (text ++ rest) ≡ (some text, rest)
reads text rest = rw (take-append text rest, drop-append text rest) refl

fcgi_putkv-decode_pair_example :
    (pair : Bytes) × (fcgi_putkv initial put_all (codes "REQUEST_METHOD") (codes "GET") []
      ≡ completed pair)
    × (decode_pair (pair ++ []) ≡ some (codes "REQUEST_METHOD", codes "GET", []))
fcgi_putkv-decode_pair_example =
    fcgi_putkv-decode_pair initial put_all (codes "REQUEST_METHOD") (codes "GET") [] []
      (λ text stream. refl) (omega arith) (omega arith)

fcgi_read-fcgi_write_example :
    (written : Bytes) × (fcgi_write initial put_all 1 5 (codes "ok") [] ≡ completed (10, written))
    × (fcgi_read initial read_all (written ++ [])
        ≡ completed (record { type = 5; content_length = 2; content = some (codes "ok") }, []))
fcgi_read-fcgi_write_example =
    fcgi_read-fcgi_write initial put_all read_all 1 5 (codes "ok") [] [] (λ text stream. refl) reads
      (omega arith)
