-- ===== src/Net.antt =====
-- lib/mp_net.c: the checksum of an IP packet, and lines from a socket. The packet is the list of its
-- 16-bit words. What `recv` returns, call by call, is a list of texts, each up to its first NUL, and an
-- empty one for a connection that was closed.
pub mod Checksum
pub mod Receive
mod Tests
use monitoringplug.Base.{
  ℕ, Bool, ◌+◌, ◌-◌, ◌/◌, ◌%◌, Option, none, some, List, [], ◌∷◌, ◌++◌, Bytes, ◌==◌, if◌then◌else◌,
}
use monitoringplug.Text.{strsep}
use monitoringplug.Utils.{strcat}

-- the loop: an `int` that does not overflow below 2^31
unfoldable pub add_words : ℕ → List ℕ → ℕ
add_words sum [] = sum
add_words sum (w ∷ ws) = add_words (sum + w) ws

-- `sum = (sum >> 16) + (sum & 0xFFFF); sum += (sum >> 16);`
unfoldable pub fold : ℕ → ℕ
fold sum = let once = sum / 65536 + sum % 65536 in once + once / 65536

-- `~sum` as an `unsigned short`
unfoldable pub ip_csum : List ℕ → ℕ
unfolding add_words fold
ip_csum ws = 65535 - fold (add_words 0 ws) % 65536

-- `mp_recv_line_buffer`, and what is to come
pub record Socket : Type 0 where
  pub buffer : Bytes
  pub chunks : List Bytes

-- What a call comes to: a line, a wait for a newline that does not come, which the alarm ends, or the
-- read before an empty line.
pub data Received : Type 0 where
  received : Bytes → Socket → Received
  waiting before_line : Received

abbrev pub is_newline : ℕ → Bool
is_newline c = c == b'\n'

-- "Chomp"
unfoldable pub chomp : Bytes → Bytes
chomp [] = []
chomp (c ∷ []) = if c == b'\r' then [] else c ∷ []
chomp (c ∷ d ∷ s) = c ∷ chomp (d ∷ s)

-- `if (strlen(mp_recv_line_buffer) > 0) mp_strcat(&line, mp_recv_line_buffer);`
unfoldable pub keep : Option Bytes → Bytes → Option Bytes
unfolding strcat
keep line [] = line
keep line (c ∷ buffer) = strcat line (some (c ∷ buffer))

-- the line as a whole, with what stands behind the newline and what is to come
unfoldable pub deliver : Option Bytes → Bytes → List Bytes → Received
unfolding chomp
deliver none rest chunks = before_line
deliver (some []) rest chunks = before_line
deliver (some (c ∷ line)) rest chunks =
    received (chomp (c ∷ line)) (record { buffer = rest; chunks = chunks })

-- from "Append last part of line" on
unfoldable pub finish_line : Option Bytes → Bytes → Bytes → List Bytes → Received
unfolding strcat deliver
finish_line line token rest chunks = deliver (strcat line (some token)) rest chunks

-- the loop "Fetch buffer by buffer", and what follows it
unfoldable pub recv_loop : List Bytes → Bytes → Option Bytes → Received
unfolding strsep keep finish_line
recv_loop [] buffer line =
    let (token, rest) = strsep is_newline buffer in
    elim rest [ none ↦ waiting | some behind ↦ finish_line line token behind [] ]
recv_loop (chunk ∷ chunks) buffer line =
    let (token, rest) = strsep is_newline buffer in
    elim rest [
      | none ↦ recv_loop chunks chunk (keep line buffer)
      | some behind ↦ finish_line line token behind (chunk ∷ chunks)
    ]

unfoldable pub recv_line : Socket → Received
unfolding recv_loop
recv_line s = recv_loop s.chunks s.buffer none
