-- ===== src/Net/Receive.antt =====
-- Lines from a socket, whatever the chunks in which they come.
use monitoringplug.Base.{
  ℕ, Option, none, some, List, [], ◌∷◌, ◌++◌, All, subst, false, append-nil, append_assoc, ◌≡◌,
  refl, sym, ap, ◌∙◌, Bytes, inl, inr,
}
use monitoringplug.Text.{strsep}
use monitoringplug.Text.Laws.{
  Splits, strsep-cases, strsep-append, strsep-some, strsep-none, strsep-token,
}
use monitoringplug.Utils.{strcat, strcat_with}
use monitoringplug.Net.{
  Socket, Received, received, waiting, is_newline, chomp, keep, deliver, finish_line, recv_loop,
  recv_line,
}

abbrev pub concat : List Bytes → Bytes
concat [] = []
concat (c ∷ cs) = c ++ concat cs

-- What a socket has to give.
abbrev pub stream : Socket → Bytes
stream s = s.buffer ++ concat s.chunks

strcat-keep :
    (line : Option Bytes) (buffer token : Bytes)
    → strcat (keep line buffer) (some token) ≡ strcat line (some (buffer ++ token))
unfolding strcat strcat_with keep
strcat-keep none [] token = refl
strcat-keep (some l) [] token = refl
strcat-keep none (c ∷ buffer) token = refl
strcat-keep (some l) (c ∷ buffer) token = ap some (append_assoc l (c ∷ buffer) token)

-- What the loop comes to, by what `strsep` makes of all that the socket gives.
abbrev Gets : Option Bytes → Bytes × Option Bytes → Received → Type 0
Gets line (token, none) r = r ≡ waiting
Gets line (token, some rest) r =
    (b : Bytes) × (cs : List Bytes) × (r ≡ deliver (strcat line (some token)) b cs)
    × (b ++ concat cs ≡ rest)

-- one round of the loop, by what `strsep` makes of the buffer
abbrev round : List Bytes → Bytes → Option Bytes → Bytes × Option Bytes → Received
round [] buffer line (token, rest) = elim rest [
  | none ↦ waiting
  | some behind ↦ finish_line line token behind []
]
round (chunk ∷ chunks) buffer line (token, rest) = elim rest [
  | none ↦ recv_loop chunks chunk (keep line buffer)
  | some behind ↦ finish_line line token behind (chunk ∷ chunks)
]

strsep-found :
    (buffer t : Bytes) (f : Splits is_newline buffer)
    → strsep is_newline (buffer ++ t) ≡ (f.token, some (f.rest ++ t))
strsep-found buffer t f =
    let plain =
      subst (λ (q : Bytes × Option Bytes). All (λ c. is_newline c ≡ false) q.0) f.found
        (strsep-token is_newline buffer) in
    ap (λ b. strsep is_newline (b ++ t)) f.whole
    ∙ ap (strsep is_newline) (append_assoc f.token (f.separator ∷ f.rest) t)
    ∙ strsep-some is_newline f.token f.separator (f.rest ++ t) plain f.separates

found-Gets :
    (chunks : List Bytes) (buffer : Bytes) (line : Option Bytes)
    → Splits is_newline buffer
    → Gets line (strsep is_newline (buffer ++ concat chunks)) (recv_loop chunks buffer line)
unfolding recv_loop finish_line
found-Gets [] buffer line f =
    subst (λ q. Gets line q (recv_loop [] buffer line)) (sym (strsep-found buffer [] f))
      (f.rest, [], ap (round [] buffer line) f.found, refl)
found-Gets (chunk ∷ chunks) buffer line f =
    subst (λ q. Gets line q (recv_loop (chunk ∷ chunks) buffer line))
      (sym (strsep-found buffer (concat (chunk ∷ chunks)) f))
      (f.rest, chunk ∷ chunks, ap (round (chunk ∷ chunks) buffer line) f.found, refl)

Gets-keep :
    (line : Option Bytes) (buffer : Bytes) (q : Bytes × Option Bytes) (r : Received)
    → Gets (keep line buffer) q r
    → Gets line (buffer ++ q.0, q.1) r
Gets-keep line buffer (token, none) r h = h
Gets-keep line buffer (token, some rest) r (b, cs, delivers, left) =
    (b, cs, delivers ∙ ap (λ o. deliver o b cs) (strcat-keep line buffer token), left)

recv_loop-Gets :
    (chunks : List Bytes) (buffer : Bytes) (line : Option Bytes)
    → Gets line (strsep is_newline (buffer ++ concat chunks)) (recv_loop chunks buffer line)
unfolding recv_loop
recv_loop-Gets [] buffer line = elim (strsep-cases is_newline buffer) [
  | inl e ↦
      subst (λ q. Gets line q (recv_loop [] buffer line))
        (sym (ap (strsep is_newline) (append-nil buffer) ∙ e)) (ap (round [] buffer line) e)
  | inr f ↦ found-Gets [] buffer line f
]
recv_loop-Gets (chunk ∷ chunks) buffer line = elim (strsep-cases is_newline buffer) [
  | inl e ↦
      subst (λ q. Gets line q (recv_loop (chunk ∷ chunks) buffer line))
        (sym (strsep-append is_newline buffer (chunk ++ concat chunks) (ap (λ q. q.1) e)))
        (subst (Gets line _) (sym (ap (round (chunk ∷ chunks) buffer line) e)) (
          Gets-keep line buffer (strsep is_newline (chunk ++ concat chunks))
            (recv_loop chunks chunk (keep line buffer))
            (recv_loop-Gets chunks chunk (keep line buffer))))
  | inr f ↦ found-Gets (chunk ∷ chunks) buffer line f
]

-- What `mp_recv_line` returns does not depend on the chunks in which a line comes: if all that the socket
-- has to give begins with a line that is not empty and its newline, it returns that line, without a
-- carriage return at its end, and the socket then has to give exactly what stands behind the newline.
pub recv_line-line :
    (s : Socket) (c : ℕ) (l rest : Bytes)
    → All (λ d. is_newline d ≡ false) (c ∷ l)
    → stream s ≡ (c ∷ l) ++ b'\n' ∷ rest
    → (t : Socket) × (recv_line s ≡ received (chomp (c ∷ l)) t) × (stream t ≡ rest)
unfolding recv_line
recv_line-line s c l rest plain same =
    let (b, cs, delivers, left) : Gets none (c ∷ l, some rest) (recv_loop s.chunks s.buffer none) =
      subst (λ q. Gets none q (recv_loop s.chunks s.buffer none))
        (ap (strsep is_newline) same ∙ strsep-some is_newline (c ∷ l) b'\n' rest plain refl)
        (recv_loop-Gets s.chunks s.buffer none) in
    (record { buffer = b; chunks = cs }, delivers, left)

-- With no newline to come, it waits for the alarm.
pub recv_line-waiting :
    (s : Socket) → All (λ d. is_newline d ≡ false) (stream s) → recv_line s ≡ waiting
unfolding recv_line
recv_line-waiting s plain =
    subst (λ q. Gets none q (recv_loop s.chunks s.buffer none))
      (strsep-none is_newline (stream s) plain) (recv_loop-Gets s.chunks s.buffer none)
