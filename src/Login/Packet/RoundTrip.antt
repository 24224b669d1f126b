-- ===== src/Login/Packet/RoundTrip.antt =====
-- Writing a packet of zerosugar/xr/network/model/generated/login_cs_message.cpp and reading it.
use zerosugar.Prelude.{
  ℕ, ◌+◌, ◌^◌, ◌<◌, ◌≡◌, refl, ◌∙◌, ap, Option, some, List, ◌++◌, arith, length, length-append,
  append_assoc,
}
use zerosugar.Prelude.Int.{pos}
use zerosugar.Io.Word.{pattern16, signed16, signed16-pattern16}
use zerosugar.Io.Reader.{Reader, ok, Outcome, read, ◌>>=◌}
use zerosugar.Io.Writer.{bytes_of}
use zerosugar.Io.RoundTrip.{IsSynced, Ends, read-bytes_of, read_string-length, length-bytes_of}
use zerosugar.Network.Receive.Frame.{Codec, frame}
use zerosugar.Login.Packet.{
  Packet, create_account, login, opcode, read_text, write_text, deserialize, create_of, create_from,
  serialize, body, to_buffer,
}

-- A text that the wire can carry: its size fits an `int16_t`, and it does not end in a null byte.
pub record IsText (text : List ℕ) : Type 0 where
  pub short : length text < 2 ^ 15
  pub ends : Ends text

pub read_text-write_text :
    (text : List ℕ) (r : Reader) (rest : List ℕ)
    → IsText text
    → IsSynced r
    → r.rest ≡ write_text text ++ rest
    → (r' : Reader) × (read_text r ≡ ok (text, r')) × IsSynced r' × (r'.rest ≡ rest)
unfolding read_text write_text
read_text-write_text text r rest t s q =
    let n : ℕ = length text in
    let small : n < 2 ^ 15 = t.short in
    let (k, e, s', q') =
      read-bytes_of 2 (pattern16 (pos n)) r (text ++ rest) (omega arith) s
        (q ∙ append_assoc (bytes_of 2 (pattern16 (pos n))) text rest) in
    let (r', d, s'', q'') = read_string-length text k rest t.ends s' q' in
    (r', ground (arith, e, d, signed16-pattern16 n small), s'', q'')

length-write_text : (text : List ℕ) → length (write_text text) ≡ 2 + length text
unfolding write_text
length-write_text text = omega (
  arith,
  length-append (bytes_of 2 (pattern16 (pos (length text)))) text,
  length-bytes_of 2 (pattern16 (pos (length text))),
)

abbrev pub Fits : Packet → Type 0
Fits (create_account account password) = IsText account × IsText password
Fits (login account password) = IsText account × IsText password

deserialize_lem :
    (make : List ℕ → List ℕ → Packet) (account password : List ℕ) (r : Reader) (rest : List ℕ)
    → IsText account
    → IsText password
    → IsSynced r
    → r.rest ≡ (write_text account ++ write_text password) ++ rest
    → (r' : Reader) × (deserialize make r ≡ ok (some (make account password), r'))
unfolding deserialize
deserialize_lem make account password r rest ta tp s q =
    let (k, e, s', q') =
      read_text-write_text account r (write_text password ++ rest) ta s
        (q ∙ append_assoc (write_text account) (write_text password) rest) in
    let (r', d, _, _) = read_text-write_text password k rest tp s' q' in (r', ground (arith, e, d))

-- What `CreateFrom` does once it has read an opcode.
create_from_step :
    (v : ℕ) (r k : Reader) (o : Outcome (Option Packet × Reader))
    → read 2 r ≡ ok (v, k)
    → create_of (signed16 v) k ≡ o
    → create_from r ≡ o
unfolding create_from
create_from_step v r k o e d = rw (e, ◌>>=◌) d

decode_as :
    (code : ℕ) (make : List ℕ → List ℕ → Packet) (account password : List ℕ) (r : Reader)
    (rest : List ℕ)
    → code < 2 ^ 15
    → ((k : Reader) → create_of (pos code) k ≡ deserialize make k)
    → IsText account
    → IsText password
    → IsSynced r
    → r.rest
      ≡ (bytes_of 2 (pattern16 (pos code)) ++ (write_text account ++ write_text password)) ++ rest
    → (r' : Reader) × (create_from r ≡ ok (some (make account password), r'))
decode_as code make account password r rest small which ta tp s q =
    let (k, e, s', q') =
      read-bytes_of 2 (pattern16 (pos code)) r ((write_text account ++ write_text password) ++ rest)
        (omega arith) s (q ∙ append_assoc (bytes_of 2 (pattern16 (pos code))) _ rest) in
    let (r', d) = deserialize_lem make account password k rest ta tp s' q' in
    (
      r',
      create_from_step (pattern16 (pos code)) r k _ e
          (ap (λ z. create_of z k) (signed16-pattern16 code small) ∙ which k ∙ d),
    )

-- `CreateFrom` reads back, opcode and fields, a packet that `Packet::ToBuffer` wrote, whatever bytes
-- follow it, when both of its texts are shorter than `2 ^ 15` bytes and do not end in a null byte.
pub decode :
    (p : Packet) (r : Reader) (rest : List ℕ)
    → Fits p
    → IsSynced r
    → r.rest ≡ body p ++ rest
    → (r' : Reader) × (create_from r ≡ ok (some p, r'))
unfolding body create_of
decode (create_account account password) r rest fits s q =
    decode_as 0 create_account account password r rest (omega arith) (λ k. refl) fits.0 fits.1 s q
decode (login account password) r rest fits s q =
    decode_as 1 login account password r rest (omega arith) (λ k. refl) fits.0 fits.1 s q

length-serialize : (p : Packet) → Fits p → length (serialize p) < 2 ^ 17
unfolding serialize
length-serialize (create_account account password) fits = omega (
  arith,
  length-append (write_text account) (write_text password),
  length-write_text account,
  length-write_text password,
  fits.0.short,
  fits.1.short,
)
length-serialize (login account password) fits = omega (
  arith,
  length-append (write_text account) (write_text password),
  length-write_text account,
  length-write_text password,
  fits.0.short,
  fits.1.short,
)

length-body : (p : Packet) → length (body p) ≡ 2 + length (serialize p)
unfolding body
length-body p = omega (
  arith,
  length-append (bytes_of 2 (pattern16 (pos (opcode p)))) (serialize p),
  length-bytes_of 2 (pattern16 (pos (opcode p))),
)

pub small : (p : Packet) → Fits p → 4 + length (body p) < 2 ^ 31
small p fits = omega (arith, length-serialize p fits, length-body p)

-- The packets of the login server are such a family.
abbrev pub codec : Codec Packet
codec = record {
  create_from = create_from;
  body = body;
  Fits = Fits;
  small = small;
  decode = decode;
}

-- `Packet::ToBuffer` writes the frame that the loop expects.
pub to_buffer-frame : (p : Packet) → to_buffer p ≡ frame codec p
unfolding to_buffer
to_buffer-frame p =
    let e : 4 + 2 + length (serialize p) ≡ 4 + length (body p) = omega (arith, length-body p) in
    rw e (unfold body in refl)
