-- ===== src/Server/Reply/Echo.antt =====
-- The answer on the bytes of the network: a well-formed ping becomes a pong, all else is echoed.
use space_captain.Common.{
  ℕ, suc, ◌+◌, ◌-◌, ◌*◌, ◌≤◌, ◌≡◌, refl, ◌∙◌, Bool, ◌&&◌, List, ◌∷◌, ◌++◌, arith, leb, ◌==◌,
  if◌then◌else◌, length, get_or, drop, length-drop, length-append,
}
use space_captain.Message.{pong, code}
use space_captain.Message.Wire.{
  Header, sizeof_header, header_bytes, load, store, ntohs, htons, read_header,
}
use space_captain.Message.Wire.Layout.{AllBytes, get_or-lt, header_bytes_over}
use space_captain.Server.Reply.{response, copy_header, reply}

-- The number in two bytes of a buffer, most significant first.
abbrev pub be16 : List ℕ → ℕ → ℕ
be16 b i = 256 * get_or b i 0 + get_or b (suc i) 0

-- Version 1, type 6, and a payload length that fits the server's buffer.
abbrev pub is_ping : List ℕ → Bool
is_ping b = leb 18 (length b) && (be16 b 0 == 1) && (be16 b 2 == 6) && leb (be16 b 16) (4096 - 18)

-- The same bytes with the type 0x1005 in the place of a ping's.
abbrev pub as_pong : List ℕ → List ℕ
as_pong b = 0x00 ∷ 0x01 ∷ 0x10 ∷ 0x05 ∷ drop 4 b

net_order : (b : List ℕ) (i : ℕ) → AllBytes b → ntohs (load 2 b i) ≡ be16 b i
unfolding ntohs load
net_order b i h = omega (arith, get_or-lt b i h, get_or-lt b (suc i) h)

pong_bytes :
    (version type : ℕ) (rest : List ℕ)
    → version ≡ htons 0x0001
    → type ≡ htons (code pong)
    → store 2 version ++ (store 2 type ++ rest) ≡ 0x00 ∷ 0x01 ∷ 0x10 ∷ 0x05 ∷ rest
unfolding htons store code
pong_bytes version type rest p q = rw (p, q)

copied_header :
    (b : List ℕ) → AllBytes b → 18 ≤ length b → copy_header (response (read_header b)) b ≡ as_pong b
copied_header b h fits =
    header_bytes_over b h fits (htons 0x0001) (htons (code pong))
    ∙ pong_bytes (htons 0x0001) (htons (code pong)) (drop 4 b) refl refl

-- For a buffer of bytes, the server writes back the bytes that it read, except that in a ping,
-- that is at least 18 bytes with version 1, type 6 and a payload length of at most 4078 in network
-- order, the bytes of the type become those of a pong.
pub reply-eq-pong_or_echo :
    (b : List ℕ) → AllBytes b → reply b ≡ (if is_ping b then as_pong b else b)
unfolding reply code read_header
reply-eq-pong_or_echo b h =
    rw (net_order b 0 h, net_order b 2 h, net_order b 16 h) (ground (arith, copied_header b h))

length-header_bytes : (h : Header) → length (header_bytes h) ≡ 18
unfolding header_bytes
length-header_bytes h = refl

-- The answer has as many bytes as were read, the number that the server hands to sc_dtls_write.
pub length-reply : (b : List ℕ) → length (reply b) ≡ length b
unfolding reply
length-reply b = ground (
  arith,
  length-append (header_bytes (response (read_header b))) (drop sizeof_header b),
  length-header_bytes (response (read_header b)),
  length-drop sizeof_header b,
)
