-- ===== src/Message/Wire/Layout.antt =====
-- The bytes of a buffer go through a header unchanged.
use space_captain.Common.{
  ℕ, zero, suc, ◌+◌, ◌*◌, ◌/◌, ◌%◌, ◌≤◌, ◌<◌, ◌≡◌, refl, ap, ap₂, ◌∙◌, List, [], ◌∷◌, ◌++◌, arith,
  length, get_or, take, drop, slice_join, take-append-take, take-append-drop, drop-drop,
}
use space_captain.Message.Wire.{sizeof_header, load, store, read_header, header_bytes}

-- Every element of a buffer is a byte.
abbrev pub AllBytes : List ℕ → Type 0
AllBytes [] = Unit
AllBytes (x ∷ xs) = (x < 256) × AllBytes xs

pub get_or-lt : (b : List ℕ) (i : ℕ) → AllBytes b → get_or b i 0 < 256
get_or-lt [] i h = omega arith
get_or-lt (x ∷ xs) zero h = h.0
get_or-lt (x ∷ xs) (suc i) h = get_or-lt xs i h.1

drop_step : (b : List ℕ) (i : ℕ) → i < length b → drop i b ≡ get_or b i 0 ∷ drop (suc i) b
drop_step [] i h = absurd (omega arith)
drop_step (x ∷ xs) zero h = refl
drop_step (x ∷ xs) (suc i) h = drop_step xs i (omega arith)

digit : (x rest : ℕ) → x < 256 → ((x + 256 * rest) % 256 ≡ x) × ((x + 256 * rest) / 256 ≡ rest)
digit x rest h = omega arith

pub store-load :
    (n : ℕ) (b : List ℕ) (offset : ℕ)
    → AllBytes b
    → offset + n ≤ length b
    → store n (load n b offset) ≡ take n (drop offset b)
unfolding load store
store-load zero b offset h fits = refl
store-load (suc n) b offset h fits =
    rw (drop_step b offset (omega arith))
      (ap₂ ◌∷◌ d.0 (ap (store n) d.1 ∙ store-load n b (suc offset) h (omega arith)))
  where
    d :
        ((get_or b offset 0 + 256 * load n b (suc offset)) % 256 ≡ get_or b offset 0)
        × ((get_or b offset 0 + 256 * load n b (suc offset)) / 256 ≡ load n b (suc offset))
    d = digit (get_or b offset 0) (load n b (suc offset)) (get_or-lt b offset h)

module _ (b : List ℕ) (bytes : AllBytes b) (fits : sizeof_header ≤ length b) where
  -- The three fields behind the version and the type.
  later_fields :
      store 4 (load 4 b 4) ++ (store 8 (load 8 b 8) ++ store 2 (load 2 b 16)) ≡ take 14 (drop 4 b)
  later_fields =
      ap₂ ◌++◌ (store-load 4 b 4 bytes (omega arith))
        (ap₂ ◌++◌ (store-load 8 b 8 bytes (omega arith)) (store-load 2 b 16 bytes (omega arith)))
      ∙ rw (slice_join 8 2 8 b, slice_join 4 10 4 b)

  -- Of a buffer of bytes with room for a header, copying back the header that is read gives the
  -- first 18 bytes.
  header_bytes-read_header : header_bytes (read_header b) ≡ take sizeof_header b
  unfolding read_header header_bytes
  header_bytes-read_header =
      ap₂ ◌++◌ (store-load 2 b 0 bytes (omega arith))
        (ap₂ ◌++◌ (store-load 2 b 2 bytes (omega arith)) later_fields)
      ∙ rw (slice_join 2 14 2 b, take-append-take 2 16 b)

  -- A header with another version and type is written over the first four bytes alone.
  pub header_bytes_over :
      (version type : ℕ)
      → header_bytes (record (read_header b) { protocol_version = version; message_type = type })
          ++ drop sizeof_header b
        ≡ store 2 version ++ (store 2 type ++ drop 4 b)
  unfolding read_header header_bytes store
  header_bytes_over version type =
      ap (λ xs. store 2 version ++ (store 2 type ++ xs))
        (ap (λ xs. xs ++ drop 18 b) later_fields ∙ rest)
    where
      rest : take 14 (drop 4 b) ++ drop 18 b ≡ drop 4 b
      rest = rw (← drop-drop 14 4 b) (take-append-drop 14 (drop 4 b))
