-- ===== src/Icons/Png.antt =====
-- The PNG format of the images in src/_icons.h: a signature and a sequence of chunks, each with its
-- length before it.
use upnp.Prelude.{ℕ, ◌/◌, ◌%◌, ◌≡◌, ltb, Bool, true, ◌&&◌, List, [], ◌∷◌, ◌++◌, length, nat_eq}

-- A number of four bytes, the highest first.
abbrev pub big_endian : ℕ → List ℕ
big_endian n = n / 16777216 % 256 ∷ n / 65536 % 256 ∷ n / 256 % 256 ∷ n % 256 ∷ []

-- A chunk: the four letters of its kind, what is in it, and a check sum of four bytes.
pub record Chunk : Type 0 where
  pub kind : List ℕ
  pub content : List ℕ
  pub check : List ℕ

abbrev pub chunk_bytes : Chunk → List ℕ
chunk_bytes c = big_endian (length c.content) ++ (c.kind ++ (c.content ++ c.check))

abbrev pub chunks_bytes : List Chunk → List ℕ
chunks_bytes [] = []
chunks_bytes (c ∷ cs) = chunk_bytes c ++ chunks_bytes cs

abbrev pub signature : List ℕ
signature = 0x89 ∷ 0x50 ∷ 0x4e ∷ 0x47 ∷ 0x0d ∷ 0x0a ∷ 0x1a ∷ 0x0a ∷ []

-- The letters IHDR and IEND.
abbrev pub ihdr : List ℕ
ihdr = 0x49 ∷ 0x48 ∷ 0x44 ∷ 0x52 ∷ []

abbrev pub iend : List ℕ
iend = 0x49 ∷ 0x45 ∷ 0x4e ∷ 0x44 ∷ []

-- Eight bits for each of red, green, blue and alpha, with no interlacing.
abbrev pub true_colour_alpha : List ℕ
true_colour_alpha = 8 ∷ 6 ∷ 0 ∷ 0 ∷ 0 ∷ []

abbrev pub are_bytes : List ℕ → Bool
are_bytes [] = true
are_bytes (b ∷ bs) = ltb b 256 && are_bytes bs

abbrev is_framed : Chunk → Bool
is_framed c = nat_eq (length c.kind) 4 && nat_eq (length c.check) 4

abbrev pub are_framed : List Chunk → Bool
are_framed [] = true
are_framed (c ∷ cs) = is_framed c && are_framed cs

-- The chunks of an image: a header that gives its size, some others, and an end without content.
abbrev pub chunks_of : (width height : ℕ) (header_check : List ℕ) → List Chunk → List ℕ → List Chunk
chunks_of width height header_check between end_check =
    let header : Chunk = record {
      kind = ihdr;
      content = big_endian width ++ (big_endian height ++ true_colour_alpha);
      check = header_check;
    } in
    header ∷ (between ++ record { kind = iend; content = []; check = end_check } ∷ [])

-- The bytes are those of an image of `width` by `height` pixels, with nothing after its end.
pub record IsPng (width height : ℕ) (bytes : List ℕ) : Type 0 where
  pub header_check : List ℕ
  pub between : List Chunk
  pub end_check : List ℕ
  pub fit : are_bytes bytes ≡ true
  pub framed : are_framed (chunks_of width height header_check between end_check) ≡ true
  pub written :
      bytes ≡ signature ++ chunks_bytes (chunks_of width height header_check between end_check)
