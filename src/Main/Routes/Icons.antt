-- ===== src/Main/Routes/Icons.antt =====
-- Which icon is served, and what its bytes are.
use upnp.Prelude.{
  ℕ, zero, suc, ◌+◌, ◌*◌, String, ◌≡◌, ◌≢◌, ◌↔◌, ◌⊎◌, inl, inr, refl, sym, ap, true, Bool-cases,
  ◌==◌, leb, eq_iff, List, [], ◌∷◌, ◌++◌, length, take, ok, arith,
}
use upnp.Config.{Config}
use upnp.Datastore.Redis.{Redis}
use upnp.Xml.{XmlLib}
use upnp.Server.Http.{Request, Names, Call, write, parameter, call}
use upnp.Icons.Png.{Chunk, IsPng, chunks_of, chunks_bytes, are_bytes, are_framed, signature}
use upnp.Main.{IconFile, squawk16, squawk32, squawk48, squawk64, squawk120, icon_file, png, png_len}
use upnp.Main.Routes.{respond, icon, write_bytes}

-- The digits in the name of an icon.
abbrev pub size_of : IconFile → String
size_of squawk16 = "16"
size_of squawk32 = "32"
size_of squawk48 = "48"
size_of squawk64 = "64"
size_of squawk120 = "120"

-- An icon other than the one of 16 pixels is served exactly for the digits in its name.
icon_file-eq_iff :
    (file : IconFile) (size : String)
    → file ≢ squawk16
    → (icon_file size ≡ file) ↔ (size ≡ size_of file)
unfolding icon_file
icon_file-eq_iff squawk16 size ne = absurd (ne refl)
icon_file-eq_iff squawk32 size ne = (λ h. ground (arith, eq_iff size "32"), λ h. rw h refl)
icon_file-eq_iff squawk48 size ne = (λ h. ground (arith, eq_iff size "48"), λ h. rw h refl)
icon_file-eq_iff squawk64 size ne = (λ h. ground (arith, eq_iff size "64"), λ h. rw h refl)
icon_file-eq_iff squawk120 size ne = (λ h. ground (arith, eq_iff size "120"), λ h. rw h refl)

-- The pixels on each side of an icon, as its name gives them.
abbrev pub pixels : IconFile → ℕ
pixels squawk16 = 16
pixels squawk32 = 32
pixels squawk48 = 48
pixels squawk64 = 64
pixels squawk120 = 120

-- The chunks of an image, at most as many as the fuel.
abbrev drop : ℕ → List ℕ → List ℕ
drop zero xs = xs
drop (suc n) [] = []
drop (suc n) (x ∷ xs) = drop n xs

abbrev read_number : List ℕ → ℕ
read_number (a ∷ b ∷ c ∷ d ∷ rest) = 16777216 * a + 65536 * b + 256 * c + d
read_number _ = 0

abbrev read_chunks : (fuel : ℕ) → List ℕ → List Chunk
read_chunks zero bytes = []
read_chunks (suc fuel) bytes =
    let n = read_number bytes in
    let content = drop 8 bytes in
    let check = drop n content in
    record { kind = take 4 (drop 4 bytes); content = take n content; check = take 4 check }
    ∷ read_chunks fuel (drop 4 check)

-- What stands between the header, of 33 bytes with the signature, and the end.
abbrev between_of : (n : ℕ) → List ℕ → List Chunk
between_of n bytes = read_chunks n (drop 33 bytes)

-- The bytes of the check sum of every end.
abbrev end_check : List ℕ
end_check = 0xae ∷ 0x42 ∷ 0x60 ∷ 0x82 ∷ []

abbrev read : ℕ → ℕ → List ℕ → List Chunk
read side n bytes = chunks_of side side (take 4 (drop 29 bytes)) (between_of n bytes) end_check

read-IsPng :
    (side n : ℕ) (bytes : List ℕ)
    → are_bytes bytes ≡ true
    → are_framed (read side n bytes) ≡ true
    → bytes ≡ signature ++ chunks_bytes (read side n bytes)
    → IsPng side side bytes
read-IsPng side n bytes fit framed written = record {
  header_check = take 4 (drop 29 bytes);
  between = between_of n bytes;
  end_check = end_check;
  fit = fit;
  framed = framed;
  written = written;
}

png-IsPng : (file : IconFile) → IsPng (pixels file) (pixels file) (png file)
png-IsPng squawk16 = read-IsPng 16 1 (png squawk16) refl refl refl
png-IsPng squawk32 = read-IsPng 32 1 (png squawk32) refl refl refl
png-IsPng squawk48 = read-IsPng 48 1 (png squawk48) refl refl refl
png-IsPng squawk64 = read-IsPng 64 1 (png squawk64) refl refl refl
png-IsPng squawk120 = read-IsPng 120 5 (png squawk120) refl refl refl

png_len-length : (file : IconFile) → png_len file ≡ length (png file)
png_len-length squawk16 = refl
png_len-length squawk32 = refl
png_len-length squawk48 = refl
png_len-length squawk64 = refl
png_len-length squawk120 = refl

take_all : (bytes : List ℕ) → take (length bytes) bytes ≡ bytes
take_all [] = refl
take_all (b ∷ bytes) = ap (λ rest. b ∷ rest) (take_all bytes)

eq_cases : (s t : String) → (s ≡ t) ⊎ (s ≢ t)
eq_cases s t = elim (Bool-cases (s == t)) [
  | inl e ↦ inl ((eq_iff s t).0 e)
  | inr e ↦ inr (λ same. ground (arith, eq_iff s t))
]

not_named :
    (other : IconFile) (key : String) → "16" ≢ key → icon_file key ≡ squawk16 → size_of other ≢ key
not_named squawk16 key ne h same = ne same
not_named squawk32 key ne h same = cc ((icon_file-eq_iff squawk32 key (λ e. cc)).1 (sym same))
not_named squawk48 key ne h same = cc ((icon_file-eq_iff squawk48 key (λ e. cc)).1 (sym same))
not_named squawk64 key ne h same = cc ((icon_file-eq_iff squawk64 key (λ e. cc)).1 (sym same))
not_named squawk120 key ne h same = cc ((icon_file-eq_iff squawk120 key (λ e. cc)).1 (sym same))

served_name :
    (file : IconFile) (key : String)
    → icon_file key ≡ file
    → (size_of file ≡ key) ⊎ ((file ≡ squawk16) × ((other : IconFile) → size_of other ≢ key))
served_name squawk16 key h = elim (eq_cases "16" key) [
  | inl e ↦ inl e
  | inr ne ↦ inr (refl, λ other. not_named other key ne h)
]
served_name squawk32 key h = inl (sym ((icon_file-eq_iff squawk32 key (λ ne. cc)).0 h))
served_name squawk48 key h = inl (sym ((icon_file-eq_iff squawk48 key (λ ne. cc)).0 h))
served_name squawk64 key h = inl (sym ((icon_file-eq_iff squawk64 key (λ ne. cc)).0 h))
served_name squawk120 key h = inl (sym ((icon_file-eq_iff squawk120 key (λ ne. cc)).0 h))

module _ (r : Redis) (db : r.Db) (xml : XmlLib) (names : Names) (text_of : List ℕ → String) where
  write_bytes_lem :
      (bytes : List ℕ) (n : ℕ) (calls : List Call)
      → n ≡ length bytes
      → write_bytes text_of bytes n calls ≡ (ok tt, calls ++ write (text_of bytes) ∷ [])
  unfolding write_bytes call
  write_bytes_lem bytes n calls h =
      let whole : leb (length bytes) (length bytes) ≡ true = ground arith in
      rw (h, take_all bytes, whole) refl

  -- Whatever the digits in the path of an icon, the route writes all bytes of the array of one
  -- icon, and no more than it has: the icon of that name, or, where no icon has that name, the one
  -- of 16 pixels. The bytes have the structure of a PNG image: the signature, a header with as
  -- many pixels on each side as its name says, of eight bits for each colour and alpha, and chunks
  -- that fill the array up to its end; their check sums and the image data are not read.
  pub icon-served :
      (config : Config) (request : Request) (key : String) (calls : List Call)
      → (respond r db xml names text_of config request key icon calls ≡ (
        ok tt,
        (calls ++ write (text_of (png (icon_file key))) ∷ [])
            ++ parameter names.content_type names.mime_png ∷ [],
      ))
        × IsPng (pixels (icon_file key)) (pixels (icon_file key)) (png (icon_file key))
        × ((size_of (icon_file key) ≡ key)
            ⊎ ((icon_file key ≡ squawk16) × ((other : IconFile) → size_of other ≢ key)))
  unfolding respond call
  icon-served config request key calls = (
    rw
        (write_bytes_lem (png (icon_file key)) (png_len (icon_file key)) calls
          (png_len-length (icon_file key)))
        refl,
    png-IsPng (icon_file key),
    served_name (icon_file key) key refl,
  )
