-- ===== src/Api/Content.antt =====
-- packages/api/src/content.rs: model-visible content, and its admission.
use mona_agent_core.Prelude.{
  ℕ, suc, ◌+◌, ◌-◌, ◌%◌, Bool, true, false, not, ◌&&◌, ◌||◌, Option, none, some, List, [], ◌∷◌,
  ◌++◌, map, reverse, ltb, leb, ◌==◌, if◌then◌else◌, holds, is_some, is_empty, any, length, drop,
}
use Prim.Native.Nat.{bit_and}
use mona_agent_core.Prelude.Strings.{Str, str, str_discrete, len, bytes, is_whitespace, starts_with}
use mona_agent_core.Api.Error.{ErrorCode, Result, ok, error, refuse, ◌>>◌}
use mona_agent_core.Api.Artifact
use mona_agent_core.Api.Artifact.{ArtifactRef}

pub data ImageSource : Type 0 where
  base64 : Str → ImageSource
  url : Str → ImageSource

pub data ContentBlock : Type 0 where
  text : Str → ContentBlock
  -- media_type, source
  image : Str → ImageSource → ContentBlock
  -- reference, media_type, name
  resource : ArtifactRef → Str → Option Str → ContentBlock

pub data Content : Type 0 where
  text : Str → Content
  blocks : List ContentBlock → Content

block_texts : List ContentBlock → List Str
block_texts [] = []
block_texts (ContentBlock.text t ∷ bs) = t ∷ block_texts bs
block_texts (image m s ∷ bs) = block_texts bs
block_texts (resource r m n ∷ bs) = block_texts bs

-- texts.join("\n")
unfoldable pub join_lines : List Str → Str
join_lines [] = []
join_lines (t ∷ []) = t
join_lines (t ∷ u ∷ ts) = t ++ 10 ∷ join_lines (u ∷ ts)

-- Content::text
unfoldable pub text_of : Content → Str
unfolding block_texts join_lines
text_of (Content.text t) = t
text_of (blocks bs) = join_lines (block_texts bs)

abbrev pub is_media : ContentBlock → Bool
is_media (ContentBlock.text t) = false
is_media (image m s) = true
is_media (resource r m n) = true

-- Content::has_media
unfoldable pub has_media : Content → Bool
has_media (Content.text t) = false
has_media (blocks bs) = any is_media bs

block_preview : ContentBlock → Str
block_preview (ContentBlock.text t) = t
block_preview (image m s) = str "[image: " ++ m ++ str "]"
block_preview (resource r m n) = str "[resource: " ++ m ++ str "]"

-- Content::preview
unfoldable pub preview : Content → Str
unfolding block_preview join_lines
preview (Content.text t) = t
preview (blocks bs) = join_lines (map block_preview bs)

-- The closure `value` of valid_base64.
unfoldable pub base64_value : ℕ → Option ℕ
base64_value b =
    if leb b'A' b && leb b b'Z'
    then some (b - b'A')
    else if leb b'a' b && leb b b'z'
    then some (b - b'a' + 26)
    else if leb b'0' b && leb b b'9'
    then some (b - b'0' + 52)
    else if b == b'+'
    then some 62
    else if b == b'/'
    then some 63
    else none

-- rev().take_while(|b| b == b'=').count(), over the reversed bytes.
count_padding : List ℕ → ℕ
count_padding [] = 0
count_padding (b ∷ bs) = let rest = count_padding bs in if b == b'=' then suc rest else 0

abbrev last_value : List ℕ → ℕ
last_value [] = 0
last_value (b ∷ bs) = elim (base64_value b) [ none ↦ 0 | some v ↦ v ]

-- `last & 3 == 0` and `last & 15 == 0`: no bit past the last byte is set.
spare_bits_clear : ℕ → ℕ → Bool
spare_bits_clear padding last =
    if padding == 1
    then bit_and last 3 == 0
    else if padding == 2
    then bit_and last 15 == 0
    else true

unfoldable pub valid_base64 : Str → Bool
unfolding bytes base64_value count_padding spare_bits_clear
valid_base64 s =
    let encoded = bytes s in
    let padding = count_padding (reverse encoded) in
    -- The data, last byte first.
    let rdata = drop padding (reverse encoded) in
    if is_empty encoded || not (length encoded % 4 == 0)
    then false
    else if ltb 2 padding
    then false
    else if any (λ b. not (is_some (base64_value b))) rdata
    then false
    else spare_bits_clear padding (last_value rdata)

is_image_type : Str → Bool
is_image_type m =
    holds (str_discrete m (str "image/png"))
    || holds (str_discrete m (str "image/jpeg"))
    || holds (str_discrete m (str "image/webp"))
    || holds (str_discrete m (str "image/gif"))

validate_source : ImageSource → Result (Unit {0})
unfolding valid_base64
validate_source (base64 s) =
    refuse (not (valid_base64 s))
      (error ErrorCode.schema "image data must be nonempty canonical padded base64")
validate_source (url u) =
    refuse
      (ltb 4096 (len u)
        || not (starts_with (str "https://") u)
        || any is_whitespace u
        || any (λ c. c == b'#') u)
      (error ErrorCode.schema "image URL must be bounded HTTPS without fragments")

long_name : Option Str → Bool
long_name none = false
long_name (some n) = ltb 256 (len n)

-- The body of the loop of Content::validate.
unfoldable pub validate_block : ContentBlock → Result (Unit {0})
unfolding validate_source is_image_type long_name
validate_block (ContentBlock.text t) = ok tt
validate_block (image m s) = do
  refuse (not (is_image_type m)) (error ErrorCode.unsupported "unsupported image media type")
  validate_source s
validate_block (resource r m n) = do
  Artifact.validate r
  refuse (is_empty r.uri || ltb 4096 (len r.uri) || is_empty m || ltb 128 (len m) || long_name n)
      (error ErrorCode.schema "invalid resource descriptor")

validate_blocks : List ContentBlock → Result (Unit {0})
unfolding validate_block
validate_blocks [] = ok tt
validate_blocks (b ∷ bs) = do validate_block b; validate_blocks bs

-- Content::validate
unfoldable pub validate : Content → Result (Unit {0})
unfolding validate_blocks
validate (Content.text t) = ok tt
validate (blocks bs) = do
  refuse (is_empty bs || ltb 128 (length bs))
      (error ErrorCode.schema "content must contain 1..128 blocks")
  validate_blocks bs
