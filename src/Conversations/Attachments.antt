-- ===== src/Conversations/Attachments.antt =====
-- Fetching and saving attachments (conversations.ts: loadPendingMedia, downloadMedia, saveMedia,
-- loadMedia). What follows an `await` is a function of its own; a `data:` URI comes with it.
use Prim.Native.Char.{code}
use hwfa.Common.{
  Bool, true, false, not, ◌&&◌, Option, none, some, List, [], ◌∷◌, String, is_some, or_default,
  or_else, nat_eq, if◌then◌else◌,
}
use hwfa.Wire.{MediaReference}
use hwfa.Conversations.{
  ChatMessage, Store, MediaState, loading, ready, error, download, save_to_downloads, truthy,
  is_image_mime, effect, messages_of, find_message,
}
use hwfa.Conversations.Edit.{patch}

-- `loadMedia` up to the download.
unfoldable pub load_media : Store → String → String → MediaReference → Store
unfolding patch
load_media s peer id ref =
    effect (patch s peer id (λ m. record m { media_state = some loading })) (download peer id ref)

unfoldable pub media_loaded : Store → String → String → String → Store
unfolding patch
media_loaded s peer id uri =
    patch s peer id (λ m. record m { media_uri = some uri; media_state = some ready })

unfoldable pub media_failed : Store → String → String → Store
unfolding patch
media_failed s peer id = patch s peer id (λ m. record m { media_state = some error })

abbrev is_loading : Option MediaState → Bool
is_loading (some loading) = true
is_loading _ = false

-- Nothing is there yet and nothing is on its way.
unfoldable pub is_unloaded : ChatMessage → Bool
is_unloaded m = not (is_some (truthy m.media_uri)) && not (is_loading m.media_state)

unfoldable pub load_if : (MediaReference → Bool) → Store → String → ChatMessage → Store
unfolding is_unloaded
load_if wanted s peer m = elim m.media [
  | none ↦ s
  | some ref ↦ if wanted ref && is_unloaded m then load_media s peer m.id ref else s
]

unfoldable pub load_all : Store → String → List ChatMessage → Store
unfolding is_image_mime
load_all s peer [] = s
load_all s peer (m ∷ ms) = load_all (load_if (λ ref. is_image_mime ref.mime) s peer m) peer ms

-- Only images are fetched without a tap.
unfoldable pub load_pending_media : Store → String → Store
load_pending_media s peer = load_all s peer (messages_of s peer)

unfoldable pub download_media : Store → String → String → Store
download_media s peer id = elim (find_message s peer id) [
  | none ↦ s
  | some m ↦ load_if (λ _. true) s peer m
]

-- What follows the first comma; nothing if there is none.
unfoldable pub base64_from_data_uri : String → String
base64_from_data_uri String.[] = String.[]
base64_from_data_uri (String.◌∷◌ c uri) =
    if nat_eq (code c) b',' then uri else base64_from_data_uri uri

-- Write what has been fetched; without data the method throws.
unfoldable pub write_media : Store → String → String → Store
unfolding base64_from_data_uri
write_media s peer id = elim (find_message s peer id) [
  | none ↦ s
  | some m ↦ elim m.media [
    | none ↦ s
    | some ref ↦ elim (truthy (some (base64_from_data_uri (or_default m.media_uri "")))) [
      | none ↦ s
      | some data64 ↦
          effect s
            (save_to_downloads data64 ref.mime (or_default (or_else ref.name m.media_name) "file"))
    ]
  ]
]

-- `saveMedia`: fetch first if need be; `write_media` follows when the bytes are there.
unfoldable pub save_media : Store → String → String → Store
save_media s peer id = elim (find_message s peer id) [
  | none ↦ s
  | some m ↦ elim m.media [
    | none ↦ s
    | some ref ↦
        if is_some (truthy m.media_uri) then write_media s peer id else load_media s peer id ref
  ]
]

unfoldable pub media_saved : Store → String → String → Store
unfolding patch
media_saved s peer id = patch s peer id (λ m. record m { media_saved = true })
